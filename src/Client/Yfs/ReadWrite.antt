-- ===== src/Client/Yfs/ReadWrite.antt =====
-- What a read of src/client/yfs_client.cc gives after a write.
use ctgfs.Prelude.{
  ℕ, ◌+◌, ◌-◌, ◌≢◌, ◌^◌, ◌<◌, ◌≡◌, ap, sym, ◌∙◌, Option, some, arith, length, ltb, ◌==◌,
  if◌then◌else◌,
}
use mathlib.Core.Option.{some-injective}
use ctgfs.Prelude.Bytes.{Bytes}
use ctgfs.Client.Yfs.Io.{
  ioerr, ExtentClient, Laws, value, Io, M, pure, acquire, release, need, undefined_if_none,
}
use ctgfs.Client.Yfs.Ops.{get, put, read, write, read_content, write_content}
use ctgfs.Client.Yfs.Values.{
  then-value, need-value, undefined-value, lifted-value, value_of, acquire-store, release-store,
}
use ctgfs.Client.Yfs.Content.{byte_at, written_at, write_content-bytes, read_content-bytes}

module _ (E : ExtentClient) (L : Laws E) where
  -- The content that an operation gets, and the store behind it.
  pub got :
      (inum : ℕ) (cleanup : M E.State (Unit {0})) (s0 : E.State) (io io1 : Io E.State) (b : Bytes)
      → L.IsValid s0
      → io.store ≡ s0
      → need (get E inum) cleanup ioerr io ≡ (value b, io1)
      → (L.content s0 inum ≡ some b)
        × L.IsValid io1.store
        × ((other : ℕ) → L.content io1.store other ≡ L.content s0 other)
  got inum cleanup s0 io io1 b v same e =
      let (answer, after) =
        lifted-value (λ s. E.get s inum) io io1 (some b)
          (need-value (get E inum) cleanup ioerr io io1 b e) in
      let after0 : (E.get s0 inum).1 ≡ io1.store = ap (λ s. (E.get s inum).1) (sym same) ∙ after in
      (
        L.get-answer s0 inum b v (ap (λ s. (E.get s inum).0) (sym same) ∙ answer),
        rw (sym after0) (L.get-IsValid s0 inum v),
        λ other. rw (sym after0) (L.get-content s0 inum other v),
      )

  -- What a put that is answered OK does.
  pub put_value :
      (inum : ℕ) (b : Bytes) (cleanup : M E.State (Unit {0})) (io io1 : Io E.State)
      → length b < 2 ^ 32
      → L.IsValid io.store
      → need (put E inum b) cleanup ioerr io ≡ (value tt, io1)
      → L.IsValid io1.store
        × ((other : ℕ)
            → L.content io1.store other
              ≡ (if other == inum then some b else L.content io.store other))
  put_value inum b cleanup io io1 h v e =
      let (answer, after) =
        lifted-value (λ s. E.put s inum b) io io1 (some tt)
          (need-value (put E inum b) cleanup ioerr io io1 tt e) in
      (
        rw (sym after) (L.put-IsValid io.store inum b h v),
        λ other. rw (sym after) (L.put-content io.store inum other b h v answer),
      )

  -- A write that ends with a value has put the new content in place of the old one.
  write-content :
      (inum size off : ℕ) (buf : Bytes) (io io1 : Io E.State)
      → L.IsValid io.store
      → ((origin c : Bytes)
          → L.content io.store inum ≡ some origin
          → write_content origin size off buf ≡ some c
          → length c < 2 ^ 32)
      → write E inum size off buf io ≡ (value tt, io1)
      → (origin c : Bytes) × (L.content io.store inum ≡ some origin)
        × (write_content origin size off buf ≡ some c)
        × L.IsValid io1.store
        × ((other : ℕ)
            → L.content io1.store other
              ≡ (if other == inum then some c else L.content io.store other))
  unfolding write
  write-content inum size off buf io io1 v fits e =
      let (_, i1, a, e1) = then-value (acquire inum io) _ tt io1 e in
      let (origin, i2, n, e2) =
        then-value (need (get E inum) (release inum) ioerr i1) _ tt io1 e1 in
      let (c, i3, u, e3) =
        then-value (undefined_if_none (write_content origin size off buf) i2) _ tt io1 e2 in
      let (_, i4, p, e4) = then-value (need (put E inum c) (release inum) ioerr i3) _ tt io1 e3 in
      let (old, v2, kept) =
        got inum (release inum) io.store i1 i2 origin v (acquire-store inum io i1 a) n in
      let (made, same) = undefined-value (write_content origin size off buf) i2 i3 c u in
      let (v4, stored) =
        put_value inum c (release inum) i3 i4 (fits origin c old made) (rw (sym same) v2) p in
      let back : io1.store ≡ i4.store = release-store inum i4 io1 e4 in
      (
        origin,
        c,
        old,
        made,
        rw back v4,
        λ other.
            let kept3 = ap (λ i. L.content i.store other) (sym same) ∙ kept other in
            ap (λ t. L.content t other) back
            ∙ (stored other ∙ ap (λ o. if other == inum then some c else o) kept3),
      )

  read-content :
      (inum size off : ℕ) (io io1 : Io E.State) (b : Bytes)
      → L.IsValid io.store
      → read E inum size off io ≡ (value b, io1)
      → (buf : Bytes) × (L.content io.store inum ≡ some buf) × (read_content buf size off ≡ some b)
  unfolding read
  read-content inum size off io io1 b v e =
      let (_, i1, a, e1) = then-value (acquire inum io) _ b io1 e in
      let (buf, i2, n, e2) = then-value (need (get E inum) (release inum) ioerr i1) _ b io1 e1 in
      let (c, i3, u, e3) =
        then-value (undefined_if_none (read_content buf size off) i2) _ b io1 e2 in
      let (_, i4, p, e4) = then-value (release inum i3) (λ _. pure c) b io1 e3 in
      let (old, _, _) =
        got inum (release inum) io.store i1 i2 buf v (acquire-store inum io i1 a) n in
      let (made, _) = undefined-value (read_content buf size off) i2 i3 c u in
      (buf, old, made ∙ ap (λ r. value_of r.0) e4)

pub same_some : {A : Type 0} {o : Option A} {a b : A} → o ≡ some a → o ≡ some b → a ≡ b
same_some p q = some-injective _ _ (sym p ∙ q)

pub if_self : {A : Type 0} (x : ℕ) (a b : A) → (if x == x then a else b) ≡ a
if_self x a b = ground arith

pub if_other : {A : Type 0} (x y : ℕ) (a b : A) → x ≢ y → (if x == y then a else b) ≡ b
if_other x y a b h = ground arith

-- Over an extent client that keeps its laws, in a valid state of it: where the file, the end of what is
-- written and the offset `off2` are below 2^32, a read from `off2` on that follows a write, both with a
-- value, gives the bytes that the write has put at `off` and the old bytes elsewhere, 0 in a hole, and as
-- many as the new file has there, at most `size2`; and no other file has changed.
pub read_after_write :
    (E : ExtentClient) (L : Laws E) (inum off off2 size2 : ℕ) (old buf : Bytes)
    → (io io1 io2 : Io E.State) (b : Bytes) → L.IsValid io.store
    → L.content io.store inum ≡ some old
    → length old < 2 ^ 32
    → off + length buf < 2 ^ 32
    → off2 < 2 ^ 32
    → write E inum (length buf) off buf io ≡ (value tt, io1)
    → read E inum size2 off2 io1 ≡ (value b, io2)
    → ((i : ℕ) → i < length b → byte_at b i ≡ written_at old off buf (off2 + i))
      × ((n : ℕ)
          → n ≡ (if ltb (length old) (off + length buf) then off + length buf else length old)
          → length b ≡ (if ltb (n - off2) size2 then n - off2 else size2))
      × ((other : ℕ) → other ≢ inum → L.content io1.store other ≡ L.content io.store other)
read_after_write E L inum off off2 size2 old buf io io1 io2 b v there small fits fits2 w r =
    let (c0, made0, long, bytes) = write_content-bytes old buf off small fits in
    let is_c0 : (origin c : Bytes)
        → L.content io.store inum ≡ some origin
        → write_content origin (length buf) off buf ≡ some c
        → c ≡ c0 =
      λ origin c p q.
        same_some (sym (ap (λ o. write_content o (length buf) off buf) (same_some p there)) ∙ q)
          made0 in
    let c0_small : length c0 < 2 ^ 32 = ground arith in
    let (origin, c, there1, made, v1, stored) =
      write-content E L inum (length buf) off buf io io1 v (λ o c p q. rw (is_c0 o c p q) c0_small)
        w in
    let (c1, there2, read2) = read-content E L inum size2 off2 io1 io2 b v1 r in
    let now : c1 ≡ c0 = same_some there2 (
      stored inum
      ∙ (if_self inum (some c) (L.content io.store inum) ∙ ap some (is_c0 origin c there1 made))) in
    let (part, defined, size, at) = read_content-bytes c0 size2 off2 c0_small fits2 in
    let is_part : b ≡ part =
      same_some (sym (ap (λ o. read_content o size2 off2) now) ∙ read2) defined in
    (
      λ i lt. ap (λ p. byte_at p i) is_part ∙ (at i (rw (sym is_part) lt) ∙ bytes (off2 + i)),
      λ n e.
          ap length is_part
          ∙ (size ∙ ap (λ m. if ltb (m - off2) size2 then m - off2 else size2) (long ∙ sym e)),
      λ other ne. stored other ∙ if_other other inum (some c) (L.content io.store other) ne,
    )

-- ===== src/Client/Yfs/Directory.antt =====
-- The directory that `create` of src/client/yfs_client.cc writes.
pub mod Lookup
pub mod Created
use ctgfs.Prelude.{
  ℕ, ◌+◌, ◌^◌, ◌<◌, ◌≡◌, ◌≢◌, refl, ap, sym, ◌∙◌, Bool, true, false, Option, none, some, List, [],
  ◌∷◌, ◌++◌, arith, length, ltb, ◌==◌, if◌then◌else◌, All,
}
use ctgfs.Prelude.Bytes.{Bytes}
use ctgfs.Client.Yfs.Dir.{Dirent, parse_dir, encode_dir, IsEncodable, parse_encoded}
use ctgfs.Client.Yfs.Io.{
  ioerr, exist, direnterr, ExtentClient, Laws, Outcome, value, Io, M, ◌>>=◌, ◌>>◌, pure, fail,
  acquire, release, release_both, need,
}
use ctgfs.Client.Yfs.Ops.{
  get, put, getfile, fileinfo_of, FileInfo, found_first, is_named, get_files, refuse_found,
  put_entry, create,
}
use ctgfs.Client.Yfs.Values.{
  then-value, need-value, lifted-value, value_or, acquire-store, release-store,
}
use ctgfs.Client.Yfs.ReadWrite.{got, put_value, same_some, if_self, if_other}

module _ (E : ExtentClient) (L : Laws E) where
  getfile_kept :
      (inum : ℕ) (cleanup : M E.State (Unit {0})) (io io1 : Io E.State) (info : FileInfo)
      → L.IsValid io.store
      → need (getfile E inum) cleanup ioerr io ≡ (value info, io1)
      → L.IsValid io1.store × ((other : ℕ) → L.content io1.store other ≡ L.content io.store other)
  getfile_kept inum cleanup io io1 info v e =
      let made = need-value (getfile E inum) cleanup ioerr io io1 info e in
      let after : (E.getattr io.store inum).1 ≡ io1.store = ap (λ r. r.1.store) made in
      (
        rw (sym after) (L.getattr-IsValid io.store inum v),
        λ other. rw (sym after) (L.getattr-content io.store inum other v),
      )

  refused-value :
      (parent : ℕ) (o : Option Dirent) (io io1 : Io E.State)
      → refuse_found E parent o io ≡ (value tt, io1)
      → (o ≡ none) × (io1.store ≡ io.store)
  refused-value parent none io io1 e = (refl, sym (ap (λ r. r.1.store) e))
  refused-value parent (some f) io io1 e =
      let (t, io2, _, bad) = then-value (release parent io) (λ _. fail exist) tt io1 e in cc

  -- A directory that is read whole.
  pub get_files-value :
      (parent : ℕ) (s0 : E.State) (io io1 : Io E.State) (vec files : List Dirent)
      → L.IsValid s0
      → io.store ≡ s0
      → L.content s0 parent ≡ some (encode_dir vec)
      → All IsEncodable vec
      → get_files E parent io ≡ (value files, io1)
      → (files ≡ vec)
        × L.IsValid io1.store
        × ((other : ℕ) → L.content io1.store other ≡ L.content s0 other)
  get_files-value parent s0 io io1 vec files v same there ok e =
      let (d, i1, n, e1) =
        then-value (need (get E parent) (release parent) ioerr io) _ files io1 e in
      let (old, v1, kept) = got E L parent (release parent) s0 io i1 d v same n in
      let made = need-value (pure (parse_dir d)) (release parent) direnterr i1 io1 files e1 in
      let is_d : d ≡ encode_dir vec = same_some old there in
      let parsed : parse_dir d ≡ some files = ap (λ r. value_or (parse_dir d) r.0) made in
      let after : i1 ≡ io1 = ap (λ r. r.1) made in
      (same_some parsed (rw is_d (parse_encoded vec ok)), rw (sym after) v1, rw (sym after) kept)

  -- The parts of `create` behind its first tests.
  abbrev create_ends : ℕ → ℕ → M E.State (ℕ × FileInfo)
  create_ends parent inum = do
    info ← need (getfile E inum) (release_both inum parent) ioerr
    release inum
    release parent
    pure (inum, info)

  abbrev create_puts : ℕ → List Dirent → Bytes → ℕ → M E.State (ℕ × FileInfo)
  create_puts parent files name inum = do
    acquire inum
    need (put E inum []) (release_both parent inum) ioerr
    put_entry E parent files name inum
    create_ends parent inum

  create_ends-content :
      (parent inum : ℕ) (io io1 : Io E.State) (made : ℕ × FileInfo)
      → L.IsValid io.store
      → create_ends parent inum io ≡ (value made, io1)
      → (made.0 ≡ inum)
        × L.IsValid io1.store
        × ((other : ℕ) → L.content io1.store other ≡ L.content io.store other)
  create_ends-content parent inum io io1 made v e =
      let (info, i7, t, e7) =
        then-value (need (getfile E inum) (release_both inum parent) ioerr io) _ made io1 e in
      let (_, i8, r, e8) = then-value (release inum i7) _ made io1 e7 in
      let (_, i9, u, e9) = then-value (release parent i8) (λ _. pure (inum, info)) made io1 e8 in
      let (v7, kept) = getfile_kept inum (release_both inum parent) io i7 info v t in
      let back : io1.store ≡ i7.store =
        sym (ap (λ q. q.1.store) e9)
        ∙ (release-store parent i8 i9 u ∙ release-store inum i7 i8 r) in
      (
        ap (λ q. (value_or made q.0).0) (sym e9),
        rw back v7,
        λ other. ap (λ q. L.content q other) back ∙ kept other,
      )

  create_puts-content :
      (parent : ℕ) (vec : List Dirent) (name : Bytes) (inum : ℕ) (io io1 : Io E.State)
      (made : ℕ × FileInfo)
      → L.IsValid io.store
      → length (encode_dir (vec ++ record { name = name; inum = inum } ∷ [])) < 2 ^ 32
      → create_puts parent vec name inum io ≡ (value made, io1)
      → (made.0 ≡ inum)
        × L.IsValid io1.store
        × ((other : ℕ)
            → L.content io1.store other ≡ (
                if other == parent
                then some (encode_dir (vec ++ record { name = name; inum = inum } ∷ []))
                else if other == inum
                then some []
                else L.content io.store other))
  create_puts-content parent vec name inum io io1 made v fits e =
      let new = encode_dir (vec ++ record { name = name; inum = inum } ∷ []) in
      let (_, i4, b, e4) = then-value (acquire inum io) _ made io1 e in
      let (_, i5, p, e5) =
        then-value (need (put E inum []) (release_both parent inum) ioerr i4) _ made io1 e4 in
      let (_, i6, q, e6) =
        then-value (put_entry E parent vec name inum i5) (λ _. create_ends parent inum) made io1
          e5 in
      let opened = acquire-store inum io i4 b in
      let (v5, first) =
        put_value E L inum [] (release_both parent inum) i4 i5 (ground arith) (rw opened v) p in
      let (v6, second) = put_value E L parent new (release_both inum parent) i5 i6 fits v5 q in
      let (isi, v1, kept) = create_ends-content parent inum i6 io1 made v6 e6 in
      (
        isi,
        v1,
        λ other.
            kept other
            ∙ (second other
                ∙ ap (λ o. if other == parent then some new else o)
                    (first other
                      ∙ ap (λ t. if other == inum then some [] else L.content t other) opened)),
      )

  -- What a `create` with a value has found and left.
  pub create-content :
      (master : ℕ → Bytes → Bool → ℕ → ℕ) (parent : ℕ) (name : Bytes) (size : ℕ) (vec : List Dirent)
      → (io io1 : Io E.State) (made : ℕ × FileInfo) → L.IsValid io.store
      → L.content io.store parent ≡ some (encode_dir vec)
      → All IsEncodable vec
      → length
          (encode_dir (vec ++ record { name = name; inum = master parent name false size } ∷ []))
        < 2 ^ 32
      → create E master parent name size io ≡ (value made, io1)
      → (made.0 ≡ master parent name false size)
        × (found_first (is_named name) vec ≡ none)
        × L.IsValid io1.store
        × ((other : ℕ)
            → L.content io1.store other ≡ (
                if other == parent
                then some (
                    encode_dir
                      (vec ++ record { name = name; inum = master parent name false size } ∷ []))
                else if other == master parent name false size
                then some []
                else L.content io.store other))
  unfolding create
  create-content master parent name size vec io io1 made v there ok fits e =
      let inum = master parent name false size in
      let new = encode_dir (vec ++ record { name = name; inum = inum } ∷ []) in
      let (_, i1, a, e1) = then-value (acquire parent io) _ made io1 e in
      let (files, i2, g, e2) = then-value (get_files E parent i1) _ made io1 e1 in
      let (_, i3, f, e3) =
        then-value (refuse_found E parent (found_first (is_named name) files) i2)
          (λ _. create_puts parent files name inum) made io1 e2 in
      let (isvec, v2, kept) =
        get_files-value parent io.store i1 i2 vec files v (acquire-store parent io i1 a) there ok
          g in
      let (free, same) = refused-value parent (found_first (is_named name) files) i2 i3 f in
      let (isi, v1, after) =
        create_puts-content parent vec name inum i3 io1 made (rw same v2) fits
          (ap (λ l. create_puts parent l name inum i3) (sym isvec) ∙ e3) in
      (
        isi,
        ap (found_first (is_named name)) (sym isvec) ∙ free,
        v1,
        λ other.
            after other
            ∙ ap (λ o. if other == parent then some new else if other == inum then some [] else o)
                (ap (λ t. L.content t other) same ∙ kept other),
      )

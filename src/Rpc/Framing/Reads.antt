-- ===== src/Rpc/Framing/Reads.antt =====
-- What one callback of src/rpc/connection.cc does with a piece of a stream of frames.
use ctgfs.Prelude.{
  ℕ, ◌+◌, ◌-◌, ◌/◌, ◌%◌, ◌^◌, ◌<◌, ◌≤◌, ◌≡◌, refl, sym, ◌∙◌, ap, ◌⊎◌, inl, inr, Bool, true, false,
  List, [], ◌∷◌, ◌++◌, arith, length, take, drop, All, map, ltb, leb, ◌==◌, ◌&&◌, Bool-cases,
  length-append, length-drop,
}
use ctgfs.Prelude.Bytes.{Bytes}
use ctgfs.Rpc.Marshall.{be32}
use ctgfs.Rpc.Framing.{
  max_pdu, ntohl, frame, alive, Connection, deliver, least, read_body, read_size, read_alive,
  read_cb,
}
use ctgfs.Rpc.Framing.Pieces.{
  stream, IsSendable, take-drop, length-take, append_assoc, map-append, same_cut, length-frame,
}

-- Between PDUs, in the middle of the next one, or behind one that was refused, which takes a callback more:
-- `more` of them. `refused` is that there was a refusal.
pub data State (refused : Type 0) : Connection → Bytes → List Bytes → List Bytes → ℕ → Type 0 where
  between :
      (got left : List Bytes)
      → State refused
          (record { life = alive; sz = 0; buf = []; got = map frame got })
          (stream left)
          got
          left
          0
  inside :
      (buf s : Bytes) (got : List Bytes) (p : Bytes) (left : List Bytes)
      → buf ++ s ≡ frame p ++ stream left
      → 4 ≤ length buf
      → length buf < length p + 4
      → State refused
          (record { life = alive; sz = length p + 4; buf = buf; got = map frame got })
          s
          got
          (p ∷ left)
          0
  waiting :
      (got : List Bytes) (p : Bytes) (left : List Bytes)
      → refused
      → State refused
          (record { life = alive; sz = length p + 4; buf = frame p; got = map frame got })
          (stream left)
          got
          (p ∷ left)
          1

-- After a read, with so much of the stream gone, or all of it.
pub record Read (refused : Type 0) (r : Connection × Bytes) (got left : List Bytes) (most : ℕ)
    : Type 0 where
  pub now : List Bytes
  pub rest : List Bytes
  pub split : now ++ rest ≡ got ++ left
  pub more : ℕ
  pub state : State refused r.0 r.1 now rest more
  pub fewer : (length r.1 ≡ 0) ⊎ (length r.1 + more ≤ most)

-- What a refusal leaves to do, and what a callback that takes does.
abbrev slack : Bool → ℕ
slack true = 0
slack false = 1

abbrev pub taken : Bool → ℕ
taken true = 1
taken false = 0

slack-taken : (t : Bool) → slack t + taken t ≡ 1
slack-taken true = refl
slack-taken false = refl

ntohl-be32 :
    (n : ℕ)
    → n < 2 ^ 32
    → ntohl (n / 2 ^ 24 % 256) (n / 2 ^ 16 % 256) (n / 2 ^ 8 % 256) (n % 256) ≡ n
ntohl-be32 n lt = omega arith

module _ (refused : Type 0) where
  weaker :
      (r : Connection × Bytes) (got left : List Bytes) (most limit : ℕ)
      → most ≤ limit
      → Read refused r got left most
      → Read refused r got left limit
  weaker r got left most limit le x = record {
    now = x.now;
    rest = x.rest;
    split = x.split;
    more = x.more;
    state = x.state;
    fewer = elim x.fewer [ inl e ↦ inl e | inr h ↦ inr (omega arith) ];
  }

  delivered-Read :
      (n : ℕ) (takes : Bool) (buf s : Bytes) (got : List Bytes) (p : Bytes) (left : List Bytes)
      → (takes ≡ false → refused)
      → buf ++ s ≡ frame p ++ stream left
      → 4 ≤ length buf
      → length buf + n ≤ length p + 4
      → Read refused
          (
            deliver takes (record {
              life = alive;
              sz = length p + 4;
              buf = buf ++ take n s;
              got = map frame got;
            }),
            drop n s,
          )
          got
          (p ∷ left)
          (length s - n + slack takes)
  unfolding deliver
  delivered-Read n takes buf s got p left refuse e le lt =
      let joined : (buf ++ take n s) ++ drop n s ≡ frame p ++ stream left =
        append_assoc buf (take n s) (drop n s) ∙ ap (λ l. buf ++ l) (take-drop n s) ∙ e in
      let long : length (buf ++ take n s) ≡ length buf + length (take n s) =
        length-append buf (take n s) in
      let n_taken = length-take n s in
      let shorter : length (drop n s) ≤ length s - n = omega (arith, length-drop n s) in
      elim (Bool-cases (length (buf ++ take n s) == (length p + 4))) [
        | inl k ↦
            let complete : length (buf ++ take n s) ≡ length p + 4 = ground arith in
            let (whole, rest) =
              same_cut (buf ++ take n s) (drop n s) (frame p) (stream left) joined
                (complete ∙ sym (length-frame p)) in
            let gots : map frame got ++ (buf ++ take n s) ∷ [] ≡ map frame (got ++ p ∷ []) =
              ap (λ b. map frame got ++ b ∷ []) whole ∙ sym (map-append got (p ∷ [])) in
            elim (Bool-cases takes) [
              | inl t ↦ record {
                now = got ++ p ∷ [];
                rest = left;
                split = append_assoc got (p ∷ []) left;
                more = 0;
                state = rw (t, k, gots, rest) (between (got ++ p ∷ []) left);
                fewer = inr (omega arith);
              }
              | inr t ↦ record {
                now = got;
                rest = p ∷ left;
                split = refl;
                more = 1;
                state = rw (t, whole, rest) (waiting got p left (refuse t));
                fewer = inr (rw t (omega arith));
              }
            ]
        | inr k ↦
            let kept : (takes && length (buf ++ take n s) == (length p + 4)) ≡ false =
              ground arith in
            record {
              now = got;
              rest = p ∷ left;
              split = refl;
              more = 0;
              state = rw kept (
                  inside (buf ++ take n s) (drop n s) got p left joined (omega arith)
                    (ground arith));
              fewer = inr (omega arith);
            }
      ]

  body-Read :
      (k : ℕ) (takes : Bool) (buf s : Bytes) (got : List Bytes) (p : Bytes) (left : List Bytes)
      → (takes ≡ false → refused)
      → buf ++ s ≡ frame p ++ stream left
      → 4 ≤ length buf
      → length buf < length p + 4
      → Read refused
          (read_body k takes
            (record { life = alive; sz = length p + 4; buf = buf; got = map frame got })
            s)
          got
          (p ∷ left)
          (length s - least k (length p + 4 - length buf) + slack takes)
  unfolding read_body
  body-Read k takes buf s got p left refuse e le lt =
      let not_all : ((length p + 4) == length buf) ≡ false = ground arith in
      let fits : length buf + least k (length p + 4 - length buf) ≤ length p + 4 = ground arith in
      rw not_all (
        delivered-Read (least k (length p + 4 - length buf)) takes buf s got p left refuse e le
          fits)

  -- A read between PDUs reads the size, and goes on with the body.
  size-Read :
      (k : ℕ) (takes : Bool) (got : List Bytes) (p : Bytes) (left : List Bytes)
      → (takes ≡ false → refused)
      → IsSendable p
      → Read refused
          (read_size k takes
            (record { life = alive; sz = 0; buf = []; got = map frame got })
            (stream (p ∷ left)))
          got
          (p ∷ left)
          (length (stream (p ∷ left)) - 4 + slack takes)
  unfolding read_size
  size-Read k takes got p left refuse (some_body, small) =
      let sz = ntohl-be32 (length p + 4) (omega arith) in
      let not_short : ltb (length p + 4) 4 ≡ false = ground arith in
      let not_negative : leb (2 ^ 31) (length p + 4) ≡ false = ground arith in
      let not_large : ltb max_pdu (length p + 4) ≡ false = ground arith in
      rw sz (
        rw (not_short, not_negative, not_large)
          (weaker _ got (p ∷ left) _ _ (omega arith) (
            body-Read k takes (be32 (length p + 4)) (p ++ stream left) got p left refuse refl
              (omega arith) (omega arith))))

  -- A PDU that was refused is offered again.
  waiting-Read :
      (takes : Bool) (got : List Bytes) (p : Bytes) (left : List Bytes)
      → (takes ≡ false → refused)
      → Read refused
          (
            deliver takes
                (record { life = alive; sz = length p + 4; buf = frame p; got = map frame got }),
            stream left,
          )
          got
          (p ∷ left)
          (length (stream left) + slack takes)
  unfolding deliver
  waiting-Read takes got p left refuse = elim (Bool-cases takes) [
    | inl t ↦
        let complete : (length (frame p) == (length p + 4)) ≡ true =
          let long = length-frame p in ground arith in
        let gots : map frame got ++ frame p ∷ [] ≡ map frame (got ++ p ∷ []) =
          sym (map-append got (p ∷ [])) in
        record {
          now = got ++ p ∷ [];
          rest = left;
          split = append_assoc got (p ∷ []) left;
          more = 0;
          state = rw (t, complete, gots) (between (got ++ p ∷ []) left);
          fewer = inr (omega arith);
        }
    | inr t ↦ record {
      now = got;
      rest = p ∷ left;
      split = refl;
      more = 1;
      state = rw t (waiting got p left (refuse t));
      fewer = inr (rw t (omega arith));
    }
  ]

  alive-Read :
      (k : ℕ) (takes : Bool) (c : Connection) (s : Bytes) (got left : List Bytes) (more : ℕ)
      → State refused c s got left more
      → (takes ≡ false → refused)
      → All IsSendable left
      → 1 ≤ k
      → 0 < length s
      → Read refused (read_alive k takes c s c.life) got left (length s + more - taken takes)
  alive-Read k takes _ _ _ _ _ (between got []) refuse h le lt = absurd (omega arith)
  alive-Read k takes _ _ _ _ _ (between got (p ∷ left)) refuse (h, hs) le lt =
      let one = slack-taken takes in
      weaker _ got (p ∷ left) _ _ (omega arith) (size-Read k takes got p left refuse h)
  alive-Read k takes _ _ _ _ _ (inside buf s got p left e low high) refuse h le lt =
      let one = slack-taken takes in
      let within : (length p + 4 == 0) ≡ false = ground arith in
      let part : ltb (length buf) (length p + 4) ≡ true = ground arith in
      let some_read : length s - least k (length p + 4 - length buf) ≤ length s - 1 =
        ground arith in
      rw (within, part)
        (weaker _ got (p ∷ left) _ _ (omega arith)
          (body-Read k takes buf s got p left refuse e low high))
  alive-Read k takes _ _ _ _ _ (waiting got p left r) refuse h le lt =
      let one = slack-taken takes in
      let long = length-frame p in
      let within : (length p + 4 == 0) ≡ false = ground arith in
      let whole : ltb (length (frame p)) (length p + 4) ≡ false = ground arith in
      rw (within, whole)
        (weaker _ got (p ∷ left) _ _ (omega arith) (waiting-Read takes got p left refuse))

  -- At least a byte is read, where there is one and the socket gives it, or a PDU that waits is offered.
  pub cb-Read :
      (k : ℕ) (takes : Bool) (c : Connection) (s : Bytes) (got left : List Bytes) (more : ℕ)
      → State refused c s got left more
      → (takes ≡ false → refused)
      → All IsSendable left
      → 1 ≤ k
      → Read refused (read_cb k takes c s) got left (length s + more - taken takes)
  unfolding read_cb
  cb-Read k takes c [] got left more st refuse h le = record {
    now = got;
    rest = left;
    split = refl;
    more = more;
    state = st;
    fewer = inl refl;
  }
  cb-Read k takes c (x ∷ s) got left more st refuse h le =
      alive-Read k takes c (x ∷ s) got left more st refuse h le (omega arith)

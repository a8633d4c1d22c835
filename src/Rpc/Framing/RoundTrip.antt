-- ===== src/Rpc/Framing/RoundTrip.antt =====
-- What read_cb of src/rpc/connection.cc gives for frames that come in pieces.
use ctgfs.Prelude.{
  ℕ, ◌+◌, ◌-◌, ◌≤◌, ◌≡◌, refl, ◌∙◌, ap, ◌⊎◌, inl, inr, Bool, false, List, [], ◌∷◌, ◌++◌, arith,
  length, All, map, length-append,
}
use mathlib.Core.Path.{subst}
use ctgfs.Prelude.Bytes.{Bytes}
use ctgfs.Rpc.Framing.{frame, alive, Connection, connection, read_cb, read_all}
use ctgfs.Rpc.Framing.Pieces.{stream, IsSendable, length-frame}
use ctgfs.Rpc.Framing.Reads.{State, between, inside, waiting, Read, taken, cb-Read}

behind-All : (a b : List Bytes) → All IsSendable (a ++ b) → All IsSendable b
behind-All [] b h = h
behind-All (x ∷ a) b (h, hs) = behind-All a b hs

-- The callbacks in which `got_pdu` takes what it is offered, if anything, and whether there are others.
abbrev pub takings : List (ℕ × Bool) → ℕ
takings [] = 0
takings ((k, takes) ∷ cbs) = taken takes + takings cbs

abbrev pub AnyRefusal : List (ℕ × Bool) → Type 0
AnyRefusal [] = ⊥
AnyRefusal ((k, takes) ∷ cbs) = (takes ≡ false) ⊎ AnyRefusal cbs

no_bytes : (s : Bytes) → length s ≡ 0 → s ≡ []
no_bytes [] e = refl
no_bytes (x ∷ s) e = absurd (omega arith)

length-read_all :
    (cbs : List (ℕ × Bool)) (c : Connection) (s : Bytes)
    → length s ≡ 0
    → length (read_all cbs c s).1 ≡ 0
unfolding read_all read_cb
length-read_all [] c s e = e
length-read_all ((k, takes) ∷ cbs) c [] e = length-read_all cbs c [] refl
length-read_all ((k, takes) ∷ cbs) c (x ∷ s) e = absurd (omega arith)

-- Bytes go as long as there are some.
read_all-Read :
    (refused : Type 0) (cbs : List (ℕ × Bool)) (c : Connection) (s : Bytes) (got left : List Bytes)
    (more : ℕ)
    → State refused c s got left more
    → (AnyRefusal cbs → refused)
    → All IsSendable (got ++ left)
    → All (λ cb. 1 ≤ cb.0) cbs
    → Read refused (read_all cbs c s) got left (length s + more - takings cbs)
unfolding read_all
read_all-Read refused [] c s got left more st refuse h les = record {
  now = got;
  rest = left;
  split = refl;
  more = more;
  state = st;
  fewer = inr (omega arith);
}
read_all-Read refused ((k, takes) ∷ cbs) c s got left more st refuse h (le, les) =
    let one =
      cb-Read refused k takes c s got left more st (λ t. refuse (inl t)) (behind-All got left h)
        le in
    let rest =
      read_all-Read refused cbs (read_cb k takes c s).0 (read_cb k takes c s).1 one.now one.rest
        one.more one.state (λ r. refuse (inr r)) (rw one.split h) les in
    record {
      now = rest.now;
      rest = rest.rest;
      split = rest.split ∙ one.split;
      more = rest.more;
      state = rest.state;
      fewer = elim one.fewer [
        | inl e ↦ inl (length-read_all cbs (read_cb k takes c s).0 (read_cb k takes c s).1 e)
        | inr h' ↦ elim rest.fewer [ inl e ↦ inl e | inr h'' ↦ inr (omega arith) ]
      ];
    }

append_nil : (l : List Bytes) → l ++ [] ≡ l
append_nil [] = refl
append_nil (p ∷ l) = ap (λ m. p ∷ m) (append_nil l)

-- How the connection stands when the socket has no more bytes: all is delivered, or the last PDU was refused and
-- waits.
abbrev pub Ended : Type 0 → List Bytes → Connection → Type 0
Ended refused ps c =
    (c ≡ record connection { got = map frame ps })
    ⊎ (refused
        × (front : List Bytes) × (last : Bytes) × (ps ≡ front ++ last ∷ [])
        × (c ≡ record {
          life = alive;
          sz = length last + 4;
          buf = frame last;
          got = map frame front;
        }))

nothing_left :
    (refused : Type 0) (c : Connection) (s : Bytes) (got left : List Bytes) (more : ℕ)
    → State refused c s got left more
    → length s ≡ 0
    → Ended refused (got ++ left) c
nothing_left refused _ _ _ _ _ (between got []) e = inl (rw (append_nil got) refl)
nothing_left refused _ _ _ _ _ (between got (p ∷ left)) e = absurd (omega arith)
nothing_left refused _ _ _ _ _ (inside buf s got p left joined low high) e =
    let all = length-append buf s in
    let framed = length-append (frame p) (stream left) in
    let long = length-frame p in
    let same : length (buf ++ s) ≡ length (frame p ++ stream left) = ap length joined in
    absurd (omega arith)
nothing_left refused _ _ _ _ _ (waiting got p [] r) e = inr (r, got, p, refl, refl)
nothing_left refused _ _ _ _ _ (waiting got p (q ∷ left) r) e = absurd (omega arith)

-- Frames whose bodies are not empty and within the limit come out as they were sent, one by one, however few
-- bytes each read of a body gives, but at least one, and whatever callbacks there are in which `got_pdu` refuses
-- what it is offered: after as many in which it does not as there are bytes, all bytes are read, and all PDUs are
-- given to it, or all but the last, which waits whole in the connection, and this only where there was a
-- refusal. The four bytes of a size come in one read.
pub frames_come_out :
    (ps : List Bytes) (cbs : List (ℕ × Bool))
    → All IsSendable ps
    → All (λ cb. 1 ≤ cb.0) cbs
    → length (stream ps) ≤ takings cbs
    → ((read_all cbs connection (stream ps)).1 ≡ [])
      × Ended (AnyRefusal cbs) ps (read_all cbs connection (stream ps)).0
frames_come_out ps cbs h les enough =
    let r =
      read_all-Read (AnyRefusal cbs) cbs connection (stream ps) [] ps 0 (between [] ps) (λ n. n) h
        les in
    let gone : length (read_all cbs connection (stream ps)).1 ≡ 0 = elim r.fewer [
      | inl e ↦ e
      | inr le ↦ omega arith
    ] in
    (
      no_bytes (read_all cbs connection (stream ps)).1 gone,
      subst (λ qs. Ended (AnyRefusal cbs) qs (read_all cbs connection (stream ps)).0) r.split
          (nothing_left (AnyRefusal cbs) _ _ r.now r.rest r.more r.state gone),
    )

-- ===== src/Rpc/Framing/Pieces.antt =====
-- Streams of frames of src/rpc/connection.cc, cut into pieces.
use ctgfs.Prelude.{
  ℕ, zero, suc, ◌+◌, ◌<◌, ◌≤◌, ◌≡◌, refl, sym, ◌∙◌, ap, List, [], ◌∷◌, ◌++◌, arith, length, take,
  drop, map, length-append, take-append, drop-append,
}
use ctgfs.Prelude.Bytes.{Bytes}
use ctgfs.Rpc.Marshall.{be32}
use ctgfs.Rpc.Framing.{max_pdu, frame}

abbrev pub stream : List Bytes → Bytes
stream [] = []
stream (p ∷ ps) = frame p ++ stream ps

-- A body with something in it, and no larger than the connection takes.
abbrev pub IsSendable : Bytes → Type 0
IsSendable p = (0 < length p) × (length p + 4 ≤ max_pdu)

pub take-drop : (n : ℕ) (s : Bytes) → take n s ++ drop n s ≡ s
take-drop zero s = refl
take-drop (suc n) [] = refl
take-drop (suc n) (x ∷ s) = ap (λ l. x ∷ l) (take-drop n s)

pub length-take : (n : ℕ) (s : Bytes) → length (take n s) ≤ n
length-take zero s = omega arith
length-take (suc n) [] = omega arith
length-take (suc n) (x ∷ s) = omega (arith, length-take n s)

pub append_assoc : {A : Type 0} (a b c : List A) → (a ++ b) ++ c ≡ a ++ (b ++ c)
append_assoc [] b c = refl
append_assoc (x ∷ a) b c = ap (λ l. x ∷ l) (append_assoc a b c)

pub map-append : (a b : List Bytes) → map frame (a ++ b) ≡ map frame a ++ map frame b
map-append [] b = refl
map-append (x ∷ a) b = ap (λ l. frame x ∷ l) (map-append a b)

-- Two ways to cut the same bytes at the same place.
pub same_cut : (a b c d : Bytes) → a ++ b ≡ c ++ d → length a ≡ length c → (a ≡ c) × (b ≡ d)
same_cut a b c d e l = (
  sym (take-append a b (length a) refl) ∙ ap (take (length a)) e ∙ take-append c d (length a) l,
  sym (drop-append a b (length a) refl) ∙ ap (drop (length a)) e ∙ drop-append c d (length a) l,
)

pub length-frame : (p : Bytes) → length (frame p) ≡ length p + 4
length-frame p = omega (arith, length-append (be32 (length p + 4)) p)

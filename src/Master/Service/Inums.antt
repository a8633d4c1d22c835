-- ===== src/Master/Service/Inums.antt =====
-- The inums of src/master/master.cc, and what src/client/yfs_client.cc takes them for.
use ctgfs.Prelude.{
  ℕ, ◌+◌, ◌%◌, ◌^◌, ◌<◌, ◌≤◌, ◌≡◌, ◌≢◌, refl, sym, ◌∙◌, ap, inl, inr, Bool, true, false, not,
  Option, none, some, List, [], ◌∷◌, arith, All, length, Option-cases,
}
use mathlib.Core.Option.{some-injective}
use ctgfs.Prelude.Bytes.{Bytes}
use ctgfs.Master.PrefixTree.{ok, prefix_tree_error}
use ctgfs.Master.PrefixTree.Ops.{Result}
use ctgfs.Master.Service.{
  Master, Ask, inum_of, generated, gen_inum, get_info_by_inum, informed, ask_for_ino, with_inum,
  then_ask, ask_all,
}
use ctgfs.Client.Yfs.Ops.{isfile}

abbrev pub IsDistinct : List ℕ → Type 0
IsDistinct [] = Unit
IsDistinct (i ∷ ids) = All (λ j. i ≢ j) ids × IsDistinct ids

-- Each inum stands for a file or a directory as its request says.
abbrev pub HasKinds : List ℕ → List Ask → Type 0
HasKinds [] [] = Unit
HasKinds (i ∷ ids) (a ∷ l) = (isfile i ≡ not a.is_dir) × HasKinds ids l
HasKinds _ _ = ⊥

inum_of-low : (c : ℕ) (d : Bool) → c < 2 ^ 31 → inum_of c d % 2 ^ 31 ≡ c
inum_of-low c true lt = omega arith
inum_of-low c false lt = ground arith

isfile-inum_of : (c : ℕ) (d : Bool) → c < 2 ^ 31 → isfile (inum_of c d) ≡ not d
unfolding isfile
isfile-inum_of c true lt = ground arith
isfile-inum_of c false lt = ground arith

generated-some :
    (m : Master) (id : ℕ) (path : Bytes) (r : Result) (id' : ℕ) (m' : Master)
    → generated m id path r ≡ some (id', m')
    → (id ≡ id') × (m'.ino_count ≡ (m.ino_count + 1) % 2 ^ 64)
generated-some m id path (prefix_tree_error, d, t) id' m' e = absurd (ground arith)
generated-some m id path (ok, d, t) id' m' e =
    let same = some-injective _ _ e in (ap (λ r. r.0) same, sym (ap (λ r. r.1.ino_count) same))

informed-some :
    (x : Option (ℕ × Master)) (id : ℕ) (addr : Bytes) (m : Master)
    → informed x ≡ some ((id, addr), m)
    → (before : Master) × (x ≡ some (id, before)) × (m.ino_count ≡ before.ino_count)
unfolding get_info_by_inum
informed-some none id addr m e = absurd (ground arith)
informed-some (some (i, before)) id addr m e =
    let same = some-injective _ _ e in
    (before, ap (λ j. some (j, before)) (ap (λ r. r.0.0) same), sym (ap (λ r. r.1.ino_count) same))

ask_for_ino-some :
    (m : Master) (a : Ask) (id : ℕ) (addr : Bytes) (m' : Master)
    → ask_for_ino m a.parent a.path a.is_dir a.sz ≡ some ((id, addr), m')
    → (inum_of m.ino_count a.is_dir ≡ id) × (m'.ino_count ≡ (m.ino_count + 1) % 2 ^ 64)
unfolding ask_for_ino gen_inum
ask_for_ino-some m a id addr m' e =
    let (before, made, counts) = informed-some _ id addr m' e in
    let (same, next) = generated-some m _ a.path _ id before made in (same, counts ∙ next)

then_ask-some :
    (rest : Master → Option (List ℕ × Master)) (x : Option ((ℕ × Bytes) × Master)) (ids : List ℕ)
    (u : Master)
    → then_ask rest x ≡ some (ids, u)
    → (id : ℕ) × (addr : Bytes) × (m : Master) × (left : List ℕ) × (x ≡ some ((id, addr), m))
      × (rest m ≡ some (left, u))
      × (ids ≡ id ∷ left)
then_ask-some rest none ids u e = absurd (ground arith)
then_ask-some rest (some ((id, addr), m)) ids u e = elim (Option-cases (rest m)) [
  | inl k ↦ let bad = ap (with_inum id) (sym k) ∙ e in absurd (ground arith)
  | inr ((left, v), k) ↦
      let same = some-injective _ _ (ap (with_inum id) (sym k) ∙ e) in
      (id, addr, m, left, refl, k ∙ ap (λ r. some (left, r.1)) same, sym (ap (λ r. r.0) same))
]

-- Every inum's low bits are the count at which it was made.
abbrev FromOn : ℕ → List ℕ → Type 0
FromOn c ids = All (λ i. c ≤ i % 2 ^ 31) ids

later_From : (c d : ℕ) (ids : List ℕ) → c ≤ d → FromOn d ids → FromOn c ids
later_From c d [] le h = tt
later_From c d (i ∷ ids) le (h, hs) = (omega arith, later_From c d ids le hs)

apart : (i c : ℕ) (ids : List ℕ) → i % 2 ^ 31 ≡ c → FromOn (c + 1) ids → All (λ j. i ≢ j) ids
apart i c [] e h = tt
apart i c (j ∷ ids) e (h, hs) = (λ same. absurd (omega arith), apart i c ids e hs)

ask_all-Inums :
    (m : Master) (l : List Ask) (ids : List ℕ) (u : Master)
    → ask_all m l ≡ some (ids, u)
    → m.ino_count + length l ≤ 2 ^ 31
    → FromOn m.ino_count ids × IsDistinct ids × HasKinds ids l
unfolding ask_all
ask_all-Inums m [] ids u e le =
    let empty : ids ≡ [] = sym (ap (λ r. r.0) (some-injective _ _ e)) in rw empty (tt, tt, tt)
ask_all-Inums m (a ∷ l) ids u e le =
    let (id, addr, n, left, asked, rest, listed) = then_ask-some _ _ ids u e in
    let (is, next) = ask_for_ino-some m a id addr n asked in
    let counts : n.ino_count ≡ m.ino_count + 1 = omega arith in
    let (from, distinct, kinds) = ask_all-Inums n l left u rest (omega arith) in
    let low : id % 2 ^ 31 ≡ m.ino_count =
      ap (λ i. i % 2 ^ 31) (sym is) ∙ inum_of-low m.ino_count a.is_dir (omega arith) in
    let kind : isfile id ≡ not a.is_dir =
      ap isfile (sym is) ∙ isfile-inum_of m.ino_count a.is_dir (omega arith) in
    let from_next : FromOn (m.ino_count + 1) left = rw (sym counts) from in
    rw listed (
      (omega arith, later_From m.ino_count (m.ino_count + 1) left (omega arith) from_next),
      (apart id m.ino_count left low from_next, distinct),
      (kind, kinds),
    )

-- A master that answers calls of AskForIno one after the other, as long as its count stays within 31 bits, gives
-- an inum only once, and yfs_client takes each for a file where it was asked for as one, and else for a directory.
pub inums_kept_apart :
    (m : Master) (l : List Ask) (ids : List ℕ) (u : Master)
    → ask_all m l ≡ some (ids, u)
    → m.ino_count + length l ≤ 2 ^ 31
    → IsDistinct ids × HasKinds ids l
inums_kept_apart m l ids u e le =
    let (_, distinct, kinds) = ask_all-Inums m l ids u e le in (distinct, kinds)

-- ===== src/Master/PrefixTree/Children.antt =====
-- The set of the children of a directory in src/master/prefix_tree_node.cc: in order, one of each name.
use ctgfs.Prelude.{
  ℕ, ◌≡◌, refl, ◌∙◌, inl, inr, true, false, none, some, List, [], ◌∷◌, arith, All, if◌then◌else◌,
  Bool-cases,
}
use ctgfs.Prelude.Bytes.{
  Bytes, bytes_eq, bytes_lt, bytes_eq_refl, bytes_eq-eq, bytes_lt_irrefl, bytes_lt_trans,
  bytes_lt-total,
}
use ctgfs.Master.PrefixTree.{Node, lower_bound, child_at, insert_at, erase_at}

pub lt-not_eq : (s t : Bytes) → bytes_lt s t ≡ true → bytes_eq s t ≡ false
lt-not_eq s t h = elim (Bool-cases (bytes_eq s t)) [
  | inl e ↦ let same = bytes_eq-eq s t e in let less = bytes_lt_irrefl s in absurd cc
  | inr e ↦ e
]

pub gt-not_eq : (s t : Bytes) → bytes_lt s t ≡ true → bytes_eq t s ≡ false
gt-not_eq s t h = elim (Bool-cases (bytes_eq t s)) [
  | inl e ↦ let same = bytes_eq-eq t s e in let less = bytes_lt_irrefl s in absurd cc
  | inr e ↦ e
]

-- What is not smaller than `q` is smaller than all that is behind.
pub not_lt-lt : (s q t : Bytes) → bytes_lt s q ≡ false → bytes_lt s t ≡ true → bytes_lt q t ≡ true
not_lt-lt s q t h k = elim (bytes_lt-total s q) [
  | inl e ↦ absurd cc
  | inr (inl e) ↦ bytes_lt_trans q s t e k
  | inr (inr e) ↦ cc
]

pub not_lt_antisym :
    (s t : Bytes) → bytes_lt s t ≡ false → bytes_eq s t ≡ false → bytes_lt t s ≡ true
not_lt_antisym s t h k = elim (bytes_lt-total s t) [
  | inl e ↦ absurd cc
  | inr (inl e) ↦ e
  | inr (inr e) ↦ let same = bytes_eq_refl s in absurd cc
]

pub lt-not_gt : (s t : Bytes) → bytes_lt s t ≡ true → bytes_lt t s ≡ false
lt-not_gt s t h = elim (Bool-cases (bytes_lt t s)) [
  | inl e ↦ let round = bytes_lt_trans s t s h e in let less = bytes_lt_irrefl s in absurd cc
  | inr e ↦ e
]

module _ (nodes : ℕ → Node) where
  abbrev pub IsBehind : ℕ → List ℕ → Type 0
  IsBehind a l = All (λ b. bytes_lt (nodes a).path (nodes b).path ≡ true) l

  abbrev pub IsSorted : List ℕ → Type 0
  IsSorted [] = Unit
  IsSorted (a ∷ l) = IsBehind a l × IsSorted l

  pub child-cons :
      (a : ℕ) (l : List ℕ) (p : Bytes)
      → child_at nodes (a ∷ l) p ≡ (
          if bytes_lt (nodes a).path p
          then child_at nodes l p
          else if bytes_eq (nodes a).path p
          then some a
          else none)
  unfolding child_at lower_bound
  child-cons a l p = elim (Bool-cases (bytes_lt (nodes a).path p)) [
    | inl e ↦ rw e refl
    | inr e ↦ rw e refl
  ]

  pub child-nil : (p : Bytes) → child_at nodes [] p ≡ none
  unfolding child_at lower_bound
  child-nil p = refl

  pub child-path :
      (l : List ℕ) (p : Bytes) (c : ℕ) → child_at nodes l p ≡ some c → (nodes c).path ≡ p
  child-path [] p c e = ground (arith, child-nil p)
  child-path (a ∷ l) p c e =
      ground (arith, child-cons a l p, child-path l p c, bytes_eq-eq (nodes a).path p)

  pub child-All :
      (P : ℕ → Type 0) (l : List ℕ) (p : Bytes) (c : ℕ)
      → All P l
      → child_at nodes l p ≡ some c
      → P c
  child-All P [] p c h e = absurd (ground (arith, child-nil p))
  child-All P (a ∷ l) p c (h, hs) e = ground (arith, child-cons a l p, child-All P l p c hs)

  -- Nothing of a smaller name is behind.
  pub child_behind :
      (a : ℕ) (l : List ℕ) (q : Bytes)
      → IsBehind a l
      → bytes_lt (nodes a).path q ≡ false
      → child_at nodes l q ≡ none
  child_behind a [] q h e = child-nil q
  child_behind a (b ∷ l) q (h, hs) e =
      let less = not_lt-lt (nodes a).path q (nodes b).path e h in
      let not_less = lt-not_gt q (nodes b).path less in
      let differ = gt-not_eq q (nodes b).path less in child-cons b l q ∙ rw (not_less, differ) refl

  IsBehind-trans :
      (a b : ℕ) (l : List ℕ)
      → bytes_lt (nodes a).path (nodes b).path ≡ true
      → IsBehind b l
      → IsBehind a l
  IsBehind-trans a b [] h k = tt
  IsBehind-trans a b (c ∷ l) h (k, ks) =
      (bytes_lt_trans (nodes a).path (nodes b).path (nodes c).path h k, IsBehind-trans a b l h ks)

  before_first :
      (n a : ℕ) (l : List ℕ)
      → child_at nodes (a ∷ l) (nodes n).path ≡ none
      → bytes_lt (nodes a).path (nodes n).path ≡ false
      → bytes_lt (nodes n).path (nodes a).path ≡ true
  before_first n a l e h = elim (Bool-cases (bytes_eq (nodes a).path (nodes n).path)) [
    | inl k ↦ let there = child-cons a l (nodes n).path in absurd (ground arith)
    | inr k ↦ not_lt_antisym (nodes a).path (nodes n).path h k
  ]

  child-front :
      (n : ℕ) (l : List ℕ) (q : Bytes)
      → IsBehind n l
      → child_at nodes (n ∷ l) q
        ≡ (if bytes_eq (nodes n).path q then some n else child_at nodes l q)
  child-front n l q h =
      child-cons n l q ∙ ground (arith, lt-not_eq (nodes n).path q, child_behind n l q h)

  pub child-insert :
      (l : List ℕ) (n : ℕ) (q : Bytes)
      → IsSorted l
      → child_at nodes l (nodes n).path ≡ none
      → child_at nodes (insert_at nodes l n) q
        ≡ (if bytes_eq (nodes n).path q then some n else child_at nodes l q)
  unfolding insert_at
  child-insert [] n q s e = child-front n [] q tt
  child-insert (a ∷ l) n q (h, s) e = elim (Bool-cases (bytes_lt (nodes a).path (nodes n).path)) [
    | inl k ↦
        let beyond = child-cons a l (nodes n).path in
        let there = child-insert l n q s (ground arith) in
        rw k (
          child-cons a (insert_at nodes l n) q
          ∙ ground (arith, child-cons a l q, bytes_eq-eq (nodes n).path q))
    | inr k ↦
        let less = before_first n a l e k in
        rw k (child-front n (a ∷ l) q (less, IsBehind-trans n a l less h))
  ]

  pub insert-All :
      (P : ℕ → Type 0) (l : List ℕ) (n : ℕ) → P n → All P l → All P (insert_at nodes l n)
  unfolding insert_at
  insert-All P [] n p h = (p, tt)
  insert-All P (a ∷ l) n p (h, hs) = ground (arith, insert-All P l n p hs)

  pub insert-IsSorted :
      (l : List ℕ) (n : ℕ)
      → IsSorted l
      → child_at nodes l (nodes n).path ≡ none
      → IsSorted (insert_at nodes l n)
  unfolding insert_at
  insert-IsSorted [] n s e = (tt, tt)
  insert-IsSorted (a ∷ l) n (h, s) e = elim (Bool-cases (bytes_lt (nodes a).path (nodes n).path)) [
    | inl k ↦
        let beyond = child-cons a l (nodes n).path in
        rw k (insert-All _ l n k h, insert-IsSorted l n s (ground arith))
    | inr k ↦
        let less = before_first n a l e k in rw k ((less, IsBehind-trans n a l less h), (h, s))
  ]

  pub child-erase :
      (l : List ℕ) (p : Bytes) (c : ℕ) (q : Bytes)
      → IsSorted l
      → child_at nodes l p ≡ some c
      → child_at nodes (erase_at nodes l p) q ≡ (if bytes_eq p q then none else child_at nodes l q)
  unfolding erase_at
  child-erase [] p c q s e = absurd (ground (arith, child-nil p))
  child-erase (a ∷ l) p c q (h, s) e = elim (Bool-cases (bytes_lt (nodes a).path p)) [
    | inl k ↦
        let beyond = child-cons a l p in
        let there = child-erase l p c q s (ground arith) in
        rw k
          (child-cons a (erase_at nodes l p) q ∙ ground (arith, child-cons a l q, bytes_eq-eq p q))
    | inr k ↦
        let first = child-cons a l p in
        let same = bytes_eq-eq (nodes a).path p (ground arith) in
        let gone = child_behind a l p h k in
        rw k (ground (arith, child-front a l q h, bytes_eq-eq p q))
  ]

  pub erase-All : (P : ℕ → Type 0) (l : List ℕ) (p : Bytes) → All P l → All P (erase_at nodes l p)
  unfolding erase_at
  erase-All P [] p h = tt
  erase-All P (a ∷ l) p (h, hs) = ground (arith, erase-All P l p hs)

  pub erase-IsSorted : (l : List ℕ) (p : Bytes) → IsSorted l → IsSorted (erase_at nodes l p)
  unfolding erase_at
  erase-IsSorted [] p s = tt
  erase-IsSorted (a ∷ l) p (h, s) = elim (Bool-cases (bytes_lt (nodes a).path p)) [
    | inl k ↦ rw k (erase-All _ l p h, erase-IsSorted l p s)
    | inr k ↦ rw k s
  ]

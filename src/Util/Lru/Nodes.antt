-- ===== src/Util/Lru/Nodes.antt =====
-- The list of the cache of src/include/util/lru.h against a list of keys and values.
use ctgfs.Prelude.{
  ℕ, zero, suc, ◌+◌, ◌≤◌, ◌<◌, ◌≡◌, ◌≢◌, refl, ap, sym, ◌∙◌, true, false, Option, none, some, List,
  [], ◌∷◌, arith, length, take, inl, inr, ◌==◌, if◌then◌else◌, All, Bool-cases,
}
use ctgfs.Util.Lru.{Node, node_at, unlink_node, back, pop_back}

module _ {ℓ} {W : Type ℓ} where
  -- The abstract cache: keys and values, the last used first.
  abbrev pub view : List (Node W) → List (ℕ × W)
  view [] = []
  view (n ∷ l) = (n.key, n.val) ∷ view l

  abbrev pub without_key : ℕ → List (ℕ × W) → List (ℕ × W)
  without_key k [] = []
  without_key k (e ∷ l) = if e.0 == k then l else e ∷ without_key k l

  abbrev pub value_of : ℕ → List (ℕ × W) → Option W
  value_of k [] = none
  value_of k (e ∷ l) = if e.0 == k then some e.1 else value_of k l

  -- The place of a key.
  abbrev pub place_of : ℕ → List (Node W) → Option ℕ
  place_of k [] = none
  place_of k (n ∷ l) = if n.key == k then some n.id else place_of k l

  -- Neither a key nor a place stands there twice.
  abbrev pub Apart : Node W → List (Node W) → Type 0
  Apart n [] = Unit {0}
  Apart n (m ∷ l) = (n.key ≢ m.key) × (n.id ≢ m.id) × Apart n l

  abbrev pub IsDistinct : List (Node W) → Type 0
  IsDistinct [] = Unit {0}
  IsDistinct (n ∷ l) = Apart n l × IsDistinct l

  Apart-place :
      (k i : ℕ) (n : Node W) (l : List (Node W))
      → Apart n l
      → place_of k l ≡ some i
      → (n.key ≢ k) × (n.id ≢ i)
  Apart-place k i n [] a e = cc
  Apart-place k i n (m ∷ l) (dk, di, a) e = ground (arith, Apart-place k i n l a)

  pub place-node :
      (k i : ℕ) (l : List (Node W))
      → IsDistinct l
      → place_of k l ≡ some i
      → (n : Node W) × (node_at i l ≡ some n)
        × (n.key ≡ k)
        × (n.id ≡ i)
        × (value_of k (view l) ≡ some n.val)
  place-node k i [] d e = cc
  place-node k i (n ∷ l) (a, d) e = elim (Bool-cases (n.key == k)) [
    | inl same ↦
        let isi : n.id ≡ i = ground arith in (n, ground arith, ground arith, isi, ground arith)
    | inr other ↦
        let there : place_of k l ≡ some i = ground arith in
        let (m, at, key, id, val) = place-node k i l d there in
        let (_, di) = Apart-place k i n l a there in (m, ground arith, key, id, ground arith)
  ]

  pub missing-value :
      (k : ℕ) (l : List (Node W))
      → place_of k l ≡ none
      → (value_of k (view l) ≡ none) × (without_key k (view l) ≡ view l)
  missing-value k [] e = (refl, refl)
  missing-value k (n ∷ l) e = ground (arith, missing-value k l)

  pub unlink-view :
      (k i : ℕ) (l : List (Node W))
      → IsDistinct l
      → place_of k l ≡ some i
      → view (unlink_node i l) ≡ without_key k (view l)
  unlink-view k i [] d e = cc
  unlink-view k i (n ∷ l) (a, d) e = ground (arith, unlink-view k i l d, Apart-place k i n l a)

  Apart-missing : (n : Node W) (l : List (Node W)) → Apart n l → place_of n.key l ≡ none
  Apart-missing n [] a = refl
  Apart-missing n (m ∷ l) (dk, di, a) = ground (arith, Apart-missing n l a)

  pub unlink-place :
      (k i j : ℕ) (l : List (Node W))
      → IsDistinct l
      → place_of k l ≡ some i
      → place_of j (unlink_node i l) ≡ (if j == k then none else place_of j l)
  unlink-place k i j [] d e = cc
  unlink-place k i j (n ∷ l) (a, d) e =
      ground (arith, unlink-place k i j l d, Apart-place k i n l a, Apart-missing n l a)

  unlink-Apart : (i : ℕ) (m : Node W) (l : List (Node W)) → Apart m l → Apart m (unlink_node i l)
  unlink-Apart i m [] a = tt
  unlink-Apart i m (n ∷ l) (dk, di, a) = elim (Bool-cases (n.id == i)) [
    | inl e ↦ rw e a
    | inr e ↦ rw e (dk, di, unlink-Apart i m l a)
  ]

  pub unlink-IsDistinct : (i : ℕ) (l : List (Node W)) → IsDistinct l → IsDistinct (unlink_node i l)
  unlink-IsDistinct i [] d = tt
  unlink-IsDistinct i (n ∷ l) (a, d) = elim (Bool-cases (n.id == i)) [
    | inl e ↦ rw e d
    | inr e ↦ rw e (unlink-Apart i n l a, unlink-IsDistinct i l d)
  ]

  pub length-unlink :
      (k i : ℕ) (l : List (Node W)) → place_of k l ≡ some i → length (unlink_node i l) < length l
  length-unlink k i [] e = cc
  length-unlink k i (n ∷ l) e = ground (arith, length-unlink k i l)

  Apart-same :
      (m n : Node W) (l : List (Node W)) → m.key ≡ n.key → m.id ≡ n.id → Apart n l → Apart m l
  Apart-same m n [] p q a = tt
  Apart-same m n (x ∷ l) p q (dk, di, a) = (rw p dk, rw q di, Apart-same m n l p q a)

  -- A node with the key and the place of the one that is taken out.
  pub again-Apart :
      (k i : ℕ) (m : Node W) (l : List (Node W))
      → m.key ≡ k
      → m.id ≡ i
      → IsDistinct l
      → place_of k l ≡ some i
      → Apart m (unlink_node i l)
  again-Apart k i m [] p q d e = cc
  again-Apart k i m (n ∷ l) p q (a, d) e = elim (Bool-cases (n.key == k)) [
    | inl same ↦
        let first : (n.id == i) ≡ true = ground arith in
        rw first (Apart-same m n l (ground arith) (ground arith) a)
    | inr other ↦
        let there : place_of k l ≡ some i = ground arith in
        let (dk, di) = Apart-place k i n l a there in
        let later : (n.id == i) ≡ false = ground arith in
        rw later (λ r. dk (sym r ∙ p), λ r. di (sym r ∙ q), again-Apart k i m l p q d there)
  ]

  -- What the removal of the last node leaves.
  pub view-pop_back :
      (n : Node W) (l : List (Node W)) → view (pop_back n l) ≡ take (length l) (view (n ∷ l))
  view-pop_back n [] = refl
  view-pop_back n (m ∷ l) = ap (λ t. (n.key, n.val) ∷ t) (view-pop_back m l)

  back-Apart : (n m : Node W) (l : List (Node W)) → Apart n (m ∷ l) → n.key ≢ (back m l).key
  back-Apart n m [] (dk, di, a) = dk
  back-Apart n m (x ∷ l) (dk, di, a) = back-Apart n x l a

  pub place-pop_back :
      (j : ℕ) (n : Node W) (l : List (Node W))
      → IsDistinct (n ∷ l)
      → place_of j (pop_back n l) ≡ (if j == (back n l).key then none else place_of j (n ∷ l))
  place-pop_back j n [] d = ground arith
  place-pop_back j n (m ∷ l) (a, d) = ground (arith, place-pop_back j m l d, back-Apart n m l a)

  pop_back-Apart : (x n : Node W) (l : List (Node W)) → Apart x (n ∷ l) → Apart x (pop_back n l)
  pop_back-Apart x n [] a = tt
  pop_back-Apart x n (m ∷ l) (dk, di, a) = (dk, di, pop_back-Apart x m l a)

  pub pop_back-IsDistinct :
      (n : Node W) (l : List (Node W)) → IsDistinct (n ∷ l) → IsDistinct (pop_back n l)
  pop_back-IsDistinct n [] d = tt
  pop_back-IsDistinct n (m ∷ l) (a, d) = (pop_back-Apart n m l a, pop_back-IsDistinct m l d)

  pub length-pop_back : (n : Node W) (l : List (Node W)) → length (pop_back n l) ≡ length l
  length-pop_back n [] = refl
  length-pop_back n (m ∷ l) = ap suc (length-pop_back m l)

  -- Places below a bound.
  abbrev pub Below : ℕ → List (Node W) → Type 0
  Below b l = All (λ n. n.id < b) l

  pub unlink-Below : (b i : ℕ) (l : List (Node W)) → Below b l → Below b (unlink_node i l)
  unlink-Below b i [] h = tt
  unlink-Below b i (n ∷ l) (p, h) = elim (Bool-cases (n.id == i)) [
    | inl e ↦ rw e h
    | inr e ↦ rw e (p, unlink-Below b i l h)
  ]

  pub pop_back-Below :
      (b : ℕ) (n : Node W) (l : List (Node W)) → Below b (n ∷ l) → Below b (pop_back n l)
  pop_back-Below b n [] h = tt
  pop_back-Below b n (m ∷ l) (p, h) = (p, pop_back-Below b m l h)

  pub Below-next : (b : ℕ) (l : List (Node W)) → Below b l → Below (b + 1) l
  Below-next b [] h = tt
  Below-next b (n ∷ l) (p, h) = (omega arith, Below-next b l h)

  -- A new key with a new place.
  pub new-Apart :
      (n : Node W) (l : List (Node W)) → place_of n.key l ≡ none → Below n.id l → Apart n l
  new-Apart n [] e h = tt
  new-Apart n (m ∷ l) e (p, h) =
      (ground arith, (λ q. absurd (omega (arith, q, p))), new-Apart n l (ground arith) h)

  pub place-Below : (b k i : ℕ) (l : List (Node W)) → Below b l → place_of k l ≡ some i → i < b
  place-Below b k i [] h e = cc
  place-Below b k i (n ∷ l) (p, h) e = ground (arith, place-Below b k i l h)

  pub take-view : (c : ℕ) (l : List (Node W)) → length l ≤ c → take c (view l) ≡ view l
  take-view zero [] h = refl
  take-view (suc c) [] h = refl
  take-view zero (n ∷ l) h = absurd (omega arith)
  take-view (suc c) (n ∷ l) h = ap (λ t. (n.key, n.val) ∷ t) (take-view c l (omega arith))

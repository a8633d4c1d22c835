-- ===== src/Master/PrefixTree/Cut.antt =====
-- A node that leaves the tree of src/master/prefix_tree.cc: the shape of the tree, and what paths lead to.
use ctgfs.Prelude.{
  ℕ, ◌<◌, ◌≡◌, ◌≢◌, refl, sym, ◌∙◌, ap, inl, inr, false, Option, none, some, List, [], ◌∷◌, ◌==◌,
  arith, All, if◌then◌else◌, Bool-cases,
}
use ctgfs.Prelude.Bytes.{Bytes, bytes_eq, bytes_eq_refl, bytes_eq-eq}
use ctgfs.Master.PrefixTree.{Node, PrefixTree, child_at, erase_at, erase_found, erase_node}
use ctgfs.Master.PrefixTree.Children.{
  IsSorted, child-nil, child-path, child-erase, erase-All, erase-IsSorted,
}
use ctgfs.Master.PrefixTree.Shape.{
  IsTree, IsChild, FullPath, every-All, All-map, child-same, IsSorted-same, find, then_find,
}
use ctgfs.Master.PrefixTree.Paths.{onto, child-IsChild, then_find-same}

module _ (t : PrefixTree) (g : ℕ) (p : Bytes) where
  unfoldable pub cut_node : ℕ → Node
  cut_node b =
      if b == g
      then record (t.nodes g) { list = erase_at t.nodes (t.nodes g).list p }
      else t.nodes b

  abbrev pub cut : PrefixTree
  cut = record t { nodes = cut_node }

  pub cut-view :
      (b : ℕ)
      → ((cut_node b).is_dir ≡ (t.nodes b).is_dir)
        × ((cut_node b).ino ≡ (t.nodes b).ino)
        × ((cut_node b).path ≡ (t.nodes b).path)
        × ((cut_node b).parent ≡ (t.nodes b).parent)
  unfolding cut_node
  cut-view b = ground arith

  cut-path : (b : ℕ) → (t.nodes b).path ≡ (cut_node b).path
  cut-path b = let (_, _, path, _) = cut-view b in sym path

  cut-dir : (cut_node g).list ≡ erase_at t.nodes (t.nodes g).list p
  unfolding cut_node
  cut-dir = ground arith

  pub cut-other : (b : ℕ) → b ≢ g → (cut_node b).list ≡ (t.nodes b).list
  unfolding cut_node
  cut-other b ne = ground arith

  module _ (full : FullPath) (c : ℕ) (h : IsTree t full) (lt : g < t.size)
      (there : child_at t.nodes (t.nodes g).list p ≡ some c) where
    pub erase-cut : erase_node t g c ≡ cut
    unfolding erase_node cut_node
    erase-cut =
        let named = child-path t.nodes (t.nodes g).list p c there in
        ap (λ q. erase_found t g q (child_at t.nodes (t.nodes g).list q)) named
        ∙ ap (erase_found t g p) there

    pub child-cut_dir :
        (q : Bytes)
        → child_at cut_node (cut_node g).list q
          ≡ (if bytes_eq p q then none else child_at t.nodes (t.nodes g).list q)
    child-cut_dir q =
        ap (λ l. child_at cut_node l q) cut-dir
        ∙ sym (child-same t.nodes cut_node _ q (every-All _ _ cut-path))
        ∙ child-erase t.nodes (t.nodes g).list p c q (h.sorted g lt) there

    pub child-cut_gone : child_at cut_node (cut_node g).list p ≡ none
    child-cut_gone =
        child-cut_dir p
        ∙ ap (λ b. if b then none else child_at t.nodes (t.nodes g).list p) (bytes_eq_refl p)

    pub child-cut_other :
        (b : ℕ) (q : Bytes)
        → b ≢ g
        → child_at cut_node (cut_node b).list q ≡ child_at t.nodes (t.nodes b).list q
    child-cut_other b q ne =
        ap (λ l. child_at cut_node l q) (cut-other b ne)
        ∙ sym (child-same t.nodes cut_node _ q (every-All _ _ cut-path))

    IsChild-kept : (a d : ℕ) → IsChild t full a d → IsChild cut full a d
    IsChild-kept a d k = record {
      later = k.later;
      made = k.made;
      named = k.named ∙ ap (λ q. q ∷ full a) (cut-path d);
      owned = let (_, _, _, parent) = cut-view d in parent ∙ k.owned;
    }

    cut-All : (P : ℕ → Type 0) (a : ℕ) → All P (t.nodes a).list → All P (cut_node a).list
    cut-All P a k = elim (Bool-cases (a == g)) [
      | inl e ↦
          let same : a ≡ g = ground arith in
          rw (same, cut-dir) (erase-All t.nodes P _ p (rw (sym same) k))
      | inr e ↦ rw (cut-other a (ground arith)) k
    ]

    cut-IsSorted : (a : ℕ) → a < t.size → IsSorted cut_node (cut_node a).list
    cut-IsSorted a less =
        IsSorted-same t.nodes cut_node _ (every-All _ _ cut-path) (elim (Bool-cases (a == g)) [
          | inl e ↦
              let same : a ≡ g = ground arith in
              rw (same, cut-dir) (erase-IsSorted t.nodes _ p (h.sorted g lt))
          | inr e ↦ rw (cut-other a (ground arith)) (h.sorted a less)
        ])

    cut_files : (a : ℕ) → a < t.size → (cut_node a).is_dir ≡ false → (cut_node a).list ≡ []
    cut_files a less f =
        let (dir, _, _, _) = cut-view a in
        let empty = h.files a less (sym dir ∙ f) in
        elim (Bool-cases (a == g)) [
          | inl e ↦
              let same : a ≡ g = ground arith in
              let gone : child_at t.nodes [] p ≡ some c = rw (sym empty, same) there in
              absurd (ground (arith, child-nil t.nodes p))
          | inr e ↦ cut-other a (ground arith) ∙ empty
        ]

    pub cut-IsTree : IsTree cut full
    cut-IsTree = record {
      root = let (dir, _, _, _) = cut-view 0 in dir ∙ h.root;
      rooted = h.rooted;
      started = h.started;
      children = λ a less.
          cut-All (IsChild cut full a) a (All-map _ _ _ (IsChild-kept a) (h.children a less));
      sorted = cut-IsSorted;
      files = cut_files;
    }

    module _ (empty : (t.nodes c).list ≡ []) where
      below_gone : (qs : List Bytes) → qs ≢ [] → find t.nodes c qs ≡ none
      unfolding find
      below_gone [] ne = absurd (ne refl)
      below_gone (q ∷ qs) ne =
          ap (λ l. then_find (λ d. find t.nodes d qs) (child_at t.nodes l q)) empty
          ∙ ap (then_find (λ d. find t.nodes d qs)) (child-nil t.nodes q)

      gone_name :
          (qs : List Bytes)
          → onto qs (p ∷ full g) ≢ p ∷ full g
          → then_find (λ d. find cut_node d qs) (child_at cut_node (cut_node g).list p)
            ≡ then_find (λ d. find t.nodes d qs) (child_at t.nodes (t.nodes g).list p)
      gone_name qs ne =
          ap (then_find (λ d. find cut_node d qs)) child-cut_gone
          ∙ sym (below_gone qs (λ e. ne (ap (λ l. onto l (p ∷ full g)) e)))
          ∙ sym (ap (then_find (λ d. find t.nodes d qs)) there)

      pub find-cut_other :
          (a : ℕ) (ds : List Bytes)
          → a < t.size
          → onto ds (full a) ≢ p ∷ full g
          → find cut_node a ds ≡ find t.nodes a ds
      unfolding find
      find-cut_other a [] less ne = refl
      find-cut_other a (q ∷ qs) less ne =
          let below : (x : Option ℕ)
              → x ≡ child_at t.nodes (t.nodes a).list q
              → then_find (λ d. find cut_node d qs) x ≡ then_find (λ d. find t.nodes d qs) x =
            λ x k. then_find-same _ _ x (λ d e.
              let (_, made, named) = child-IsChild t full a q d h less (sym k ∙ e) in
              find-cut_other d qs made (λ k. ne (ap (onto qs) (sym named) ∙ k))) in
          elim (Bool-cases (a == g)) [
            | inl e ↦
                let same : a ≡ g = ground arith in
                elim (Bool-cases (bytes_eq p q)) [
                  | inl k ↦
                      let named = bytes_eq-eq p q k in
                      rw (same, sym named)
                        (gone_name qs (λ r. ne (
                          ap (λ x. onto qs (x ∷ full a)) (sym named)
                          ∙ ap (λ b. onto qs (p ∷ full b)) same
                          ∙ r)))
                  | inr k ↦
                      ap (then_find (λ d. find cut_node d qs)) (
                        ap (λ b. child_at cut_node (cut_node b).list q) same
                        ∙ child-cut_dir q
                        ∙ rw (k, same) refl)
                      ∙ below _ refl
                ]
            | inr e ↦
                ap (then_find (λ d. find cut_node d qs)) (child-cut_other a q (ground arith))
                ∙ below _ refl
          ]

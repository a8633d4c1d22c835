-- ===== src/Master/PrefixTree/Removes.antt =====
-- Remove of src/master/prefix_tree.cc and the map from paths to entries.
use ctgfs.Prelude.{
  ℕ, ◌<◌, ◌≡◌, ◌⊎◌, refl, sym, ◌∙◌, ap, inl, inr, Bool, Option, none, some, List, [], ◌∷◌, ◌++◌,
  ◌==◌, arith, Bool-cases, Option-cases,
}
use ctgfs.Prelude.Bytes.{Bytes, bytes_eq}
use ctgfs.Master.PrefixTree.{Node, PrefixTree, child_at}
use ctgfs.Master.PrefixTree.Children.{child-nil}
use ctgfs.Master.PrefixTree.Shape.{IsTree, IsTree-same, FullPath, find, then_find}
use ctgfs.Master.PrefixTree.Ops.{do_remove}
use ctgfs.Master.PrefixTree.Paths.{onto, child-IsChild}
use ctgfs.Master.PrefixTree.Cut.{
  cut, cut_node, cut-view, cut-IsTree, child-cut_gone, child-cut_other, child-cut_dir,
  find-cut_other,
}
use ctgfs.Master.PrefixTree.Removed.{
  victim, then_victim, leaf_of, if_leaf, cut_at, status_of, do_remove-Removes,
}
use ctgfs.Master.PrefixTree.Spec.{
  entries, view_of, same_path, erased, Removal, gone, missing, occupied,
}
use ctgfs.Master.PrefixTree.Entries.{
  same_path-eq, onto-differs, entries-same, entries_from, find-append, first_child,
}

-- What a victim is: a leaf where the path ends.
pub record IsLeaf (t : PrefixTree) (full : FullPath) (a : ℕ) (ps : List Bytes) (g : ℕ) (p : Bytes)
    (c : ℕ) : Type 0 where
  pub there : g < t.size
  pub child : child_at t.nodes (t.nodes g).list p ≡ some c
  pub empty : (t.nodes c).list ≡ []
  pub ends : onto ps (full a) ≡ p ∷ full g
  pub found : find t.nodes a ps ≡ some c
  pub lost : find (cut_node t g p) a ps ≡ none

leaf_is :
    (a : ℕ) (cur : Bytes) (d : ℕ) (l : List ℕ) (g : ℕ) (p : Bytes) (c : ℕ)
    → leaf_of a cur d l ≡ some (g, p, c)
    → (d ≡ c) × (l ≡ []) × (a ≡ g) × (cur ≡ p)
leaf_is a cur d [] g p c e = ground arith
leaf_is a cur d (b ∷ l) g p c e = absurd (ground arith)

victim-last :
    (nodes : ℕ → Node) (a : ℕ) (cur : Bytes) (g : ℕ) (p : Bytes) (c : ℕ)
    → victim nodes a cur [] ≡ some (g, p, c)
    → (child_at nodes (nodes a).list cur ≡ some c) × ((nodes c).list ≡ []) × (a ≡ g) × (cur ≡ p)
unfolding victim
victim-last nodes a cur g p c e = elim (Option-cases (child_at nodes (nodes a).list cur)) [
  | inl k ↦ absurd (ground arith)
  | inr (d, k) ↦
      let (same, empty, at_g, named) =
        leaf_is a cur d _ g p c (ap (if_leaf nodes a cur) (sym k) ∙ e) in
      (k ∙ ap (λ b. some b) same, ap (λ b. (nodes b).list) (sym same) ∙ empty, at_g, named)
]

victim-below :
    (nodes : ℕ → Node) (a : ℕ) (cur q : Bytes) (qs : List Bytes) (x : Option (ℕ × Bytes × ℕ))
    → victim nodes a cur (q ∷ qs) ≡ x
    → ((child_at nodes (nodes a).list cur ≡ none) × (x ≡ none))
      ⊎ ((c : ℕ) × (child_at nodes (nodes a).list cur ≡ some c) × (victim nodes c q qs ≡ x))
unfolding victim
victim-below nodes a cur q qs x e = elim (Option-cases (child_at nodes (nodes a).list cur)) [
  | inl k ↦ inl (k, ground arith)
  | inr (c, k) ↦ inr (c, k, ap (then_victim (λ d. victim nodes d q qs)) (sym k) ∙ e)
]

module _ (t : PrefixTree) (full : FullPath) (h : IsTree t full) where
  -- A child that is there stays, or leaves.
  child_left :
      (a : ℕ) (cur : Bytes) (g : ℕ) (p : Bytes) (c d : ℕ)
      → g < t.size
      → child_at t.nodes (t.nodes g).list p ≡ some c
      → child_at t.nodes (t.nodes a).list cur ≡ some d
      → (child_at (cut_node t g p) (cut_node t g p a).list cur ≡ some d)
        ⊎ (child_at (cut_node t g p) (cut_node t g p a).list cur ≡ none)
  child_left a cur g p c d lt there k = elim (Bool-cases (a == g)) [
    | inl e ↦
        let same : a ≡ g = ground arith in
        let at_g = child-cut_dir t g p full c h lt there cur in
        elim (Bool-cases (bytes_eq p cur)) [
          | inl n ↦ inr (rw same (at_g ∙ rw n refl))
          | inr n ↦ inl (
              rw same
                (at_g ∙ rw n (ap (λ b. child_at t.nodes (t.nodes b).list cur) (sym same) ∙ k)))
        ]
    | inr e ↦ inl (child-cut_other t g p full c h lt there a cur (ground arith) ∙ k)
  ]

  pub victim-IsLeaf :
      (a : ℕ) (cur : Bytes) (path : List Bytes) (g : ℕ) (p : Bytes) (c : ℕ)
      → a < t.size
      → victim t.nodes a cur path ≡ some (g, p, c)
      → IsLeaf t full a (cur ∷ path) g p c
  unfolding find
  victim-IsLeaf a cur [] g p c lt e =
      let (child, empty, same, named) = victim-last t.nodes a cur g p c e in
      let at_g : child_at t.nodes (t.nodes g).list p ≡ some c = rw (sym same, sym named) child in
      let lost : child_at (cut_node t g p) (cut_node t g p a).list cur ≡ none =
        rw (same, named) (child-cut_gone t g p full c h (rw (sym same) lt) at_g) in
      record {
        there = rw (sym same) lt;
        child = at_g;
        empty = empty;
        ends = ap (λ b. cur ∷ full b) same ∙ ap (λ n. n ∷ full g) named;
        found = ap (then_find (λ d. some d)) child;
        lost = ap (then_find (λ d. some d)) lost;
      }
  victim-IsLeaf a cur (q ∷ qs) g p c lt e = elim (victim-below t.nodes a cur q qs _ e) [
    | inl (k, none_there) ↦ absurd cc
    | inr (d, k, there) ↦
        let (_, made, named) = child-IsChild t full a cur d h lt k in
        let leaf = victim-IsLeaf d q qs g p c made there in
        record {
          there = leaf.there;
          child = leaf.child;
          empty = leaf.empty;
          ends = ap (λ r. onto (q ∷ qs) r) (sym named) ∙ leaf.ends;
          found = ap (then_find (λ b. find t.nodes b (q ∷ qs))) k ∙ leaf.found;
          lost = elim (child_left a cur g p c d leaf.there leaf.child k) [
            | inl kept ↦ ap (then_find (λ b. find (cut_node t g p) b (q ∷ qs))) kept ∙ leaf.lost
            | inr left ↦ ap (then_find (λ b. find (cut_node t g p) b (q ∷ qs))) left
          ];
        }
  ]

  occupied_by :
      (a : ℕ) (cur : Bytes) (c : ℕ) (l : List ℕ)
      → (t.nodes c).list ≡ l
      → leaf_of a cur c l ≡ none
      → (q : Bytes) × (e : Bool × ℕ) × (entries_from t c (q ∷ []) ≡ some e)
  unfolding find
  occupied_by a cur c [] e k = absurd (ground arith)
  occupied_by a cur c (b ∷ l) e k = (
    (t.nodes b).path,
    ((t.nodes b).is_dir, (t.nodes b).ino),
    ap (λ r. view_of t.nodes (then_find (λ d. some d) (child_at t.nodes r (t.nodes b).path))) e
        ∙ ap (λ r. view_of t.nodes (then_find (λ d. some d) r)) (first_child t.nodes b l),
  )

  -- What stands in the way of a removal.
  victim-none :
      (a : ℕ) (cur : Bytes) (path : List Bytes)
      → victim t.nodes a cur path ≡ none
      → (entries_from t a (cur ∷ path) ≡ none)
        ⊎ ((q : Bytes) × (e : Bool × ℕ) × (entries_from t a (cur ∷ (path ++ q ∷ [])) ≡ some e))
  unfolding find victim
  victim-none a cur [] e = elim (Option-cases (child_at t.nodes (t.nodes a).list cur)) [
    | inl k ↦ inl (rw k refl)
    | inr (c, k) ↦ rw k (inr (occupied_by a cur c _ refl (ap (if_leaf t.nodes a cur) (sym k) ∙ e)))
  ]
  victim-none a cur (q ∷ qs) e = elim (victim-below t.nodes a cur q qs _ e) [
    | inl (k, none_there) ↦ inl (rw k refl)
    | inr (d, k, there) ↦ rw k (victim-none d q qs there)
  ]

  left_view : (g : ℕ) (p : Bytes) (x : Option ℕ) → view_of (cut_node t g p) x ≡ view_of t.nodes x
  left_view g p none = refl
  left_view g p (some b) = let (dir, ino, _, _) = cut-view t g p b in cc

  cut-erased :
      (cur : Bytes) (path : List Bytes) (g : ℕ) (p : Bytes) (c : ℕ)
      → IsLeaf t full 0 (cur ∷ path) g p c
      → (ds : List Bytes) → entries (cut t g p) ds ≡ erased (entries t) (cur ∷ path) ds
  unfolding entries
  cut-erased cur path g p c leaf ds = elim (Bool-cases (same_path ds (cur ∷ path))) [
    | inl k ↦
        let same = same_path-eq ds (cur ∷ path) k in
        rw k (
          ap (λ l. view_of (cut_node t g p) (find (cut_node t g p) 0 l)) same
          ∙ ap (view_of (cut_node t g p)) leaf.lost)
    | inr k ↦
        let differs = onto-differs ds (cur ∷ path) k in
        let other =
          find-cut_other t g p full c h leaf.there leaf.child leaf.empty 0 ds h.started (λ r.
            differs (
              ap (onto ds) (sym h.rooted) ∙ r ∙ sym leaf.ends ∙ ap (onto (cur ∷ path)) h.rooted)) in
        rw k (ap (view_of (cut_node t g p)) other ∙ left_view g p (find t.nodes 0 ds))
  ]

  nothing_below :
      (ps : List Bytes) (g : ℕ) (p : Bytes) (c : ℕ)
      → IsLeaf t full 0 ps g p c
      → (q : Bytes) → entries t (ps ++ q ∷ []) ≡ none
  unfolding entries find
  nothing_below ps g p c leaf q = ap (view_of t.nodes) (
      find-append t.nodes 0 ps (q ∷ [])
      ∙ ap (then_find (λ b. find t.nodes b (q ∷ []))) leaf.found
      ∙ ap (λ l. then_find (λ d. some d) (child_at t.nodes l q)) leaf.empty
      ∙ ap (then_find (λ d. some d)) (child-nil t.nodes q))

  is_there :
      (ps : List Bytes) (g : ℕ) (p : Bytes) (c : ℕ)
      → IsLeaf t full 0 ps g p c
      → entries t ps ≡ some ((t.nodes c).is_dir, (t.nodes c).ino)
  unfolding entries
  is_there ps g p c leaf = ap (view_of t.nodes) leaf.found

  cut_at-Removal :
      (cur : Bytes) (path : List Bytes) (x : Option (ℕ × Bytes × ℕ))
      → victim t.nodes 0 cur path ≡ x
      → Removal (entries t) (cur ∷ path) (status_of x) (entries (cut_at t x))
  unfolding entries
  cut_at-Removal cur path none e = elim (victim-none 0 cur path e) [
    | inl k ↦ missing k
    | inr (q, there, k) ↦ occupied q there k
  ]
  cut_at-Removal cur path (some (g, p, c)) e =
      let leaf = victim-IsLeaf 0 cur path g p c h.started e in
      let after : entries (cut t g p) ≡ erased (entries t) (cur ∷ path) =
        λ i ds. cut-erased cur path g p c leaf ds i in
      rw after (gone _ (is_there (cur ∷ path) g p c leaf) (nothing_below (cur ∷ path) g p c leaf))

  pub do_remove-Removal :
      (cur : Bytes) (path : List Bytes)
      → Removal
          (entries t)
          (cur ∷ path)
          (do_remove t 0 cur path).0
          (entries (do_remove t 0 cur path).1)
  do_remove-Removal cur path =
      let (same, status) = do_remove-Removes t full 0 cur path h h.started in
      let after : entries (do_remove t 0 cur path).1
          ≡ entries (cut_at t (victim t.nodes 0 cur path)) =
        λ i ds. sym (entries-same _ _ same ds) i in
      rw (status, after) (cut_at-Removal cur path _ refl)

  cut_at-IsTree :
      (a : ℕ) (cur : Bytes) (path : List Bytes) (x : Option (ℕ × Bytes × ℕ))
      → a < t.size
      → victim t.nodes a cur path ≡ x
      → IsTree (cut_at t x) full
  cut_at-IsTree a cur path none lt e = h
  cut_at-IsTree a cur path (some (g, p, c)) lt e =
      let leaf = victim-IsLeaf a cur path g p c lt e in
      cut-IsTree t g p full c h leaf.there leaf.child

  pub do_remove-IsTree :
      (a : ℕ) (cur : Bytes) (path : List Bytes)
      → a < t.size
      → IsTree (do_remove t a cur path).1 full
  do_remove-IsTree a cur path lt =
      let (same, _) = do_remove-Removes t full a cur path h lt in
      IsTree-same _ _ full same (cut_at-IsTree a cur path _ lt refl)

  cut_at-parent :
      (x : Option (ℕ × Bytes × ℕ)) (b : ℕ)
      → (((cut_at t x).nodes b).parent ≡ (t.nodes b).parent) × ((cut_at t x).size ≡ t.size)
  cut_at-parent none b = (refl, refl)
  cut_at-parent (some (g, p, c)) b = let (_, _, _, parent) = cut-view t g p b in (parent, refl)

  pub do_remove-parent :
      (a : ℕ) (cur : Bytes) (path : List Bytes)
      → a < t.size
      → (b : ℕ)
      → (((do_remove t a cur path).1.nodes b).parent ≡ (t.nodes b).parent)
        × ((do_remove t a cur path).1.size ≡ t.size)
  do_remove-parent a cur path lt b =
      let (same, _) = do_remove-Removes t full a cur path h lt in
      let (parent, size) = cut_at-parent (victim t.nodes a cur path) b in
      (sym (same.parents b) ∙ parent, sym same.sizes ∙ size)

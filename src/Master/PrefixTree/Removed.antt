-- ===== src/Master/PrefixTree/Removed.antt =====
-- What doRemove of src/master/prefix_tree.cc does to the shape of the tree.
use ctgfs.Prelude.{
  ℕ, ◌<◌, ◌≡◌, refl, sym, inl, inr, false, Option, none, some, List, [], ◌∷◌, Bool-cases,
  Option-cases,
}
use ctgfs.Prelude.Bytes.{Bytes}
use ctgfs.Master.PrefixTree.{Node, PrefixTree, Status, ok, prefix_tree_error, child_at, erase_node}
use ctgfs.Master.PrefixTree.Children.{child-nil}
use ctgfs.Master.PrefixTree.Shape.{
  IsSame, IsSame-refl, IsSame-trans, push_up-IsSame, IsTree, FullPath,
}
use ctgfs.Master.PrefixTree.Ops.{remove_last, do_remove}
use ctgfs.Master.PrefixTree.Cut.{cut, erase-cut}
use ctgfs.Master.PrefixTree.Paths.{child-IsChild}

-- The directory, the name and the node that a path ends at, where nothing is below the node.
abbrev pub leaf_of : ℕ → Bytes → ℕ → List ℕ → Option (ℕ × Bytes × ℕ)
leaf_of a p c [] = some (a, p, c)
leaf_of a p c (b ∷ l) = none

abbrev pub if_leaf : (ℕ → Node) → ℕ → Bytes → Option ℕ → Option (ℕ × Bytes × ℕ)
if_leaf nodes a p none = none
if_leaf nodes a p (some c) = leaf_of a p c (nodes c).list

abbrev pub then_victim : (ℕ → Option (ℕ × Bytes × ℕ)) → Option ℕ → Option (ℕ × Bytes × ℕ)
then_victim f none = none
then_victim f (some c) = f c

unfoldable pub victim : (ℕ → Node) → ℕ → Bytes → List Bytes → Option (ℕ × Bytes × ℕ)
victim nodes a p [] = if_leaf nodes a p (child_at nodes (nodes a).list p)
victim nodes a p (q ∷ qs) = then_victim (λ c. victim nodes c q qs) (child_at nodes (nodes a).list p)

abbrev pub cut_at : PrefixTree → Option (ℕ × Bytes × ℕ) → PrefixTree
cut_at t none = t
cut_at t (some (g, p, c)) = cut t g p

abbrev pub status_of : Option (ℕ × Bytes × ℕ) → Status
status_of none = prefix_tree_error
status_of (some v) = ok

file_victim :
    (t : PrefixTree) (full : FullPath) (a : ℕ) (cur : Bytes) (path : List Bytes)
    → IsTree t full
    → a < t.size
    → (t.nodes a).is_dir ≡ false
    → victim t.nodes a cur path ≡ none
unfolding victim
file_victim t full a cur [] h lt e = rw (h.files a lt e, child-nil t.nodes cur) refl
file_victim t full a cur (q ∷ qs) h lt e = rw (h.files a lt e, child-nil t.nodes cur) refl

abbrev Removes : PrefixTree → Option (ℕ × Bytes × ℕ) → Status × PrefixTree → Type 0
Removes t v r = IsSame (cut_at t v) r.1 × (r.0 ≡ status_of v)

remove_last-Removes :
    (t : PrefixTree) (full : FullPath) (a : ℕ) (p : Bytes) (c : ℕ) (l : List ℕ)
    → IsTree t full
    → a < t.size
    → child_at t.nodes (t.nodes a).list p ≡ some c
    → Removes t (leaf_of a p c l) (remove_last t a c l)
remove_last-Removes t full a p c [] h lt e =
    (rw (sym (erase-cut t a p full c h lt e)) (push_up-IsSame (erase_node t a c) a), refl)
remove_last-Removes t full a p c (b ∷ l) h lt e = (IsSame-refl t, refl)

-- Sizes apart, the tree has lost the node, or is as it was.
pub do_remove-Removes :
    (t : PrefixTree) (full : FullPath) (a : ℕ) (cur : Bytes) (path : List Bytes)
    → IsTree t full
    → a < t.size
    → Removes t (victim t.nodes a cur path) (do_remove t a cur path)
unfolding do_remove victim
do_remove-Removes t full a cur [] h lt = elim (Bool-cases (t.nodes a).is_dir) [
  | inl e ↦ elim (Option-cases (child_at t.nodes (t.nodes a).list cur)) [
    | inl k ↦ rw (e, k) (IsSame-refl t, refl)
    | inr (c, k) ↦ rw (e, k) (remove_last-Removes t full a cur c (t.nodes c).list h lt k)
  ]
  | inr e ↦
      let nothing = file_victim t full a cur [] h lt e in rw e (rw nothing (IsSame-refl t, refl))
]
do_remove-Removes t full a cur (q ∷ qs) h lt = elim (Bool-cases (t.nodes a).is_dir) [
  | inl e ↦ elim (Option-cases (child_at t.nodes (t.nodes a).list cur)) [
    | inl k ↦ rw (e, k) (IsSame-refl t, refl)
    | inr (c, k) ↦
        let (_, there, _) = child-IsChild t full a cur c h lt k in
        let (same, status) = do_remove-Removes t full c q qs h there in
        rw (e, k) (IsSame-trans _ _ _ same (push_up-IsSame _ a), status)
  ]
  | inr e ↦
      let nothing = file_victim t full a cur (q ∷ qs) h lt e in
      rw e (rw nothing (IsSame-refl t, refl))
]

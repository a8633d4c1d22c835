-- ===== src/Master/PrefixTree/Entries.antt =====
-- The entries of a tree of src/master/prefix_tree.cc: what changes them, and what does not.
use ctgfs.Prelude.{
  ℕ, ◌<◌, ◌≡◌, ◌≢◌, refl, sym, ◌∙◌, ap, inl, inr, Bool, true, false, Option, none, some, List, [],
  ◌∷◌, ◌++◌, arith, Option-cases,
}
use ctgfs.Prelude.Bytes.{Bytes, bytes_eq_refl, bytes_eq-eq, bytes_lt_irrefl}
use ctgfs.Master.PrefixTree.{Node, PrefixTree, child_at}
use ctgfs.Master.PrefixTree.Children.{child-cons}
use ctgfs.Master.PrefixTree.Shape.{IsSame, IsTree, FullPath, find, find-same, then_find}
use ctgfs.Master.PrefixTree.Paths.{onto, child-IsChild, target}
use ctgfs.Master.PrefixTree.Spec.{Entries, entries, view_of, same_path, creatable}

pub same_path_refl : (ps : List Bytes) → same_path ps ps ≡ true
same_path_refl [] = refl
same_path_refl (p ∷ ps) = rw (bytes_eq_refl p) (same_path_refl ps)

pub same_path-eq : (ps qs : List Bytes) → same_path ps qs ≡ true → ps ≡ qs
same_path-eq [] [] e = refl
same_path-eq [] (q ∷ qs) e = absurd cc
same_path-eq (p ∷ ps) [] e = absurd cc
same_path-eq (p ∷ ps) (q ∷ qs) e = ground (arith, bytes_eq-eq p q, same_path-eq ps qs)

onto-onto : (ps acc qs : List Bytes) → onto (onto ps acc) qs ≡ onto acc (ps ++ qs)
onto-onto [] acc qs = refl
onto-onto (p ∷ ps) acc qs = onto-onto ps (p ∷ acc) qs

append_nil : (ps : List Bytes) → ps ++ [] ≡ ps
append_nil [] = refl
append_nil (p ∷ ps) = ap (λ l. p ∷ l) (append_nil ps)

onto_injective : (ps qs : List Bytes) → onto ps [] ≡ onto qs [] → ps ≡ qs
onto_injective ps qs e =
    let back : (rs : List Bytes) → onto (onto rs []) [] ≡ rs =
      λ rs. onto-onto rs [] [] ∙ append_nil rs in
    sym (back ps) ∙ ap (λ l. onto l []) e ∙ back qs

pub onto-differs : (ds es : List Bytes) → same_path ds es ≡ false → onto ds [] ≢ onto es []
onto-differs ds es e r =
    let same = onto_injective ds es r in let again = same_path_refl ds in absurd cc

pub view-same :
    (t u : PrefixTree) → IsSame t u → (x : Option ℕ) → view_of t.nodes x ≡ view_of u.nodes x
view-same t u s none = refl
view-same t u s (some a) = let dirs = s.dirs a in let inos = s.inos a in cc

pub entries-same : (t u : PrefixTree) → IsSame t u → (ds : List Bytes) → entries t ds ≡ entries u ds
unfolding entries
entries-same t u s ds =
    ap (view_of t.nodes) (find-same t u 0 ds s) ∙ view-same t u s (find u.nodes 0 ds)

pub find-made :
    (t : PrefixTree) (full : FullPath) (a : ℕ) (ds : List Bytes) (b : ℕ)
    → IsTree t full
    → a < t.size
    → find t.nodes a ds ≡ some b
    → b < t.size
unfolding find
find-made t full a [] b h lt e = ground arith
find-made t full a (q ∷ qs) b h lt e = elim (Option-cases (child_at t.nodes (t.nodes a).list q)) [
  | inl k ↦ absurd (ground arith)
  | inr (c, k) ↦
      let (_, made, _) = child-IsChild t full a q c h lt k in
      find-made t full c qs b h made (ap (then_find (λ d. find t.nodes d qs)) (sym k) ∙ e)
]

pub find-append :
    (nodes : ℕ → Node) (a : ℕ) (ps qs : List Bytes)
    → find nodes a (ps ++ qs) ≡ then_find (λ b. find nodes b qs) (find nodes a ps)
unfolding find
find-append nodes a [] qs = refl
find-append nodes a (p ∷ ps) qs = elim (Option-cases (child_at nodes (nodes a).list p)) [
  | inl k ↦ rw k refl
  | inr (c, k) ↦ rw k (find-append nodes c ps qs)
]

abbrev pub entries_from : PrefixTree → ℕ → Entries
entries_from t a ds = view_of t.nodes (find t.nodes a ds)

abbrev pub is_target : Option (ℕ × Bytes) → Bool
is_target none = false
is_target (some g) = true

-- A path can be made exactly where it ends at a free name in a directory.
pub creatable-target :
    (t : PrefixTree) (a : ℕ) (cur : Bytes) (path : List Bytes)
    → creatable (entries_from t a) cur path ≡ is_target (target t.nodes a cur path)
unfolding find target
creatable-target t a cur [] = elim (Option-cases (child_at t.nodes (t.nodes a).list cur)) [
  | inl k ↦ ground arith
  | inr (c, k) ↦ ground arith
]
creatable-target t a cur (q ∷ qs) = elim (Option-cases (child_at t.nodes (t.nodes a).list cur)) [
  | inl k ↦ rw k refl
  | inr (c, k) ↦ rw k (creatable-target t c q qs)
]

pub first_child :
    (nodes : ℕ → Node) (b : ℕ) (l : List ℕ) → child_at nodes (b ∷ l) (nodes b).path ≡ some b
first_child nodes b l =
    child-cons nodes b l (nodes b).path
    ∙ rw (bytes_lt_irrefl (nodes b).path, bytes_eq_refl (nodes b).path) refl

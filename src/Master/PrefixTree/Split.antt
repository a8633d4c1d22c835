-- ===== src/Master/PrefixTree/Split.antt =====
-- splitPath of src/master/prefix_tree.cc, again and again.
use ctgfs.Prelude.{
  ℕ, ◌≡◌, ap, ◌∙◌, sym, refl, none, some, Option, List, [], ◌∷◌, inl, inr, Bool-cases, ◌==◌,
}
use ctgfs.Prelude.Bytes.{Bytes}
use ctgfs.Master.PrefixTree.{split_path, names}

abbrev split_names : Bytes × Option Bytes → Bytes × List Bytes
split_names (cur, none) = (cur, [])
split_names (cur, some rest) = let (next, path) = names rest in (cur, next ∷ path)

longer_first :
    (c : ℕ) (cur : Bytes) (rest : Option Bytes)
    → split_names (c ∷ cur, rest) ≡ (c ∷ (split_names (cur, rest)).0, (split_names (cur, rest)).1)
longer_first c cur none = refl
longer_first c cur (some rest) = refl

-- The names of a path are its first name, and those of the rest.
pub names-split_path : (s : Bytes) → names s ≡ split_names (split_path s)
unfolding names split_path
names-split_path [] = refl
names-split_path (c ∷ s) = elim (Bool-cases (c == 47)) [
  | inl e ↦ rw e refl
  | inr e ↦ rw e (
      ap (λ n. (c ∷ n.0, n.1)) (names-split_path s)
      ∙ sym (longer_first c (split_path s).0 (split_path s).1))
]

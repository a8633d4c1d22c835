-- ===== src/Master/PrefixTree/Inserted.antt =====
-- What doInsert of src/master/prefix_tree.cc does to the shape of the tree.
use ctgfs.Prelude.{
  ℕ, ◌<◌, ◌≤◌, ◌≡◌, refl, sym, ◌∙◌, inl, inr, Bool, true, false, Option, none, some, List, [], ◌∷◌,
  arith, Bool-cases, Option-cases,
}
use ctgfs.Prelude.Bytes.{Bytes}
use ctgfs.Master.PrefixTree.{PrefixTree, child_at}
use ctgfs.Master.PrefixTree.Children.{child-nil}
use ctgfs.Master.PrefixTree.Shape.{
  IsSame, IsSame-refl, IsSame-trans, push_up-IsSame, IsStill, IsStill-trans, domain-IsStill, IsTree,
  IsTree-same, FullPath,
}
use ctgfs.Master.PrefixTree.Domains.{
  Info, get_near_by_domain_id, do_get_near_by_domain_id, near_from, place_near,
}
use ctgfs.Master.PrefixTree.Ops.{made, create_node, insert_last, do_insert}
use ctgfs.Master.PrefixTree.Grow.{IsOpen, grown, grown_path, made-grown, grown-IsTree, grown-view}
use ctgfs.Master.PrefixTree.Paths.{child-IsChild, target, target-IsOpen, if_free}

near_from-IsStill : (t : PrefixTree) (ptr : ℕ) (r : Bool × Info) → IsStill t (near_from t ptr r).1
near_from-IsStill t ptr (false, some at) = domain-IsStill t ptr _ _
near_from-IsStill t ptr (false, none) = domain-IsStill t ptr _ _
near_from-IsStill t ptr (true, info) = domain-IsStill t ptr _ _

place_near-IsStill : (t : PrefixTree) (n : ℕ) → IsStill t (place_near t n).1
unfolding place_near get_near_by_domain_id
place_near-IsStill t n =
    let r = do_get_near_by_domain_id t.size t.nodes 0 n true none in
    IsStill-trans _ _ _ (near_from-IsStill t n r) (domain-IsStill _ n _ _)

pub create_node-IsStill :
    (t : PrefixTree) (a : ℕ) (p : Bytes) (ino : ℕ) (is_dir : Bool) (sz : ℕ) (d : Option ℕ)
    → IsStill (made t a p ino is_dir sz) (create_node t a p ino is_dir sz d).1
create_node-IsStill t a p ino is_dir sz (some d) = record { same = IsSame-refl _; szs = λ b. refl }
create_node-IsStill t a p ino is_dir sz none = place_near-IsStill _ t.size

module _ (ino : ℕ) (is_dir : Bool) (sz : ℕ) where
  abbrev pub grown_at : PrefixTree → Option (ℕ × Bytes) → PrefixTree
  grown_at t none = t
  grown_at t (some (g, p)) = grown t g p ino is_dir sz

  insert_last-IsSame :
      (t : PrefixTree) (full : FullPath) (a : ℕ) (p : Bytes) (d : Option ℕ)
      → IsTree t full
      → a < t.size
      → (t.nodes a).is_dir ≡ true
      → (x : Option ℕ) → child_at t.nodes (t.nodes a).list p ≡ x
      → IsSame (grown_at t (if_free a p x)) (insert_last t a p ino is_dir sz d x).2
  insert_last-IsSame t full a p d h lt dir (some c) e = push_up-IsSame t a
  insert_last-IsSame t full a p d h lt dir none e =
      let o : IsOpen t a p ino is_dir sz full = record {
        tree = h;
        there = lt;
        dir = dir;
        absent = e;
      } in
      rw (sym (made-grown t a p ino is_dir sz full o))
        (IsSame-trans _ _ _ (create_node-IsStill t a p ino is_dir sz d).same (push_up-IsSame _ a))

  file_target :
      (t : PrefixTree) (full : FullPath) (a : ℕ) (cur : Bytes) (path : List Bytes)
      → IsTree t full
      → a < t.size
      → (t.nodes a).is_dir ≡ false
      → target t.nodes a cur path ≡ none
  unfolding target
  file_target t full a cur [] h lt e = rw e refl
  file_target t full a cur (q ∷ qs) h lt e = rw (h.files a lt e, child-nil t.nodes cur) refl

  -- Sizes and domains apart, the tree has the new node, or is as it was.
  pub do_insert-IsSame :
      (t : PrefixTree) (full : FullPath) (a : ℕ) (cur : Bytes) (path : List Bytes) (d : Option ℕ)
      → IsTree t full
      → a < t.size
      → IsSame (grown_at t (target t.nodes a cur path)) (do_insert t a cur path ino is_dir sz d).2
  unfolding do_insert target
  do_insert-IsSame t full a cur [] d h lt = elim (Bool-cases (t.nodes a).is_dir) [
    | inl e ↦ rw e (insert_last-IsSame t full a cur _ h lt e _ refl)
    | inr e ↦ rw e (IsSame-refl t)
  ]
  do_insert-IsSame t full a cur (q ∷ qs) d h lt = elim (Bool-cases (t.nodes a).is_dir) [
    | inl e ↦ elim (Option-cases (child_at t.nodes (t.nodes a).list cur)) [
      | inl k ↦ rw (e, k) (IsSame-refl t)
      | inr (c, k) ↦
          let (_, there, _) = child-IsChild t full a cur c h lt k in
          elim (Bool-cases (t.nodes c).is_dir) [
            | inl f ↦
                rw (e, k, f)
                  (IsSame-trans _ _ _ (do_insert-IsSame t full c q qs _ h there)
                    (push_up-IsSame _ a))
            | inr f ↦ rw (e, k, f) (rw (file_target t full c q qs h there f) (IsSame-refl t))
          ]
    ]
    | inr e ↦
        let nothing = file_target t full a cur (q ∷ qs) h lt e in rw e (rw nothing (IsSame-refl t))
  ]

  grown_at-IsTree :
      (t : PrefixTree) (full : FullPath) (a : ℕ) (cur : Bytes) (path : List Bytes)
      (x : Option (ℕ × Bytes))
      → IsTree t full
      → a < t.size
      → target t.nodes a cur path ≡ x
      → (after : FullPath) × IsTree (grown_at t x) after
  grown_at-IsTree t full a cur path none h lt e = (full, h)
  grown_at-IsTree t full a cur path (some (g, p)) h lt e =
      let (free, _) = target-IsOpen t ino is_dir sz full h a cur path g p lt e in
      (grown_path t g p ino is_dir sz full, grown-IsTree t g p ino is_dir sz full free)

  pub do_insert-IsTree :
      (t : PrefixTree) (full : FullPath) (a : ℕ) (cur : Bytes) (path : List Bytes) (d : Option ℕ)
      → IsTree t full
      → a < t.size
      → (after : FullPath) × IsTree (do_insert t a cur path ino is_dir sz d).2 after
  do_insert-IsTree t full a cur path d h lt =
      let (after, tree) = grown_at-IsTree t full a cur path (target t.nodes a cur path) h lt refl in
      (after, IsTree-same _ _ after (do_insert-IsSame t full a cur path d h lt) tree)

  grown_at-parent :
      (t : PrefixTree) (x : Option (ℕ × Bytes)) (b : ℕ)
      → b < t.size
      → ((grown_at t x).nodes b).parent ≡ (t.nodes b).parent
  grown_at-parent t none b lt = refl
  grown_at-parent t (some (g, p)) b lt =
      let (_, _, parent) = grown-view t g p ino is_dir sz b lt in parent

  grown_at-size : (t : PrefixTree) (x : Option (ℕ × Bytes)) → t.size ≤ (grown_at t x).size
  grown_at-size t none = omega arith
  grown_at-size t (some g) = omega arith

  -- What was there has the parent that it had.
  pub do_insert-parent :
      (t : PrefixTree) (full : FullPath) (a : ℕ) (cur : Bytes) (path : List Bytes) (d : Option ℕ)
      → IsTree t full
      → a < t.size
      → (b : ℕ) → b < t.size
      → (((do_insert t a cur path ino is_dir sz d).2.nodes b).parent ≡ (t.nodes b).parent)
        × (b < (do_insert t a cur path ino is_dir sz d).2.size)
  do_insert-parent t full a cur path d h lt b less =
      let same = do_insert-IsSame t full a cur path d h lt in
      let larger = grown_at-size t (target t.nodes a cur path) in
      (
        sym (same.parents b) ∙ grown_at-parent t (target t.nodes a cur path) b less,
        rw (sym same.sizes) (ground arith),
      )

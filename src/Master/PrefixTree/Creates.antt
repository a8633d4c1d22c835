-- ===== src/Master/PrefixTree/Creates.antt =====
-- Create of src/master/prefix_tree.cc and the map from paths to entries.
use ctgfs.Prelude.{
  ℕ, ◌<◌, ◌≡◌, refl, sym, ◌∙◌, ap, inl, inr, Bool, Option, none, some, List, [], ◌∷◌, arith,
  if◌then◌else◌, Bool-cases, Option-cases,
}
use ctgfs.Prelude.Bytes.{Bytes}
use ctgfs.Master.PrefixTree.{PrefixTree, ok, child_at}
use ctgfs.Master.PrefixTree.Shape.{IsTree, FullPath, find}
use ctgfs.Master.PrefixTree.Ops.{insert_last, do_insert}
use ctgfs.Master.PrefixTree.Grow.{grown, grown_node, grown-new, grown-view}
use ctgfs.Master.PrefixTree.Paths.{onto, target, target-IsOpen, find-other, find-new}
use ctgfs.Master.PrefixTree.Inserted.{grown_at, do_insert-IsSame}
use ctgfs.Master.PrefixTree.Spec.{entries, view_of, same_path, creatable, created, create_status}
use ctgfs.Master.PrefixTree.Entries.{
  same_path-eq, onto-differs, entries-same, find-made, creatable-target, is_target,
}

can_make :
    (t : PrefixTree) (cur : Bytes) (path : List Bytes)
    → creatable (entries t) cur path ≡ is_target (target t.nodes 0 cur path)
unfolding entries
can_make t cur path = creatable-target t 0 cur path

module _ (ino : ℕ) (is_dir : Bool) (sz : ℕ) where
  old_view :
      (t : PrefixTree) (full : FullPath) (g : ℕ) (p : Bytes)
      → (x : Option ℕ) → ((b : ℕ) → x ≡ some b → b < t.size)
      → view_of (grown_node t g p ino is_dir sz) x ≡ view_of t.nodes x
  old_view t full g p none h = refl
  old_view t full g p (some b) h =
      let (dir, same, _) = grown-view t g p ino is_dir sz b (h b refl) in cc

  grown-created :
      (t : PrefixTree) (full : FullPath) (cur : Bytes) (path : List Bytes) (g : ℕ) (p : Bytes)
      → IsTree t full
      → target t.nodes 0 cur path ≡ some (g, p)
      → (ds : List Bytes)
      → entries (grown t g p ino is_dir sz) ds
        ≡ (if same_path ds (cur ∷ path) then some (is_dir, ino) else entries t ds)
  unfolding entries
  grown-created t full cur path g p h e ds =
      let (free, ends) = target-IsOpen t ino is_dir sz full h 0 cur path g p h.started e in
      elim (Bool-cases (same_path ds (cur ∷ path))) [
        | inl k ↦
            let same = same_path-eq ds (cur ∷ path) k in
            let there = find-new t ino is_dir sz full h 0 cur path g p h.started e in
            let new = grown-new t g p ino is_dir sz free.there in
            rw k (
              ap
                (λ l.
                  view_of (grown_node t g p ino is_dir sz)
                    (find (grown_node t g p ino is_dir sz) 0 l))
                same
              ∙ ap (view_of (grown_node t g p ino is_dir sz)) there
              ∙ ap (λ n. some (n.is_dir, n.ino)) new)
        | inr k ↦
            let other = find-other t g p ino is_dir sz full free 0 ds h.started (λ r.
              onto-differs ds (cur ∷ path) k
                (ap (onto ds) (sym h.rooted) ∙ r ∙ sym ends ∙ ap (onto (cur ∷ path)) h.rooted)) in
            rw k (
              ap (view_of (grown_node t g p ino is_dir sz)) other
              ∙ old_view t full g p (find t.nodes 0 ds)
                  (λ b there. find-made t full 0 ds b h h.started there))
      ]

  grown_at-created :
      (t : PrefixTree) (full : FullPath) (cur : Bytes) (path : List Bytes) (x : Option (ℕ × Bytes))
      → IsTree t full
      → target t.nodes 0 cur path ≡ x
      → (ds : List Bytes)
      → entries (grown_at ino is_dir sz t x) ds ≡ created (entries t) cur path (is_dir, ino) ds
  grown_at-created t full cur path none h e ds =
      let not_made = can_make t cur path ∙ ap is_target e in ground arith
  grown_at-created t full cur path (some (g, p)) h e ds =
      let is_made = can_make t cur path ∙ ap is_target e in
      let there = grown-created t full cur path g p h e ds in ground arith

  pub do_insert-created :
      (t : PrefixTree) (full : FullPath) (cur : Bytes) (path : List Bytes) (d : Option ℕ)
      → IsTree t full
      → (ds : List Bytes)
      → entries (do_insert t 0 cur path ino is_dir sz d).2 ds
        ≡ created (entries t) cur path (is_dir, ino) ds
  do_insert-created t full cur path d h ds =
      sym (entries-same _ _ (do_insert-IsSame ino is_dir sz t full 0 cur path d h h.started) ds)
      ∙ grown_at-created t full cur path (target t.nodes 0 cur path) h refl ds

  last_ok :
      (t : PrefixTree) (a : ℕ) (p : Bytes) (d : Option ℕ) (x : Option ℕ)
      → (insert_last t a p ino is_dir sz d x).0 ≡ ok
  last_ok t a p d none = refl
  last_ok t a p d (some c) = refl

  pub do_insert-status :
      (t : PrefixTree) (full : FullPath) (cur : Bytes) (path : List Bytes) (d : Option ℕ)
      → IsTree t full
      → (do_insert t 0 cur path ino is_dir sz d).0 ≡ create_status (entries t) cur path
  unfolding do_insert entries find
  do_insert-status t full cur [] d h = rw h.root (last_ok t 0 cur _ _)
  do_insert-status t full cur (q ∷ qs) d h =
      elim (Option-cases (child_at t.nodes (t.nodes 0).list cur)) [
        | inl k ↦ rw (h.root, k) refl
        | inr (c, k) ↦ elim (Bool-cases (t.nodes c).is_dir) [
          | inl f ↦ rw (h.root, k, f) refl
          | inr f ↦ rw (h.root, k, f) refl
        ]
      ]

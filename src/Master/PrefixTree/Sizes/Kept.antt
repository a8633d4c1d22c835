-- ===== src/Master/PrefixTree/Sizes/Kept.antt =====
-- Each operation of src/master/prefix_tree.cc and the sizes of directories.
use ctgfs.Prelude.{
  ℕ, ◌+◌, ◌%◌, ◌^◌, ◌<◌, ◌≤◌, ◌≡◌, ◌≢◌, refl, sym, ◌∙◌, ap, inl, inr, Bool, true, Option, none,
  some, List, [], ◌∷◌, ◌==◌, arith, Bool-cases, Option-cases,
}
use mathlib.Core.Option.{some-injective}
use ctgfs.Prelude.Bytes.{Bytes}
use ctgfs.Master.PrefixTree.{PrefixTree, prefix_tree, Status, child_at, push_up, names}
use ctgfs.Master.PrefixTree.Shape.{IsStill, IsTree, IsTree-same, FullPath, All-map, every-All}
use ctgfs.Master.PrefixTree.Grow.{
  IsOpen, fresh, grown, grown_node, grown_path, grown-new, grown-other, made-grown, grown-IsTree,
}
use ctgfs.Master.PrefixTree.Domains.{regist_new_kv}
use ctgfs.Master.PrefixTree.Cut.{cut, cut_node, cut-other, cut-IsTree, erase-cut}
use ctgfs.Master.PrefixTree.Servers.{registrations, two_registrations}
use ctgfs.Master.PrefixTree.Ops.{
  Op, creates, removes, registers, run, if_registered, create, remove, made, create_node,
  insert_last, or_domain, remove_last, do_insert, do_remove,
}
use ctgfs.Master.PrefixTree.Paths.{child-IsChild, child-parent}
use ctgfs.Master.PrefixTree.Inserted.{create_node-IsStill, do_insert-IsTree, do_insert-parent}
use ctgfs.Master.PrefixTree.Removes.{do_remove-IsTree, do_remove-parent}
use ctgfs.Master.PrefixTree.Refines.{
  prefix_tree-IsTree, regist_new_kv-IsStill, with_status-some, none_there,
}
use ctgfs.Master.PrefixTree.Sizes.{
  total, AddsUp, AddsUp-kept, AddsUp-still, SumsBut, push_up-SumsBut,
}

abbrev Sums : PrefixTree → Type 0
Sums t = (x : ℕ) → x < t.size → AddsUp t x

-- The child's sum was the only one that might be wrong; now it is the directory's.
above-SumsBut :
    (u : PrefixTree) (full : FullPath) (a c : ℕ)
    → IsTree u full
    → (u.nodes c).parent ≡ some a
    → SumsBut u c
    → SumsBut (push_up u a) a
above-SumsBut u full a c h owned inner =
    push_up-SumsBut u full a h
      (λ x less ne apart. inner x less (λ e. ne (some-injective _ _ (sym e ∙ owned))))

module _ (ino : ℕ) (is_dir : Bool) (sz : ℕ) where
  grown-sz :
      (t : PrefixTree) (g : ℕ) (p : Bytes) (b : ℕ)
      → b < t.size
      → ((t.nodes b).sz ≡ (grown_node t g p ino is_dir sz b).sz)
  unfolding grown_node fresh
  grown-sz t g p b lt = ground arith

  grown-Sums :
      (t : PrefixTree) (full : FullPath) (g : ℕ) (p : Bytes)
      → IsOpen t g p ino is_dir sz full
      → Sums t
      → (x : ℕ) → x < t.size + 1
      → x ≢ g
      → AddsUp (grown t g p ino is_dir sz) x
  grown-Sums t full g p o sums x lt ne = elim (Bool-cases (x == t.size)) [
    | inl e ↦
        let same : x ≡ t.size = ground arith in
        rw same (inl (ap (λ n. n.list) (grown-new t g p ino is_dir sz o.there)))
    | inr e ↦
        let less : x < t.size = ground arith in
        let kept = grown-other t g p ino is_dir sz x less ne in
        AddsUp-kept t (grown t g p ino is_dir sz) x (sym (ap (λ n. n.list) kept))
          (sym (ap (λ n. n.sz) kept))
          (All-map _ _ _ (λ c k. grown-sz t g p c k.made) (o.tree.children x less)) (sums x less)
  ]

  insert_last-SumsBut :
      (t : PrefixTree) (full : FullPath) (a : ℕ) (p : Bytes) (d : Option ℕ)
      → IsTree t full
      → Sums t
      → a < t.size
      → (t.nodes a).is_dir ≡ true
      → (x : Option ℕ) → child_at t.nodes (t.nodes a).list p ≡ x
      → SumsBut (insert_last t a p ino is_dir sz d x).2 a
  insert_last-SumsBut t full a p d h sums lt dir (some c) e =
      push_up-SumsBut t full a h (λ x less ne apart. sums x less)
  insert_last-SumsBut t full a p d h sums lt dir none e =
      let o : IsOpen t a p ino is_dir sz full = record {
        tree = h;
        there = lt;
        dir = dir;
        absent = e;
      } in
      let grows = made-grown t a p ino is_dir sz full o in
      let still : IsStill (grown t a p ino is_dir sz) (create_node t a p ino is_dir sz d).1 =
        rw (sym grows) (create_node-IsStill t a p ino is_dir sz d) in
      push_up-SumsBut _ (grown_path t a p ino is_dir sz full) a
        (IsTree-same _ _ _ still.same (grown-IsTree t a p ino is_dir sz full o))
        (λ x less ne apart.
          AddsUp-still _ _ x still (grown-Sums t full a p o sums x (rw still.same.sizes less) ne))

  do_insert-SumsBut :
      (t : PrefixTree) (full : FullPath) (a : ℕ) (cur : Bytes) (path : List Bytes) (d : Option ℕ)
      → IsTree t full
      → Sums t
      → a < t.size
      → SumsBut (do_insert t a cur path ino is_dir sz d).2 a
  unfolding do_insert
  do_insert-SumsBut t full a cur [] d h sums lt = elim (Bool-cases (t.nodes a).is_dir) [
    | inl e ↦ rw e (insert_last-SumsBut t full a cur _ h sums lt e _ refl)
    | inr e ↦ rw e (λ x less ne. sums x less)
  ]
  do_insert-SumsBut t full a cur (q ∷ qs) d h sums lt = elim (Bool-cases (t.nodes a).is_dir) [
    | inl e ↦ elim (Option-cases (child_at t.nodes (t.nodes a).list cur)) [
      | inl k ↦ rw (e, k) (λ x less ne. sums x less)
      | inr (c, k) ↦ elim (Bool-cases (t.nodes c).is_dir) [
        | inl f ↦
            let (_, made, _) = child-IsChild t full a cur c h lt k in
            let inner =
              do_insert-SumsBut t full c q qs (or_domain d (t.nodes a).domain_id) h sums made in
            let (after, tree) =
              do_insert-IsTree ino is_dir sz t full c q qs (or_domain d (t.nodes a).domain_id) h
                made in
            let (parent, _) =
              do_insert-parent ino is_dir sz t full c q qs (or_domain d (t.nodes a).domain_id) h
                made c made in
            rw (e, k, f)
              (above-SumsBut _ after a c tree (parent ∙ child-parent t full a cur c h lt k) inner)
        | inr f ↦ rw (e, k, f) (λ x less ne. sums x less)
      ]
    ]
    | inr e ↦ rw e (λ x less ne. sums x less)
  ]

cut-sz : (t : PrefixTree) (g : ℕ) (p : Bytes) (b : ℕ) → (cut_node t g p b).sz ≡ (t.nodes b).sz
unfolding cut_node
cut-sz t g p b = ground arith

none_is_some : (x : ℕ) → none ≡ some x → ⊥
none_is_some x e = ground arith

cut-Sums :
    (t : PrefixTree) (full : FullPath) (g : ℕ) (p : Bytes) (x : ℕ)
    → x ≢ g
    → AddsUp t x
    → AddsUp (cut t g p) x
cut-Sums t full g p x ne sum =
    AddsUp-kept t (cut t g p) x (sym (cut-other t g p x ne)) (sym (cut-sz t g p x))
      (every-All _ _ (λ c. sym (cut-sz t g p c))) sum

remove_last-SumsBut :
    (t : PrefixTree) (full : FullPath) (a : ℕ) (p : Bytes) (c : ℕ) (l : List ℕ)
    → IsTree t full
    → Sums t
    → a < t.size
    → child_at t.nodes (t.nodes a).list p ≡ some c
    → SumsBut (remove_last t a c l).1 a
remove_last-SumsBut t full a p c [] h sums lt e =
    let cuts = erase-cut t a p full c h lt e in
    let sums_but : SumsBut (push_up (cut t a p) a) a =
      push_up-SumsBut (cut t a p) full a (cut-IsTree t a p full c h lt e)
        (λ x less ne apart. cut-Sums t full a p x ne (sums x less)) in
    rw cuts sums_but
remove_last-SumsBut t full a p c (b ∷ l) h sums lt e = λ x less ne. sums x less

do_remove-SumsBut :
    (t : PrefixTree) (full : FullPath) (a : ℕ) (cur : Bytes) (path : List Bytes)
    → IsTree t full
    → Sums t
    → a < t.size
    → SumsBut (do_remove t a cur path).1 a
unfolding do_remove
do_remove-SumsBut t full a cur [] h sums lt = elim (Bool-cases (t.nodes a).is_dir) [
  | inl e ↦ elim (Option-cases (child_at t.nodes (t.nodes a).list cur)) [
    | inl k ↦ rw (e, k) (λ x less ne. sums x less)
    | inr (c, k) ↦ rw (e, k) (remove_last-SumsBut t full a cur c _ h sums lt k)
  ]
  | inr e ↦ rw e (λ x less ne. sums x less)
]
do_remove-SumsBut t full a cur (q ∷ qs) h sums lt = elim (Bool-cases (t.nodes a).is_dir) [
  | inl e ↦ elim (Option-cases (child_at t.nodes (t.nodes a).list cur)) [
    | inl k ↦ rw (e, k) (λ x less ne. sums x less)
    | inr (c, k) ↦
        let (_, made, _) = child-IsChild t full a cur c h lt k in
        let inner = do_remove-SumsBut t full c q qs h sums made in
        let (parent, _) = do_remove-parent t full h c q qs made c in
        rw (e, k)
          (above-SumsBut _ full a c (do_remove-IsTree t full h c q qs made)
            (parent ∙ child-parent t full a cur c h lt k) inner)
  ]
  | inr e ↦ rw e (λ x less ne. sums x less)
]

-- Nothing has the root as a child.
root-Sums : (t : PrefixTree) → (t.nodes 0).parent ≡ none → SumsBut t 0 → Sums t
root-Sums t e h x lt = h x lt (λ k. none_is_some x (sym e ∙ k))

run-Sums :
    (t : PrefixTree) (full : FullPath) (ops : List Op) (ss : List Status) (u : PrefixTree)
    → IsTree t full
    → (t.nodes 0).parent ≡ none
    → Sums t
    → run t ops ≡ some (ss, u)
    → Sums u
unfolding run create remove
run-Sums t full [] ss u h root sums e =
    let there : u ≡ t = sym (ap (λ r. r.1) (some-injective _ _ e)) in rw there sums
run-Sums t full (creates s ino is_dir sz ∷ ops) ss u h root sums e =
    let (rest, ran, _) = with_status-some _ _ ss u e in
    let (after, tree) =
      do_insert-IsTree ino is_dir sz t full 0 (names s).0 (names s).1 none h h.started in
    let (parent, _) =
      do_insert-parent ino is_dir sz t full 0 (names s).0 (names s).1 none h h.started 0
        h.started in
    let inner =
      do_insert-SumsBut ino is_dir sz t full 0 (names s).0 (names s).1 none h sums h.started in
    run-Sums _ after ops rest u tree (parent ∙ root)
      (root-Sums (do_insert t 0 (names s).0 (names s).1 ino is_dir sz none).2 (parent ∙ root) inner)
      ran
run-Sums t full (removes s ∷ ops) ss u h root sums e =
    let (rest, ran, _) = with_status-some _ _ ss u e in
    let tree = do_remove-IsTree t full h 0 (names s).0 (names s).1 h.started in
    let (parent, _) = do_remove-parent t full h 0 (names s).0 (names s).1 h.started 0 in
    let inner = do_remove-SumsBut t full 0 (names s).0 (names s).1 h sums h.started in
    run-Sums _ full ops rest u tree (parent ∙ root)
      (root-Sums (do_remove t 0 (names s).0 (names s).1).1 (parent ∙ root) inner) ran
run-Sums t full (registers id mem ∷ ops) ss u h root sums e =
    elim (Option-cases (regist_new_kv t id mem)) [
      | inl k ↦ absurd (none_there (ss, u) (ap (if_registered (λ v. run v ops)) (sym k) ∙ e))
      | inr (v, k) ↦
          let still = regist_new_kv-IsStill t id mem v k in
          run-Sums v full ops ss u (IsTree-same t v full still.same h)
            (sym (still.same.parents 0) ∙ root)
            (λ x less. AddsUp-still t v x still (sums x (rw still.same.sizes less)))
            (ap (if_registered (λ w. run w ops)) (sym k) ∙ e)
    ]

sums :
    (ops : List Op) (ss : List Status) (t : PrefixTree)
    → run prefix_tree ops ≡ some (ss, t)
    → (a : ℕ) → a < t.size
    → (t.nodes a).list ≢ []
    → (t.nodes a).sz ≡ total t.nodes (t.nodes a).list % 2 ^ 64
sums ops ss t e a lt ne =
    elim (run-Sums prefix_tree (λ b. []) ops ss t prefix_tree-IsTree refl (λ x less. inl refl) e a
      lt) [ inl empty ↦ absurd (ne empty) | inr sum ↦ sum ]

-- Whatever is created and removed, and with at most two servers registered, beginning with the root alone: the run
-- ends without a read at `end()`, and a directory that has children has the sum of their sizes, at 64 bits.
pub sizes_add_up :
    (ops : List Op) (a : ℕ)
    → registrations ops ≤ 2
    → (ss : List Status) × (t : PrefixTree) × (run prefix_tree ops ≡ some (ss, t))
      × (a < t.size
          → (t.nodes a).list ≢ []
          → (t.nodes a).sz ≡ total t.nodes (t.nodes a).list % 2 ^ 64)
sizes_add_up ops a few =
    let ((ss, t), e) = two_registrations ops few in (ss, t, e, sums ops ss t e a)

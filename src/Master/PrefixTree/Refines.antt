-- ===== src/Master/PrefixTree/Refines.antt =====
-- The operations of src/master/prefix_tree.cc, one after the other, on the map from paths to entries.
use ctgfs.Prelude.{
  ℕ, zero, suc, ◌≤◌, ◌≡◌, refl, sym, ◌∙◌, ap, inl, inr, Option, none, some, List, [], ◌∷◌, arith,
  Option-cases,
}
use mathlib.Core.Option.{some-injective}
use ctgfs.Prelude.Bytes.{Bytes}
use ctgfs.Master.PrefixTree.{PrefixTree, KvInfo, prefix_tree, Status, names}
use ctgfs.Master.PrefixTree.Children.{child-nil}
use ctgfs.Master.PrefixTree.Shape.{
  IsStill, kvs-IsStill, domain-IsStill, IsTree, IsTree-same, FullPath, find, then_find,
}
use ctgfs.Master.PrefixTree.Domains.{regist_new_kv, registered, placed_kv}
use ctgfs.Master.PrefixTree.Ops.{
  Op, creates, removes, registers, with_status, if_registered, run, create, remove, do_insert,
}
use ctgfs.Master.PrefixTree.Spec.{entries, view_of, only_root, Follows, stays, makes, drops, adds}
use ctgfs.Master.PrefixTree.Servers.{registrations, two_registrations}
use ctgfs.Master.PrefixTree.Entries.{entries-same}
use ctgfs.Master.PrefixTree.Creates.{do_insert-created, do_insert-status}
use ctgfs.Master.PrefixTree.Inserted.{do_insert-IsTree}
use ctgfs.Master.PrefixTree.Removes.{do_remove-Removal, do_remove-IsTree}

pub prefix_tree-IsTree : IsTree prefix_tree (λ a. [])
prefix_tree-IsTree = record {
  root = refl;
  rooted = refl;
  started = omega arith;
  children = λ a lt. tt;
  sorted = λ a lt. tt;
  files = λ a lt e. refl;
}

entries-prefix_tree : (ds : List Bytes) → entries prefix_tree ds ≡ only_root ds
unfolding entries find
entries-prefix_tree [] = refl
entries-prefix_tree (p ∷ ps) =
    ap (λ x. view_of prefix_tree.nodes (then_find (λ c. find prefix_tree.nodes c ps) x))
      (child-nil prefix_tree.nodes p)

placed-IsStill :
    (t : PrefixTree) (kv : KvInfo) (x : Option (ℕ × ℕ)) (u : PrefixTree)
    → placed_kv t kv x ≡ some u
    → IsStill t u
placed-IsStill t kv none u e = absurd (ground arith)
placed-IsStill t kv (some (zero, i)) u e = rw (sym (some-injective _ _ e)) (kvs-IsStill t _)
placed-IsStill t kv (some (suc m, i)) u e = rw (sym (some-injective _ _ e)) (kvs-IsStill t _)

registered-IsStill :
    (t : PrefixTree) (id mem : ℕ) (kvs : List KvInfo) (u : PrefixTree)
    → registered t id mem kvs ≡ some u
    → IsStill t u
registered-IsStill t id mem [] u e = rw (sym (some-injective _ _ e)) (domain-IsStill t 0 _ _)
registered-IsStill t id mem (k ∷ []) u e = rw (sym (some-injective _ _ e)) (kvs-IsStill t _)
registered-IsStill t id mem (k ∷ l ∷ kvs) u e = placed-IsStill t _ _ u e

pub regist_new_kv-IsStill :
    (t : PrefixTree) (id mem : ℕ) (u : PrefixTree) → regist_new_kv t id mem ≡ some u → IsStill t u
unfolding regist_new_kv
regist_new_kv-IsStill t id mem u e = registered-IsStill t id mem t.kv_list u e

pub with_status-some :
    (s : Status) (x : Option (List Status × PrefixTree)) (ss : List Status) (u : PrefixTree)
    → with_status s x ≡ some (ss, u)
    → (rest : List Status) × (x ≡ some (rest, u)) × (ss ≡ s ∷ rest)
with_status-some s none ss u e = absurd (ground arith)
with_status-some s (some (rest, v)) ss u e =
    let same = some-injective _ _ e in
    (rest, ap (λ r. some (rest, r.1)) same, sym (ap (λ r. r.0) same))

pub none_there : (r : List Status × PrefixTree) → none ≡ some r → ⊥
none_there r e = ground arith

run-Follows :
    (t : PrefixTree) (full : FullPath) (ops : List Op) (ss : List Status) (u : PrefixTree)
    → IsTree t full
    → run t ops ≡ some (ss, u)
    → Follows (entries t) ops ss (entries u) × ((after : FullPath) × IsTree u after)
unfolding run create remove
run-Follows t full [] ss u h e =
    let same = some-injective _ _ e in
    let no_status : ss ≡ [] = sym (ap (λ r. r.0) same) in
    let there : u ≡ t = sym (ap (λ r. r.1) same) in
    rw (no_status, there) (stays (entries t), (full, h))
run-Follows t full (creates s ino is_dir sz ∷ ops) ss u h e =
    let (rest, ran, listed) = with_status-some _ _ ss u e in
    let (after, tree) =
      do_insert-IsTree ino is_dir sz t full 0 (names s).0 (names s).1 none h h.started in
    let (follows, ends) = run-Follows _ after ops rest u tree ran in
    let made : entries (do_insert t 0 (names s).0 (names s).1 ino is_dir sz none).2 ≡ _ =
      λ i ds. do_insert-created ino is_dir sz t full (names s).0 (names s).1 none h ds i in
    let status = do_insert-status ino is_dir sz t full (names s).0 (names s).1 none h in
    (rw (listed, status) (makes s ino is_dir sz (rw (sym made) follows)), ends)
run-Follows t full (removes s ∷ ops) ss u h e =
    let (rest, ran, listed) = with_status-some _ _ ss u e in
    let tree = do_remove-IsTree t full h 0 (names s).0 (names s).1 h.started in
    let (follows, ends) = run-Follows _ full ops rest u tree ran in
    (rw listed (drops s (do_remove-Removal t full h (names s).0 (names s).1) follows), ends)
run-Follows t full (registers id mem ∷ ops) ss u h e =
    elim (Option-cases (regist_new_kv t id mem)) [
      | inl k ↦ absurd (none_there (ss, u) (ap (if_registered (λ v. run v ops)) (sym k) ∙ e))
      | inr (v, k) ↦
          let same = (regist_new_kv-IsStill t id mem v k).same in
          let (follows, ends) =
            run-Follows v full ops ss u (IsTree-same t v full same h)
              (ap (if_registered (λ w. run w ops)) (sym k) ∙ e) in
          let kept : entries t ≡ entries v = λ i ds. entries-same t v same ds i in
          (rw kept (adds id mem follows), ends)
    ]

refines :
    (ops : List Op) (ss : List Status) (t : PrefixTree)
    → run prefix_tree ops ≡ some (ss, t)
    → Follows only_root ops ss (entries t)
refines ops ss t e =
    let (follows, _) = run-Follows prefix_tree (λ a. []) ops ss t prefix_tree-IsTree e in
    let begins : only_root ≡ entries prefix_tree = λ i ds. sym (entries-prefix_tree ds) i in
    rw begins follows

-- Whatever is created and removed, and with at most two servers registered, beginning with the root alone: the run
-- ends without a read at `end()`, and each status and what each path leads to are those of the map. A creation
-- adds the path where it is free and its directory is there, and changes nothing else; it returns `ok`, unless
-- the first of several names is not a directory. A removal takes out a path with nothing below it, or changes
-- nothing and returns an error.
pub tree_refines :
    (ops : List Op)
    → registrations ops ≤ 2
    → (ss : List Status) × (t : PrefixTree) × (run prefix_tree ops ≡ some (ss, t))
      × Follows only_root ops ss (entries t)
tree_refines ops few =
    let ((ss, t), e) = two_registrations ops few in (ss, t, e, refines ops ss t e)

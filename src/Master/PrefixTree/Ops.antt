-- ===== src/Master/PrefixTree/Ops.antt =====
-- The operations of src/master/prefix_tree.cc on paths.
use ctgfs.Prelude.{ℕ, ◌+◌, Bool, Option, none, some, List, [], ◌∷◌, if◌then◌else◌}
use ctgfs.Prelude.Bytes.{Bytes}
use ctgfs.Master.PrefixTree.{
  PrefixTree, Status, ok, prefix_tree_error, new_node, set_node, names, child_at, insert_node,
  erase_node, push_up,
}
use ctgfs.Master.PrefixTree.Domains.{regist_new_kv, place_near}

-- The status, the domain and the tree.
abbrev pub Result : Type 0
Result = Status × Option ℕ × PrefixTree

abbrev pub allocated : PrefixTree → ℕ → Bytes → ℕ → Bool → ℕ → PrefixTree
allocated t a p ino is_dir sz = record (set_node t t.size (new_node is_dir p ino (some a) sz)) {
  size = t.size + 1;
}

abbrev pub made : PrefixTree → ℕ → Bytes → ℕ → Bool → ℕ → PrefixTree
made t a p ino is_dir sz = insert_node (allocated t a p ino is_dir sz) a t.size

abbrev pub create_node : PrefixTree → ℕ → Bytes → ℕ → Bool → ℕ → Option ℕ → Option ℕ × PrefixTree
create_node t a p ino is_dir sz (some d) = (some d, made t a p ino is_dir sz)
create_node t a p ino is_dir sz none = place_near (made t a p ino is_dir sz) t.size

abbrev pub or_domain : Option ℕ → Option ℕ → Option ℕ
or_domain (some d) own = some d
or_domain none own = own

-- The last name: a node that is there already stays as it is.
abbrev pub insert_last : PrefixTree → ℕ → Bytes → ℕ → Bool → ℕ → Option ℕ → Option ℕ → Result
insert_last t a p ino is_dir sz d (some c) = (ok, d, push_up t a)
insert_last t a p ino is_dir sz d none =
    let (d', t') = create_node t a p ino is_dir sz d in (ok, d', push_up t' a)

-- `path` is what stands behind `cur_path`. The status of the inner call is dropped.
unfoldable pub do_insert : PrefixTree → ℕ → Bytes → List Bytes → ℕ → Bool → ℕ → Option ℕ → Result
do_insert t a cur_path [] ino is_dir sz domain_id =
    if (t.nodes a).is_dir
    then insert_last t a cur_path ino is_dir sz (or_domain domain_id (t.nodes a).domain_id)
        (child_at t.nodes (t.nodes a).list cur_path)
    else (prefix_tree_error, domain_id, t)
do_insert t a cur_path (next ∷ path) ino is_dir sz domain_id =
    let d = or_domain domain_id (t.nodes a).domain_id in
    if (t.nodes a).is_dir
    then elim (child_at t.nodes (t.nodes a).list cur_path) [
      | none ↦ (prefix_tree_error, d, t)
      | some c ↦
          let (_, d', t') = do_insert t c next path ino is_dir sz d in
          if (t.nodes c).is_dir then (ok, d', push_up t' a) else (prefix_tree_error, d, t)
    ]
    else (prefix_tree_error, domain_id, t)

unfoldable pub create : PrefixTree → Bytes → ℕ → Bool → ℕ → Result
create t path ino is_dir sz =
    let (cur_path, rest) = names path in do_insert t 0 cur_path rest ino is_dir sz none

abbrev pub remove_last : PrefixTree → ℕ → ℕ → List ℕ → Status × PrefixTree
remove_last t a c [] = (ok, push_up (erase_node t a c) a)
remove_last t a c (b ∷ bs) = (prefix_tree_error, t)

unfoldable pub do_remove : PrefixTree → ℕ → Bytes → List Bytes → Status × PrefixTree
do_remove t a cur_path [] =
    if (t.nodes a).is_dir
    then elim (child_at t.nodes (t.nodes a).list cur_path) [
      | none ↦ (prefix_tree_error, t)
      | some c ↦ remove_last t a c (t.nodes c).list
    ]
    else (prefix_tree_error, t)
do_remove t a cur_path (next ∷ path) =
    if (t.nodes a).is_dir
    then elim (child_at t.nodes (t.nodes a).list cur_path) [
      | none ↦ (prefix_tree_error, t)
      | some c ↦ let (s, t') = do_remove t c next path in (s, push_up t' a)
    ]
    else (prefix_tree_error, t)

unfoldable pub remove : PrefixTree → Bytes → Status × PrefixTree
remove t path = let (cur_path, rest) = names path in do_remove t 0 cur_path rest

pub data Op : Type 0 where
  creates : Bytes → ℕ → Bool → ℕ → Op
  removes : Bytes → Op
  registers : ℕ → ℕ → Op

abbrev pub with_status :
    Status → Option (List Status × PrefixTree) → Option (List Status × PrefixTree)
with_status s none = none
with_status s (some (ss, t)) = some (s ∷ ss, t)

abbrev pub if_registered :
    (PrefixTree → Option (List Status × PrefixTree))
    → Option PrefixTree
    → Option (List Status × PrefixTree)
if_registered rest none = none
if_registered rest (some t) = rest t

-- The statuses of creations and removals. `none` is a registration that reads at `end()`.
unfoldable pub run : PrefixTree → List Op → Option (List Status × PrefixTree)
run t [] = some ([], t)
run t (creates path ino is_dir sz ∷ ops) =
    let (s, _, t') = create t path ino is_dir sz in with_status s (run t' ops)
run t (removes path ∷ ops) = let (s, t') = remove t path in with_status s (run t' ops)
run t (registers id mem ∷ ops) = if_registered (λ t'. run t' ops) (regist_new_kv t id mem)

-- ===== src/Master/PrefixTree/Examples.antt =====
-- Runs of the operations of src/master/prefix_tree.cc.
use ctgfs.Prelude.{
  ◌<◌, ◌≡◌, ◌≢◌, refl, ◌%◌, ◌^◌, true, false, Option, none, some, List, [], ◌∷◌, arith,
}
use ctgfs.Prelude.Bytes.{bytes_eq, bytes_lt}
use ctgfs.Master.PrefixTree.{
  PrefixTree, prefix_tree, Status, ok, prefix_tree_error, names, lower_bound, child_at, insert_at,
  insert_node, erase_at, erase_node, sum_sizes, push_up,
}
use ctgfs.Master.PrefixTree.Domains.{regist_new_kv}
use ctgfs.Master.PrefixTree.Ops.{
  Op, creates, removes, registers, do_insert, do_remove, create, remove, run,
}
use ctgfs.Master.PrefixTree.Spec.{Follows, only_root, entries}
use ctgfs.Master.PrefixTree.Refines.{tree_refines}
use ctgfs.Master.PrefixTree.Sizes.{total}
use ctgfs.Master.PrefixTree.Sizes.Kept.{sizes_add_up}

-- A directory `d`, `d/b` and `d/a` in it, a file below a directory that is not there, and removals.
abbrev some_ops : List Op
some_ops =
    registers 0 100
    ∷ creates (100 ∷ []) 2 true 0
    ∷ creates (100 ∷ 47 ∷ 98 ∷ []) 3 false 5
    ∷ creates (100 ∷ 47 ∷ 97 ∷ []) 4 false 7
    ∷ creates (100 ∷ 47 ∷ 101 ∷ 47 ∷ 97 ∷ []) 5 false 9
    ∷ removes (100 ∷ [])
    ∷ removes (100 ∷ 47 ∷ 98 ∷ [])
    ∷ []

abbrev ended : Option (List Status × PrefixTree) → List Status × PrefixTree
ended none = ([], prefix_tree)
ended (some r) = r

abbrev final : PrefixTree
final = (ended (run prefix_tree some_ops)).1

abbrev statuses : List Status
statuses = ok ∷ ok ∷ ok ∷ ok ∷ prefix_tree_error ∷ ok ∷ []

some-run : run prefix_tree some_ops ≡ some (statuses, final)
unfolding run create remove do_insert do_remove regist_new_kv names lower_bound child_at insert_at
    insert_node erase_at erase_node sum_sizes push_up bytes_eq bytes_lt
some-run = refl

tree_refines_example :
    (ss : List Status) × (t : PrefixTree) × (run prefix_tree some_ops ≡ some (ss, t))
    × Follows only_root some_ops ss (entries t)
tree_refines_example = tree_refines some_ops (omega arith)

final_nodes : (final.size ≡ 4) × ((final.nodes 1).list ≡ 3 ∷ []) × ((final.nodes 1).sz ≡ 7)
unfolding run create remove do_insert do_remove regist_new_kv names lower_bound child_at insert_at
    insert_node erase_at erase_node sum_sizes push_up bytes_eq bytes_lt
final_nodes = (refl, refl, refl)

two_names : names (100 ∷ 47 ∷ 98 ∷ []) ≡ (100 ∷ [], (98 ∷ []) ∷ [])
unfolding names
two_names = refl

-- The directory `d` is the node 1, with the 7 bytes of `d/a`.
sizes_add_up_example :
    (ss : List Status) × (t : PrefixTree) × (run prefix_tree some_ops ≡ some (ss, t))
    × (1 < t.size
        → (t.nodes 1).list ≢ []
        → (t.nodes 1).sz ≡ total t.nodes (t.nodes 1).list % 2 ^ 64)
sizes_add_up_example = sizes_add_up some_ops 1 (omega arith)

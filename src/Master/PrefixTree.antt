-- ===== src/Master/PrefixTree.antt =====
-- The tree of paths that the master keeps: src/master/prefix_tree.cc, src/master/prefix_tree_node.cc and their
-- headers. A shared pointer is the number of its node; numbers grow in the order of making, and the root is 0.
pub mod Domains
pub mod Ops
pub mod Children
pub mod Shape
pub mod Grow
pub mod Paths
pub mod Inserted
pub mod Cut
pub mod Removed
pub mod Spec
pub mod Entries
pub mod Creates
pub mod Removes
pub mod Servers
pub mod Refines
pub mod Sizes
pub mod Search
pub mod Split
mod Examples
use ctgfs.Prelude.{
  ℕ, ◌+◌, ◌%◌, ◌^◌, Bool, true, false, Option, none, some, List, [], ◌∷◌, ◌==◌, if◌then◌else◌,
}
use ctgfs.Prelude.Bytes.{Bytes, bytes_eq, bytes_lt}

-- A `domain_id` of -1 is `none`. The list of a directory is in the order of the set's comparison; a file has none.
pub record Node : Type 0 where
  pub is_dir : Bool
  pub path : Bytes
  pub ino : ℕ
  pub sz : ℕ
  pub domain_id : Option ℕ
  pub parent : Option ℕ
  pub list : List ℕ

pub record KvInfo : Type 0 where
  pub id : ℕ
  pub sum_memory : ℕ
  pub overweighed_tag_cnt : ℕ
  pub domain_node_list : List ℕ

-- `nodes` has what each pointer points to; `size` is the next number.
pub record PrefixTree : Type 0 where
  pub nodes : ℕ → Node
  pub size : ℕ
  pub kv_list : List KvInfo

pub data Status : Type 0 where
  ok prefix_tree_error : Status

abbrev pub new_node : Bool → Bytes → ℕ → Option ℕ → ℕ → Node
new_node is_dir path ino parent sz = record {
  is_dir = is_dir;
  path = path;
  ino = ino;
  sz = sz;
  domain_id = none;
  parent = parent;
  list = [];
}

-- The root alone.
abbrev pub prefix_tree : PrefixTree
prefix_tree = record { nodes = λ a. new_node true [] 0 none 0; size = 1; kv_list = [] }

abbrev pub set_node : PrefixTree → ℕ → Node → PrefixTree
set_node t a n = record t { nodes = λ b. if b == a then n else t.nodes b }

abbrev pub set_domain_id : PrefixTree → ℕ → Option ℕ → PrefixTree
set_domain_id t a d = set_node t a (record (t.nodes a) { domain_id = d })

-- What stands before the first '/', and what behind it, when there is one.
unfoldable pub split_path : Bytes → Bytes × Option Bytes
split_path [] = ([], none)
split_path (c ∷ s) =
    let (cur, rest) = split_path s in if c == 47 then ([], some s) else (c ∷ cur, rest)

-- `split_path` again and again: the first name, and the names behind it.
unfoldable pub names : Bytes → Bytes × List Bytes
names [] = ([], [])
names (c ∷ s) = let (cur, path) = names s in if c == 47 then ([], cur ∷ path) else (c ∷ cur, path)

-- `lower_bound`: the first that is not less; `none` is `end()`.
unfoldable pub lower_bound : (ℕ → Node) → List ℕ → Bytes → Option ℕ
lower_bound nodes [] p = none
lower_bound nodes (a ∷ l) p =
    let rest = lower_bound nodes l p in if bytes_lt (nodes a).path p then rest else some a

abbrev pub at_pos : (ℕ → Node) → Bytes → Option ℕ → Option ℕ
at_pos nodes p none = none
at_pos nodes p (some a) = if bytes_eq (nodes a).path p then some a else none

-- The child of that name.
unfoldable pub child_at : (ℕ → Node) → List ℕ → Bytes → Option ℕ
child_at nodes l p = at_pos nodes p (lower_bound nodes l p)

unfoldable pub insert_at : (ℕ → Node) → List ℕ → ℕ → List ℕ
insert_at nodes [] n = n ∷ []
insert_at nodes (a ∷ l) n =
    let rest = insert_at nodes l n in
    if bytes_lt (nodes a).path (nodes n).path then a ∷ rest else n ∷ a ∷ l

abbrev pub insert_found : PrefixTree → ℕ → ℕ → Option ℕ → PrefixTree
insert_found t a n (some c) = t
insert_found t a n none =
    set_node t a (record (t.nodes a) { list = insert_at t.nodes (t.nodes a).list n })

-- A set keeps one node of a name.
unfoldable pub insert_node : PrefixTree → ℕ → ℕ → PrefixTree
insert_node t a n = insert_found t a n (child_at t.nodes (t.nodes a).list (t.nodes n).path)

unfoldable pub erase_at : (ℕ → Node) → List ℕ → Bytes → List ℕ
erase_at nodes [] p = []
erase_at nodes (a ∷ l) p =
    let rest = erase_at nodes l p in if bytes_lt (nodes a).path p then a ∷ rest else l

abbrev pub erase_found : PrefixTree → ℕ → Bytes → Option ℕ → PrefixTree
erase_found t a p none = t
erase_found t a p (some c) =
    set_node t a (record (t.nodes a) { list = erase_at t.nodes (t.nodes a).list p })

unfoldable pub erase_node : PrefixTree → ℕ → ℕ → PrefixTree
erase_node t a n =
    erase_found t a (t.nodes n).path (child_at t.nodes (t.nodes a).list (t.nodes n).path)

-- The sum wraps at 64 bits.
unfoldable pub sum_sizes : (ℕ → Node) → List ℕ → ℕ → ℕ
sum_sizes nodes [] sz = sz
sum_sizes nodes (a ∷ l) sz = sum_sizes nodes l ((sz + (nodes a).sz) % 2 ^ 64)

unfoldable pub push_up : PrefixTree → ℕ → PrefixTree
push_up t a = set_node t a (record (t.nodes a) { sz = sum_sizes t.nodes (t.nodes a).list 0 })

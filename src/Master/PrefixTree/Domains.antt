-- ===== src/Master/PrefixTree/Domains.antt =====
-- The key-value servers in src/master/prefix_tree.cc: how one registers, and which of them a new node goes to.
use ctgfs.Prelude.{
  ℕ, zero, suc, Bool, true, false, Option, none, some, List, [], ◌∷◌, ◌++◌, ltb, ◌==◌,
  if◌then◌else◌,
}
use ctgfs.Master.PrefixTree.{Node, KvInfo, PrefixTree, set_domain_id}

abbrev kv_info : ℕ → ℕ → List ℕ → KvInfo
kv_info id sum_memory l = record {
  id = id;
  sum_memory = sum_memory;
  overweighed_tag_cnt = 0;
  domain_node_list = l;
}

-- `max_res` and `solve_pos` behind the loop, in which `nxt_pos` is one ahead of `it`, the position `i`:
-- `none` is a read at `end()`.
unfoldable pub solve_pos : List KvInfo → ℕ → ℕ × ℕ → Option (ℕ × ℕ)
solve_pos [] i best = some best
solve_pos (it ∷ []) i best = none
solve_pos (it ∷ nxt ∷ kvs) i best =
    solve_pos (nxt ∷ kvs) (suc i)
      (if ltb best.0 nxt.overweighed_tag_cnt then (nxt.overweighed_tag_cnt, i) else best)

abbrev insert_kv : List KvInfo → ℕ → KvInfo → List KvInfo
insert_kv kvs zero kv = kv ∷ kvs
insert_kv [] (suc i) kv = kv ∷ []
insert_kv (k ∷ kvs) (suc i) kv = k ∷ insert_kv kvs i kv

abbrev pub placed_kv : PrefixTree → KvInfo → Option (ℕ × ℕ) → Option PrefixTree
placed_kv t kv none = none
placed_kv t kv (some (zero, i)) = some (record t { kv_list = t.kv_list ++ kv ∷ [] })
placed_kv t kv (some (suc max_res, i)) = some (record t { kv_list = insert_kv t.kv_list i kv })

abbrev pub registered : PrefixTree → ℕ → ℕ → List KvInfo → Option PrefixTree
registered t id sum_memory [] =
    some (record (set_domain_id t 0 (some id)) { kv_list = kv_info id sum_memory (0 ∷ []) ∷ [] })
registered t id sum_memory (k ∷ []) =
    some (record t { kv_list = k ∷ kv_info id sum_memory [] ∷ [] })
registered t id sum_memory (k ∷ l ∷ kvs) =
    placed_kv t (kv_info id sum_memory []) (solve_pos (k ∷ l ∷ kvs) 0 (0, 0))

unfoldable pub regist_new_kv : PrefixTree → ℕ → ℕ → Option PrefixTree
regist_new_kv t id sum_memory = registered t id sum_memory t.kv_list

-- The domain and the node that the search has met last.
abbrev pub Info : Type 0
Info = Option (ℕ × ℕ)

abbrev pub each_child : (ℕ → Info → Bool × Info) → List ℕ → Info → Bool × Info
each_child visit [] info = (true, info)
each_child visit (c ∷ cs) info =
    let (more, met) = visit c info in
    let rest = each_child visit cs met in if more then rest else (false, met)

abbrev pub rev : List ℕ → List ℕ
rev [] = []
rev (a ∷ l) = rev l ++ a ∷ []

abbrev pub in_order : Bool → List ℕ → List ℕ
in_order true l = rev l
in_order false l = l

abbrev pub visit_node : ℕ → Option ℕ → Info → Bool × Info → Bool × Info
visit_node cur none info below = below
visit_node cur (some d) info below = (true, some (d, cur))

-- The fuel bounds the depth of the tree.
unfoldable pub do_get_near_by_domain_id : ℕ → (ℕ → Node) → ℕ → ℕ → Bool → Info → Bool × Info
do_get_near_by_domain_id zero nodes cur target is_reverse info = (true, info)
do_get_near_by_domain_id (suc fuel) nodes cur target is_reverse info =
    if cur == target
    then (false, info)
    else visit_node cur (nodes cur).domain_id info (
        each_child (λ c i. do_get_near_by_domain_id fuel nodes c target is_reverse i)
          (in_order is_reverse (nodes cur).list) info)

abbrev pub repeat_before : ℕ → List ℕ → List ℕ
repeat_before ptr [] = []
repeat_before ptr (a ∷ l) = if a == ptr then ptr ∷ a ∷ l else a ∷ repeat_before ptr l

abbrev occurs : ℕ → List ℕ → Bool
occurs ptr [] = false
occurs ptr (a ∷ l) = if a == ptr then true else occurs ptr l

-- The first server of that id whose list has the node.
abbrev pub repeat_in : ℕ → ℕ → (List ℕ → List ℕ) → List KvInfo → List KvInfo
repeat_in d ptr f [] = []
repeat_in d ptr f (k ∷ kvs) =
    if k.id == d
    then if occurs ptr k.domain_node_list
      then record k { domain_node_list = f k.domain_node_list } ∷ kvs
      else k ∷ repeat_in d ptr f kvs
    else k ∷ repeat_in d ptr f kvs

abbrev pub domain_of : Info → Option ℕ
domain_of none = none
domain_of (some (d, at)) = some d

abbrev pub repeated : ℕ → (List ℕ → List ℕ) → Info → List KvInfo → List KvInfo
repeated ptr f none kvs = kvs
repeated ptr f (some (d, at)) kvs = repeat_in d ptr f kvs

abbrev pub near_set : PrefixTree → ℕ → (List ℕ → List ℕ) → Info → PrefixTree
near_set t ptr f info = record (set_domain_id t ptr (domain_of info)) {
  kv_list = repeated ptr f info t.kv_list;
}

abbrev pub near_forward : PrefixTree → ℕ → Info → Info × PrefixTree
near_forward t ptr info =
    let (_, found) = do_get_near_by_domain_id t.size t.nodes 0 ptr false info in
    (found, near_set t ptr (λ l. ptr ∷ l) found)

abbrev pub near_from : PrefixTree → ℕ → Bool × Info → Info × PrefixTree
near_from t ptr (false, some at) = (some at, near_set t ptr (repeat_before ptr) (some at))
near_from t ptr (false, none) = near_forward t ptr none
near_from t ptr (true, info) = near_forward t ptr info

-- Backwards, and forwards when this does not end at the node with a domain met on the way.
unfoldable pub get_near_by_domain_id : PrefixTree → ℕ → Info × PrefixTree
get_near_by_domain_id t ptr =
    near_from t ptr (do_get_near_by_domain_id t.size t.nodes 0 ptr true none)

-- Before the element that stands before `at`, or in front.
abbrev place_after : ℕ → ℕ → ℕ → List ℕ → List ℕ
place_after n at pos [] = n ∷ pos ∷ []
place_after n at pos (a ∷ l) = if a == at then n ∷ pos ∷ a ∷ l else pos ∷ place_after n at a l

abbrev pub place : ℕ → ℕ → List ℕ → List ℕ
place n at [] = n ∷ []
place n at (a ∷ l) = if a == at then n ∷ a ∷ l else place_after n at a l

abbrev pub place_in : ℕ → ℕ → ℕ → List KvInfo → List KvInfo
place_in n d at [] = []
place_in n d at (k ∷ kvs) =
    if k.id == d
    then record k { domain_node_list = place n at k.domain_node_list } ∷ kvs
    else k ∷ place_in n d at kvs

abbrev pub placed : ℕ → Info → List KvInfo → List KvInfo
placed n none kvs = kvs
placed n (some (d, at)) kvs = place_in n d at kvs

-- What `createNode` does for a node that no directory above it has a domain for.
unfoldable pub place_near : PrefixTree → ℕ → Option ℕ × PrefixTree
place_near t n =
    let (info, found) = get_near_by_domain_id t n in
    (
      domain_of info,
      record (set_domain_id found n (domain_of info)) { kv_list = placed n info found.kv_list },
    )

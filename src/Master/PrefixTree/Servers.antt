-- ===== src/Master/PrefixTree/Servers.antt =====
-- How many servers the tree of src/master/prefix_tree.cc has.
use ctgfs.Prelude.{
  ℕ, suc, ◌+◌, ◌≤◌, ◌≡◌, refl, ◌∙◌, inl, inr, Bool, true, false, Option, none, some, List, [], ◌∷◌,
  arith, length, Bool-cases, Option-cases,
}
use ctgfs.Prelude.Bytes.{Bytes}
use ctgfs.Master.PrefixTree.{
  PrefixTree, KvInfo, Status, names, child_at, insert_found, insert_node, erase_found, erase_node,
  push_up, prefix_tree,
}
use ctgfs.Master.PrefixTree.Domains.{
  Info, repeat_in, repeated, near_from, do_get_near_by_domain_id, get_near_by_domain_id, place_in,
  placed, place_near, solve_pos, registered, regist_new_kv,
}
use ctgfs.Master.PrefixTree.Ops.{
  Op, creates, removes, registers, allocated, made, create_node, insert_last, do_insert, create,
  remove_last, do_remove, remove, with_status, run,
}

abbrev pub servers : PrefixTree → ℕ
servers t = length t.kv_list

length-repeat_in :
    (d ptr : ℕ) (f : List ℕ → List ℕ) (kvs : List KvInfo)
    → length (repeat_in d ptr f kvs) ≡ length kvs
length-repeat_in d ptr f [] = refl
length-repeat_in d ptr f (k ∷ kvs) = ground (arith, length-repeat_in d ptr f kvs)

length-repeated :
    (ptr : ℕ) (f : List ℕ → List ℕ) (info : Info) (kvs : List KvInfo)
    → length (repeated ptr f info kvs) ≡ length kvs
length-repeated ptr f none kvs = refl
length-repeated ptr f (some (d, at)) kvs = length-repeat_in d ptr f kvs

length-place_in : (n d at : ℕ) (kvs : List KvInfo) → length (place_in n d at kvs) ≡ length kvs
length-place_in n d at [] = refl
length-place_in n d at (k ∷ kvs) = ground (arith, length-place_in n d at kvs)

length-placed : (n : ℕ) (info : Info) (kvs : List KvInfo) → length (placed n info kvs) ≡ length kvs
length-placed n none kvs = refl
length-placed n (some (d, at)) kvs = length-place_in n d at kvs

servers-near_from :
    (t : PrefixTree) (ptr : ℕ) (r : Bool × Info) → servers (near_from t ptr r).1 ≡ servers t
servers-near_from t ptr (false, some at) = length-repeated ptr _ (some at) t.kv_list
servers-near_from t ptr (false, none) = length-repeated ptr _ _ t.kv_list
servers-near_from t ptr (true, info) = length-repeated ptr _ _ t.kv_list

servers-place_near : (t : PrefixTree) (n : ℕ) → servers (place_near t n).1 ≡ servers t
unfolding place_near get_near_by_domain_id
servers-place_near t n =
    length-placed n _ _
    ∙ servers-near_from t n (do_get_near_by_domain_id t.size t.nodes 0 n true none)

servers-insert_found :
    (t : PrefixTree) (a n : ℕ) (c : Option ℕ) → servers (insert_found t a n c) ≡ servers t
servers-insert_found t a n none = refl
servers-insert_found t a n (some c) = refl

servers-made :
    (t : PrefixTree) (a : ℕ) (p : Bytes) (ino : ℕ) (is_dir : Bool) (sz : ℕ)
    → servers (made t a p ino is_dir sz) ≡ servers t
unfolding insert_node
servers-made t a p ino is_dir sz = servers-insert_found (allocated t a p ino is_dir sz) a t.size _

servers-create_node :
    (t : PrefixTree) (a : ℕ) (p : Bytes) (ino : ℕ) (is_dir : Bool) (sz : ℕ) (d : Option ℕ)
    → servers (create_node t a p ino is_dir sz d).1 ≡ servers t
servers-create_node t a p ino is_dir sz none =
    servers-place_near (made t a p ino is_dir sz) t.size ∙ servers-made t a p ino is_dir sz
servers-create_node t a p ino is_dir sz (some d) = servers-made t a p ino is_dir sz

servers-insert_last :
    (t : PrefixTree) (a : ℕ) (p : Bytes) (ino : ℕ) (is_dir : Bool) (sz : ℕ) (d c : Option ℕ)
    → servers (insert_last t a p ino is_dir sz d c).2 ≡ servers t
unfolding push_up
servers-insert_last t a p ino is_dir sz d none = servers-create_node t a p ino is_dir sz d
servers-insert_last t a p ino is_dir sz d (some c) = refl

servers-do_insert :
    (t : PrefixTree) (a : ℕ) (p : Bytes) (ps : List Bytes) (ino : ℕ) (is_dir : Bool) (sz : ℕ)
    (d : Option ℕ)
    → servers (do_insert t a p ps ino is_dir sz d).2 ≡ servers t
unfolding do_insert push_up
servers-do_insert t a p [] ino is_dir sz d = elim (Bool-cases (t.nodes a).is_dir) [
  | inl e ↦ rw e (servers-insert_last t a p ino is_dir sz _ _)
  | inr e ↦ rw e refl
]
servers-do_insert t a p (q ∷ ps) ino is_dir sz d = elim (Bool-cases (t.nodes a).is_dir) [
  | inr e ↦ rw e refl
  | inl e ↦ rw e (elim (Option-cases (child_at t.nodes (t.nodes a).list p)) [
    | inl k ↦ rw k refl
    | inr (c, k) ↦ rw k (elim (Bool-cases (t.nodes c).is_dir) [
      | inl g ↦ rw g (servers-do_insert t c q ps ino is_dir sz _)
      | inr g ↦ rw g refl
    ])
  ])
]

servers-erase_found :
    (t : PrefixTree) (a : ℕ) (p : Bytes) (c : Option ℕ) → servers (erase_found t a p c) ≡ servers t
servers-erase_found t a p none = refl
servers-erase_found t a p (some c) = refl

servers-remove_last :
    (t : PrefixTree) (a c : ℕ) (l : List ℕ) → servers (remove_last t a c l).1 ≡ servers t
unfolding push_up erase_node
servers-remove_last t a c [] = servers-erase_found t a _ _
servers-remove_last t a c (b ∷ bs) = refl

servers-do_remove :
    (t : PrefixTree) (a : ℕ) (p : Bytes) (ps : List Bytes)
    → servers (do_remove t a p ps).1 ≡ servers t
unfolding do_remove push_up
servers-do_remove t a p [] = elim (Bool-cases (t.nodes a).is_dir) [
  | inr e ↦ rw e refl
  | inl e ↦ rw e (elim (Option-cases (child_at t.nodes (t.nodes a).list p)) [
    | inl k ↦ rw k refl
    | inr (c, k) ↦ rw k (servers-remove_last t a c (t.nodes c).list)
  ])
]
servers-do_remove t a p (q ∷ ps) = elim (Bool-cases (t.nodes a).is_dir) [
  | inr e ↦ rw e refl
  | inl e ↦ rw e (elim (Option-cases (child_at t.nodes (t.nodes a).list p)) [
    | inl k ↦ rw k refl
    | inr (c, k) ↦ rw k (servers-do_remove t c q ps)
  ])
]

-- How often servers are registered.
abbrev pub registrations : List Op → ℕ
registrations [] = 0
registrations (creates s ino is_dir sz ∷ ops) = registrations ops
registrations (removes s ∷ ops) = registrations ops
registrations (registers id mem ∷ ops) = suc (registrations ops)

two_servers :
    (t : PrefixTree) (id mem : ℕ) (kvs : List KvInfo)
    → length kvs ≤ 1
    → (u : PrefixTree) × (registered t id mem kvs ≡ some u) × (servers u ≡ suc (length kvs))
two_servers t id mem [] le = (_, refl, refl)
two_servers t id mem (k ∷ []) le = (_, refl, refl)
two_servers t id mem (k ∷ l ∷ kvs) le = absurd (omega arith)

with_status-ends :
    (s : Status) (x : Option (List Status × PrefixTree))
    → (r : List Status × PrefixTree) × (x ≡ some r)
    → (r : List Status × PrefixTree) × (with_status s x ≡ some r)
with_status-ends s none (r, e) = absurd (ground arith)
with_status-ends s (some (ss, t)) e = ((s ∷ ss, t), refl)

run-ends :
    (t : PrefixTree) (ops : List Op)
    → servers t + registrations ops ≤ 2
    → (r : List Status × PrefixTree) × (run t ops ≡ some r)
unfolding run create remove regist_new_kv
run-ends t [] le = (_, refl)
run-ends t (creates s ino is_dir sz ∷ ops) le =
    let same = servers-do_insert t 0 (names s).0 (names s).1 ino is_dir sz none in
    with_status-ends _ _ (run-ends _ ops (omega (arith, same)))
run-ends t (removes s ∷ ops) le =
    let same = servers-do_remove t 0 (names s).0 (names s).1 in
    with_status-ends _ _ (run-ends _ ops (omega (arith, same)))
run-ends t (registers id mem ∷ ops) le =
    let (u, e, more) = two_servers t id mem t.kv_list (omega arith) in
    rw e (run-ends u ops (omega arith))

solve_pos-none :
    (k : KvInfo) (kvs : List KvInfo) (i : ℕ) (best : ℕ × ℕ) → solve_pos (k ∷ kvs) i best ≡ none
unfolding solve_pos
solve_pos-none k [] i best = refl
solve_pos-none k (l ∷ kvs) i best = solve_pos-none l kvs (suc i) _

-- With two servers or more, the registration of another reads at `end()`.
third_registration :
    (t : PrefixTree) (id mem : ℕ) (k l : KvInfo) (kvs : List KvInfo)
    → t.kv_list ≡ k ∷ l ∷ kvs
    → regist_new_kv t id mem ≡ none
unfolding regist_new_kv
third_registration t id mem k l kvs e = rw (e, solve_pos-none k (l ∷ kvs) 0 (0, 0)) refl

-- A run with at most two registrations does not read at `end()`.
pub two_registrations :
    (ops : List Op)
    → registrations ops ≤ 2
    → (r : List Status × PrefixTree) × (run prefix_tree ops ≡ some r)
two_registrations ops le = run-ends prefix_tree ops (omega arith)

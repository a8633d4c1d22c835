-- ===== src/Master/Service.antt =====
-- The master's calls: src/master/master.cc. The maps whose keys are `int` take an inum by its low 32 bits, and
-- a read of a map by `[]` gives the default where the key is missing.
pub mod Inums
mod Examples
use ctgfs.Prelude.{
  ℕ, suc, ◌+◌, ◌/◌, ◌%◌, ◌^◌, Bool, true, false, Option, none, some, List, [], ◌∷◌, ◌++◌, ◌==◌,
  if◌then◌else◌,
}
use ctgfs.Prelude.Bytes.{Bytes, bytes_eq}
use ctgfs.Master.PrefixTree.{PrefixTree, prefix_tree, Status, ok, prefix_tree_error}
use ctgfs.Master.PrefixTree.Domains.{regist_new_kv}
use ctgfs.Master.PrefixTree.Ops.{Result, create}

-- A register id of -1 is `none`. The default of `inum_to_register_id` is 0, and that of `inum_to_path` is "".
pub record Master : Type 0 where
  pub ino_count : ℕ
  pub register_id_to_addr : Option ℕ → Option Bytes
  pub addr_to_register_id : Bytes → Option ℕ
  pub inum_to_register_id : ℕ → Option ℕ
  pub inum_to_path : ℕ → Bytes
  pub cur_register_kv_id : ℕ
  pub reused_queue : List ℕ
  pub tree : PrefixTree

abbrev pub master : Master
master = record {
  ino_count = 2;
  register_id_to_addr = λ id. none;
  addr_to_register_id = λ a. none;
  inum_to_register_id = λ i. some 0;
  inum_to_path = λ i. [];
  cur_register_kv_id = 0;
  reused_queue = [];
  tree = prefix_tree;
}

abbrev pub int_key : ℕ → ℕ
int_key inum = inum % 2 ^ 32

abbrev pub set_key {ℓ} : {A : Type ℓ} → (ℕ → A) → ℕ → A → ℕ → A
set_key f k v j = if j == k then v else f j

abbrev same_id : Option ℕ → Option ℕ → Bool
same_id none none = true
same_id (some i) (some j) = i == j
same_id _ _ = false

abbrev set_addr : (Option ℕ → Option Bytes) → Option ℕ → Option Bytes → Option ℕ → Option Bytes
set_addr f id a j = if same_id j id then a else f j

abbrev set_id : (Bytes → Option ℕ) → Bytes → Option ℕ → Bytes → Option ℕ
set_id f a id b = if bytes_eq b a then id else f b

-- An id that has been given back, or the next one.
abbrev new_id : Master → List ℕ → ℕ × Master
new_id m [] = (m.cur_register_kv_id, record m { cur_register_kv_id = m.cur_register_kv_id + 1 })
new_id m (id ∷ ids) = (id, record m { reused_queue = ids })

unfoldable pub get_new_register_id : Master → ℕ × Master
get_new_register_id m = new_id m m.reused_queue

unfoldable pub do_register : Master → Bytes → ℕ → Master
do_register m addr id = record m {
  register_id_to_addr = set_addr m.register_id_to_addr (some id) (some addr);
  addr_to_register_id = set_id m.addr_to_register_id addr (some id);
}

abbrev unregister_addr : Master → ℕ → Option Bytes → Master
unregister_addr m id none = m
unregister_addr m id (some addr) = record m {
  reused_queue = m.reused_queue ++ id ∷ [];
  register_id_to_addr = set_addr m.register_id_to_addr (some id) none;
  addr_to_register_id = set_id m.addr_to_register_id addr none;
}

unfoldable pub do_unregister : Master → ℕ → Master
do_unregister m id = unregister_addr m id (m.register_id_to_addr (some id))

abbrev registered : Master → ℕ → Option PrefixTree → Option (ℕ × Master)
registered m id none = none
registered m id (some t) = some (id, record m { tree = t })

-- `none` where the tree reads at `end()`.
unfoldable pub regist : Master → Bytes → ℕ → Option (ℕ × Master)
regist m addr mem =
    let (id, m') = get_new_register_id m in
    let done = do_register m' addr id in registered done id (regist_new_kv done.tree id mem)

abbrev or_empty : Option Bytes → Bytes
or_empty none = []
or_empty (some a) = a

-- Both reads are by `[]`; the second leaves an entry.
unfoldable pub get_info_by_inum : Master → ℕ → Bytes × Master
get_info_by_inum m inum =
    let id = m.inum_to_register_id (int_key inum) in
    let addr = or_empty (m.register_id_to_addr id) in
    (addr, record m { register_id_to_addr = set_addr m.register_id_to_addr id (some addr) })

abbrev pub ask_for_kv : Master → ℕ → Bytes × Master
ask_for_kv m inum = get_info_by_inum m inum

-- `| 0x80000000`.
abbrev pub with_file_bit : ℕ → ℕ
with_file_bit id = if id / 2 ^ 31 % 2 == 1 then id else id + 2 ^ 31

abbrev pub inum_of : ℕ → Bool → ℕ
inum_of c true = c
inum_of c false = with_file_bit c

-- What stands in `inum_to_path` for the parent, a '/' and the name.
abbrev pub full_path : Bytes → Bytes → Bytes
full_path [] path = path
full_path (c ∷ s) path = (c ∷ s) ++ 47 ∷ path

abbrev pub generated : Master → ℕ → Bytes → Result → Option (ℕ × Master)
generated m id path (prefix_tree_error, kv_id, t) = none
generated m id path (ok, kv_id, t) = some (
  id,
  record m {
    ino_count = (m.ino_count + 1) % 2 ^ 64;
    inum_to_path = set_key m.inum_to_path (int_key id) path;
    inum_to_register_id = set_key m.inum_to_register_id (int_key id) kv_id;
    tree = t;
  },
)

-- `none` where the assertion on the status fails.
unfoldable pub gen_inum : Master → ℕ → Bytes → Bool → ℕ → Option (ℕ × Master)
gen_inum m parent path is_dir sz =
    let id = inum_of m.ino_count is_dir in
    generated m id path
      (create m.tree (full_path (m.inum_to_path (int_key parent)) path) id is_dir sz)

abbrev informed : Option (ℕ × Master) → Option ((ℕ × Bytes) × Master)
informed none = none
informed (some (id, m)) = let (addr, m') = get_info_by_inum m id in some ((id, addr), m')

unfoldable pub ask_for_ino : Master → ℕ → Bytes → Bool → ℕ → Option ((ℕ × Bytes) × Master)
ask_for_ino m parent path is_dir sz = informed (gen_inum m parent path is_dir sz)

pub record Ask : Type 0 where
  pub parent : ℕ
  pub path : Bytes
  pub is_dir : Bool
  pub sz : ℕ

abbrev pub with_inum : ℕ → Option (List ℕ × Master) → Option (List ℕ × Master)
with_inum id none = none
with_inum id (some (ids, m)) = some (id ∷ ids, m)

abbrev pub then_ask :
    (Master → Option (List ℕ × Master)) → Option ((ℕ × Bytes) × Master) → Option (List ℕ × Master)
then_ask rest none = none
then_ask rest (some ((id, addr), m)) = with_inum id (rest m)

-- Calls of AskForIno one after the other, and the inums that they give.
unfoldable pub ask_all : Master → List Ask → Option (List ℕ × Master)
ask_all m [] = some ([], m)
ask_all m (a ∷ l) = then_ask (λ m'. ask_all m' l) (ask_for_ino m a.parent a.path a.is_dir a.sz)

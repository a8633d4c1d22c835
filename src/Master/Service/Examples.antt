-- ===== src/Master/Service/Examples.antt =====
-- Runs of src/master/master.cc.
use ctgfs.Prelude.{
  ℕ, ◌+◌, ◌^◌, ◌≤◌, ◌≡◌, refl, true, false, Option, none, some, List, [], ◌∷◌, arith, length,
}
use ctgfs.Prelude.Bytes.{bytes_eq, bytes_lt}
use ctgfs.Master.PrefixTree.{
  names, lower_bound, child_at, insert_at, insert_node, sum_sizes, push_up,
}
use ctgfs.Master.PrefixTree.Domains.{regist_new_kv}
use ctgfs.Master.PrefixTree.Ops.{do_insert, create}
use ctgfs.Master.Service.{
  Master, master, get_new_register_id, do_register, do_unregister, regist, get_info_by_inum,
  gen_inum, ask_for_ino, Ask, ask_all,
}
use ctgfs.Master.Service.Inums.{IsDistinct, HasKinds, inums_kept_apart}

abbrev server_of : Option (ℕ × Master) → Master
server_of none = master
server_of (some (id, m)) = m

abbrev one_server : Master
one_server = server_of (regist master (58 ∷ 49 ∷ []) 100)

-- A directory `d` in the root, and a file in the directory that the first call gives.
abbrev two_asks : List Ask
two_asks =
    record { parent = 1; path = 100 ∷ []; is_dir = true; sz = 0 }
    ∷ record { parent = 2; path = 97 ∷ []; is_dir = false; sz = 5 }
    ∷ []

abbrev ended : Option (List ℕ × Master) → List ℕ × Master
ended none = ([], master)
ended (some r) = r

abbrev last_master : Master
last_master = (ended (ask_all one_server two_asks)).1

abbrev two_inums : List ℕ
two_inums = 2 ∷ 2147483651 ∷ []

two-run : ask_all one_server two_asks ≡ some (two_inums, last_master)
unfolding ask_all ask_for_ino gen_inum get_info_by_inum regist get_new_register_id do_register
    regist_new_kv create do_insert names lower_bound child_at insert_at insert_node sum_sizes
    push_up bytes_eq bytes_lt
two-run = refl

two_fit : one_server.ino_count + length two_asks ≤ 2 ^ 31
unfolding regist get_new_register_id do_register regist_new_kv
two_fit = ground arith

inums_kept_apart_example : IsDistinct two_inums × HasKinds two_inums two_asks
inums_kept_apart_example =
    inums_kept_apart one_server two_asks two_inums last_master two-run two_fit

unregistered : (do_unregister one_server 0).reused_queue ≡ 0 ∷ []
unfolding do_unregister regist get_new_register_id do_register regist_new_kv
unregistered = refl

-- `d`, `e` in `d`, and a file in `e`: the path of `e` is kept as "e", which is not in the root.
abbrev deep_asks : List Ask
deep_asks =
    record { parent = 1; path = 100 ∷ []; is_dir = true; sz = 0 }
    ∷ record { parent = 2; path = 101 ∷ []; is_dir = true; sz = 0 }
    ∷ record { parent = 3; path = 97 ∷ []; is_dir = false; sz = 5 }
    ∷ []

deep-run : ask_all one_server deep_asks ≡ none
unfolding ask_all ask_for_ino gen_inum get_info_by_inum regist get_new_register_id do_register
    regist_new_kv create do_insert names lower_bound child_at insert_at insert_node sum_sizes
    push_up bytes_eq bytes_lt
deep-run = refl

-- ===== src/Util/Lru/Examples.antt =====
-- Runs of the cache of src/include/util/lru.h.
use ctgfs.Prelude.{ℕ, ◌≤◌, ◌≡◌, refl, List, [], ◌∷◌, length}
use ctgfs.Util.Lru.{hit, miss, lru_cache, get, put}
use ctgfs.Util.Lru.Nodes.{value_of}
use ctgfs.Util.Lru.Recency.{Op, gets, puts, run, recent_after, contents, answer_of, lru_refines}

abbrev history : List (Op ℕ)
history = puts 1 10 ∷ puts 2 20 ∷ gets 1 ∷ puts 3 30 ∷ []

evicts_unused : (get (run (lru_cache 2) history) 2).0 ≡ miss
unfolding run get put
evicts_unused = refl

keeps_used : (get (run (lru_cache 2) history) 1).0 ≡ hit 10
unfolding run get put
keeps_used = refl

lru_refines_example :
    (contents (run (lru_cache 2) history) ≡ recent_after 2 [] history)
    × ((get (run (lru_cache 2) history) 1).0 ≡ answer_of (value_of 1 (recent_after 2 [] history)))
    × (length (run (lru_cache 2) history).list ≤ 2)
lru_refines_example = lru_refines 2 history 1

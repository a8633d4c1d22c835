-- ===== src/Master/LockServer/Examples.antt =====
-- Two locks, of which one is released.
use ctgfs.Prelude.{◌≡◌, arith, true, false, [], ◌∷◌}
use ctgfs.Master.LockServer.{acquire_round, release, tries, releases, run, no_locks}
use ctgfs.Master.LockServer.Exclusive.{held_until_released}

held_until_released_example :
    ((acquire_round (run (acquire_round no_locks 3).1 (tries 3 ∷ releases 4 ∷ [])) 3).0 ≡ false)
    × ((release (run (acquire_round no_locks 3).1 (tries 3 ∷ releases 4 ∷ [])) 3).0 ≡ true)
    × ((acquire_round
          (release (run (acquire_round no_locks 3).1 (tries 3 ∷ releases 4 ∷ [])) 3).1
          3).0
        ≡ true)
held_until_released_example =
    held_until_released no_locks 3 (tries 3 ∷ releases 4 ∷ []) (ground arith)

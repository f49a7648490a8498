-- ===== src/CipherLog/Tests.antt =====
-- Runs of `CipherLog` (apps/server/src/sync/encryptedRoom.ts), and instances of its theorems. Bytes
-- are hashed to their number modulo 100, so that 107 refers to the same bytes as 7.
use whiteboard_ai.Base.{ℕ, ◌%◌, ◌≡◌, refl, none, some, List, [], ◌∷◌, All}
use whiteboard_ai.CipherLog.{
  StoredUpdate, LoadedBoard, empty_log, add, load, catch_up, committed, full_state, stored_seq,
  to_new_update, entry_of,
}
use whiteboard_ai.CipherLog.Known.{Operation, adds, installs, run, loaded-IsLog, added_once}
use whiteboard_ai.CipherLog.CatchUp.{catch_up_completes}

abbrev digest : ℕ → ℕ
digest b = b % 100

abbrev board : LoadedBoard
board = record {
  snapshot = none;
  updates = record { update = 1; seq = 1 } ∷ record { update = 2; seq = 2 } ∷ [];
  max_seq = 2;
}

-- The blob 7 arrives twice, 8 once; the database has 107 as its row 3.
abbrev ops : List Operation
ops =
    adds 7 (some (record { peer = 4; n = 1 })) none
    ∷ adds 107 none none
    ∷ adds 8 (some (record { peer = 4; n = 2 })) none
    ∷ []

abbrev rows : List StoredUpdate
rows =
    record { update = 1; seq = 1 }
    ∷ record { update = 2; seq = 2 }
    ∷ record { update = 107; seq = 3 }
    ∷ []

only_8_is_missing :
    (catch_up digest rows (run digest ops (load digest board empty_log))).1
    ≡ to_new_update (entry_of digest 8 none none) ∷ []
unfolding run load add catch_up stored_seq
only_8_is_missing = refl

added_once_example :
    add digest 107 none none
      (run digest (installs 9 70 ∷ []) (add digest 7 none (some 5) empty_log).0)
    ≡ (run digest (installs 9 70 ∷ []) (add digest 7 none (some 5) empty_log).0, none)
added_once_example =
    added_once digest empty_log 7 none (some 5) (installs 9 70 ∷ []) 107 none none refl

catch_up_completes_example :
    let (log, missing) = catch_up digest rows (run digest ops (load digest board empty_log)) in
    All (λ u. stored_seq digest rows (digest u.update) ≡ none) missing
    × (full_state (committed missing 4 log) ≡ [])
catch_up_completes_example =
    catch_up_completes digest rows (run digest ops (load digest board empty_log)) 4
      (loaded-IsLog digest board ops)

-- ===== src/MemoryRepository/Tests.antt =====
-- A board with three updates, compacted after the second.
use whiteboard_ai.Base.{ℕ, ◌≡◌, refl, Option, none, some, List, [], ◌∷◌, ◌++◌, length, drop}
use whiteboard_ai.RoomPersistence.{NewUpdate}
use whiteboard_ai.MemoryRepository.{
  stored_at, numbered, LoadedBoard, MemoryRepository, load_stored, append_stored, compact_stored,
  compact_board, updates_since,
}
use whiteboard_ai.MemoryRepository.Content.{updates_of, content_of, loaded_content}
use whiteboard_ai.MemoryRepository.Roundtrip.{
  Run, unsaved, appended, compacted, load_after_appends, updates_since_lem,
}

-- A snapshot is the list of the updates that it stands for.
abbrev same_content : List ℕ → List ℕ
same_content us = us

abbrev join_all : Option (List ℕ) → List ℕ → List ℕ
join_all none us = us
join_all (some s) us = s ++ us

join-merges :
    (s : Option (List ℕ)) (us : List ℕ)
    → same_content (join_all s us) ≡ content_of same_content s ++ us
join-merges none us = refl
join-merges (some s) us = refl

abbrev change : ℕ → NewUpdate ℕ
change n = record { update = n; client_id = none; user_id = none }

abbrev empty_repository : MemoryRepository (List ℕ)
empty_repository = record { boards = λ v. none; fail_next = 0; append_calls = 0 }

abbrev first_two : MemoryRepository (List ℕ)
first_two = (append_stored (List ℕ) 5 (change 7 ∷ change 8 ∷ []) empty_repository).1

abbrev shortened : MemoryRepository (List ℕ)
shortened = (compact_stored (List ℕ) 5 join_all first_two).1

abbrev all_three : MemoryRepository (List ℕ)
all_three = (append_stored (List ℕ) 5 (change 9 ∷ []) shortened).1

abbrev changes : List (NewUpdate ℕ)
changes = change 7 ∷ change 8 ∷ change 9 ∷ []

shortened-answers : shortened.fail_next ≡ 0
unfolding append_stored compact_stored compact_board numbered
shortened-answers = refl

three-answer : all_three.fail_next ≡ 0
unfolding append_stored compact_stored compact_board numbered
three-answer = refl

three-Run : Run same_content join_all join-merges 5 all_three changes
three-Run =
    appended (compacted (appended (unsaved empty_repository refl) (change 7 ∷ change 8 ∷ []) refl))
      (change 9 ∷ []) shortened-answers

updates_since_test :
    (updates_since (List ℕ) 5 1 all_three).0
    ≡ some (stored_at 2 (change 8) ∷ stored_at 3 (change 9) ∷ [])
unfolding updates_since append_stored compact_stored compact_board numbered
updates_since_test = refl

load_after_appends_example :
    (l : LoadedBoard (List ℕ)) × ((load_stored (List ℕ) 5 all_three).0 ≡ some l)
    × (loaded_content same_content l ≡ updates_of changes)
    × (l.max_seq ≡ length changes)
load_after_appends_example =
    load_after_appends same_content join_all join-merges 5 all_three changes three-Run three-answer

updates_since_lem_example :
    (updates_since (List ℕ) 5 1 all_three).0 ≡ some (numbered 2 (drop 1 changes))
updates_since_lem_example =
    updates_since_lem same_content join_all join-merges 5 all_three changes 1 three-Run three-answer

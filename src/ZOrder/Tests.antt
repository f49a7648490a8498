-- ===== src/ZOrder/Tests.antt =====
-- Three shapes, of which the first moves to the front.
use whiteboard_ai.Base.{
  ℕ, zero, suc, ◌≡◌, refl, Bool, Option, none, some, List, [], ◌∷◌, map, filter, ltb, ◌==◌,
  if◌then◌else◌,
}
use whiteboard_ai.ZOrder.{
  Ordered, front, forward, target_of, run_of, assign_from, assign_keys, reorder_keys,
}
use whiteboard_ai.ZOrder.Passed.{passed, stayers, below_from, target_of_lem}

abbrev three : List Ordered
three =
    record { id = 1; z_index = 10 }
    ∷ record { id = 2; z_index = 20 }
    ∷ record { id = 3; z_index = 30 }
    ∷ []

abbrev is_first : Ordered → Bool
is_first s = s.id == 1

-- The package fails where a key is not above the other; its keys count up, from 31 or from 1.
abbrev count_up : ℕ → ℕ → List ℕ
count_up key zero = []
count_up key (suc n) = key ∷ count_up (suc key) n

abbrev sample_keys : Option ℕ → Option ℕ → ℕ → Option (List ℕ)
sample_keys none after n = some (count_up 1 n)
sample_keys (some before) none n = some (count_up (suc before) n)
sample_keys (some before) (some after) n =
    if ltb before after then some (count_up (suc before) n) else none

reorder_keys_test : reorder_keys is_first sample_keys three front ≡ some ((1, 31) ∷ [])
unfolding reorder_keys target_of assign_keys assign_from run_of
reorder_keys_test = refl

target_of_lem_example :
    let target = target_of is_first forward three in
    (filter is_first target ≡ filter is_first three)
    × (stayers is_first target ≡ stayers is_first three)
    × (below_from is_first 0 target ≡ map (passed forward 2) (below_from is_first 0 three))
target_of_lem_example = target_of_lem is_first forward three

-- The first shape between two that share a key: the board is numbered anew.
abbrev shared : List Ordered
shared =
    record { id = 2; z_index = 20 }
    ∷ record { id = 1; z_index = 10 }
    ∷ record { id = 3; z_index = 20 }
    ∷ []

renumber_test : assign_keys is_first sample_keys shared ≡ some ((2, 1) ∷ (1, 2) ∷ (3, 3) ∷ [])
unfolding assign_keys assign_from run_of
renumber_test = refl

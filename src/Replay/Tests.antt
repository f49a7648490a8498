-- ===== src/Replay/Tests.antt =====
-- A timeline of packages/shared/src/replay/index.ts, and an instance of its theorem.
use whiteboard_ai.Base.{ℕ, ◌≡◌, refl, List, [], ◌∷◌}
use whiteboard_ai.Replay.{Range, create, clamp, count_at, search}
use whiteboard_ai.Replay.CountAt.{Ascending, by, count_at-counts}

abbrev range : Range
range = record { start = 0; end_time = 50 }

-- The third step was stored by a clock that is behind.
abbrev steps : List ℕ
steps = 10 ∷ 20 ∷ 15 ∷ 30 ∷ []

one_by_19 : count_at (create steps range) 19 ≡ 1
unfolding count_at create clamp search
one_by_19 = refl

count_at-counts_example :
    (count_at (create steps range) 20 ≡ by 20 (create steps range).times)
    × Ascending 0 (create steps range).times
count_at-counts_example = count_at-counts steps range 20

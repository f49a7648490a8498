-- ===== src/LimitedWrites/Tests.antt =====
-- A run of apps/server/src/persistence/limitedWrites.ts with two slots, and an instance of its theorem.
use whiteboard_ai.Base.{◌≤◌, ◌≡◌, ◌⊎◌, refl, [], ◌∷◌, ◌++◌}
use whiteboard_ai.LimitedWrites.{begin_write}
use whiteboard_ai.LimitedWrites.System.{
  System, initial, requests, ends, Reach, here, next, request, finish,
}
use whiteboard_ai.LimitedWrites.Fair.{writes_are_limited}

-- The writes 5, 6 and 7 are requested, and one ends.
abbrev three : System
three = requests 2 7 (requests 2 6 (requests 2 5 initial))

seven_waits : three.limiter.waiting ≡ 7 ∷ []
unfolding begin_write
seven_waits = refl

run : Reach 2 (ends 1 three)
unfolding begin_write
run = next (next (next (next here (request _ 5)) (request _ 6)) (request _ 7)) (finish three 1 refl)

writes_are_limited_example :
    ((ends 1 three).in_flight ≤ 2)
    × ((ends 1 three).limiter.running ≡ (ends 1 three).in_flight)
    × ((ends 1 three).started ++ (ends 1 three).limiter.waiting ≡ (ends 1 three).requested)
    × (((ends 1 three).limiter.waiting ≡ []) ⊎ ((ends 1 three).in_flight ≡ 2))
writes_are_limited_example = writes_are_limited 2 run

-- ===== src/WindowLimiter/Tests.antt =====
-- A run of the limiter of apps/server/src/http/windowLimiter.ts, and an instance of its bound.
use whiteboard_ai.Base.{ℕ, ◌≤◌, ◌≡◌, refl, List, [], ◌∷◌, arith}
use whiteboard_ai.WindowLimiter.{hit}
use whiteboard_ai.WindowLimiter.Bound.{allowed_hits, at_most_max}

-- Windows of 10; the key 1 hits three times in the first, and once in the second.
abbrev hits : List (ℕ × ℕ)
hits = (1, 1) ∷ (3, 1) ∷ (4, 2) ∷ (9, 1) ∷ (12, 1) ∷ []

two_of_three : allowed_hits 2 10 0 1 hits [] ≡ 2
unfolding allowed_hits hit
two_of_three = refl

at_most_max_example : allowed_hits 2 10 0 1 hits [] ≤ 2
at_most_max_example =
    at_most_max 2 10 0 1 hits
      (omega arith, (omega arith, (omega arith, (omega arith, (omega arith, tt)))))

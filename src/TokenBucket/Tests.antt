-- ===== src/TokenBucket/Tests.antt =====
-- A run of the bucket of apps/server/src/sync/rateLimit.ts, and an instance of its bound.
use whiteboard_ai.Base.{ℕ, ◌+◌, ◌-◌, ◌*◌, ◌≤◌, ◌≡◌, refl, List, [], ◌∷◌, arith}
use whiteboard_ai.TokenBucket.{create, take_tokens}
use whiteboard_ai.TokenBucket.Rate.{granted, after_calls, granted_within_rate, last_call}

-- Three calls at once on a bucket of 5 that refills 10 a second, and one 200 ms later.
abbrev calls : List (ℕ × ℕ)
calls = (0, 3) ∷ (0, 2) ∷ (0, 1) ∷ (200, 2) ∷ []

seven_of_eight : granted calls (create 5 10 0) ≡ 7
unfolding granted take_tokens
seven_of_eight = refl

-- Ten seconds later the bucket of 5 is full again, and no fuller.
abbrev burst : List (ℕ × ℕ)
burst = (10200, 1) ∷ (10300, 4) ∷ []

granted_within_rate_example :
    granted ((10200, 4) ∷ burst) (after_calls calls (create 5 10 0)) * 1000
    ≤ 5 * 1000 + (last_call 10200 burst - 10200) * 10
granted_within_rate_example =
    granted_within_rate 5 10 0 10200 4 calls burst (omega arith, (omega arith, tt))

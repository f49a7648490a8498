-- ===== src/TokenBucket.antt =====
-- apps/server/src/sync/rateLimit.ts: the token bucket of a connection. Tokens are counted in
-- thousandths, so that a millisecond at `refillPerSecond` is a whole number of them; instants are
-- whole milliseconds, and no rounding of the source's numbers is modelled.
pub mod Rate
mod Tests
use whiteboard_ai.Base.{ℕ, ◌+◌, ◌-◌, ◌*◌, min, Bool, true, false, ltb, if◌then◌else◌}

pub record TokenBucket : Type 0 where
  pub capacity : ℕ
  pub refill_per_second : ℕ
  pub tokens : ℕ
  pub last : ℕ

abbrev pub create : ℕ → ℕ → ℕ → TokenBucket
create capacity rate now = record {
  capacity = capacity;
  refill_per_second = rate;
  tokens = capacity * 1000;
  last = now;
}

-- The bucket refilled for the time that went by; a clock that went back refills nothing.
abbrev pub refilled : ℕ → TokenBucket → TokenBucket
refilled now b = record b {
  last = now;
  tokens = min (b.capacity * 1000) (b.tokens + (now - b.last) * b.refill_per_second);
}

pub take_tokens : ℕ → ℕ → TokenBucket → TokenBucket × Bool
take_tokens now amount b =
    let full = refilled now b in
    if ltb full.tokens (amount * 1000)
    then (full, false)
    else (record full { tokens = full.tokens - amount * 1000 }, true)

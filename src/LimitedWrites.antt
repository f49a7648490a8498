-- ===== src/LimitedWrites.antt =====
-- apps/server/src/persistence/limitedWrites.ts: how many writes run at once. A waiting write stands
-- for its resolver; `limited` is cut at its `await`s. The reads go straight to the repository.
pub mod System
pub mod Fair
mod Tests
use whiteboard_ai.Base.{
  ℕ, ◌+◌, ◌-◌, Bool, true, false, Option, none, some, List, [], ◌∷◌, ◌++◌, leb, if◌then◌else◌,
}

pub record LimitedWrites : Type 0 where
  pub running : ℕ
  pub waiting : List ℕ

abbrev pub empty_limiter : LimitedWrites
empty_limiter = record { running = 0; waiting = [] }

-- `limited` up to the call of `write`; whether the write starts at once.
pub begin_write : ℕ → ℕ → LimitedWrites → LimitedWrites × Bool
begin_write most write s =
    if leb most s.running
    then (record s { waiting = s.waiting ++ write ∷ [] }, false)
    else (record s { running = s.running + 1 }, true)

-- The `finally` of `limited`; the write that starts next.
pub end_write : LimitedWrites → LimitedWrites × Option ℕ
end_write s = elim s.waiting [
  | [] ↦ (record s { running = s.running - 1 }, none)
  | next ∷ rest ↦ (record s { waiting = rest }, some next)
]

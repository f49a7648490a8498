-- ===== src/Replay.antt =====
-- The clock of `ReplayTimeline` in packages/shared/src/replay/index.ts: the times of its steps, and
-- how many of them had happened by a moment. Times are epoch milliseconds, so that 0 serves as the
-- source's negative infinity. The updates of the steps and the keyframes are left out.
pub mod CountAt
mod Tests
use whiteboard_ai.Base.{
  ℕ, zero, suc, ◌+◌, ◌/◌, max, Bool, true, false, Option, none, some, List, [], ◌∷◌, ltb, leb,
  length, if◌then◌else◌,
}

-- The constructor's `steps.map`: times never go backwards.
pub clamp : ℕ → List ℕ → List ℕ
clamp last [] = []
clamp last (t ∷ ts) = max last t ∷ clamp (max last t) ts

pub record Range : Type 0 where
  pub start : ℕ
  pub end_time : ℕ

-- `last` after the loop.
abbrev last_time : ℕ → List ℕ → ℕ
last_time last [] = last
last_time last (t ∷ ts) = last_time (max last t) ts

pub record ReplayTimeline : Type 0 where
  pub times : List ℕ
  pub range : Range

pub create : List ℕ → Range → ReplayTimeline
unfolding clamp
create ts range = record {
  times = clamp 0 ts;
  range = record {
    start = range.start;
    end_time = max range.end_time (max range.start (last_time 0 ts));
  };
}

-- `this.steps[i]?.t`
abbrev pub time_at : ℕ → List ℕ → Option ℕ
time_at i [] = none
time_at zero (t ∷ ts) = some t
time_at (suc i) (t ∷ ts) = time_at i ts

-- `(this.steps[mid]?.t ?? Infinity) <= t`
abbrev is_by : ℕ → Option ℕ → Bool
is_by t none = false
is_by t (some x) = leb x t

-- The next bounds of the binary search.
abbrev pub narrow : List ℕ → ℕ → ℕ → ℕ → ℕ × ℕ
narrow times t lo hi =
    let mid = (lo + hi) / 2 in if is_by t (time_at mid times) then (mid + 1, hi) else (lo, mid)

pub search : ℕ → List ℕ → ℕ → ℕ → ℕ → ℕ
search zero times t lo hi = lo
search (suc fuel) times t lo hi =
    if ltb lo hi then search fuel times t (narrow times t lo hi).0 (narrow times t lo hi).1 else lo

-- As many rounds as there are steps are enough.
pub count_at : ReplayTimeline → ℕ → ℕ
unfolding search
count_at line t = search (length line.times) line.times t 0 (length line.times)

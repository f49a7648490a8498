-- ===== src/InterviewTimer.antt =====
-- The countdown of an interview: `elapsedMs` of packages/shared/src/interview/index.ts, and what the
-- routes for its timer and its end (apps/server/src/api/interviews.ts) write. Each request sees what
-- the one before wrote; `now` is the clock of the database, in milliseconds.
pub mod Running
mod Tests
use whiteboard_ai.Base.{
  ℕ, ◌+◌, ◌-◌, ◌*◌, Bool, true, false, Option, none, some, List, [], ◌∷◌, ltb, leb, ◌==◌,
  get_or_else, if◌then◌else◌,
}

pub record InterviewTimer : Type 0 where
  pub duration_ms : ℕ
  pub started_at : ℕ
  pub paused_at : Option ℕ
  pub paused_ms : ℕ
  pub ended_at : Option ℕ

abbrev pub start_timer : ℕ → ℕ → InterviewTimer
start_timer duration now = record {
  duration_ms = duration;
  started_at = now;
  paused_at = none;
  paused_ms = 0;
  ended_at = none;
}

unfoldable pub elapsed_ms : InterviewTimer → ℕ → ℕ
elapsed_ms timer now =
    get_or_else timer.ended_at (get_or_else timer.paused_at now)
    - timer.started_at
    - timer.paused_ms

pub data TimerAction : Type 0 where
  pause resume end_interview : TimerAction
  extend : ℕ → TimerAction

-- The length of the pause that is open, if any.
abbrev pub open_pause : Option ℕ → ℕ → ℕ
open_pause none now = 0
open_pause (some since) now = now - since

abbrev pub act_on_active : TimerAction → ℕ → InterviewTimer → InterviewTimer
act_on_active pause now timer = elim timer.paused_at [
  | some _ ↦ timer
  | none ↦ record timer { paused_at = some now }
]
act_on_active resume now timer = elim timer.paused_at [
  | none ↦ timer
  | some since ↦ record timer { paused_ms = timer.paused_ms + (now - since); paused_at = none }
]
act_on_active end_interview now timer = record timer {
  ended_at = some now;
  paused_ms = timer.paused_ms + open_pause timer.paused_at now;
  paused_at = none;
}
act_on_active (extend minutes) now timer = record timer {
  duration_ms = timer.duration_ms + minutes * 60000;
}

-- An interview that has ended takes no action.
abbrev pub act : TimerAction → ℕ → InterviewTimer → InterviewTimer
act action now timer = elim timer.ended_at [
  | some _ ↦ timer
  | none ↦ act_on_active action now timer
]

-- ===== src/InterviewTimer/Running.antt =====
-- What `elapsedMs` of packages/shared/src/interview/index.ts measures.
use whiteboard_ai.Base.{ℕ, ◌+◌, ◌-◌, ◌*◌, ◌≤◌, ◌≡◌, refl, none, some, List, [], ◌∷◌, arith}
use whiteboard_ai.InterviewTimer.{
  InterviewTimer, TimerAction, pause, resume, end_interview, extend, start_timer, elapsed_ms, act,
}

-- Independent of the timer: whether the interview runs, is paused or is over.
pub data Phase : Type 0 where
  running paused over : Phase

abbrev pub change : TimerAction → Phase → Phase
change action over = over
change end_interview _ = over
change pause running = paused
change pause paused = paused
change resume running = running
change resume paused = running
change (extend minutes) running = running
change (extend minutes) paused = paused

abbrev pub run_time : Phase → ℕ → ℕ → ℕ
run_time running since now = now - since
run_time paused since now = 0
run_time over since now = 0

-- The time for which the interview runs, from `since` to `now`, with actions between.
abbrev pub running_time : Phase → ℕ → List (TimerAction × ℕ) → ℕ → ℕ
running_time phase since [] now = run_time phase since now
running_time phase since ((action, t) ∷ actions) now =
    run_time phase since t + running_time (change action phase) t actions now

abbrev pub act_all : List (TimerAction × ℕ) → InterviewTimer → InterviewTimer
act_all [] timer = timer
act_all ((action, t) ∷ actions) timer = act_all actions (act action t timer)

-- The clock never goes back.
abbrev pub Ascending : ℕ → List (TimerAction × ℕ) → ℕ → Type 0
Ascending since [] now = since ≤ now
Ascending since ((_, t) ∷ actions) now = (since ≤ t) × Ascending t actions now

-- The timer of a phase, at the instant `since`.
abbrev Fits : Phase → ℕ → ℕ → ℕ → ℕ → InterviewTimer → Type 0
Fits running duration start pauses since timer =
    (timer ≡ record {
      duration_ms = duration;
      started_at = start;
      paused_at = none;
      paused_ms = pauses;
      ended_at = none;
    })
    × (start + pauses ≤ since)
Fits paused duration start pauses since timer =
    (p : ℕ) × (timer ≡ record {
      duration_ms = duration;
      started_at = start;
      paused_at = some p;
      paused_ms = pauses;
      ended_at = none;
    })
    × (start + pauses ≤ p)
    × (p ≤ since)
Fits over duration start pauses since timer =
    (e : ℕ) × (timer ≡ record {
      duration_ms = duration;
      started_at = start;
      paused_at = none;
      paused_ms = pauses;
      ended_at = some e;
    })

measured :
    (phase : Phase) (duration start pauses since : ℕ) (timer : InterviewTimer)
    (actions : List (TimerAction × ℕ)) (now : ℕ)
    → Fits phase duration start pauses since timer
    → Ascending since actions now
    → elapsed_ms (act_all actions timer) now
      ≡ elapsed_ms timer since + running_time phase since actions now
unfolding elapsed_ms
measured running d s p since timer [] now (e, h) a = rw e (omega (arith, h, a))
measured paused d s p since timer [] now (q, e, h, k) a = rw e (omega arith)
measured over d s p since timer [] now (q, e) a = rw e (omega arith)
measured running d s p since timer ((pause, t) ∷ later) now (e, h) a = rw e (
    let rest =
      measured paused d s p t _ later now (t, refl, omega (arith, h, a.0), omega arith) a.1 in
    omega (arith, rest, h, a.0))
measured running d s p since timer ((resume, t) ∷ later) now (e, h) a = rw e (
    let rest = measured running d s p t _ later now (refl, omega (arith, h, a.0)) a.1 in
    omega (arith, rest, h, a.0))
measured running d s p since timer ((extend m, t) ∷ later) now (e, h) a = rw e (
    let rest =
      measured running (d + m * 60000) s p t _ later now (refl, omega (arith, h, a.0)) a.1 in
    omega (arith, rest, h, a.0))
measured running d s p since timer ((end_interview, t) ∷ later) now (e, h) a = rw e (
    let rest = measured over d s (p + 0) t _ later now (t, refl) a.1 in omega (arith, rest, h, a.0))
measured paused d s p since timer ((pause, t) ∷ later) now (q, e, h, k) a = rw e (
    let rest = measured paused d s p t _ later now (q, refl, h, omega (arith, k, a.0)) a.1 in
    omega (arith, rest, h, k, a.0))
measured paused d s p since timer ((resume, t) ∷ later) now (q, e, h, k) a = rw e (
    let rest =
      measured running d s (p + (t - q)) t _ later now (refl, omega (arith, h, k, a.0)) a.1 in
    omega (arith, rest, h, k, a.0))
measured paused d s p since timer ((extend m, t) ∷ later) now (q, e, h, k) a = rw e (
    let rest =
      measured paused (d + m * 60000) s p t _ later now (q, refl, h, omega (arith, k, a.0)) a.1 in
    omega (arith, rest, h, k, a.0))
measured paused d s p since timer ((end_interview, t) ∷ later) now (q, e, h, k) a = rw e (
    let rest = measured over d s (p + (t - q)) t _ later now (t, refl) a.1 in
    omega (arith, rest, h, k, a.0))
measured over d s p since timer ((action, t) ∷ later) now (q, e) a =
    rw e (let rest = measured over d s p t _ later now (q, refl) a.1 in omega (arith, rest))

-- Whatever pauses, resumptions, extensions and ends follow the start, by a clock that never goes
-- back: the elapsed time is the time for which the interview was running. In particular it stands
-- still while the interview is paused and once it is over.
pub elapsed_is_running_time :
    (duration start : ℕ) (actions : List (TimerAction × ℕ)) (now : ℕ)
    → Ascending start actions now
    → elapsed_ms (act_all actions (start_timer duration start)) now
      ≡ running_time running start actions now
unfolding elapsed_ms
elapsed_is_running_time duration start actions now a =
    let k =
      measured running duration start 0 start (start_timer duration start) actions now
        (refl, omega arith) a in
    omega (arith, k)

-- ===== src/InterviewTimer/Tests.antt =====
-- A countdown of packages/shared/src/interview/index.ts, and an instance of its theorem.
use whiteboard_ai.Base.{ℕ, ◌≡◌, refl, List, [], ◌∷◌, arith}
use whiteboard_ai.InterviewTimer.{
  TimerAction, pause, resume, end_interview, extend, start_timer, elapsed_ms,
}
use whiteboard_ai.InterviewTimer.Running.{act_all, running, running_time, elapsed_is_running_time}

-- It starts at 100, is paused from 110 to 150, and ends in a second pause that starts at 170.
abbrev actions : List (TimerAction × ℕ)
actions = (pause, 110) ∷ (resume, 150) ∷ (extend 5, 160) ∷ (pause, 170) ∷ (end_interview, 200) ∷ []

thirty : elapsed_ms (act_all actions (start_timer 1000 100)) 300 ≡ 30
unfolding elapsed_ms
thirty = refl

elapsed_is_running_time_example :
    elapsed_ms (act_all actions (start_timer 1000 100)) 300 ≡ running_time running 100 actions 300
elapsed_is_running_time_example =
    elapsed_is_running_time 1000 100 actions 300
      (omega arith, (omega arith, (omega arith, (omega arith, (omega arith, omega arith)))))

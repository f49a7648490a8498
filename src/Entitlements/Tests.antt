-- ===== src/Entitlements/Tests.antt =====
-- Runs of packages/shared/src/entitlements, and instances of its theorems.
use whiteboard_ai.Base.{
  ℕ, ◌+◌, ◌-◌, ◌*◌, ◌≡◌, refl, ◌⊎◌, true, false, none, some, List, [], ◌∷◌, All, ltb, IsOrder,
  arith,
}
use whiteboard_ai.Entitlements.{
  EntitlementGrant, effective_entitlement, free_entitlement, entitlement_of, is_grant_active,
  plan_rank, outranks, is_ended, pro, team, subscription, student_trial, SubscriptionStatus,
  SubscriptionState, past_due, halted, cancelled, until, subscription_valid_until, next_grace,
}
use whiteboard_ai.Entitlements.Best.{effective_is_best, IsHeld, IsUnbeaten}
use whiteboard_ai.Entitlements.Grace.{grace_runs_from_first_failure, grace_after}
use whiteboard_ai.Entitlements.Checks.{Board, Seat, boards_to_keep_editable, seats_to_keep_active}
use whiteboard_ai.Entitlements.Checks.Keep.{
  Keeps, BoardAhead, SeatAhead, boards_to_keep_editable-Keeps, seats_to_keep_active-Keeps,
}

abbrev trial : EntitlementGrant
trial = record {
  plan = team;
  source = student_trial;
  source_id = 1;
  valid_until = some 100;
  org_id = none;
  seats = none;
  ai_reviews_per_month_override = none;
}

abbrev paid : EntitlementGrant
paid = record {
  plan = pro;
  source = subscription;
  source_id = 2;
  valid_until = none;
  org_id = none;
  seats = none;
  ai_reviews_per_month_override = some 20;
}

abbrev grants : List EntitlementGrant
grants = paid ∷ trial ∷ []

best_during_trial : effective_entitlement grants 99 ≡ entitlement_of trial
unfolding effective_entitlement is_grant_active entitlement_of outranks plan_rank
best_during_trial = refl

best_after_trial : effective_entitlement grants 100 ≡ entitlement_of paid
unfolding effective_entitlement is_grant_active entitlement_of outranks plan_rank
best_after_trial = refl

effective_is_best_example :
    ((effective_entitlement grants 99 ≡ free_entitlement)
      × All (λ h. is_grant_active h 99 ≡ false) grants)
    ⊎ ((g : EntitlementGrant) × (effective_entitlement grants 99 ≡ entitlement_of g)
        × IsHeld 99 g grants
        × IsUnbeaten 99 g grants)
effective_is_best_example = effective_is_best grants 99

-- The payment fails at 1000 and once more at 5000, and the subscription ends.
abbrev failures : List (SubscriptionStatus × ℕ)
failures = (halted, 5000) ∷ (cancelled, 6000) ∷ []

abbrev ended : SubscriptionState
ended = record {
  status = cancelled;
  current_period_end = some 9000;
  cancel_at_period_end = true;
  grace_until = some 604801000;
}

grace_runs_from_first_failure_example :
    subscription_valid_until ended ≡ until (1000 + 7 * 24 * 60 * 60 * 1000)
unfolding grace_after next_grace is_ended
grace_runs_from_first_failure_example =
    grace_runs_from_first_failure past_due 1000 failures ended refl (refl, (refl, tt)) refl refl

by_number : IsOrder ltb
by_number = record { asym = λ a b h. ground arith; trans = λ a b c h k. ground arith }

abbrev boards : List Board
boards =
    record { id = 1; locked_at = none; updated_at = 10 }
    ∷ record { id = 2; locked_at = some 7; updated_at = 30 }
    ∷ record { id = 3; locked_at = none; updated_at = 20 }
    ∷ []

boards_to_keep_editable-Keeps_example :
    Keeps (BoardAhead ltb) 2 boards (boards_to_keep_editable ltb boards (some 2))
boards_to_keep_editable-Keeps_example = boards_to_keep_editable-Keeps ltb by_number boards 2

abbrev seats : List Seat
seats =
    record { user_id = 1; claimed_at = 30 }
    ∷ record { user_id = 2; claimed_at = 10 }
    ∷ record { user_id = 3; claimed_at = 20 }
    ∷ []

seats_to_keep_active-Keeps_example :
    Keeps
      (SeatAhead ltb)
      (free_entitlement.limits.editors_per_board - 1)
      seats
      (seats_to_keep_active ltb seats free_entitlement)
seats_to_keep_active-Keeps_example = seats_to_keep_active-Keeps ltb by_number seats free_entitlement

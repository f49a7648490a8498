-- ===== src/PlanLimits/Tests.antt =====
-- Runs of apps/server/src/billing/limits.ts, and instances of the theorems on editor seats.
use whiteboard_ai.Base.{◌≤◌, refl, true, false, none, some, List, [], ◌∷◌, arith}
use whiteboard_ai.Entitlements.{free_entitlement}
use whiteboard_ai.Entitlements.Checks.{editor_seats_for_others, check_editor_seat}
use whiteboard_ai.BoardAccess.{BoardAccess, SeatRow, editor, by_member, editor_seat_for}
use whiteboard_ai.PlanLimits.{claim_editor_seat, active_count, plan_limits_for}
use whiteboard_ai.PlanLimits.Claims.{
  Claim, claim_all, claims_within_plan, unlimited_editor-HasSeat, HasSeat,
}

-- The free plan has two seats for others: one of the board 1 is taken, and another is suspended.
abbrev seats : List SeatRow
seats =
    record { board_id = 1; user_id = 10; claimed_at = 5; suspended = false }
    ∷ record { board_id = 1; user_id = 11; claimed_at = 6; suspended = true }
    ∷ []

abbrev claims : List Claim
claims =
    record { board_id = 1; user_id = 12; now = 7 }
    ∷ record { board_id = 1; user_id = 13; now = 8 }
    ∷ record { board_id = 2; user_id = 13; now = 9 }
    ∷ []

claims_within_plan_example :
    active_count 1 (claim_all (λ _. free_entitlement) claims seats)
    ≤ editor_seats_for_others free_entitlement
unfolding editor_seats_for_others free_entitlement
claims_within_plan_example = claims_within_plan (λ _. free_entitlement) claims seats 1 (omega arith)

abbrev access : BoardAccess
access = record {
  board_id = 1;
  org_id = none;
  is_public = false;
  is_private = false;
  deleted = false;
  role = some editor;
  via = some by_member;
  link_id = none;
  interview_capped = false;
  owner_id = some 3;
  locked = false;
  editor_seat = none;
}

unlimited_editor-HasSeat_example :
    HasSeat 1 12 (plan_limits_for free_entitlement access (some 12) 7 true seats).0
unfolding editor_seat_for plan_limits_for claim_editor_seat check_editor_seat free_entitlement
unlimited_editor-HasSeat_example =
    unlimited_editor-HasSeat free_entitlement access 12 3 7 seats refl refl refl refl

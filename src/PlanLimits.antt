-- ===== src/PlanLimits.antt =====
-- apps/server/src/billing/limits.ts: plan limits that the server enforces. A transaction under its
-- advisory lock is one function on the rows of `board_editor_seats`. `e` is the entitlement
-- that `loadEntitlement` finds for the board's owner. Messages are left out.
pub mod Claims
mod Tests
use whiteboard_ai.Base.{
  ℕ, Bool, true, false, ◌&&◌, not, Option, none, some, List, [], ◌∷◌, ◌++◌, ◌==◌, is_none, find,
  filter, any, length, if◌then◌else◌,
}
use whiteboard_ai.Entitlements.{Entitlement}
use whiteboard_ai.Entitlements.Checks.{
  LimitCheck, allowed, refused, check_editor_seat, check_board_create,
}
use whiteboard_ai.BoardAccess.{
  BoardAccess, BoardRole, viewer, editor, owner, SeatRow, EditorSeat, active_seat, suspended_seat,
}

-- `throwIfBlocked`: an error is the check that was refused.
pub data Assertion : Type 0 where
  passed : Assertion
  payment_required : LimitCheck → Assertion

abbrev pub throw_if_blocked : LimitCheck → Assertion
throw_if_blocked allowed = passed
throw_if_blocked (refused code plan limit) = payment_required (refused code plan limit)

-- A row of `boards`, as the board limit counts it.
pub record OwnedRow : Type 0 where
  pub owner_id : ℕ
  pub deleted : Bool

pub assert_board_slot : Entitlement → List OwnedRow → ℕ → Assertion
assert_board_slot e boards user = elim e.limits.boards [
  | none ↦ passed
  | some _ ↦
      throw_if_blocked
        (check_board_create e (length (filter (λ b. b.owner_id == user && not b.deleted) boards)))
]

abbrev pub is_seat_of : ℕ → ℕ → SeatRow → Bool
is_seat_of board user s = s.board_id == board && s.user_id == user

abbrev pub is_active_seat_of : ℕ → ℕ → SeatRow → Bool
is_active_seat_of board user s = is_seat_of board user s && not s.suspended

abbrev pub is_active_on : ℕ → SeatRow → Bool
is_active_on board s = s.board_id == board && not s.suspended

abbrev pub active_count : ℕ → List SeatRow → ℕ
active_count board seats = length (filter (is_active_on board) seats)

-- `if (check.allowed) insert(...)`
take_seat : LimitCheck → SeatRow → List SeatRow → List SeatRow × LimitCheck
take_seat allowed seat seats = (seats ++ seat ∷ [], allowed)
take_seat (refused code plan limit) seat seats = (seats, refused code plan limit)

pub claim_editor_seat : Entitlement → ℕ → ℕ → ℕ → List SeatRow → List SeatRow × LimitCheck
unfolding take_seat
claim_editor_seat e board user now seats = elim (find (is_seat_of board user) seats) [
  | some mine ↦ if mine.suspended then (seats, check_editor_seat e none) else (seats, allowed)
  | none ↦
      take_seat (check_editor_seat e (some (active_count board seats)))
        (record { board_id = board; user_id = user; claimed_at = now; suspended = false }) seats
]

-- `userId` may be null, which no seat's user is.
pub assert_editor_seat_available : Entitlement → ℕ → Option ℕ → List SeatRow → Assertion
assert_editor_seat_available e board user seats =
    let has_seat : Bool = elim user [
      | none ↦ false
      | some u ↦ any (is_active_seat_of board u) seats
    ] in
    if has_seat
    then passed
    else throw_if_blocked (check_editor_seat e (some (active_count board seats)))

pub data LimitReason : Type 0 where
  editor_limit_reached board_is_locked : LimitReason

abbrev limited_by : LimitCheck → Option LimitReason
limited_by allowed = none
limited_by (refused code plan limit) = some editor_limit_reached

abbrev is_viewer_or_none : Option BoardRole → Bool
is_viewer_or_none none = true
is_viewer_or_none (some viewer) = true
is_viewer_or_none (some _) = false

abbrev is_owner : Option BoardRole → Bool
is_owner (some owner) = true
is_owner _ = false

-- The rest of `planLimitsFor`, for a signed-in editor of a board with an owner.
editor_limits :
    Entitlement
    → ℕ
    → Option EditorSeat
    → Bool
    → ℕ
    → ℕ
    → List SeatRow
    → List SeatRow × Option LimitReason
editor_limits e board (some active_seat) claim user now seats = (seats, none)
editor_limits e board (some suspended_seat) claim user now seats =
    (seats, limited_by (check_editor_seat e none))
editor_limits e board none false user now seats = (seats, none)
editor_limits e board none true user now seats =
    let (seats', check) = claim_editor_seat e board user now seats in (seats', limited_by check)

pub plan_limits_for :
    Entitlement
    → BoardAccess
    → Option ℕ
    → ℕ
    → Bool
    → List SeatRow
    → List SeatRow × Option LimitReason
unfolding editor_limits
plan_limits_for e access user now claim seats =
    if is_viewer_or_none access.role
    then (seats, none)
    else if access.locked
    then (seats, some board_is_locked)
    else if is_owner access.role
    then (seats, none)
    else elim user [
      | none ↦ (seats, none)
      | some u ↦ elim access.owner_id [
        | none ↦ (seats, none)
        | some _ ↦ editor_limits e access.board_id access.editor_seat claim u now seats
      ]
    ]

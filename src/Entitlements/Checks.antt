-- ===== src/Entitlements/Checks.antt =====
-- packages/shared/src/entitlements/checks.ts: the decisions on plan limits. The texts shown to the
-- user are left out of LimitCheck. `locale_before a b` stands for `a.localeCompare(b) < 0`.
pub mod Keep
use whiteboard_ai.Base.{
  ℕ, ◌-◌, Bool, true, false, not, ◌&&◌, Option, none, some, List, [], ltb, ◌==◌, is_none, take,
  drop, sort, if◌then◌else◌,
}
use whiteboard_ai.Entitlements.{Plan, PlanLimits, Entitlement}

pub data LimitCode : Type 0 where
  board_limit editor_limit board_locked quota_exceeded plan_required : LimitCode

pub data LimitCheck : Type 0 where
  allowed : LimitCheck
  refused : LimitCode → Plan → Option ℕ → LimitCheck

pub data Feature : Type 0 where
  live_hints interview_mode private_rooms : Feature

includes : PlanLimits → Feature → Bool
includes l live_hints = l.live_hints
includes l interview_mode = l.interview_mode
includes l private_rooms = l.private_rooms

pub check_feature : Entitlement → Feature → LimitCheck
unfolding includes
check_feature e feature =
    if includes e.limits feature then allowed else refused plan_required e.plan none

pub check_board_create : Entitlement → ℕ → LimitCheck
check_board_create e owned = elim e.limits.boards [
  | none ↦ allowed
  | some limit ↦ if ltb owned limit then allowed else refused board_limit e.plan (some limit)
]

unfoldable pub editor_seats_for_others : Entitlement → ℕ
editor_seats_for_others owner = owner.limits.editors_per_board - 1

-- `claimed` is none for the source's `Infinity`.
unfoldable pub check_editor_seat : Entitlement → Option ℕ → LimitCheck
unfolding editor_seats_for_others
check_editor_seat owner claimed =
    let full = refused editor_limit owner.plan (some owner.limits.editors_per_board) in
    elim claimed [
      | none ↦ full
      | some n ↦ if ltb n (editor_seats_for_others owner) then allowed else full
    ]

pub check_ai_review : Entitlement → ℕ → LimitCheck
check_ai_review e used =
    if ltb used e.reviews_per_month
    then allowed
    else refused quota_exceeded e.plan (some e.reviews_per_month)

pub record Board : Type 0 where
  pub id : ℕ
  pub locked_at : Option ℕ
  pub updated_at : ℕ

pub record Seat : Type 0 where
  pub user_id : ℕ
  pub claimed_at : ℕ

-- What is kept, and the rest.
pub record Split (A : Type 0) : Type 0 where
  pub kept : List A
  pub rest : List A

module _ (locale_before : ℕ → ℕ → Bool) where
  -- The comparator of `boardsToKeepEditable` is negative.
  pub board_before : Board → Board → Bool
  board_before a b =
      if not (is_none a.locked_at) && is_none b.locked_at
      then false
      else if is_none a.locked_at && not (is_none b.locked_at)
      then true
      else if a.updated_at == b.updated_at
      then locale_before a.id b.id
      else ltb b.updated_at a.updated_at

  pub boards_to_keep_editable : List Board → Option ℕ → Split Board
  unfolding board_before
  boards_to_keep_editable boards limit = elim limit [
    | none ↦ record { kept = boards; rest = [] }
    | some n ↦ record {
      kept = take n (sort board_before boards);
      rest = drop n (sort board_before boards);
    }
  ]

  -- The comparator of `seatsToKeepActive` is negative.
  pub seat_before : Seat → Seat → Bool
  seat_before a b =
      if a.claimed_at == b.claimed_at
      then locale_before a.user_id b.user_id
      else ltb a.claimed_at b.claimed_at

  pub seats_to_keep_active : List Seat → Entitlement → Split Seat
  unfolding seat_before editor_seats_for_others
  seats_to_keep_active seats owner =
      let ordered = sort seat_before seats in
      let keep = editor_seats_for_others owner in
      record { kept = take keep ordered; rest = drop keep ordered }

-- ===== src/Entitlements.antt =====
-- packages/shared/src/entitlements/limits.ts and derive.ts: plans, grants and subscriptions.
-- Instants are milliseconds since the epoch; ids are numbers that are only compared.
pub mod Checks
pub mod Best
pub mod Grace
mod Tests
use whiteboard_ai.Base.{
  ℕ, ◌+◌, ◌*◌, Bool, true, false, ◌&&◌, not, Option, none, some, List, [], ◌∷◌, ltb, ◌==◌, is_none,
  get_or_else, or_option, if◌then◌else◌,
}

pub data Plan : Type 0 where
  free pro team : Plan

-- `boards` is none where the plan has no limit.
pub record PlanLimits : Type 0 where
  pub boards : Option ℕ
  pub editors_per_board : ℕ
  pub ai_reviews_per_month : ℕ
  pub live_hints : Bool
  pub interview_mode : Bool
  pub private_rooms : Bool

unfoldable pub plan_limits : Plan → PlanLimits
plan_limits free = record {
  boards = some 3;
  editors_per_board = 3;
  ai_reviews_per_month = 5;
  live_hints = false;
  interview_mode = false;
  private_rooms = false;
}
plan_limits pro = record {
  boards = none;
  editors_per_board = 10;
  ai_reviews_per_month = 100;
  live_hints = true;
  interview_mode = false;
  private_rooms = true;
}
plan_limits team = record {
  boards = none;
  editors_per_board = 50;
  ai_reviews_per_month = 300;
  live_hints = true;
  interview_mode = true;
  private_rooms = true;
}

unfoldable pub plan_rank : Plan → ℕ
plan_rank free = 0
plan_rank pro = 1
plan_rank team = 2

abbrev pub grace_period_days : ℕ
grace_period_days = 7

pub data EntitlementSource : Type 0 where
  subscription team_seat student_trial manual : EntitlementSource

pub record EntitlementGrant : Type 0 where
  pub plan : Plan
  pub source : EntitlementSource
  pub source_id : ℕ
  pub valid_until : Option ℕ
  pub org_id : Option ℕ
  pub seats : Option ℕ
  pub ai_reviews_per_month_override : Option ℕ

pub record Pool : Type 0 where
  pub org_id : ℕ
  pub seats : ℕ

-- `source` is none for "free".
pub record Entitlement : Type 0 where
  pub plan : Plan
  pub source : Option EntitlementSource
  pub valid_until : Option ℕ
  pub limits : PlanLimits
  pub reviews_per_month : ℕ
  pub pool : Option Pool

unfoldable pub free_entitlement : Entitlement
unfolding plan_limits
free_entitlement = record {
  plan = free;
  source = none;
  valid_until = none;
  limits = plan_limits free;
  reviews_per_month = (plan_limits free).ai_reviews_per_month;
  pool = none;
}

unfoldable pub is_grant_active : EntitlementGrant → ℕ → Bool
is_grant_active grant now = elim grant.valid_until [ none ↦ true | some until ↦ ltb now until ]

pub outranks : EntitlementGrant → EntitlementGrant → Bool
outranks a b =
    if not (plan_rank a.plan == plan_rank b.plan)
    then ltb (plan_rank b.plan) (plan_rank a.plan)
    else elim a.valid_until [
      | none ↦ not (is_none b.valid_until)
      | some until ↦ elim b.valid_until [ none ↦ false | some other ↦ ltb other until ]
    ]

abbrev is_team_seat : EntitlementSource → Bool
is_team_seat team_seat = true
is_team_seat _ = false

-- A seat count of 0 or null, or no organization, is no pool.
pool_of : EntitlementGrant → Option Pool
pool_of best = elim best.org_id [
  | none ↦ none
  | some org ↦ elim best.seats [
    | none ↦ none
    | some seats ↦
        if is_team_seat best.source && ltb 0 seats
        then some (record { org_id = org; seats = seats })
        else none
  ]
]

-- What the chosen grant gives.
pub entitlement_of : EntitlementGrant → Entitlement
unfolding pool_of
entitlement_of best =
    let limits = plan_limits best.plan in
    let each = limits.ai_reviews_per_month in
    let shared : ℕ = elim (pool_of best) [ none ↦ each | some pool ↦ each * pool.seats ] in
    record {
      plan = best.plan;
      source = some best.source;
      valid_until = best.valid_until;
      limits = limits;
      reviews_per_month = get_or_else best.ai_reviews_per_month_override shared;
      pool = pool_of best;
    }

-- `if (best === null || outranks(grant, best)) best = grant`
unfoldable pub prefer : EntitlementGrant → Option EntitlementGrant → Option EntitlementGrant
prefer grant none = some grant
prefer grant (some best) = if outranks grant best then some grant else some best

-- The loop of `effectiveEntitlement`.
pub choose : Option EntitlementGrant → List EntitlementGrant → ℕ → Option EntitlementGrant
unfolding prefer
choose best [] now = best
choose best (grant ∷ grants) now =
    choose (if is_grant_active grant now then prefer grant best else best) grants now

pub effective_entitlement : List EntitlementGrant → ℕ → Entitlement
unfolding choose
effective_entitlement grants now = elim (choose none grants now) [
  | none ↦ free_entitlement
  | some best ↦ entitlement_of best
]

pub data SubscriptionStatus : Type 0 where
  created authenticated active past_due halted paused cancelled completed expired :
      SubscriptionStatus

-- `FAILED.includes(status)`
unfoldable pub is_failed : SubscriptionStatus → Bool
is_failed past_due = true
is_failed halted = true
is_failed _ = false

-- `ENDED.includes(status)`
unfoldable pub is_ended : SubscriptionStatus → Bool
is_ended cancelled = true
is_ended completed = true
is_ended expired = true
is_ended _ = false

pub record SubscriptionState : Type 0 where
  pub status : SubscriptionStatus
  pub current_period_end : Option ℕ
  pub cancel_at_period_end : Bool
  pub grace_until : Option ℕ

-- `never` is the source's `false`, and `open_ended` its `null`.
pub data ValidUntil : Type 0 where
  never open_ended : ValidUntil
  until : ℕ → ValidUntil

abbrev pub until_or_never : Option ℕ → ValidUntil
until_or_never none = never
until_or_never (some t) = until t

abbrev is_created_or_paused : SubscriptionStatus → Bool
is_created_or_paused created = true
is_created_or_paused paused = true
is_created_or_paused _ = false

unfoldable pub subscription_valid_until : SubscriptionState → ValidUntil
unfolding is_failed is_ended
subscription_valid_until sub =
    if is_created_or_paused sub.status
    then never
    else if is_failed sub.status
    then until_or_never sub.grace_until
    else if is_ended sub.status
    then until_or_never (or_option sub.grace_until sub.current_period_end)
    else if sub.cancel_at_period_end
    then until_or_never sub.current_period_end
    else open_ended

abbrev pub is_paid : SubscriptionStatus → Bool
is_paid active = true
is_paid authenticated = true
is_paid _ = false

-- `nextGrace(previous, next, now)`; of `previous` the source reads the grace alone.
unfoldable pub next_grace : Option ℕ → SubscriptionStatus → ℕ → Option ℕ
unfolding is_failed
next_grace previous next now =
    if is_failed next
    then elim previous [
      | none ↦ some (now + grace_period_days * 24 * 60 * 60 * 1000)
      | some grace ↦ some grace
    ]
    else if is_paid next
    then none
    else previous

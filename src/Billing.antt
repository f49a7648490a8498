-- ===== src/Billing.antt =====
-- What a subscription gives (apps/server/src/billing/entitlements.ts, and the grants of
-- apps/server/src/billing/sync.ts). The table `entitlements` is a list of rows, and a statement on it a
-- function; ids and times are numbers. `updated_at` is left out.
pub mod Grants
pub mod Seats
pub mod Tables
pub mod Sync
mod Tests
use whiteboard_ai.Base.{
  ℕ, ◌+◌, Bool, true, false, ◌&&◌, ◌||◌, not, Option, none, some, List, [], ◌∷◌, ◌++◌, map, filter,
  any, includes, leb, ltb, ◌==◌, sort, if◌then◌else◌,
}
use whiteboard_ai.BoardAccess.{OrgRole, org_owner, org_admin, org_member}
use whiteboard_ai.Entitlements.{
  Plan, free, pro, team, EntitlementSource, subscription, team_seat, student_trial, manual,
  EntitlementGrant, SubscriptionState, ValidUntil, never, open_ended, until,
  subscription_valid_until,
}

-- A row of `entitlements`.
pub record GrantRow : Type 0 where
  pub user_id : ℕ
  pub grant : EntitlementGrant
  pub expiry_processed_at : Option ℕ

abbrev pub load_grants : ℕ → List GrantRow → List EntitlementGrant
load_grants user rows = map (λ r. r.grant) (filter (λ r. r.user_id == user) rows)

pub record GrantInput : Type 0 where
  pub user_id : ℕ
  pub plan : Plan
  pub source : EntitlementSource
  pub source_id : ℕ
  pub valid_until : Option ℕ
  pub org_id : Option ℕ
  pub seats : Option ℕ

abbrev pub source_index : EntitlementSource → ℕ
source_index subscription = 0
source_index team_seat = 1
source_index student_trial = 2
source_index manual = 3

-- The row's key of the unique index on user, source and source id.
abbrev pub has_key : ℕ → EntitlementSource → ℕ → GrantRow → Bool
has_key user source source_id r =
    r.user_id == user
    && (source_index r.grant.source == source_index source && r.grant.source_id == source_id)

-- `is not distinct from`
abbrev pub same_time : Option ℕ → Option ℕ → Bool
same_time none none = true
same_time none (some u) = false
same_time (some t) none = false
same_time (some t) (some u) = t == u

abbrev pub inserted_row : GrantInput → GrantRow
inserted_row g = record {
  user_id = g.user_id;
  grant = record {
    plan = g.plan;
    source = g.source;
    source_id = g.source_id;
    valid_until = g.valid_until;
    org_id = g.org_id;
    seats = g.seats;
    ai_reviews_per_month_override = none;
  };
  expiry_processed_at = none;
}

-- On a conflict the allowance that replaces the plan's stays.
abbrev pub updated_row : GrantInput → GrantRow → GrantRow
updated_row g r = record r {
  grant = record r.grant {
    plan = g.plan;
    valid_until = g.valid_until;
    org_id = g.org_id;
    seats = g.seats;
  };
  expiry_processed_at =
      if same_time r.grant.valid_until g.valid_until then r.expiry_processed_at else none;
}

-- `update ... set ... where ...`
abbrev pub update_where : (GrantRow → Bool) → (GrantRow → GrantRow) → List GrantRow → List GrantRow
update_where p f rows = map (λ r. if p r then f r else r) rows

unfoldable pub upsert_grant : GrantInput → List GrantRow → List GrantRow
upsert_grant g rows =
    if any (has_key g.user_id g.source g.source_id) rows
    then update_where (has_key g.user_id g.source g.source_id) (updated_row g) rows
    else rows ++ inserted_row g ∷ []

abbrev pub runs_after : ℕ → Option ℕ → Bool
runs_after now none = true
runs_after now (some t) = ltb now t

abbrev pub ended_row : ℕ → GrantRow → GrantRow
ended_row now r = record r {
  grant = record r.grant { valid_until = some now };
  expiry_processed_at = none;
}

unfoldable pub end_grant : ℕ → EntitlementSource → ℕ → ℕ → List GrantRow → List GrantRow
end_grant user source source_id now rows =
    update_where (λ r. has_key user source source_id r && runs_after now r.grant.valid_until)
      (ended_row now) rows

-- A row of `subscriptions`, as far as grants depend on it.
pub record SubscriptionRow : Type 0 where
  pub id : ℕ
  pub user_id : Option ℕ
  pub org_id : Option ℕ
  pub quantity : ℕ
  pub state : SubscriptionState

abbrev pub is_team : Plan → Bool
is_team team = true
is_team free = false
is_team pro = false

-- `upsertGrant` or `endGrant`, by the end of what the subscription gives.
abbrev pub give_or_end : ValidUntil → GrantInput → ℕ → List GrantRow → List GrantRow
give_or_end never g now rows = end_grant g.user_id g.source g.source_id now rows
give_or_end open_ended g now rows = upsert_grant (record g { valid_until = none }) rows
give_or_end (until t) g now rows = upsert_grant (record g { valid_until = some t }) rows

abbrev pub seat_of : SubscriptionRow → ℕ → ℕ → GrantInput
seat_of sub org user = record {
  user_id = user;
  plan = team;
  source = team_seat;
  source_id = sub.id;
  valid_until = none;
  org_id = some org;
  seats = some sub.quantity;
}

-- The loop over the members, from the one with this index on.
unfoldable pub give_seats :
    SubscriptionRow → ValidUntil → ℕ → ℕ → ℕ → List ℕ → List GrantRow → List GrantRow
give_seats sub end org now index [] rows = rows
give_seats sub end org now index (user ∷ users) rows =
    give_seats sub end org now (index + 1) users
      (give_or_end (if leb sub.quantity index then never else end) (seat_of sub org user) now rows)

-- The users with a row for a seat of the subscription.
abbrev pub holders : ℕ → List GrantRow → List ℕ
holders sub rows =
    map (λ r. r.user_id)
      (filter
        (λ r. source_index r.grant.source == source_index team_seat && r.grant.source_id == sub)
        rows)

-- The loop over the holders: who is no member loses the seat.
unfoldable pub end_seats : ℕ → ℕ → List ℕ → List ℕ → List GrantRow → List GrantRow
end_seats sub now members [] rows = rows
end_seats sub now members (user ∷ users) rows =
    end_seats sub now members users
      (if includes user members then rows else end_grant user team_seat sub now rows)

abbrev pub team_seats : SubscriptionRow → ℕ → ℕ → List ℕ → List GrantRow → List GrantRow × List ℕ
team_seats sub org now members rows =
    let end = subscription_valid_until sub.state in
    let given = give_seats sub end org now 0 members rows in
    let left = filter (λ u. not (includes u members)) (holders sub.id given) in
    (end_seats sub.id now members (holders sub.id given) given, members ++ left)

abbrev pub own_grant : SubscriptionRow → Plan → ℕ → GrantInput
own_grant sub tier user = record {
  user_id = user;
  plan = tier;
  source = subscription;
  source_id = sub.id;
  valid_until = none;
  org_id = none;
  seats = none;
}

-- `members` is what `teamMembersInSeatOrder` finds. The result has the users whose grants it touched.
unfoldable pub refresh_subscription_grants :
    SubscriptionRow → Plan → ℕ → (ℕ → List ℕ) → List GrantRow → List GrantRow × List ℕ
unfolding give_seats end_seats
refresh_subscription_grants sub tier now members rows =
    if not (is_team tier)
    then elim sub.user_id [
      | none ↦ (rows, [])
      | some user ↦ (
        give_or_end (subscription_valid_until sub.state) (own_grant sub tier user) now rows,
        user ∷ [],
      )
    ]
    else elim sub.org_id [
      | none ↦ (rows, [])
      | some org ↦ team_seats sub org now (members org) rows
    ]

-- A row of `memberships`.
pub record TeamMember : Type 0 where
  pub org_id : ℕ
  pub user_id : ℕ
  pub role : OrgRole
  pub created_at : ℕ

abbrev pub role_order : OrgRole → ℕ
role_order org_owner = 0
role_order org_admin = 1
role_order org_member = 2

abbrev pub seat_before_member : TeamMember → TeamMember → Bool
seat_before_member a b =
    if role_order a.role == role_order b.role
    then if a.created_at == b.created_at
      then ltb a.user_id b.user_id
      else ltb a.created_at b.created_at
    else ltb (role_order a.role) (role_order b.role)

abbrev pub team_members_in_seat_order : List TeamMember → ℕ → List ℕ
team_members_in_seat_order rows org =
    map (λ m. m.user_id) (sort seat_before_member (filter (λ m. m.org_id == org) rows))

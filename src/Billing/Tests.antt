-- ===== src/Billing/Tests.antt =====
-- Runs of `refreshSubscriptionGrants` and `syncSubscription` (apps/server/src/billing/sync.ts), and
-- instances of the theorems.
use whiteboard_ai.Base.{
  ℕ, ◌≡◌, ◌⊎◌, refl, ◌&&◌, ◌+◌, ◌≤◌, length, Bool, true, false, Option, none, some, List, [], ◌∷◌,
  includes, take,
}
use whiteboard_ai.BoardAccess.{org_owner, org_member}
use whiteboard_ai.Entitlements.{active, pro, team, subscription_valid_until, next_grace}
use whiteboard_ai.Billing.{
  GrantRow, SubscriptionRow, TeamMember, load_grants, seat_of, inserted_row,
  refresh_subscription_grants, team_members_in_seat_order,
}
use whiteboard_ai.Billing.Grants.{has_seat, runs_on}
use whiteboard_ai.Billing.Seats.{seats_lem}
use whiteboard_ai.Billing.Sync.{
  ProviderInvoice, ProviderSubscription, BillingTables, Catalog, receipt, paid, no_effects,
  duplicate, sync_subscription,
}
use whiteboard_ai.Billing.Sync.Once.{receipts, receipted}
use whiteboard_ai.Billing.Sync.Runs.{
  SyncCall, call_sync, run_syncs, is_redeemed, sent_once, redelivered_event,
}

abbrev memberships : List TeamMember
memberships =
    record { org_id = 7; user_id = 3; role = org_member; created_at = 1 }
    ∷ record { org_id = 7; user_id = 1; role = org_owner; created_at = 5 }
    ∷ record { org_id = 8; user_id = 5; role = org_owner; created_at = 2 }
    ∷ record { org_id = 7; user_id = 2; role = org_member; created_at = 4 }
    ∷ []

abbrev two_seats : SubscriptionRow
two_seats = record {
  id = 9;
  user_id = some 1;
  org_id = some 7;
  quantity = 2;
  state = record {
    status = active;
    current_period_end = some 100;
    cancel_at_period_end = false;
    grace_until = none;
  };
}

-- The users 2 and 4 hold seats; 4 has left the workspace.
abbrev before : List GrantRow
before = inserted_row (seat_of two_seats 7 2) ∷ inserted_row (seat_of two_seats 7 4) ∷ []

abbrev after : List GrantRow
after =
    (refresh_subscription_grants two_seats team 50 (team_members_in_seat_order memberships)
      before).0

owner_and_first : List Bool
owner_and_first =
    has_seat 9 50 1 after
    ∷ has_seat 9 50 2 after
    ∷ has_seat 9 50 3 after
    ∷ has_seat 9 50 4 after
    ∷ []

seats_lem_example :
    (has_seat 9 50 3 after ≡ (
      includes 3 (take 2 (1 ∷ 3 ∷ 2 ∷ []))
      && runs_on 50 (subscription_valid_until two_seats.state)))
    × ((includes 3
            (refresh_subscription_grants two_seats team 50
              (team_members_in_seat_order memberships)
              before).1
          ≡ true)
        ⊎ (load_grants 3 after ≡ load_grants 3 before))
seats_lem_example =
    seats_lem two_seats 7 50 3 (team_members_in_seat_order memberships) before refl
      (refl, (refl, (refl, tt)))

abbrev invoice : ProviderInvoice
invoice = record {
  id = 40;
  payment_id = some 41;
  status = paid;
  amount_minor = 900;
  currency = 1;
  period_start = some 0;
  period_end = some 100;
  issued_at = some 1;
  paid_at = some 2;
  receipt_url = none;
}

abbrev remote : ProviderSubscription
remote = record {
  customer_id = some 3;
  provider_plan_id = 77;
  status = active;
  quantity = 1;
  current_period_start = some 0;
  current_period_end = some 100;
  next_charge_at = some 100;
  ended_at = none;
  has_scheduled_change = false;
  owner = some (7, 1);
}

abbrev catalog : Catalog
catalog = record {
  provider_plan_ids = (5, 77) ∷ [];
  tier_of = λ p. some pro;
  email_of = λ u. some 8;
  members = team_members_in_seat_order memberships;
}

abbrev empty : BillingTables
empty = record {
  events = [];
  local = none;
  invoices = [];
  redemptions = [];
  grants = [];
  audits = 0;
}

-- A webhook, its redelivery, a second webhook with the same invoice, and a refresh.
abbrev call : Option ℕ → SyncCall
call event = record {
  now = 50;
  new_id = 1;
  remote = remote;
  invoices = invoice ∷ [];
  event = event;
}

abbrev calls : List SyncCall
calls = call (some 100) ∷ call (some 100) ∷ call (some 101) ∷ call none ∷ []

one_receipt : (run_syncs catalog calls empty).1 ≡ receipt 40 ∷ []
unfolding run_syncs sync_subscription next_grace
one_receipt = refl

sent_once_example :
    (receipts 40 (run_syncs catalog calls empty).1 + receipted 40 empty.invoices ≤ 1)
    × (length (run_syncs catalog calls empty).0.redemptions + is_redeemed empty.local ≤ 1)
sent_once_example = sent_once catalog 40 calls empty tt

redelivered_event_example :
    let t' =
      (run_syncs catalog (call (some 101) ∷ []) (call_sync catalog (call (some 100)) empty).0).0 in
    call_sync catalog (call (some 100)) t' ≡ (t', duplicate, no_effects)
unfolding sync_subscription
redelivered_event_example =
    redelivered_event catalog (call (some 100)) (call (some 100)) (call (some 101) ∷ []) 100 empty
      refl refl refl

-- ===== src/Billing/Sync.antt =====
-- `syncSubscription` of apps/server/src/billing/sync.ts, as a transaction on the rows of one
-- subscription of the provider, which its lock keeps to itself. `ℕ` stands for ids, times, texts and
-- amounts. What the tables hold that the sync only reads is the record `Catalog`. Limits are enforced on
-- the boards of the users that the result names; audit entries are counted.
pub mod Once
pub mod Runs
pub use whiteboard_ai.Billing.Tables.{
  InvoiceStatus, paid, issued, failed, invoice_cancelled, ProviderInvoice, ProviderSubscription,
  SyncedValues, StoredSubscription, InvoiceRow, BillingTables, Catalog, Email, receipt,
  payment_failed, Effects, no_effects, SyncOutcome, applied, unchanged, duplicate, unknown, thrown,
}
use whiteboard_ai.Base.{
  ℕ, ◌+◌, Bool, true, false, ◌&&◌, ◌||◌, not, Option, none, some, List, [], ◌∷◌, ◌++◌, map, filter,
  any, includes, find, is_none, get_or_else, or_option, ◌==◌, if◌then◌else◌,
}
use whiteboard_ai.Entitlements.{
  Plan, SubscriptionStatus, created, authenticated, active, past_due, halted, paused, cancelled,
  completed, expired, SubscriptionState, is_failed, is_paid, next_grace,
}
use whiteboard_ai.Billing.{GrantRow, SubscriptionRow, same_time, refresh_subscription_grants}

abbrev pub plan_id_for_provider : List (ℕ × ℕ) → ℕ → Option ℕ
plan_id_for_provider [] provider_plan = none
plan_id_for_provider ((plan, id) ∷ plans) provider_plan =
    if id == provider_plan then some plan else plan_id_for_provider plans provider_plan

abbrev pub status_index : SubscriptionStatus → ℕ
status_index created = 0
status_index authenticated = 1
status_index active = 2
status_index past_due = 3
status_index halted = 4
status_index paused = 5
status_index cancelled = 6
status_index completed = 7
status_index expired = 8

abbrev pub is_paid_invoice : InvoiceStatus → Bool
is_paid_invoice paid = true
is_paid_invoice issued = false
is_paid_invoice failed = false
is_paid_invoice invoice_cancelled = false

abbrev pub grace_of : Option StoredSubscription → Option ℕ
grace_of none = none
grace_of (some l) = l.values.grace_until

abbrev pub values_of : ℕ → ProviderSubscription → ℕ → Option StoredSubscription → SyncedValues
values_of plan_id remote now local =
    let grace = next_grace (grace_of local) remote.status now in
    let cancels : Bool = elim local [
      | none ↦ false
      | some l ↦ l.values.cancel_at_period_end && is_paid remote.status
    ] in
    let reminded : Option ℕ = elim local [
      | none ↦ none
      | some l ↦ l.values.grace_reminder_sent_at
    ] in
    record {
      plan_id = plan_id;
      status = remote.status;
      quantity = remote.quantity;
      provider_customer_id = remote.customer_id;
      current_period_start = remote.current_period_start;
      current_period_end = remote.current_period_end;
      next_charge_at =
          if cancels || not (is_paid remote.status) then none else remote.next_charge_at;
      ended_at = remote.ended_at;
      has_scheduled_change = remote.has_scheduled_change;
      cancel_at_period_end = cancels;
      grace_until = grace;
      grace_reminder_sent_at = if is_none grace then none else reminded;
      synced_at = now;
    }

-- The row that is updated, or inserted with the id `new_id`.
abbrev pub stored_row : ℕ → ℕ × ℕ → SyncedValues → Option StoredSubscription → StoredSubscription
stored_row new_id (org, user) values none = record {
  id = new_id;
  org_id = some org;
  user_id = some user;
  coupon_code = none;
  coupon_redeemed_at = none;
  values = values;
}
stored_row new_id owner values (some l) = record l { values = values }

abbrev pub has_changed : SyncedValues → Option StoredSubscription → Bool
has_changed v none = true
has_changed v (some l) =
    not (status_index l.values.status == status_index v.status)
    || (not (l.values.plan_id == v.plan_id)
        || (not (l.values.quantity == v.quantity)
            || (not (same_time l.values.current_period_end v.current_period_end)
                || not (same_time l.values.grace_until v.grace_until))))

-- `redeemCoupon`: a coupon counts once, when its subscription is first paid for.
abbrev pub redeem_coupon : ℕ → StoredSubscription → List ℕ → StoredSubscription × List ℕ
redeem_coupon now row redemptions = elim row.coupon_code [
  | none ↦ (row, redemptions)
  | some code ↦
      if not (is_none row.coupon_redeemed_at) || not (is_paid row.values.status)
      then (row, redemptions)
      else (record row { coupon_redeemed_at = some now }, redemptions ++ code ∷ [])
]

-- `upsertInvoice`: on a conflict all but the receipt's time is set.
unfoldable pub upsert_invoice : ProviderInvoice → List InvoiceRow → List InvoiceRow
upsert_invoice i [] = record { invoice = i; receipt_sent_at = none } ∷ []
upsert_invoice i (r ∷ rows) =
    let rest = upsert_invoice i rows in
    if r.invoice.id == i.id then record r { invoice = i } ∷ rows else r ∷ rest

unfoldable pub upsert_invoices : List ProviderInvoice → List InvoiceRow → List InvoiceRow
unfolding upsert_invoice
upsert_invoices [] rows = rows
upsert_invoices (i ∷ is) rows = upsert_invoices is (upsert_invoice i rows)

abbrev pub is_due : InvoiceRow → Bool
is_due r = is_paid_invoice r.invoice.status && is_none r.receipt_sent_at

-- `update ... set receipt_sent_at`, and the ids of the rows that it returns.
abbrev pub mark_receipts : ℕ → List InvoiceRow → List InvoiceRow
mark_receipts now rows =
    map (λ r. if is_due r then record r { receipt_sent_at = some now } else r) rows

abbrev pub unsent_receipts : List InvoiceRow → List ℕ
unsent_receipts rows = map (λ r. r.invoice.id) (filter is_due rows)

abbrev pub was_failed : Option StoredSubscription → Bool
was_failed none = false
was_failed (some l) = is_failed l.values.status

-- "Payment failed", once when the grace period begins.
abbrev pub failure_email : SyncedValues → Option StoredSubscription → List Email
failure_email v local = elim v.grace_until [
  | none ↦ []
  | some t ↦ if is_failed v.status && not (was_failed local) then payment_failed t ∷ [] else []
]

abbrev pub emails_for : Option ℕ → List ℕ → SyncedValues → Option StoredSubscription → List Email
emails_for none receipts v local = []
emails_for (some address) receipts v local = map receipt receipts ++ failure_email v local

abbrev pub as_row : StoredSubscription → SubscriptionRow
as_row row = record {
  id = row.id;
  user_id = row.user_id;
  org_id = row.org_id;
  quantity = row.values.quantity;
  state = record {
    status = row.values.status;
    current_period_end = row.values.current_period_end;
    cancel_at_period_end = row.values.cancel_at_period_end;
    grace_until = row.values.grace_until;
  };
}

abbrev pub email_of_user : Catalog → Option ℕ → Option ℕ
email_of_user c none = none
email_of_user c (some user) = c.email_of user

-- What `applyRemote` does once the owner, the plan and its tier are known.
unfoldable pub write_remote :
    Catalog
    → ℕ
    → StoredSubscription
    → Plan
    → List ProviderInvoice
    → Bool
    → BillingTables
    → BillingTables × SyncOutcome × Effects
unfolding upsert_invoices
write_remote c now row tier invoices has_event t =
    let changed = has_changed row.values t.local in
    let (redeemed, redemptions) = redeem_coupon now row t.redemptions in
    let stored = upsert_invoices invoices t.invoices in
    let (grants, touched) = refresh_subscription_grants (as_row row) tier now c.members t.grants in
    (
      record t {
        local = some redeemed;
        invoices = mark_receipts now stored;
        redemptions = redemptions;
        grants = grants;
        audits = if changed || has_event then t.audits + 1 else t.audits;
      },
      (if changed then applied else unchanged),
      record {
        emails =
            emails_for (email_of_user c row.user_id) (unsent_receipts stored) row.values t.local;
        enforce = touched;
      },
    )

abbrev pub local_plan : Option StoredSubscription → Option ℕ
local_plan none = none
local_plan (some l) = some l.values.plan_id

-- Who a subscription belongs to does not matter where there is a local row.
abbrev pub owner_of : ProviderSubscription → Option StoredSubscription → Option (ℕ × ℕ)
owner_of remote none = remote.owner
owner_of remote (some l) = some (get_or_else l.org_id 0, get_or_else l.user_id 0)

module _ (c : Catalog) (now new_id : ℕ) (remote : ProviderSubscription)
    (invoices : List ProviderInvoice) (has_event : Bool) (t : BillingTables) where
  -- The owner and the plan are known; a plan that the catalog lacks is an exception.
  abbrev pub with_tier : ℕ × ℕ → ℕ → Option Plan → BillingTables × SyncOutcome × Effects
  with_tier owner plan_id none = (t, thrown, no_effects)
  with_tier owner plan_id (some tier) =
      write_remote c now (stored_row new_id owner (values_of plan_id remote now t.local) t.local)
        tier invoices has_event t

  abbrev pub with_plan : ℕ × ℕ → Option ℕ → BillingTables × SyncOutcome × Effects
  with_plan owner none = (t, thrown, no_effects)
  with_plan owner (some plan_id) = with_tier owner plan_id (c.tier_of plan_id)

  abbrev pub with_owner : Option (ℕ × ℕ) → BillingTables × SyncOutcome × Effects
  with_owner none = (t, unknown, no_effects)
  with_owner (some owner) = with_plan owner (
      or_option (plan_id_for_provider c.provider_plan_ids remote.provider_plan_id)
        (local_plan t.local))

  unfoldable pub apply_remote : BillingTables × SyncOutcome × Effects
  unfolding write_remote
  apply_remote = with_owner (owner_of remote t.local)

abbrev pub is_thrown : SyncOutcome → Bool
is_thrown thrown = true
is_thrown applied = false
is_thrown unchanged = false
is_thrown duplicate = false
is_thrown unknown = false

-- A transaction that throws leaves the tables as they were.
abbrev pub roll_back :
    BillingTables → BillingTables × SyncOutcome × Effects → BillingTables × SyncOutcome × Effects
roll_back t (t', outcome, effects) =
    if is_thrown outcome then (t, outcome, no_effects) else (t', outcome, effects)

-- `event` is the webhook's event, or none for a refresh.
unfoldable pub sync_subscription :
    Catalog
    → ℕ
    → ℕ
    → ProviderSubscription
    → List ProviderInvoice
    → Option ℕ
    → BillingTables
    → BillingTables × SyncOutcome × Effects
unfolding apply_remote
sync_subscription c now new_id remote invoices none t =
    roll_back t (apply_remote c now new_id remote invoices false t)
sync_subscription c now new_id remote invoices (some id) t =
    if includes id t.events
    then (t, duplicate, no_effects)
    else roll_back t
        (apply_remote c now new_id remote invoices true (record t { events = t.events ++ id ∷ [] }))

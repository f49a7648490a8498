-- ===== src/Billing/Tables.antt =====
-- The rows that `syncSubscription` reads and writes, and what it answers (apps/server/src/billing/sync.ts,
-- provider.ts and context.ts, and packages/shared/src/db/schema.ts).
use whiteboard_ai.Base.{ℕ, Bool, Option, List, []}
use whiteboard_ai.Entitlements.{Plan, SubscriptionStatus}
use whiteboard_ai.Billing.{GrantRow}

pub data InvoiceStatus : Type 0 where
  paid issued failed invoice_cancelled : InvoiceStatus

pub record ProviderInvoice : Type 0 where
  pub id : ℕ
  pub payment_id : Option ℕ
  pub status : InvoiceStatus
  pub amount_minor : ℕ
  pub currency : ℕ
  pub period_start : Option ℕ
  pub period_end : Option ℕ
  pub issued_at : Option ℕ
  pub paid_at : Option ℕ
  pub receipt_url : Option ℕ

-- `owner` is what `ownerFromNotes` finds: the workspace and the user that the notes name, if they are
-- valid ids and the user is a member.
pub record ProviderSubscription : Type 0 where
  pub customer_id : Option ℕ
  pub provider_plan_id : ℕ
  pub status : SubscriptionStatus
  pub quantity : ℕ
  pub current_period_start : Option ℕ
  pub current_period_end : Option ℕ
  pub next_charge_at : Option ℕ
  pub ended_at : Option ℕ
  pub has_scheduled_change : Bool
  pub owner : Option (ℕ × ℕ)

-- The columns that a sync sets.
pub record SyncedValues : Type 0 where
  pub plan_id : ℕ
  pub status : SubscriptionStatus
  pub quantity : ℕ
  pub provider_customer_id : Option ℕ
  pub current_period_start : Option ℕ
  pub current_period_end : Option ℕ
  pub next_charge_at : Option ℕ
  pub ended_at : Option ℕ
  pub has_scheduled_change : Bool
  pub cancel_at_period_end : Bool
  pub grace_until : Option ℕ
  pub grace_reminder_sent_at : Option ℕ
  pub synced_at : ℕ

pub record StoredSubscription : Type 0 where
  pub id : ℕ
  pub org_id : Option ℕ
  pub user_id : Option ℕ
  pub coupon_code : Option ℕ
  pub coupon_redeemed_at : Option ℕ
  pub values : SyncedValues

pub record InvoiceRow : Type 0 where
  pub invoice : ProviderInvoice
  pub receipt_sent_at : Option ℕ

-- `redemptions` lists the code of each redemption.
pub record BillingTables : Type 0 where
  pub events : List ℕ
  pub local : Option StoredSubscription
  pub invoices : List InvoiceRow
  pub redemptions : List ℕ
  pub grants : List GrantRow
  pub audits : ℕ

pub record Catalog : Type 0 where
  pub provider_plan_ids : List (ℕ × ℕ)
  pub tier_of : ℕ → Option Plan
  pub email_of : ℕ → Option ℕ
  pub members : ℕ → List ℕ

pub data Email : Type 0 where
  receipt : ℕ → Email
  payment_failed : ℕ → Email

pub record Effects : Type 0 where
  pub emails : List Email
  pub enforce : List ℕ

abbrev pub no_effects : Effects
no_effects = record { emails = []; enforce = [] }

-- `thrown` is an exception, which rolls the transaction back.
pub data SyncOutcome : Type 0 where
  applied unchanged duplicate unknown thrown : SyncOutcome

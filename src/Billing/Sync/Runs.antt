-- ===== src/Billing/Sync/Runs.antt =====
-- A run of calls of `syncSubscription` (apps/server/src/billing/sync.ts): webhooks that are delivered
-- again and in any order, refreshes and sweeps.
use whiteboard_ai.Base.{
  ℕ, ◌+◌, ◌≤◌, ◌≡◌, refl, sym, subst, inl, inr, Bool, true, false, ◌||◌, not, Option, none, some,
  List, [], ◌∷◌, ◌++◌, arith, includes, includes-append, is_none, length, length-append, or_option,
  ==_iff, Bool-cases, Option-cases, if◌then◌else◌,
}
use whiteboard_ai.Entitlements.{Plan, is_paid}
use whiteboard_ai.Billing.Seats.{Different}
use whiteboard_ai.Billing.Sync.{
  ProviderSubscription, ProviderInvoice, StoredSubscription, SyncedValues, BillingTables, Catalog,
  Email, Effects, no_effects, SyncOutcome, duplicate, upsert_invoices, unsent_receipts,
  email_of_user, owner_of, local_plan, plan_id_for_provider, stored_row, values_of, write_remote,
  with_tier, with_plan, with_owner, apply_remote, is_thrown, roll_back, sync_subscription,
  redeem_coupon,
}
use whiteboard_ai.Billing.Sync.Once.{
  receipted, receipts, invoice_ids, receipted-upsert_invoices, receipted-mark_receipts,
  receipts-append, receipts-emails_for, upsert_invoices-Different, ids-mark_receipts, receipted-le,
}

-- One call: the time, the id of a row that it may insert, what the provider answers, and the event.
pub record SyncCall : Type 0 where
  pub now : ℕ
  pub new_id : ℕ
  pub remote : ProviderSubscription
  pub invoices : List ProviderInvoice
  pub event : Option ℕ

abbrev pub call_sync : Catalog → SyncCall → BillingTables → BillingTables × SyncOutcome × Effects
call_sync c s t = sync_subscription c s.now s.new_id s.remote s.invoices s.event t

-- The tables after a run of calls, and the emails of all.
unfoldable pub run_syncs : Catalog → List SyncCall → BillingTables → BillingTables × List Email
run_syncs c [] t = (t, [])
run_syncs c (s ∷ ss) t =
    let (t', outcome, effects) = call_sync c s t in
    let (last, emails) = run_syncs c ss t' in (last, effects.emails ++ emails)

abbrev pub is_redeemed : Option StoredSubscription → ℕ
is_redeemed none = 0
is_redeemed (some l) = if is_none l.coupon_redeemed_at then 0 else 1

-- What every call keeps, and how it may add to what was sent.
record Onward (i : ℕ) (t t' : BillingTables) (emails : List Email) : Type 0 where
  sent : receipts i emails + receipted i t.invoices ≤ receipted i t'.invoices
  different : Different (invoice_ids t.invoices) → Different (invoice_ids t'.invoices)
  redeemed :
      length t'.redemptions + is_redeemed t.local ≡ length t.redemptions + is_redeemed t'.local
  recorded : (id : ℕ) → includes id t.events ≡ true → includes id t'.events ≡ true

module _ (c : Catalog) (i : ℕ) where
  Onward-refl : (t : BillingTables) → Onward i t t []
  Onward-refl t = record {
    sent = omega arith;
    different = λ d. d;
    redeemed = refl;
    recorded = λ id k. k;
  }

  redeem_counts :
      (now : ℕ) (row : StoredSubscription) (reds : List ℕ)
      → length (redeem_coupon now row reds).1 + is_redeemed (some row)
        ≡ length reds + is_redeemed (some (redeem_coupon now row reds).0)
  redeem_counts now row reds = elim (Option-cases row.coupon_code) [
    | inl n ↦ rw (n, redeem_coupon) refl
    | inr (code, e) ↦
        rw (e, redeem_coupon)
          (elim (Bool-cases
            (not (is_none row.coupon_redeemed_at) || not (is_paid row.values.status))) [
              | inl k ↦ rw k refl
              | inr k ↦
                  let fresh : is_none row.coupon_redeemed_at ≡ true = ground arith in
                  let longer = length-append reds (code ∷ []) in rw (k, fresh) (ground arith)
            ])
  ]

  redeemed-stored_row :
      (new_id : ℕ) (owner : ℕ × ℕ) (v : SyncedValues) (l : Option StoredSubscription)
      → is_redeemed (some (stored_row new_id owner v l)) ≡ is_redeemed l
  redeemed-stored_row new_id owner v none = refl
  redeemed-stored_row new_id owner v (some l) = refl

  write_remote-Onward :
      (now : ℕ) (row : StoredSubscription) (tier : Plan) (js : List ProviderInvoice)
      (has_event : Bool) (t : BillingTables)
      → is_redeemed (some row) ≡ is_redeemed t.local
      → let (t', outcome, effects) = write_remote c now row tier js has_event t in
        Onward i t t' effects.emails
  unfolding write_remote
  write_remote-Onward now row tier js has_event t e = record {
    sent =
        let stored = upsert_invoices js t.invoices in
        let a = receipted-upsert_invoices i js t.invoices in
        let b = receipted-mark_receipts i now stored in
        let k =
          receipts-emails_for i (email_of_user c row.user_id) (unsent_receipts stored) row.values
            t.local in
        omega arith;
    different = λ d.
        subst Different (sym (ids-mark_receipts i now (upsert_invoices js t.invoices)))
          (upsert_invoices-Different i js t.invoices d);
    redeemed = let k = redeem_counts now row t.redemptions in omega arith;
    recorded = λ id k. k;
  }

  with_tier-Onward :
      (now new_id : ℕ) (remote : ProviderSubscription) (js : List ProviderInvoice)
      (has_event : Bool) (t : BillingTables) (owner : ℕ × ℕ) (plan : ℕ) (tier : Option Plan)
      → let (t', outcome, effects) = with_tier c now new_id remote js has_event t owner plan tier in
        Onward i t t' effects.emails
  with_tier-Onward now new_id remote js has_event t owner plan none = Onward-refl t
  with_tier-Onward now new_id remote js has_event t owner plan (some tier) =
      write_remote-Onward now (stored_row new_id owner (values_of plan remote now t.local) t.local)
        tier js has_event t
        (redeemed-stored_row new_id owner (values_of plan remote now t.local) t.local)

  with_plan-Onward :
      (now new_id : ℕ) (remote : ProviderSubscription) (js : List ProviderInvoice)
      (has_event : Bool) (t : BillingTables) (owner : ℕ × ℕ) (plan : Option ℕ)
      → let (t', outcome, effects) = with_plan c now new_id remote js has_event t owner plan in
        Onward i t t' effects.emails
  with_plan-Onward now new_id remote js has_event t owner none = Onward-refl t
  with_plan-Onward now new_id remote js has_event t owner (some plan) =
      with_tier-Onward now new_id remote js has_event t owner plan (c.tier_of plan)

  apply_remote-Onward :
      (now new_id : ℕ) (remote : ProviderSubscription) (js : List ProviderInvoice)
      (has_event : Bool) (t : BillingTables)
      → let (t', outcome, effects) = apply_remote c now new_id remote js has_event t in
        Onward i t t' effects.emails
  unfolding apply_remote
  apply_remote-Onward now new_id remote js has_event t = by_owner (owner_of remote t.local)
    where
      by_owner :
          (owner : Option (ℕ × ℕ))
          → let (t', outcome, effects) = with_owner c now new_id remote js has_event t owner in
            Onward i t t' effects.emails
      by_owner none = Onward-refl t
      by_owner (some owner) = with_plan-Onward now new_id remote js has_event t owner (
          or_option (plan_id_for_provider c.provider_plan_ids remote.provider_plan_id)
            (local_plan t.local))

  roll_back-Onward :
      (t : BillingTables) (x : BillingTables × SyncOutcome × Effects)
      → Onward i t x.0 x.2.emails
      → Onward i t (roll_back t x).0 (roll_back t x).2.emails
  roll_back-Onward t (t', outcome, effects) h = elim (Bool-cases (is_thrown outcome)) [
    | inl k ↦ rw k (Onward-refl t)
    | inr k ↦ rw k h
  ]

  -- A webhook's event is recorded before anything else.
  Onward-recorded :
      (id : ℕ) (t t' : BillingTables) (emails : List Email)
      → Onward i (record t { events = t.events ++ id ∷ [] }) t' emails
      → Onward i t t' emails
  Onward-recorded id t t' emails h = record {
    sent = h.sent;
    different = h.different;
    redeemed = h.redeemed;
    recorded =
        λ j k. let both = includes-append j t.events (id ∷ []) in h.recorded j (ground arith);
  }

  sync_subscription-Onward :
      (now new_id : ℕ) (remote : ProviderSubscription) (js : List ProviderInvoice)
      (event : Option ℕ) (t : BillingTables)
      → let (t', outcome, effects) = sync_subscription c now new_id remote js event t in
        Onward i t t' effects.emails
  unfolding sync_subscription
  sync_subscription-Onward now new_id remote js none t =
      roll_back-Onward t _ (apply_remote-Onward now new_id remote js false t)
  sync_subscription-Onward now new_id remote js (some id) t =
      elim (Bool-cases (includes id t.events)) [
        | inl k ↦ rw k (Onward-refl t)
        | inr k ↦ rw k (
            roll_back-Onward t _ (
              Onward-recorded id t _ _ (
                apply_remote-Onward now new_id remote js true
                  (record t { events = t.events ++ id ∷ [] }))))
      ]

  Onward-trans :
      (t t' t'' : BillingTables) (xs ys : List Email)
      → Onward i t t' xs
      → Onward i t' t'' ys
      → Onward i t t'' (xs ++ ys)
  Onward-trans t t' t'' xs ys h k = record {
    sent = let both = receipts-append i xs ys in let a = h.sent in let b = k.sent in omega arith;
    different = λ d. k.different (h.different d);
    redeemed = let a = h.redeemed in let b = k.redeemed in omega arith;
    recorded = λ id m. k.recorded id (h.recorded id m);
  }

  run_syncs-Onward :
      (ss : List SyncCall) (t : BillingTables)
      → Onward i t (run_syncs c ss t).0 (run_syncs c ss t).1
  unfolding run_syncs
  run_syncs-Onward [] t = Onward-refl t
  run_syncs-Onward (s ∷ ss) t =
      Onward-trans t _ _ _ _ (sync_subscription-Onward s.now s.new_id s.remote s.invoices s.event t)
        (run_syncs-Onward ss (call_sync c s t).0)

  -- Over any run of calls, from tables in which no invoice stands twice, at most one receipt of an
  -- invoice is sent, and none if one was sent before; and the coupon of the subscription is redeemed at
  -- most once, and not again if it was redeemed before.
  pub sent_once :
      (ss : List SyncCall) (t : BillingTables)
      → Different (invoice_ids t.invoices)
      → let (t', emails) = run_syncs c ss t in
        (receipts i emails + receipted i t.invoices ≤ 1)
        × (length t'.redemptions + is_redeemed t.local ≤ length t.redemptions + 1)
  sent_once ss t d =
      let h = run_syncs-Onward ss t in
      let t' = (run_syncs c ss t).0 in
      let most = receipted-le i t'.invoices (h.different d) in
      let a = h.sent in
      let b = h.redeemed in
      let first : receipted i t'.invoices ≤ 1 = ground arith in
      let once : is_redeemed t'.local ≤ 1 = redeemed_le t'.local in (omega arith, omega arith)
    where
      redeemed_le : (l : Option StoredSubscription) → is_redeemed l ≤ 1
      redeemed_le none = omega arith
      redeemed_le (some l) = ground arith

module _ (c : Catalog) where
  recorded_by :
      (id : ℕ) (t : BillingTables) (x : BillingTables × SyncOutcome × Effects)
      → includes id x.0.events ≡ true
      → is_thrown (roll_back t x).1 ≡ false
      → includes id (roll_back t x).0.events ≡ true
  recorded_by id t (t', outcome, effects) m n = elim (Bool-cases (is_thrown outcome)) [
    | inl k ↦ absurd (let n' = rw k at n in ground arith)
    | inr k ↦ rw k m
  ]

  recorded_event :
      (now new_id : ℕ) (remote : ProviderSubscription) (js : List ProviderInvoice) (id : ℕ)
      (t : BillingTables)
      → is_thrown (sync_subscription c now new_id remote js (some id) t).1 ≡ false
      → includes id (sync_subscription c now new_id remote js (some id) t).0.events ≡ true
  unfolding sync_subscription
  recorded_event now new_id remote js id t n = elim (Bool-cases (includes id t.events)) [
    | inl k ↦ rw k k
    | inr k ↦
        let n' = rw k at n in
        rw k (
          recorded_by id t _
            ((apply_remote-Onward c 0 now new_id remote js true
                (record t { events = t.events ++ id ∷ [] })).recorded
              id
              (let both = includes-append id t.events (id ∷ []) in
                let same = (==_iff id id).1 refl in ground arith))
            n')
  ]

  duplicate_event :
      (now new_id : ℕ) (remote : ProviderSubscription) (js : List ProviderInvoice) (id : ℕ)
      (t : BillingTables)
      → includes id t.events ≡ true
      → sync_subscription c now new_id remote js (some id) t ≡ (t, duplicate, no_effects)
  unfolding sync_subscription
  duplicate_event now new_id remote js id t k = rw k refl

  -- Once a webhook's event was handled without an exception, whatever calls follow: its redelivery is
  -- answered as a duplicate, changes nothing, and sends nothing.
  pub redelivered_event :
      (s again : SyncCall) (ss : List SyncCall) (id : ℕ) (t : BillingTables)
      → s.event ≡ some id
      → again.event ≡ some id
      → is_thrown (call_sync c s t).1 ≡ false
      → let t' = (run_syncs c ss (call_sync c s t).0).0 in
        call_sync c again t' ≡ (t', duplicate, no_effects)
  redelivered_event s again ss id t e f n =
      let first =
        subst
          (λ v. is_thrown (sync_subscription c s.now s.new_id s.remote s.invoices v t).1 ≡ false) e
          n in
      let kept = recorded_event s.now s.new_id s.remote s.invoices id t first in
      let known =
        subst
          (λ v.
            includes id (sync_subscription c s.now s.new_id s.remote s.invoices v t).0.events
            ≡ true)
          (sym e) kept in
      let t' = (run_syncs c ss (call_sync c s t).0).0 in
      let still = (run_syncs-Onward c 0 ss (call_sync c s t).0).recorded id known in
      subst
        (λ v.
          sync_subscription c again.now again.new_id again.remote again.invoices v t'
          ≡ (t', duplicate, no_effects))
        (sym f) (duplicate_event again.now again.new_id again.remote again.invoices id t' still)

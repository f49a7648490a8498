-- ===== src/Billing/Sync/Once.antt =====
-- What happens once, however often a subscription is synchronised (syncSubscription of
-- apps/server/src/billing/sync.ts).
use whiteboard_ai.Base.{
  ℕ, ◌+◌, ◌≤◌, ◌≡◌, refl, ap, subst, ◌∙◌, inl, inr, false, ◌&&◌, ◌||◌, not, Option, none, some,
  List, [], ◌∷◌, ◌++◌, arith, map, includes, is_none, ◌==◌, ==_iff, Bool-cases, Option-cases,
  if◌then◌else◌,
}
use whiteboard_ai.Entitlements.{is_failed}
use whiteboard_ai.Billing.Seats.{Different}
use whiteboard_ai.Billing.Sync.{
  ProviderInvoice, InvoiceRow, StoredSubscription, SyncedValues, Email, receipt, payment_failed,
  upsert_invoice, upsert_invoices, is_due, mark_receipts, unsent_receipts, emails_for,
  failure_email, was_failed,
}

-- How many rows of the invoice have a receipt.
abbrev pub receipted : ℕ → List InvoiceRow → ℕ
receipted i [] = 0
receipted i (r ∷ rows) =
    (if r.invoice.id == i && not (is_none r.receipt_sent_at) then 1 else 0) + receipted i rows

-- How many receipts of the invoice are among the emails.
abbrev pub receipts : ℕ → List Email → ℕ
receipts i [] = 0
receipts i (receipt j ∷ emails) = (if j == i then 1 else 0) + receipts i emails
receipts i (payment_failed t ∷ emails) = receipts i emails

abbrev pub invoice_ids : List InvoiceRow → List ℕ
invoice_ids rows = map (λ r. r.invoice.id) rows

module _ (i : ℕ) where
  receipted-upsert_invoice :
      (j : ProviderInvoice) (rows : List InvoiceRow)
      → receipted i (upsert_invoice j rows) ≡ receipted i rows
  unfolding upsert_invoice
  receipted-upsert_invoice j [] = ground arith
  receipted-upsert_invoice j (r ∷ rows) = elim (Bool-cases (r.invoice.id == j.id)) [
    | inl t ↦ let same : r.invoice.id ≡ j.id = (==_iff _ _).0 t in rw t (rw same refl)
    | inr f ↦ let rest = receipted-upsert_invoice j rows in rw f (ground arith)
  ]

  pub receipted-upsert_invoices :
      (js : List ProviderInvoice) (rows : List InvoiceRow)
      → receipted i (upsert_invoices js rows) ≡ receipted i rows
  unfolding upsert_invoices
  receipted-upsert_invoices [] rows = refl
  receipted-upsert_invoices (j ∷ js) rows =
      receipted-upsert_invoices js _ ∙ receipted-upsert_invoice j rows

  pub receipted-mark_receipts :
      (now : ℕ) (rows : List InvoiceRow)
      → receipted i (mark_receipts now rows)
        ≡ receipts i (map receipt (unsent_receipts rows)) + receipted i rows
  receipted-mark_receipts now [] = omega arith
  receipted-mark_receipts now (r ∷ rows) =
      let rest = receipted-mark_receipts now rows in
      elim (Bool-cases (is_due r)) [ inl t ↦ rw t (ground arith) | inr f ↦ rw f (ground arith) ]

  pub receipts-append : (xs ys : List Email) → receipts i (xs ++ ys) ≡ receipts i xs + receipts i ys
  receipts-append [] ys = omega arith
  receipts-append (receipt j ∷ xs) ys = let rest = receipts-append xs ys in omega arith
  receipts-append (payment_failed t ∷ xs) ys = receipts-append xs ys

  no_receipt :
      (v : SyncedValues) (l : Option StoredSubscription) → receipts i (failure_email v l) ≡ 0
  no_receipt v l = elim (Option-cases v.grace_until) [
    | inl n ↦ rw (n, failure_email) refl
    | inr (t, e) ↦
        rw (e, failure_email)
          (elim (Bool-cases (is_failed v.status && not (was_failed l))) [
            | inl k ↦ rw k refl
            | inr k ↦ rw k refl
          ])
  ]

  pub receipts-emails_for :
      (address : Option ℕ) (ids : List ℕ) (v : SyncedValues) (l : Option StoredSubscription)
      → receipts i (emails_for address ids v l) ≤ receipts i (map receipt ids)
  receipts-emails_for none ids v l = omega arith
  receipts-emails_for (some a) ids v l =
      let both = receipts-append (map receipt ids) (failure_email v l) in
      let none_more = no_receipt v l in omega arith

  ids-upsert_invoice :
      (j : ProviderInvoice) (rows : List InvoiceRow) (u : ℕ)
      → includes u (invoice_ids (upsert_invoice j rows))
        ≡ (includes u (invoice_ids rows) || j.id == u)
  unfolding upsert_invoice
  ids-upsert_invoice j [] u = ground arith
  ids-upsert_invoice j (r ∷ rows) u = elim (Bool-cases (r.invoice.id == j.id)) [
    | inl t ↦ let same : r.invoice.id ≡ j.id = (==_iff _ _).0 t in rw t (rw same (ground arith))
    | inr f ↦ let rest = ids-upsert_invoice j rows u in rw f (ground arith)
  ]

  upsert_invoice-Different :
      (j : ProviderInvoice) (rows : List InvoiceRow)
      → Different (invoice_ids rows)
      → Different (invoice_ids (upsert_invoice j rows))
  unfolding upsert_invoice
  upsert_invoice-Different j [] d = (refl, tt)
  upsert_invoice-Different j (r ∷ rows) d = elim (Bool-cases (r.invoice.id == j.id)) [
    | inl t ↦ let same : r.invoice.id ≡ j.id = (==_iff _ _).0 t in rw t (rw (← same) d)
    | inr f ↦ rw f (
      (let all = ids-upsert_invoice j rows r.invoice.id in
          let other = ==_iff j.id r.invoice.id in
          let other' = ==_iff r.invoice.id j.id in ground arith),
      upsert_invoice-Different j rows d.1,
    )
  ]

  pub upsert_invoices-Different :
      (js : List ProviderInvoice) (rows : List InvoiceRow)
      → Different (invoice_ids rows)
      → Different (invoice_ids (upsert_invoices js rows))
  unfolding upsert_invoices
  upsert_invoices-Different [] rows d = d
  upsert_invoices-Different (j ∷ js) rows d =
      upsert_invoices-Different js _ (upsert_invoice-Different j rows d)

  pub ids-mark_receipts :
      (now : ℕ) (rows : List InvoiceRow) → invoice_ids (mark_receipts now rows) ≡ invoice_ids rows
  ids-mark_receipts now [] = refl
  ids-mark_receipts now (r ∷ rows) = elim (Bool-cases (is_due r)) [
    | inl t ↦ rw t (ap (◌∷◌ r.invoice.id) (ids-mark_receipts now rows))
    | inr f ↦ rw f (ap (◌∷◌ r.invoice.id) (ids-mark_receipts now rows))
  ]

  pub receipted-le :
      (rows : List InvoiceRow)
      → Different (invoice_ids rows)
      → receipted i rows ≤ (if includes i (invoice_ids rows) then 1 else 0)
  receipted-le [] d = omega arith
  receipted-le (r ∷ rows) d =
      let rest = receipted-le rows d.1 in
      elim (Bool-cases (r.invoice.id == i)) [
        | inl t ↦
            let none_left : includes i (invoice_ids rows) ≡ false =
              subst (λ w. includes w (invoice_ids rows) ≡ false) ((==_iff _ _).0 t) d.0 in
            let rest' = rw none_left at rest in ground arith
        | inr f ↦ ground arith
      ]

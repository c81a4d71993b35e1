-- ===== src/Dao/Effects.antt =====
-- What the statements that insert and update rows ensure. `Z` is what an outcome other than `Ok`
-- gives a reason for; `faults` gives it for a failing engine.
use kalatori.Common.{
  ℕ, ◌≡◌, refl, true, false, ◌||◌, none, some, [], ◌∷◌, ◌++◌, Option-cases, Bool-cases, inl, inr,
  find, update, exists, ◌==◌,
}
use kalatori.Types.Invoice.{Uuid, InvoiceStatus, Invoice}
use kalatori.Types.Transaction.{Transaction}
use kalatori.Types.Transfer.{Payout, Refund}
use kalatori.Types.Webhook.{WebhookEvent}
use kalatori.Dao.Store.{Env, Store, Db}
use kalatori.Dao.Store.Triples.{Ensures, Ensures-query}
use kalatori.Dao.Invoices.{has_id, transition_allowed, update_invoice_status}
use kalatori.Dao.Transactions.{clashes, create_transaction}
use kalatori.Dao.Transfers.{has_payout_id, has_refund_id, create_payout, create_refund}
use kalatori.Dao.WebhookEvents.{has_event_id, create_webhook_event}

-- The row with the new status, changed at the given time.
abbrev pub with_status : InvoiceStatus → ℕ → Invoice → Invoice
with_status status time i = record i { status = status; updated_at = time }

-- A success of `update_invoice_status`: the row it returns, and the tables after it.
abbrev pub Moved : Uuid → InvoiceStatus → Db → Invoice → Db → Type 0
Moved id status old i new =
    (row : Invoice) × (time : ℕ) × (find (has_id id) old.invoices ≡ some row)
    × (transition_allowed row.status status ≡ true)
    × (i ≡ with_status status time row)
    × (new ≡ record old { invoices = update (has_id id) (with_status status time) old.invoices })

module _ (env : Env) (Z : Type 0) (faults : (n : ℕ) → env.faulty n ≡ true → Z) (s : Store)
    (same : s.env ≡ env) where
  pub Ensures-create_transaction :
      (t : Transaction)
      → (exists (λ u. (u.id == t.id) || clashes t u) s.db.transactions ≡ true → Z)
      → (exists (has_id t.invoice_id) s.db.invoices ≡ false → Z)
      → Ensures env Z
          (λ a db. db ≡ record s.db { transactions = s.db.transactions ++ t ∷ [] })
          (create_transaction t s)
  unfolding create_transaction
  Ensures-create_transaction t dup orphan = Ensures-query env Z _ faults _ _ s same λ time.
      elim (Bool-cases (exists (λ u. (u.id == t.id) || clashes t u) s.db.transactions)) [
        | inl e ↦ rw e (dup e)
        | inr e ↦ rw e (elim (Bool-cases (exists (has_id t.invoice_id) s.db.invoices)) [
          | inl f ↦ rw f refl
          | inr f ↦ rw f (orphan f)
        ])
      ]

  pub Ensures-update_invoice_status :
      (id : Uuid) (status : InvoiceStatus)
      → (find (has_id id) s.db.invoices ≡ none → Z)
      → ((row : Invoice)
          → find (has_id id) s.db.invoices ≡ some row
          → transition_allowed row.status status ≡ false
          → Z)
      → Ensures env Z (Moved id status s.db) (update_invoice_status id status s)
  unfolding update_invoice_status
  Ensures-update_invoice_status id status missing refused =
      Ensures-query env Z _ faults _ _ s same λ time.
        elim (Option-cases (find (has_id id) s.db.invoices)) [
          | inl e ↦ rw e (missing e)
          | inr (row, e) ↦ rw e (elim (Bool-cases (transition_allowed row.status status)) [
            | inl f ↦ rw f (row, time, refl, f, refl, refl)
            | inr f ↦ rw f (refused row e f)
          ])
        ]

  pub Ensures-create_payout :
      (p : Payout)
      → (exists (has_payout_id p.id) s.db.payouts ≡ true → Z)
      → (exists (has_id p.invoice_id) s.db.invoices ≡ false → Z)
      → Ensures env Z
          (λ _ db. db ≡ record s.db { payouts = s.db.payouts ++ p ∷ [] })
          (create_payout p s)
  unfolding create_payout
  Ensures-create_payout p dup orphan = Ensures-query env Z _ faults _ _ s same λ time.
      elim (Bool-cases (exists (has_payout_id p.id) s.db.payouts)) [
        | inl e ↦ rw e (dup e)
        | inr e ↦ rw e (elim (Bool-cases (exists (has_id p.invoice_id) s.db.invoices)) [
          | inl f ↦ rw f refl
          | inr f ↦ rw f (orphan f)
        ])
      ]

  pub Ensures-create_refund :
      (r : Refund)
      → (exists (has_refund_id r.id) s.db.refunds ≡ true → Z)
      → (exists (has_id r.invoice_id) s.db.invoices ≡ false → Z)
      → Ensures env Z
          (λ _ db. db ≡ record s.db { refunds = s.db.refunds ++ r ∷ [] })
          (create_refund r s)
  unfolding create_refund
  Ensures-create_refund r dup orphan = Ensures-query env Z _ faults _ _ s same λ time.
      elim (Bool-cases (exists (has_refund_id r.id) s.db.refunds)) [
        | inl e ↦ rw e (dup e)
        | inr e ↦ rw e (elim (Bool-cases (exists (has_id r.invoice_id) s.db.invoices)) [
          | inl f ↦ rw f refl
          | inr f ↦ rw f (orphan f)
        ])
      ]

  pub Ensures-create_webhook_event :
      (w : WebhookEvent)
      → (exists (has_event_id w.id) s.db.webhook_events ≡ true → Z)
      → Ensures env Z
          (λ _ db. db ≡ record s.db { webhook_events = s.db.webhook_events ++ w ∷ [] })
          (create_webhook_event w s)
  unfolding create_webhook_event
  Ensures-create_webhook_event w dup = Ensures-query env Z _ faults _ _ s same λ time.
      elim (Bool-cases (exists (has_event_id w.id) s.db.webhook_events)) [
        | inl e ↦ rw e (dup e)
        | inr e ↦ rw e refl
      ]

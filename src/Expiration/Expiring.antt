-- ===== src/Expiration/Expiring.antt =====
-- The state through `update_invoice_expired` of daemon/src/expiration_detector.rs.
use kalatori.Common.Int.{◌+ℤ◌}
use kalatori.Expiration.Refunding.{Ensures-expire_body, Expired}
use kalatori.Types.Invoice.{Uuid, Invoice, InvoiceWithReceivedAmount}
use kalatori.Dao.Store.Triples.{Ensures, Ensures-transaction, transaction_rolls_back}
use kalatori.Dao.Store.{tick, transaction, Db, Store}
use kalatori.Dao.Invoices.{has_id, received_for}
use kalatori.Dao.Effects.{with_status}
use kalatori.Dao.WebhookEvents.{before}
use kalatori.Ledger.Tracking.{same_tables-IsSound}
use kalatori.Ledger.Sound.{old_row, add_zero, zero_add, not_due}
use kalatori.Ledger.Recording.{found_after}
use kalatori.Registry.Keys.{remove_invoice-Keyed}
use kalatori.Registry.Laws.{get_invoice-remove_invoice}
use kalatori.Registry.{get_invoice, remove_invoice}
use kalatori.World.{World}
use kalatori.Ledger.{sent_out, is_settled, due, Entry, IsSound}
use kalatori.Expiration.{
  ExpirationDetectorError, expire_body, after_expiry, update_invoice_expired, database_error,
}
use kalatori.Config.{PaymentsConfig}
use kalatori.Common.{
  ok, err, panic, ◌≡◌, refl, sym, ap, ◌∙◌, subst, inl, inr, false, some, ◌==◌, if◌then◌else◌,
  ==_iff, Bool-cases, none-some, find, Result, is_ok,
}

module _ (r : InvoiceWithReceivedAmount) (w : World) (new : Db) (sound : IsSound w)
    (fresh : Entry w.store.db r.invoice.id r) (x : Expired r w.store.db new) where
  module _ (id : Uuid) where
    expired_row :
        (row : Invoice)
        → find (has_id id) new.invoices ≡ some row
        → (before : Invoice) × (find (has_id id) w.store.db.invoices ≡ some before)
          × (row ≡ (if r.invoice.id == id then with_status x.status x.time before else before))
    expired_row row found =
        old_row r.invoice.id id (with_status x.status x.time) w.store.db.invoices row (
          sym (found_after r.invoice.id id x.status x.time w.store.db.invoices)
          ∙ sym (ap (find (has_id id)) x.invoices)
          ∙ found)

    same_received : received_for id new.transactions ≡ received_for id w.store.db.transactions
    same_received = ap (received_for id) x.transactions

    own_received : r.invoice.id ≡ id → r.total_received_amount ≡ received_for id new.transactions
    own_received e =
        fresh.1 ∙ ap (λ k. received_for k w.store.db.transactions) e ∙ sym same_received

    expired_balance :
        (row : Invoice)
        → find (has_id id) new.invoices ≡ some row
        → sent_out id new ≡ due row.status (received_for id new.transactions)
    expired_balance row found =
        let (before, was, is_new) = expired_row row found in
        elim (Bool-cases (r.invoice.id == id)) [
          | inl e ↦
              let same = (==_iff r.invoice.id id).0 e in
              rw e at (x.sums id)
              ∙ ap (λ a. a +ℤ due x.status r.total_received_amount)
                  (sound.balanced before id was
                    ∙ not_due before.status _ (
                        fresh.2 before (
                          subst (λ k. find (has_id k) w.store.db.invoices ≡ some before) (sym same)
                            was)))
              ∙ zero_add _
              ∙ ap (due x.status) (own_received same)
              ∙ ap (λ (i : Invoice). due i.status (received_for id new.transactions))
                  (sym (rw e at is_new))
          | inr e ↦
              rw e at (x.sums id)
              ∙ add_zero _
              ∙ sound.balanced before id was
              ∙ ap (due before.status) (sym same_received)
              ∙ ap (λ (i : Invoice). due i.status (received_for id new.transactions))
                  (sym (rw e at is_new))
        ]

    other-Entry :
        (q : InvoiceWithReceivedAmount)
        → (r.invoice.id == id) ≡ false
        → get_invoice id w.registry ≡ some q
        → Entry new id q
    other-Entry q e got =
        let (key, known, unsettled) = sound.in_sync id q got in
        (
          key,
          known ∙ sym same_received,
          λ row found.
              let (before, was, is_new) = expired_row row found in
              ap (λ (i : Invoice). is_settled i.status) (rw e at is_new) ∙ unsettled before was,
        )

    expired_sync :
        (q : InvoiceWithReceivedAmount)
        → get_invoice id (remove_invoice r.invoice.id w.registry) ≡ some q
        → Entry new id q
    expired_sync q got =
        let after = sym (get_invoice-remove_invoice id r.invoice.id w.registry) ∙ got in
        elim (Bool-cases (r.invoice.id == id)) [
          | inl e ↦ absurd (none-some (rw e at after))
          | inr e ↦ other-Entry q e (rw e at after)
        ]

-- Both outcomes of the transaction.
outcome-IsSound :
    (r : InvoiceWithReceivedAmount) (w : World)
    (q : Result ExpirationDetectorError (Unit {0}) × Store)
    → IsSound w
    → Entry w.store.db r.invoice.id r
    → Ensures w.store.env (Unit {0}) (λ _ new. Expired r w.store.db new) q
    → (is_ok q.0 ≡ false → q.1.db ≡ w.store.db)
    → IsSound (after_expiry r (record w { store = q.1 }) q.0).1
outcome-IsSound r w (ok u, s) sound fresh (same, x) back = record {
  keyed = remove_invoice-Keyed r.invoice.id w.registry sound.keyed;
  in_sync = λ id q got. expired_sync r w s.db sound fresh x id q got;
  balanced = λ row id found. expired_balance r w s.db sound fresh x id row found;
}
outcome-IsSound r w (err e, s) sound fresh p back =
    same_tables-IsSound (record w { store = s }) w (back refl) refl sound
outcome-IsSound r w (panic, s) sound fresh p back =
    same_tables-IsSound (record w { store = s }) w (back refl) refl sound

-- When the state is sound, and the lent record knows what came in for its invoice, which is not
-- settled, `update_invoice_expired` leaves a sound state, whatever it returns.
pub update_invoice_expired-IsSound :
    (config : PaymentsConfig) (r : InvoiceWithReceivedAmount) (w : World)
    → IsSound w
    → Entry w.store.db r.invoice.id r
    → IsSound (update_invoice_expired config r w).1
unfolding update_invoice_expired
update_invoice_expired-IsSound config r w sound fresh =
    outcome-IsSound r w (transaction database_error database_error (expire_body config r) w.store)
      sound fresh
      (Ensures-transaction w.store.env (Unit {0}) (λ _ new. Expired r w.store.db new) (λ _ _. tt)
        database_error database_error (expire_body config r) w.store refl
        (Ensures-expire_body w.store.env config r (tick w.store) refl))
      (λ h. transaction_rolls_back database_error database_error (expire_body config r) w.store h)

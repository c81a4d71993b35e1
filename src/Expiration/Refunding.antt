-- ===== src/Expiration/Refunding.antt =====
-- The books of an invoice through `update_invoice_expired` of daemon/src/expiration_detector.rs.
use kalatori.Common.Int.{ℤ, ◌+ℤ◌, int_laws}
use kalatori.Types.Transfer.{new_refund}
use kalatori.Dao.Store.Triples.{
  Ensures, Ensures-bind, Ensures-map_err, Ensures-bind_now, Ensures-bind_new_uuid,
}
use kalatori.Dao.Invoices.{has_id}
use kalatori.Dao.Effects.{
  with_status, Moved, Ensures-update_invoice_status, Ensures-create_refund,
  Ensures-create_webhook_event,
}
use kalatori.Ledger.Books.{if_of, given_back-append, sum_nothing}
use kalatori.Ledger.{paid_out, given_back, sent_out, due}
use kalatori.Expiration.{expire_payment, expire_body}
use kalatori.Config.{PaymentsConfig}
use kalatori.Types.Invoice.{
  waiting, partially_paid, Uuid, InvoiceStatus, invoice_status_eq, InvoiceWithReceivedAmount,
}
use kalatori.Dao.Store.{tick, Db, Env, Store}
use kalatori.Common.{ℕ, ◌≡◌, refl, ap, ◌∙◌, inl, inr, Bool-cases, update}

-- A success of the body, for the books: the refund is what is due with the new status.
pub record Expired (r : InvoiceWithReceivedAmount) (old new : Db) : Type 0 where
  pub status : InvoiceStatus
  pub time : ℕ
  pub invoices : new.invoices ≡ update (has_id r.invoice.id) (with_status status time) old.invoices
  pub transactions : new.transactions ≡ old.transactions
  pub sums :
      (id : Uuid)
      → sent_out id new
        ≡ sent_out id old +ℤ if_of r.invoice.id id (due status r.total_received_amount)

-- After the refund, or without one.
abbrev Refunded : InvoiceWithReceivedAmount → Db → InvoiceStatus → Db → Type 0
Refunded r old status new =
    (new.invoices ≡ old.invoices)
    × (new.transactions ≡ old.transactions)
    × ((id : Uuid)
        → sent_out id new
          ≡ sent_out id old +ℤ if_of r.invoice.id id (due status r.total_received_amount))

sum_refund : (a b c : ℤ) → a +ℤ (b +ℤ c) ≡ a +ℤ b +ℤ c
sum_refund a b c = omega int_laws

Ensures-expire_payment :
    (env : Env) (r : InvoiceWithReceivedAmount) (s : Store)
    → s.env ≡ env
    → Ensures env (Unit {0}) (Refunded r s.db) (expire_payment r s)
unfolding expire_payment
Ensures-expire_payment env r s same =
    elim (Bool-cases (invoice_status_eq r.invoice.status partially_paid)) [
      | inl e ↦ rw e (
          Ensures-bind_now env (Unit {0}) _ _ s λ time.
            Ensures-bind_new_uuid env (Unit {0}) _ _ (tick s) same λ id.
              Ensures-bind env (Unit {0}) _ _ _ _ _
                (Ensures-map_err env (Unit {0}) _ _ _ _ (
                  Ensures-create_refund env (Unit {0}) (λ _ _. tt) _ same
                    (new_refund (env.uuid id) time r.invoice r.total_received_amount) (λ _. tt)
                    (λ _. tt)))
                λ _ s' same' done. (
                  same',
                  (
                    ap (λ (d : Db). d.invoices) done,
                    ap (λ (d : Db). d.transactions) done,
                    λ j.
                        ap (sent_out j) done
                        ∙ ap (λ a. paid_out j s.db.payouts +ℤ a)
                            (given_back-append j s.db.refunds
                              (new_refund (env.uuid id) time r.invoice r.total_received_amount))
                        ∙ sum_refund (paid_out j s.db.payouts) (given_back j s.db.refunds) _,
                  ),
                ))
      | inr e ↦ rw e (elim (Bool-cases (invoice_status_eq r.invoice.status waiting)) [
        | inl f ↦ rw f (same, (refl, refl, λ j. sum_nothing r.invoice.id j (sent_out j s.db)))
        | inr f ↦ rw f tt
      ])
    ]

pub Ensures-expire_body :
    (env : Env) (config : PaymentsConfig) (r : InvoiceWithReceivedAmount) (s : Store)
    → s.env ≡ env
    → Ensures env (Unit {0}) (λ _ new. Expired r s.db new) (expire_body config r s)
unfolding expire_body
Ensures-expire_body env config r s same =
    Ensures-bind env (Unit {0}) (Refunded r s.db) _ _ _ _ (Ensures-expire_payment env r s same)
      λ status s' same' (rows, txs, sums).
        Ensures-bind env (Unit {0}) (Moved r.invoice.id status s'.db) _ _ _ _
          (Ensures-map_err env (Unit {0}) _ _ _ _ (
            Ensures-update_invoice_status env (Unit {0}) (λ _ _. tt) s' same' r.invoice.id status
              (λ _. tt) (λ _ _ _. tt)))
          λ i s'' same'' (row, time, found, allowed, is_row, e').
            Ensures-bind_new_uuid env (Unit {0}) _ _ s'' same'' λ id.
              Ensures-bind_now env (Unit {0}) _ _ (tick s'') λ at_time.
                Ensures-bind env (Unit {0}) _ _ _ _ _
                  (Ensures-map_err env (Unit {0}) _ _ _ _
                    (Ensures-create_webhook_event env (Unit {0}) (λ _ _. tt) _ same'' _ (λ _. tt)))
                  λ _ s3 same3 e3. (
                    same3,
                    record {
                      status = status;
                      time = time;
                      invoices =
                          ap (λ (d : Db). d.invoices) e3
                          ∙ ap (λ (d : Db). d.invoices) e'
                          ∙ ap (update (has_id r.invoice.id) (with_status status time)) rows;
                      transactions =
                          ap (λ (d : Db). d.transactions) e3
                          ∙ ap (λ (d : Db). d.transactions) e'
                          ∙ txs;
                      sums = λ j. ap (sent_out j) e3 ∙ ap (sent_out j) e' ∙ sums j;
                    },
                  )

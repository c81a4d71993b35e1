-- ===== src/Ledger/Recording.antt =====
-- What a success of `store_transaction` means for the books
-- (daemon/src/chain/transactions_recorder.rs).
use kalatori.Common.Int.{◌+ℤ◌}
use kalatori.Types.Transaction.{IncomingTransaction}
use kalatori.Dao.Store.{Db}
use kalatori.Dao.Invoices.{has_id, received_for}
use kalatori.Dao.Effects.{with_status}
use kalatori.Ledger.Books.{if_of, received_for-append, sent_out-Outcome}
use kalatori.Recorder.Storing.{booked, Stored}
use kalatori.Recorder.Outcome.{Outcome}
use kalatori.Registry.{get_invoice}
use kalatori.World.{World}
use kalatori.Common.{
  ℕ, ◌≡◌, refl, ap, ◌∙◌, subst, some, List, ==_iff, find, update, find_passes, or_changed,
  find-update, ◌⊎◌, none,
}
use kalatori.Ledger.{Entry, sent_out, due, is_settled}
use kalatori.Config.{PaymentsConfig}
use kalatori.Types.Invoice.{
  unpaid_expired, partially_paid_expired, customer_canceled, admin_canceled, waiting,
  partially_paid, paid, over_paid, Decimal, Uuid, InvoiceStatus, Invoice, InvoiceWithReceivedAmount,
  is_final,
}

-- A record that knows what came in for its invoice, which is not settled, and that the registry
-- has, unless it has nothing for the invoice.
abbrev pub Lent : World → InvoiceWithReceivedAmount → Type 0
Lent w r =
    Entry w.store.db r.invoice.id r
    × ((get_invoice r.invoice.id w.registry ≡ some r)
        ⊎ (get_invoice r.invoice.id w.registry ≡ none))

-- What the recorder is given: such a record, and a transaction for its invoice.
abbrev pub Fits : World → InvoiceWithReceivedAmount → IncomingTransaction → Type 0
Fits w r t = Lent w r × (t.invoice_id ≡ r.invoice.id)

pub found_after :
    (k id : Uuid) (status : InvoiceStatus) (time : ℕ) (rows : List Invoice)
    → find (has_id id) (update (has_id k) (with_status status time) rows)
      ≡ or_changed (has_id k) (with_status status time) (find (has_id id) rows)
found_after k id status time rows =
    find-update (has_id id) (has_id k) (with_status status time) rows λ _. refl

keeps_rows :
    {new old : Db}
    → new ≡ old
    → (new.invoices ≡ old.invoices) × (new.transactions ≡ old.transactions)
keeps_rows e = (ap (λ (d : Db). d.invoices) e, ap (λ (d : Db). d.transactions) e)

module _ (config : PaymentsConfig) (i : Invoice) (total : Decimal) (old new : Db) where
  -- The outcome leaves the other tables alone.
  pub Outcome-keeps :
      (status : InvoiceStatus)
      → Outcome config i status total old new
      → (new.invoices ≡ old.invoices) × (new.transactions ≡ old.transactions)
  Outcome-keeps paid (p, e, pays, announces, eq) = keeps_rows eq
  Outcome-keeps over_paid (p, r, e, pays, gives, announces, eq) = keeps_rows eq
  Outcome-keeps partially_paid (e, announces, eq) = keeps_rows eq
  Outcome-keeps waiting eq = keeps_rows eq
  Outcome-keeps unpaid_expired eq = keeps_rows eq
  Outcome-keeps partially_paid_expired eq = keeps_rows eq
  Outcome-keeps customer_canceled eq = keeps_rows eq
  Outcome-keeps admin_canceled eq = keeps_rows eq

-- What a success of the storing means for the books of every invoice.
pub Stored-books :
    (config : PaymentsConfig) (t : IncomingTransaction) (status : InvoiceStatus) (total : Decimal)
    (old new : Db) (id : Uuid)
    → is_settled status ≡ is_final status
    → Stored config t status total old new
    → (sent_out id new ≡ sent_out id old +ℤ if_of t.invoice_id id (due status total))
      × (received_for id new.transactions
          ≡ received_for id old.transactions +ℤ if_of t.invoice_id id t.transfer_info.amount)
      × ((time : ℕ) × (find (has_id id) new.invoices
            ≡ or_changed
                (has_id t.invoice_id)
                (with_status status time)
                (find (has_id id) old.invoices)))
Stored-books config t status total old new id plain (row, time, changed, found, allowed, o) =
    let (inv, txs) =
      Outcome-keeps config (with_status status changed row) total (booked t status time changed old)
        new status o in
    (
      subst (λ k. sent_out id new ≡ sent_out id old +ℤ if_of k id (due status total))
          ((==_iff row.id t.invoice_id).0
            (find_passes (has_id t.invoice_id) old.invoices row found))
          (sent_out-Outcome config (with_status status changed row) total
            (booked t status time changed old) new id status plain o),
      ap (received_for id) txs ∙ received_for-append id old.transactions time t,
      (
        changed,
        ap (find (has_id id)) inv ∙ found_after t.invoice_id id status changed old.invoices,
      ),
    )

-- ===== src/Recorder.antt =====
-- The recorder of incoming transactions: daemon/src/chain/transactions_recorder.rs.
pub mod Outcome
pub mod Storing
pub mod Processing
use kalatori.Common.{not, ◌&&◌, Result, ok, err, panic, unwrap, if◌then◌else◌}
use kalatori.Common.Int.{◌+ℤ◌, ◌-ℤ◌, ltb_ℤ}
use kalatori.Types.Chain.{ChainType, swap_chain_from}
use kalatori.Types.Invoice.{
  Decimal, InvoiceStatus, paid, partially_paid, over_paid, invoice_status_eq, is_final, Invoice,
  InvoiceWithReceivedAmount, with_amount, PublicInvoice, into_public_invoice,
}
use kalatori.Types.Transaction.{
  GeneralTransactionId, IncomingTransaction, from_incoming, Transaction,
}
use kalatori.Types.Transfer.{TransferDestinationParams, new_payout, new_refund}
use kalatori.Types.Webhook.{InvoiceEventType, build_event, webhook_from}
use kalatori.Config.{
  PaymentsConfig, get_asset_underpayment_tolerance, get_asset_overpayment_tolerance,
}
use kalatori.Dao.Store.{Dao, pure, lift, ◌>>=◌, ◌>>◌, map_err, now, new_uuid, transaction, Store}
use kalatori.Dao.Invoices.{update_invoice_status}
use kalatori.Dao.Transactions.{DaoTransactionError, duplicate_transaction, create_transaction}
use kalatori.Dao.Transfers.{create_payout, create_refund}
use kalatori.Dao.WebhookEvents.{create_webhook_event}
use kalatori.Registry.{remove_invoice, update_filled_amount, Registry}
use kalatori.World.{World}

pub data TransactionsRecorderError : Type 0 where
  dao_transaction_error : TransactionsRecorderError
  transaction_duplication : ChainType → GeneralTransactionId → TransactionsRecorderError

unfoldable pub add_webhook :
    PublicInvoice → InvoiceEventType → Dao TransactionsRecorderError (Unit {0})
add_webhook public_invoice event_type = do
  id ← new_uuid
  time ← now
  map_err (λ _. dao_transaction_error)
      (create_webhook_event (webhook_from (build_event id time public_invoice event_type)))
  pure tt

unfoldable pub add_payout :
    PaymentsConfig → Invoice → Decimal → Dao TransactionsRecorderError (Unit {0})
add_payout config invoice amount = do
  payout_address ← lift (unwrap (config.recipient invoice.chain))
  destination_chain ← lift (swap_chain_from invoice.chain)
  let destination_params : TransferDestinationParams = record {
    destination_address = payout_address;
    destination_chain = destination_chain;
    destination_asset_id = invoice.asset_id;
  }
  id ← new_uuid
  created ← now
  updated ← now
  map_err (λ _. dao_transaction_error)
      (create_payout (new_payout id created updated invoice destination_params amount))
  pure tt

unfoldable pub add_refund : Invoice → Decimal → Dao TransactionsRecorderError (Unit {0})
add_refund invoice amount = do
  time ← now
  id ← new_uuid
  map_err (λ _. dao_transaction_error) (create_refund (new_refund id time invoice amount))
  pure tt

-- What `store_transaction` adds for the new status.
unfoldable pub add_outcome :
    PaymentsConfig → Invoice → InvoiceStatus → Decimal → Dao TransactionsRecorderError (Unit {0})
add_outcome config invoice status total =
    let public_invoice = into_public_invoice config.payment_url (with_amount invoice total) in
    if invoice_status_eq status paid
    then (do add_payout config invoice total; add_webhook public_invoice InvoiceEventType.paid)
    else if invoice_status_eq status partially_paid
    then add_webhook public_invoice InvoiceEventType.partially_paid
    else if invoice_status_eq status over_paid
    then (do
      add_payout config invoice invoice.amount
      add_refund invoice (total -ℤ invoice.amount)
      add_webhook public_invoice InvoiceEventType.paid)
    else pure tt

abbrev stored_error : DaoTransactionError → TransactionsRecorderError
stored_error (duplicate_transaction chain id) = transaction_duplication chain id
stored_error _ = dao_transaction_error

-- The body of `store_transaction` between the begin and the commit.
unfoldable pub store_body :
    PaymentsConfig
    → IncomingTransaction
    → InvoiceStatus
    → Decimal
    → Dao TransactionsRecorderError (Unit {0})
store_body config t status total = do
  time ← now
  map_err stored_error (create_transaction (from_incoming time t))
  invoice ← map_err (λ _. dao_transaction_error) (update_invoice_status t.invoice_id status)
  add_outcome config invoice status total

unfoldable pub store_transaction :
    PaymentsConfig
    → IncomingTransaction
    → InvoiceStatus
    → Decimal
    → Dao TransactionsRecorderError (Unit {0})
store_transaction config t status total =
    transaction dao_transaction_error dao_transaction_error (store_body config t status total)

-- The status that a received amount gives an invoice of this amount.
unfoldable pub paid_status : PaymentsConfig → Invoice → Decimal → InvoiceStatus
paid_status config invoice received =
    let min_paid_amount =
      invoice.amount -ℤ get_asset_underpayment_tolerance config invoice.chain invoice.asset_id in
    let max_paid_amount =
      invoice.amount +ℤ get_asset_overpayment_tolerance config invoice.chain invoice.asset_id in
    let is_underpaid = ltb_ℤ received min_paid_amount in
    let is_overpaid = ltb_ℤ max_paid_amount received in
    if not is_underpaid && not is_overpaid
    then paid
    else if is_underpaid
    then partially_paid
    else over_paid

-- The caller's record, after a success.
abbrev pub credited :
    InvoiceWithReceivedAmount → InvoiceStatus → Decimal → InvoiceWithReceivedAmount
credited r status received = record {
  invoice = record r.invoice { status = status };
  total_received_amount = received;
}

-- The result, and the caller's record, which the code changes through a `&mut`.
abbrev pub Processed : Type 0
Processed = Result TransactionsRecorderError (Unit {0}) × InvoiceWithReceivedAmount × World

-- What follows the storing: the registry and the caller's record change on a success only.
unfoldable pub after_store :
    InvoiceWithReceivedAmount
    → InvoiceStatus
    → Decimal
    → World
    → Result TransactionsRecorderError (Unit {0})
    → Processed
after_store r status received w (ok _) =
    if is_final status
    then (
      ok tt,
      credited r status received,
      record w { registry = remove_invoice r.invoice.id w.registry },
    )
    else if invoice_status_eq status partially_paid
    then (
      ok tt,
      credited r status received,
      record w { registry = update_filled_amount r.invoice.id received status w.registry },
    )
    else (panic, r, w)
after_store r status received w (err e) = (err e, r, w)
after_store r status received w panic = (panic, r, w)

unfoldable pub process_invoice_transaction :
    PaymentsConfig → InvoiceWithReceivedAmount → IncomingTransaction → World → Processed
unfolding after_store
process_invoice_transaction config r t w =
    let received = r.total_received_amount +ℤ t.transfer_info.amount in
    let status = paid_status config r.invoice received in
    let (result, store) = store_transaction config t status received w.store in
    after_store r status received (record w { store = store }) result

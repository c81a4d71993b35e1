-- ===== src/Tests/Deadline.antt =====
-- The invoice of the tests after its deadline: a payment that was missed has settled it.
use kalatori.SwapsTracker.Tracking.{handled_world}
use kalatori.Dao.Swaps.{change_swap, update_swap_completed}
use kalatori.Tests.Swaps.{swap}
use kalatori.SwapsTracker.{
  complete_swapped, executed_body, store_executed, handle_swap_executed, check_swap, executed,
}
use kalatori.Common.{err, panic, [], ◌∷◌}
use kalatori.Common.Int.{◌+ℤ◌, ◌-ℤ◌}
use kalatori.Tests.{config, world, entry}
use kalatori.Tests.State.{chains}
use kalatori.Expiration.Detector.{handle_expired_invoice}
use kalatori.Types.Invoice.{InvoiceWithReceivedAmount}
use kalatori.Types.Transaction.{IncomingTransaction}
use kalatori.Types.Chain.{swap_chain_from}
use kalatori.Dao.Store.{map_err, new_uuid, query, transaction, now, ◌>>=◌}
use kalatori.Dao.Transactions.{same_coordinates, create_transaction}
use kalatori.Dao.Invoices.{get_invoice_with_received_amount_by_id, update_invoice_status}
use kalatori.Dao.WebhookEvents.{create_webhook_event}
use kalatori.Dao.Transfers.{create_payout, create_refund}
use kalatori.AppState.Inserting.{Unused}
use kalatori.BalanceChecker.Nothing.{NoneFor}
use kalatori.BalanceChecker.Missing.{missing}
use kalatori.Tracker.{world_of}
use kalatori.BalanceChecker.{
  BalanceCheckerError, get_account_incoming_transfers, get_incoming_transactions,
  store_transactions, get_and_store_transactions, compare_balance, find_in_dao, find_checked,
  check_invoice_balance,
}
use kalatori.Registry.{get_invoice, remove_invoice}
use kalatori.Recorder.{
  add_webhook, add_payout, add_refund, add_outcome, store_body, store_transaction, paid_status,
  after_store, process_invoice_transaction,
}
use kalatori.World.{World}
use kalatori.Common.{
  ◌≤◌, ◌≡◌, refl, sym, ◌∙◌, subst, some, List, arith, some_inj, length, Result, ok_inj, ok,
}

abbrev pub after_deadline : World
after_deadline = world_of (handle_expired_invoice config chains 7 world)

abbrev or_entry : Result BalanceCheckerError InvoiceWithReceivedAmount → InvoiceWithReceivedAmount
or_entry (ok r) = r
or_entry (err e) = entry
or_entry panic = entry

abbrev settled_record : InvoiceWithReceivedAmount
settled_record = or_entry (find_checked 7 after_deadline).0

found_settled : (find_checked 7 after_deadline).0 ≡ ok settled_record
unfolding handle_expired_invoice check_invoice_balance remove_invoice find_checked compare_balance
    get_and_store_transactions get_incoming_transactions get_account_incoming_transfers
    store_transactions process_invoice_transaction paid_status store_transaction store_body
    after_store add_outcome add_payout add_refund add_webhook create_transaction
    update_invoice_status create_payout create_refund create_webhook_event
    kalatori.Dao.Invoices.transition_allowed find_in_dao get_invoice_with_received_amount_by_id
    get_invoice same_coordinates swap_chain_from transaction query map_err now new_uuid ◌>>=◌ ◌+ℤ◌
    ◌-ℤ◌
found_settled = refl

none_missing :
    (ts : List IncomingTransaction)
    → get_incoming_transactions chains settled_record ≡ some ts
    → length (missing after_deadline.store.db.transactions ts) ≤ 0
unfolding handle_expired_invoice check_invoice_balance remove_invoice find_checked compare_balance
    get_and_store_transactions get_incoming_transactions get_account_incoming_transfers
    store_transactions process_invoice_transaction paid_status store_transaction store_body
    after_store add_outcome add_payout add_refund add_webhook create_transaction
    update_invoice_status create_payout create_refund create_webhook_event
    kalatori.Dao.Invoices.transition_allowed find_in_dao get_invoice_with_received_amount_by_id
    get_invoice same_coordinates swap_chain_from transaction query map_err now new_uuid ◌>>=◌ ◌+ℤ◌
    ◌-ℤ◌
none_missing ts e =
    subst (λ l. length (missing after_deadline.store.db.transactions l) ≤ 0) (some_inj e)
      (omega arith)

pub nothing_new : NoneFor chains 7 after_deadline
nothing_new r ts found e = none_missing ts (
    subst (λ (q : InvoiceWithReceivedAmount). get_incoming_transactions chains q ≡ some ts)
      (ok_inj BalanceCheckerError (sym found ∙ found_settled)) e)

-- The service of the invoice's swap reports it as executed.
abbrev pub after_swap : World
after_swap =
    handled_world (check_swap config chains (some executed) swap (swap ∷ []) after_deadline)

pub unused : Unused (after_swap.store.env.uuid after_swap.store.calls) after_swap.store.db
unfolding check_swap handle_swap_executed store_executed executed_body complete_swapped
    update_swap_completed change_swap kalatori.Dao.Swaps.transition_allowed handle_expired_invoice
    check_invoice_balance remove_invoice find_checked compare_balance get_and_store_transactions
    get_incoming_transactions get_account_incoming_transfers store_transactions
    process_invoice_transaction paid_status store_transaction store_body after_store add_outcome
    add_payout add_refund add_webhook create_transaction update_invoice_status create_payout
    create_refund create_webhook_event kalatori.Dao.Invoices.transition_allowed find_in_dao
    get_invoice_with_received_amount_by_id get_invoice same_coordinates swap_chain_from transaction
    query map_err now new_uuid ◌>>=◌ ◌+ℤ◌ ◌-ℤ◌
unused = (refl, refl)

-- ===== src/Tests/Transfers.antt =====
-- Runs of the executor: the payout of an invoice, sent on its chain.
use kalatori.Executor.Sending.Waiting.{send_transfer_request-waits}
use kalatori.Executor.Sending.{
  request_of_payout, failure_of, send_transfer_request, submission_status_unknown,
}
use kalatori.Common.Int.{pos}
use kalatori.Types.Retry.{no_retries, retry_delay_secs, increment_retry}
use kalatori.Types.Transaction.{
  empty_id, payout_origin, from_outgoing, general_transaction_id, into_transfer_info,
  GeneralTransactionId, Transaction,
}
use kalatori.Types.Chain.{SwapChainType}
use kalatori.Executor.Results.{
  handle_transfer_result-atomic, confirmed, paid_at, outcome_of_payout,
  handle_transfer_result-completes, rejected, to_retry, handle_transfer_result-fails, Underway,
}
use kalatori.Dao.Store.{map_err, query, transaction, Store, ◌>>=◌, now}
use kalatori.Dao.Transactions.{has_transaction_id, settle, update_transaction_failed}
use kalatori.Dao.Transfers.{has_payout_id, is_pending}
use kalatori.Executor.{
  handle_transfer_result_error, transfer_result_body, handle_transfer_result,
  TransactionExecutionError,
}
use kalatori.Common.{inl, inr, ◌≡◌, refl, true, [], ◌∷◌, update, ok, false, some, arith}
use kalatori.Types.Transfer.{
  in_progress, new_payout, TransferDestinationParams, Payout, TransferStatus,
}
use kalatori.Tests.{invoice, world, db, transfer}

abbrev params : TransferDestinationParams
params = record {
  destination_address = "merchant";
  destination_chain = SwapChainType.polygon;
  destination_asset_id = "usdc";
}

abbrev claimed_payout : Payout
claimed_payout = record (new_payout 51 1500 1500 invoice params (pos 100)) { status = in_progress }

abbrev sent_transaction : Transaction
sent_transaction = from_outgoing 1900 (record {
  id = 81;
  invoice_id = 7;
  transfer_info = into_transfer_info (transfer (pos 100));
  tx_hash = "0xbb";
  transaction_bytes = "0x00";
  origin = payout_origin 51;
})

abbrev underway_store : Store
underway_store = record world.store {
  db = record db { transactions = sent_transaction ∷ []; payouts = claimed_payout ∷ [] };
}

abbrev underway : (chain_id : GeneralTransactionId) → Underway 81 51 chain_id underway_store
underway chain_id = record {
  quiet = λ _. refl;
  row = sent_transaction;
  found = refl;
  sent = refl;
  apart = refl;
  payout = claimed_payout;
  found_payout = refl;
  claimed = refl;
}

handle_transfer_result-completes_example :
    let after =
      handle_transfer_result
        (outcome_of_payout 81 7 51 (inr (transfer (pos 100))))
        underway_store in
    (after.0 ≡ ok tt)
    × (after.1.db ≡ record underway_store.db {
      transactions =
          update
            (has_transaction_id 81)
            (confirmed (general_transaction_id (transfer (pos 100))) 2001)
            underway_store.db.transactions;
      payouts = update (has_payout_id 51) (paid_at 2003) underway_store.db.payouts;
    })
handle_transfer_result-completes_example =
    handle_transfer_result-completes 81 7 51 (transfer (pos 100)) underway_store
      (underway (general_transaction_id (transfer (pos 100))))

abbrev refusal : TransactionExecutionError
refusal = record { transaction_id = empty_id; retry_meta = no_retries; is_retriable = true }

handle_transfer_result-fails_example :
    let after = handle_transfer_result (outcome_of_payout 81 7 51 (inl refusal)) underway_store in
    (after.0 ≡ ok tt)
    × (after.1.db ≡ record underway_store.db {
      transactions =
          update (has_transaction_id 81) (rejected empty_id "" 2001) underway_store.db.transactions;
      payouts = update (has_payout_id 51) (to_retry no_retries true 2003) underway_store.db.payouts;
    })
handle_transfer_result-fails_example =
    handle_transfer_result-fails 81 7 51 refusal underway_store (underway empty_id)

-- The row of the transaction is not there.
handle_transfer_result-atomic_example :
    (handle_transfer_result (outcome_of_payout 99 7 51 (inl refusal)) underway_store).1.db
    ≡ underway_store.db
unfolding handle_transfer_result transaction transfer_result_body handle_transfer_result_error ◌>>=◌
    now map_err update_transaction_failed settle query
handle_transfer_result-atomic_example =
    handle_transfer_result-atomic (outcome_of_payout 99 7 51 (inl refusal)) underway_store refl

-- The first failure of the payout waits a minute.
send_transfer_request-waits_example :
    is_pending 2050 TransferStatus.failed_retriable (record {
      retry_count = 1;
      last_attempt_at = some 2000;
      next_retry_at = some 2300;
      failure_message = some "";
    })
    ≡ false
unfolding send_transfer_request failure_of ◌>>=◌ now increment_retry retry_delay_secs
send_transfer_request-waits_example =
    send_transfer_request-waits submission_status_unknown (request_of_payout claimed_payout)
      sent_transaction underway_store _ _ 2050 refl refl (omega arith)

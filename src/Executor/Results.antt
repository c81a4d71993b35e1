-- ===== src/Executor/Results.antt =====
-- What becomes of a transfer's outcome in the tables.
use kalatori.Types.Retry.{RetryMeta}
use kalatori.Types.Invoice.{Uuid, DateTime}
use kalatori.Types.Transfer.{TransferStatus, Payout}
use kalatori.Dao.Transactions.{
  transition_allowed, same_coordinates, has_transaction_id, settle, update_transaction_successful,
  update_transaction_failed,
}
use kalatori.Dao.Transfers.{
  transition_allowed as transfer_allowed, has_payout_id, update_payout_status, failure_status,
  update_payout_retry,
}
use kalatori.Types.Transaction.{
  failed, completed, in_progress, payout_origin, general_transaction_id, GeneralTransactionId,
  Transaction, GeneralChainTransfer,
}
use kalatori.Dao.Store.Triples.{transaction_rolls_back}
use kalatori.Dao.Store.{Store, map_err, query, transaction, ◌>>=◌, now}
use kalatori.Executor.{
  transfer_result_body, handle_transfer_result, TransactionExecutionData, executor_dao_error,
  complete_origin, handle_transfer_result_success, TransactionExecutionError, retry_origin,
  handle_transfer_result_error,
}
use kalatori.Common.{
  ◌≡◌, false, is_ok, ℕ, suc, refl, ◌⊎◌, inr, not, ◌&&◌, some, ◌==◌, find, update, exists, ok,
  String, inl, Bool, true, if◌then◌else◌, unwrap_or,
}

-- When `handle_transfer_result` does not return `Ok`, whatever failed, the tables are as they were.
pub handle_transfer_result-atomic :
    (d : TransactionExecutionData) (s : Store)
    → is_ok (handle_transfer_result d s).0 ≡ false
    → (handle_transfer_result d s).1.db ≡ s.db
unfolding handle_transfer_result
handle_transfer_result-atomic d s =
    transaction_rolls_back executor_dao_error executor_dao_error (transfer_result_body d) s

-- The rows after a success, at the given times.
abbrev pub confirmed : GeneralTransactionId → DateTime → Transaction → Transaction
confirmed chain_id time t = record t {
  transaction_id = chain_id;
  updated_at = time;
  status = completed;
  outgoing_meta = record t.outgoing_meta { confirmed_at = some time };
}

abbrev pub paid_at : DateTime → Payout → Payout
paid_at time p = record p { status = TransferStatus.completed; updated_at = time }

-- An outcome for the payout `payout_id`.
abbrev pub outcome_of_payout :
    Uuid → Uuid → Uuid → TransactionExecutionError ⊎ GeneralChainTransfer → TransactionExecutionData
outcome_of_payout id invoice_id payout_id result = record {
  transaction_id = id;
  invoice_id = invoice_id;
  origin = payout_origin payout_id;
  result = result;
}

-- The transaction and the payout that an outcome is for, both in progress, and an engine that does
-- not fail. No other transaction has the place on the chain.
pub record Underway (id payout_id : Uuid) (chain_id : GeneralTransactionId) (s : Store)
    : Type 0 where
  pub quiet : (n : ℕ) → s.env.faulty n ≡ false
  pub row : Transaction
  pub found : find (has_transaction_id id) s.db.transactions ≡ some row
  pub sent : row.status ≡ in_progress
  pub apart :
      exists
        (λ u.
          not (u.id == id)
          && same_coordinates row.transfer_info.chain chain_id u.transfer_info.chain
              u.transaction_id)
        s.db.transactions
      ≡ false
  pub payout : Payout
  pub found_payout : find (has_payout_id payout_id) s.db.payouts ≡ some payout
  pub claimed : payout.status ≡ TransferStatus.in_progress

-- When the transaction and the payout are in progress, no other transaction has the place on the
-- chain and the engine does not fail, a confirmed transfer completes both rows, and no other.
pub handle_transfer_result-completes :
    (id invoice_id payout_id : Uuid) (transfer : GeneralChainTransfer) (s : Store)
    → Underway id payout_id (general_transaction_id transfer) s
    → let after =
        handle_transfer_result (outcome_of_payout id invoice_id payout_id (inr transfer)) s in
      (after.0 ≡ ok tt)
      × (after.1.db ≡ record s.db {
        transactions =
            update
              (has_transaction_id id)
              (confirmed (general_transaction_id transfer) (s.env.clock (suc s.calls)))
              s.db.transactions;
        payouts =
            update
              (has_payout_id payout_id)
              (paid_at (s.env.clock (suc (suc (suc s.calls)))))
              s.db.payouts;
      })
unfolding handle_transfer_result transaction transfer_result_body handle_transfer_result_success
    complete_origin ◌>>=◌ now map_err update_transaction_successful settle query
    update_payout_status transition_allowed transfer_allowed
handle_transfer_result-completes id invoice_id payout_id transfer s u =
    rw (u.quiet s.calls, u.quiet (suc (suc s.calls)))
      (rw (u.found, settle)
        (rw (u.sent, u.apart)
          (rw (u.quiet (suc (suc (suc s.calls))), u.found_payout)
            (rw u.claimed (rw (u.quiet (suc (suc (suc (suc s.calls))))) (refl, refl))))))

-- The rows after a failure, at the given times.
abbrev pub rejected : GeneralTransactionId → String → DateTime → Transaction → Transaction
rejected chain_id message time t = record t {
  transaction_id = chain_id;
  updated_at = time;
  status = failed;
  outgoing_meta = record t.outgoing_meta { failed_at = some time; failure_message = some message };
}

abbrev pub to_retry : RetryMeta → Bool → DateTime → Payout → Payout
to_retry retry retriable time p = record p {
  retry_meta = retry;
  status = if retriable then TransferStatus.failed_retriable else TransferStatus.failed;
  updated_at = time;
}

may_fail :
    (retriable : Bool)
    → transfer_allowed TransferStatus.in_progress (failure_status retriable) ≡ true
unfolding transfer_allowed
may_fail true = refl
may_fail false = refl

-- When the transaction and the payout are in progress, no other transaction has the place on the
-- chain and the engine does not fail, a failed transfer fails its transaction and hands the payout
-- its retry data, for another attempt exactly when the error is retriable; no other row changes.
pub handle_transfer_result-fails :
    (id invoice_id payout_id : Uuid) (error : TransactionExecutionError) (s : Store)
    → Underway id payout_id error.transaction_id s
    → let after =
        handle_transfer_result (outcome_of_payout id invoice_id payout_id (inl error)) s in
      (after.0 ≡ ok tt)
      × (after.1.db ≡ record s.db {
        transactions =
            update
              (has_transaction_id id)
              (rejected error.transaction_id
                (unwrap_or error.retry_meta.failure_message "")
                (s.env.clock (suc s.calls)))
              s.db.transactions;
        payouts =
            update
              (has_payout_id payout_id)
              (to_retry error.retry_meta error.is_retriable (s.env.clock (suc (suc (suc s.calls)))))
              s.db.payouts;
      })
unfolding handle_transfer_result transaction transfer_result_body handle_transfer_result_error
    retry_origin ◌>>=◌ now map_err update_transaction_failed settle query update_payout_retry
    transition_allowed
handle_transfer_result-fails id invoice_id payout_id error s u =
    rw (u.quiet s.calls, u.quiet (suc (suc s.calls)))
      (rw (u.found, settle)
        (rw (u.sent, u.apart)
          (rw (u.quiet (suc (suc (suc s.calls))), u.found_payout)
            (rw (u.claimed, may_fail error.is_retriable)
              (rw (u.quiet (suc (suc (suc (suc s.calls))))) (refl, refl))))))

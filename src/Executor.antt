-- ===== src/Executor.antt =====
-- The executor of payouts and refunds: daemon/src/chain/executor.rs. Here are its requests, and
-- what it does with the outcome of a transfer on its chain.
pub mod Results
pub mod Sending
pub mod Scheduling
use kalatori.Common.{◌⊎◌, inl, inr, panic}
use kalatori.Dao.Store.{◌>>=◌, ◌>>◌, Store, now}
use kalatori.Types.Invoice.{Uuid, Invoice}
use kalatori.Types.Retry.{RetryMeta}
use kalatori.Types.Chain.{SwapChainType}
use kalatori.Dao.Store.{Dao, pure, lift, map_err, transaction}
use kalatori.Dao.Transactions.{update_transaction_successful, update_transaction_failed}
use kalatori.Dao.Transfers.{
  update_payout_status, update_payout_retry, update_refund_status, update_refund_retry,
}
use kalatori.Common.{Bool, true, false, Result, unwrap_or}
use kalatori.Types.Transaction.{
  payout, refund, internal_transfer, no_origin, TransactionOriginVariant, variant,
  general_transaction_id, GeneralTransactionId, TransactionOrigin, Transaction,
  GeneralChainTransfer,
}
use kalatori.Types.Transfer.{completed}

-- `transaction_id` may be empty.
pub record TransactionExecutionError : Type 0 where
  pub transaction_id : GeneralTransactionId
  pub retry_meta : RetryMeta
  pub is_retriable : Bool

pub record TransactionExecutionData : Type 0 where
  pub transaction_id : Uuid
  pub invoice_id : Uuid
  pub origin : TransactionOrigin
  pub result : TransactionExecutionError ⊎ GeneralChainTransfer

-- Every failure of a call, or of the begin and the commit, is this one; its text is left out.
pub data ChainExecutorError : Type 0 where
  fetch_transfers build_transfer executor_dao_error : ChainExecutorError
  unsupported_swap_direction : SwapChainType → SwapChainType → ChainExecutorError

unfoldable pub is_retriable : ChainExecutorError → Bool
is_retriable (unsupported_swap_direction from_chain to_chain) = false
is_retriable _ = true

abbrev failing {ℓ κ} : {F : Type ℓ} {A : Type κ} → Dao F A → Dao ChainExecutorError A
failing = map_err λ _. executor_dao_error

-- `unreachable!()` for an origin that is neither a payout nor a refund.
unfoldable pub complete_origin : TransactionOriginVariant → Dao ChainExecutorError (Unit {0})
complete_origin (payout id) = do failing (update_payout_status id completed); pure tt
complete_origin (refund id) = do failing (update_refund_status id completed); pure tt
complete_origin (internal_transfer id) = lift panic
complete_origin no_origin = lift panic

unfoldable pub retry_origin :
    TransactionOriginVariant → RetryMeta → Bool → Dao ChainExecutorError (Unit {0})
retry_origin (payout id) retry retriable = do
  failing (update_payout_retry id retry retriable)
  pure tt
retry_origin (refund id) retry retriable = do
  failing (update_refund_retry id retry retriable)
  pure tt
retry_origin (internal_transfer id) retry retriable = lift panic
retry_origin no_origin retry retriable = lift panic

unfoldable pub handle_transfer_result_success :
    Uuid → TransactionOrigin → GeneralChainTransfer → Dao ChainExecutorError (Unit {0})
handle_transfer_result_success id origin transfer = do
  time ← now
  failing (update_transaction_successful id (general_transaction_id transfer) time)
  complete_origin (variant origin)

unfoldable pub handle_transfer_result_error :
    Uuid → TransactionOrigin → TransactionExecutionError → Dao ChainExecutorError (Unit {0})
handle_transfer_result_error id origin error = do
  time ← now
  failing (
      update_transaction_failed id error.transaction_id
        (unwrap_or error.retry_meta.failure_message "") time)
  retry_origin (variant origin) error.retry_meta error.is_retriable

-- What is run between the begin and the commit.
unfoldable pub transfer_result_body : TransactionExecutionData → Dao ChainExecutorError (Unit {0})
transfer_result_body data' = elim data'.result [
  | inr transfer ↦ handle_transfer_result_success data'.transaction_id data'.origin transfer
  | inl error ↦ handle_transfer_result_error data'.transaction_id data'.origin error
]

unfoldable pub handle_transfer_result : TransactionExecutionData → Dao ChainExecutorError (Unit {0})
handle_transfer_result data' =
    transaction executor_dao_error executor_dao_error (transfer_result_body data')

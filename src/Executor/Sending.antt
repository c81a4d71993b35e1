-- ===== src/Executor/Sending.antt =====
-- The requests of the executor, and the submission of one transfer.
pub mod Waiting
use kalatori.Types.Invoice.{Decimal, Uuid, Invoice}
use kalatori.Types.Retry.{increment_retry, RetryMeta}
use kalatori.Types.Transaction.{
  empty_id, payout_origin, refund_origin, from_outgoing, GeneralTransactionId, TransactionOrigin,
  Transaction, GeneralChainTransfer,
}
use kalatori.Types.Transfer.{TransferDestinationParams, Payout, Refund}
use kalatori.Types.Chain.{ChainType}
use kalatori.Dao.Transactions.{create_transaction}
use kalatori.Executor.{
  ChainExecutorError, TransactionExecutionError, TransactionExecutionData, executor_dao_error,
  is_retriable,
}
use kalatori.Common.{
  ok, String, ◌⊎◌, inl, inr, Bool, true, false, Option, none, some, Result, panic,
}
use kalatori.Dao.Store.{◌>>=◌, now, Dao, pure, lift, map_err, Store}

pub record OutgoingTransferRequest : Type 0 where
  pub id : Uuid
  pub invoice_id : Uuid
  pub chain : ChainType
  pub asset_id : String
  pub asset_name : String
  pub source_address : String
  pub destination_params : TransferDestinationParams
  pub amount : Decimal
  pub origin : TransactionOrigin
  pub retry_meta : RetryMeta

-- `From<Payout>`
abbrev pub request_of_payout : Payout → OutgoingTransferRequest
request_of_payout p = record {
  id = p.id;
  invoice_id = p.invoice_id;
  chain = p.chain;
  asset_id = p.asset_id;
  asset_name = p.asset_name;
  source_address = p.source_address;
  destination_params = p.destination_params;
  amount = p.amount;
  origin = payout_origin p.id;
  retry_meta = p.retry_meta;
}

-- `TryFrom<Refund>`
abbrev pub request_of_refund : Refund → Option OutgoingTransferRequest
request_of_refund r = elim r.destination_params [
  | none ↦ none
  | some params ↦ some (record {
    id = r.id;
    invoice_id = r.invoice_id;
    chain = r.chain;
    asset_id = r.asset_id;
    asset_name = r.asset_name;
    source_address = r.source_address;
    destination_params = params;
    amount = r.amount;
    origin = refund_origin r.id;
    retry_meta = r.retry_meta;
  })
]

-- `TransactionError`, with the ids of both chains as `GeneralTransactionId`s and assets as texts.
pub data TransactionError : Type 0 where
  build_failed : String → TransactionError
  submission_status_unknown : TransactionError
  transaction_info_fetch_failed insufficient_balance : GeneralTransactionId → TransactionError
  execution_failed unknown_asset : GeneralTransactionId → String → TransactionError

-- The place on the chain, the message and whether to try again, for each error; a failed build is
-- `unreachable!()`.
unfoldable pub failure_of :
    TransactionError → Result ChainExecutorError (GeneralTransactionId × String × Bool)
failure_of (build_failed reason) = panic
failure_of submission_status_unknown = ok (empty_id, "", true)
failure_of (execution_failed id code) = ok (id, code, true)
failure_of (transaction_info_fetch_failed id) = ok (id, "", true)
failure_of (insufficient_balance id) = ok (id, "", false)
failure_of (unknown_asset id asset) = ok (id, asset, false)

abbrev pub executed :
    Transaction → TransactionExecutionError ⊎ GeneralChainTransfer → TransactionExecutionData
executed t result = record {
  transaction_id = t.id;
  invoice_id = t.invoice_id;
  origin = t.origin;
  result = result;
}

-- `send_transfer_request`, with what the client's `submit_and_watch_transaction` answers.
unfoldable pub send_transfer_request :
    TransactionError ⊎ GeneralChainTransfer
    → OutgoingTransferRequest
    → Transaction
    → Dao ChainExecutorError TransactionExecutionData
send_transfer_request (inr transfer) request t = pure (executed t (inr transfer))
send_transfer_request (inl error) request t = do
  (id, message, retriable) ← lift (failure_of error)
  time ← now
  meta ← lift (increment_retry time message request.retry_meta)
  pure (
      executed t
        (inl (record { transaction_id = id; retry_meta = meta; is_retriable = retriable })))

-- `store_built_transfer`, with the hash and the bytes of the signed transaction.
unfoldable pub store_built_transfer :
    OutgoingTransferRequest → String → String → Uuid → Dao ChainExecutorError Transaction
store_built_transfer request hash bytes id = do
  time ← now
  map_err (λ _. executor_dao_error)
      (create_transaction (
        from_outgoing time (record {
          id = id;
          invoice_id = request.invoice_id;
          transfer_info = record {
            chain = request.chain;
            asset_id = request.asset_id;
            asset_name = request.asset_name;
            amount = request.amount;
            source_address = request.source_address;
            destination_address = request.destination_params.destination_address;
          };
          tx_hash = hash;
          transaction_bytes = bytes;
          origin = request.origin;
        })))

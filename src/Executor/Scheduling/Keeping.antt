-- ===== src/Executor/Scheduling/Keeping.antt =====
-- The books through everything that the executor of daemon/src/chain/executor.rs does.
use kalatori.RefundDestination.Keeping.{attempt-Keeps, refunds_with_destination-Keeps}
use kalatori.Types.Invoice.{Uuid}
use kalatori.Types.SwapOrder.{swap_chain_eq}
use kalatori.Types.Retry.{RetryMeta}
use kalatori.Types.Chain.{SwapChainType}
use kalatori.Executor.Scheduling.{
  InFlight, max_concurrent_transfers, schedule_chain_transfer, schedule_swap, schedule_request,
  mark_failed, after_scheduling, send_transfer, send_transfers, requests_of_refunds,
  collect_pending_refund_requests, schedule_pending, schedule_transfers, Services,
}
use kalatori.Executor.Sending.{request_of_payout, store_built_transfer, OutgoingTransferRequest}
use kalatori.Ledger.Rows.{
  create_outgoing-Keeps, update_transaction_successful-Keeps, update_transaction_failed-Keeps,
}
use kalatori.Ledger.Statements.{
  get_pending_payouts-Keeps, update_payout_status-Keeps, update_payout_retry-Keeps,
  update_refund_status-Keeps, update_refund_retry-Keeps,
}
use kalatori.Ledger.Keeping.{
  transaction-Keeps, lift-Keeps, map_err-Keeps, bind-Keeps, pure-Keeps, now-Keeps, new_uuid-Keeps,
  Keeps,
}
use kalatori.Executor.{
  ChainExecutorError, complete_origin, retry_origin, handle_transfer_result_success,
  handle_transfer_result_error, transfer_result_body, handle_transfer_result,
  TransactionExecutionError, TransactionExecutionData, is_retriable,
}
use kalatori.SwapsExecutor.{create_swap_of-Keeps, submit_with_signature-Keeps}
use kalatori.Common.{
  ok, err, panic, [], ◌∷◌, ℕ, zero, suc, ◌-◌, String, ◌⊎◌, inl, inr, Bool, List, ◌++◌, map, str_eq,
  ◌==◌, Bool-cases, length, Result,
}
use kalatori.Types.Transaction.{
  payout, refund, internal_transfer, no_origin, TransactionOriginVariant, variant,
  GeneralChainTransfer,
}
use kalatori.Types.Transfer.{completed}

store_built_transfer-Keeps :
    (request : OutgoingTransferRequest) (hash bytes : String) (id : Uuid)
    → Keeps (store_built_transfer request hash bytes id)
unfolding store_built_transfer
store_built_transfer-Keeps request hash bytes id =
    bind-Keeps _ _ (now-Keeps _) λ time. map_err-Keeps _ _ (create_outgoing-Keeps time _)

module _ (services : Services) where
  module _ (request : OutgoingTransferRequest) where
    schedule_chain_transfer-Keeps : Keeps (schedule_chain_transfer services request)
    unfolding schedule_chain_transfer
    schedule_chain_transfer-Keeps = bind-Keeps _ _ (new_uuid-Keeps _) λ id.
        bind-Keeps _ _ (lift-Keeps _) λ signed.
          bind-Keeps _ _ (store_built_transfer-Keeps request signed.0 signed.1 id)
            λ t. pure-Keeps _ (request, t)

    schedule_swap-Keeps : Keeps (schedule_swap services request)
    unfolding schedule_swap
    schedule_swap-Keeps = bind-Keeps _ _ (lift-Keeps _) λ from_chain.
        bind-Keeps _ _ (lift-Keeps _) λ executor. bind-Keeps _ _ (lift-Keeps _) λ units.
          bind-Keeps _ _ (map_err-Keeps _ _ (create_swap_of-Keeps services.swaps _)) λ swap.
            bind-Keeps _ _ (lift-Keeps _) λ signature.
              bind-Keeps _ _
                (map_err-Keeps _ _
                  (submit_with_signature-Keeps services.swaps swap.id executor signature))
                λ _. pure-Keeps _ tt

    schedule_request-Keeps :
        (chain : SwapChainType) → Keeps (schedule_request services request chain)
    unfolding schedule_request
    schedule_request-Keeps chain =
        let to_chain = request.destination_params.destination_chain in
        let same_asset =
          str_eq (services.to_lowercase request.asset_id)
            (services.to_lowercase request.destination_params.destination_asset_id) in
        elim (Bool-cases (swap_chain_eq chain to_chain)) [
          | inl e ↦ elim (Bool-cases same_asset) [
            | inl f ↦
                rw (e, f) (bind-Keeps _ _ schedule_chain_transfer-Keeps λ t. pure-Keeps _ (t ∷ []))
            | inr f ↦ rw (e, f) (bind-Keeps _ _ schedule_swap-Keeps λ _. pure-Keeps _ [])
          ]
          | inr e ↦ rw e (lift-Keeps _)
        ]

    mark_failed-Keeps :
        (origin : TransactionOriginVariant) (meta : RetryMeta) (retriable : Bool)
        → Keeps (mark_failed origin meta retriable)
    unfolding mark_failed
    mark_failed-Keeps (payout id) meta retriable =
        bind-Keeps _ _ (attempt-Keeps _ _ (update_payout_retry-Keeps id meta retriable))
          λ _. pure-Keeps _ tt
    mark_failed-Keeps (refund id) meta retriable =
        bind-Keeps _ _ (attempt-Keeps _ _ (update_refund_retry-Keeps id meta retriable))
          λ _. pure-Keeps _ tt
    mark_failed-Keeps (internal_transfer id) meta retriable = lift-Keeps panic
    mark_failed-Keeps no_origin meta retriable = lift-Keeps panic

    after_scheduling-Keeps :
        (result : Result ChainExecutorError (List InFlight))
        → Keeps (after_scheduling services request result)
    unfolding after_scheduling
    after_scheduling-Keeps (ok transfers) = pure-Keeps _ transfers
    after_scheduling-Keeps (err e) = bind-Keeps _ _ (now-Keeps _) λ time.
        bind-Keeps _ _ (lift-Keeps _) λ meta.
          bind-Keeps _ _ (mark_failed-Keeps (variant request.origin) meta (is_retriable e))
            λ _. pure-Keeps _ []
    after_scheduling-Keeps panic = lift-Keeps panic

    send_transfer-Keeps : Keeps (send_transfer services request)
    unfolding send_transfer
    send_transfer-Keeps = bind-Keeps _ _ (lift-Keeps _) λ chain.
        bind-Keeps _ _ (attempt-Keeps _ _ (schedule_request-Keeps chain)) after_scheduling-Keeps

  send_transfers-Keeps :
      (requests : List OutgoingTransferRequest) (futures : List InFlight)
      → Keeps (send_transfers services requests futures)
  unfolding send_transfers
  send_transfers-Keeps [] futures = pure-Keeps _ futures
  send_transfers-Keeps (request ∷ rest) futures =
      bind-Keeps _ _ (send_transfer-Keeps request)
        λ transfers. send_transfers-Keeps rest (futures ++ transfers)

  refund_requests-Keeps : (limit : ℕ) → Keeps (collect_pending_refund_requests services limit)
  unfolding collect_pending_refund_requests
  refund_requests-Keeps zero = pure-Keeps _ []
  refund_requests-Keeps (suc n) =
      bind-Keeps _ _
        (map_err-Keeps _ _ (refunds_with_destination-Keeps services.to_lowercase (suc n)))
        λ rs. pure-Keeps _ (requests_of_refunds rs)

  schedule_pending-Keeps :
      (futures : List InFlight) (limit : ℕ) → Keeps (schedule_pending services futures limit)
  unfolding schedule_pending
  schedule_pending-Keeps futures limit =
      bind-Keeps _ _ (map_err-Keeps _ _ (get_pending_payouts-Keeps limit)) λ payouts.
        bind-Keeps _ _ (lift-Keeps _) λ remaining.
          bind-Keeps _ _ (refund_requests-Keeps remaining)
            λ refunds. send_transfers-Keeps (map request_of_payout payouts ++ refunds) futures

  -- A tick of the executor claims payouts and refunds, finds the refunds' destinations, stores
  -- transactions and swaps and marks what failed, and keeps the books of every invoice, whatever it
  -- returns.
  pub schedule_transfers-Keeps :
      (futures : List InFlight) → Keeps (schedule_transfers services futures)
  unfolding schedule_transfers
  schedule_transfers-Keeps futures =
      elim (Bool-cases ((max_concurrent_transfers - length futures) == 0)) [
        | inl e ↦ rw e (pure-Keeps _ futures)
        | inr e ↦ rw e (schedule_pending-Keeps futures (max_concurrent_transfers - length futures))
      ]

complete_origin-Keeps : (origin : TransactionOriginVariant) → Keeps (complete_origin origin)
unfolding complete_origin
complete_origin-Keeps (payout id) =
    bind-Keeps _ _ (map_err-Keeps _ _ (update_payout_status-Keeps id completed))
      λ _. pure-Keeps _ tt
complete_origin-Keeps (refund id) =
    bind-Keeps _ _ (map_err-Keeps _ _ (update_refund_status-Keeps id completed))
      λ _. pure-Keeps _ tt
complete_origin-Keeps (internal_transfer id) = lift-Keeps panic
complete_origin-Keeps no_origin = lift-Keeps panic

retry_origin-Keeps :
    (origin : TransactionOriginVariant) (meta : RetryMeta) (retriable : Bool)
    → Keeps (retry_origin origin meta retriable)
unfolding retry_origin
retry_origin-Keeps (payout id) meta retriable =
    bind-Keeps _ _ (map_err-Keeps _ _ (update_payout_retry-Keeps id meta retriable))
      λ _. pure-Keeps _ tt
retry_origin-Keeps (refund id) meta retriable =
    bind-Keeps _ _ (map_err-Keeps _ _ (update_refund_retry-Keeps id meta retriable))
      λ _. pure-Keeps _ tt
retry_origin-Keeps (internal_transfer id) meta retriable = lift-Keeps panic
retry_origin-Keeps no_origin meta retriable = lift-Keeps panic

body-Keeps : (d : TransactionExecutionData) → Keeps (transfer_result_body d)
unfolding transfer_result_body handle_transfer_result_success handle_transfer_result_error
body-Keeps d = go d.result
  where
    go :
        (r : TransactionExecutionError ⊎ GeneralChainTransfer)
        → Keeps (transfer_result_body (record d { result = r }))
    go (inr transfer) = bind-Keeps _ _ (now-Keeps _) λ time.
        bind-Keeps _ _ (map_err-Keeps _ _ (update_transaction_successful-Keeps _ _ time))
          λ _. complete_origin-Keeps (variant d.origin)
    go (inl error) = bind-Keeps _ _ (now-Keeps _) λ time.
        bind-Keeps _ _ (map_err-Keeps _ _ (update_transaction_failed-Keeps _ _ _ time))
          λ _. retry_origin-Keeps (variant d.origin) error.retry_meta error.is_retriable

-- So does the handling of a transfer's outcome.
pub handle_transfer_result-Keeps : (d : TransactionExecutionData) → Keeps (handle_transfer_result d)
unfolding handle_transfer_result
handle_transfer_result-Keeps d = transaction-Keeps _ _ _ (body-Keeps d)

-- ===== src/Executor/Scheduling.antt =====
-- What the executor of daemon/src/chain/executor.rs does at a tick of its timer.
pub mod Keeping
pub mod Bound
use kalatori.Types.Invoice.{Decimal}
use kalatori.Types.Retry.{increment_retry, RetryMeta}
use kalatori.Types.Transfer.{Refund}
use kalatori.Types.Chain.{SwapChainType, swap_chain_from}
use kalatori.Executor.Sending.{
  request_of_payout, request_of_refund, store_built_transfer, OutgoingTransferRequest,
}
use kalatori.Dao.Transfers.{get_pending_payouts, update_payout_retry, update_refund_retry}
use kalatori.RefundDestination.{get_refunds_with_destination}
use kalatori.SwapsExecutor.{create_swap_of, submit_with_signature, SwapsClients}
use kalatori.Common.{
  ok, err, panic, [], ◌∷◌, ℕ, zero, suc, ◌-◌, String, Bool, ◌&&◌, Option, none, some, List, ◌++◌,
  map, str_eq, leb, ◌==◌, if◌then◌else◌, length, Result, unwrap, ok_or,
}
use kalatori.Types.SwapOrder.{outgoing, SwapExecutorType, swap_chain_eq, detect, CreateSwapData}
use kalatori.Types.Transaction.{
  payout, refund, internal_transfer, no_origin, TransactionOriginVariant, variant, Transaction,
}
use kalatori.Executor.{
  fetch_transfers, build_transfer, executor_dao_error, unsupported_swap_direction,
  ChainExecutorError, is_retriable,
}
use kalatori.Dao.Store.{attempt, ◌>>=◌, ◌>>◌, now, Dao, pure, lift, map_err, new_uuid, Store}

-- The chain's clients with the keyring, which build and sign a transfer and give its hash and its
-- bytes; the swaps' services; the number of token units of an amount, when it is a `u128`; the
-- lower case of a text, and the text of an error.
pub record Services : Type 0 where
  pub build_and_sign : OutgoingTransferRequest → Option (String × String)
  pub swaps : SwapsClients
  pub amount_units : Decimal → Option ℕ
  pub to_lowercase : String → String
  pub error_text : ChainExecutorError → String

-- A transfer that has been handed to its chain and not yet answered.
abbrev pub InFlight : Type 0
InFlight = OutgoingTransferRequest × Transaction

abbrev pub max_concurrent_transfers : ℕ
max_concurrent_transfers = 10

unfoldable pub schedule_chain_transfer :
    Services → OutgoingTransferRequest → Dao ChainExecutorError InFlight
schedule_chain_transfer services request = do
  transaction_id ← new_uuid
  signed ← lift (ok_or (services.build_and_sign request) build_transfer)
  t ← store_built_transfer request signed.0 signed.1 transaction_id
  pure (request, t)

abbrev swap_data : OutgoingTransferRequest → SwapExecutorType → SwapChainType → ℕ → CreateSwapData
swap_data request swap_executor from_chain units = record {
  invoice_id = request.invoice_id;
  swap_executor = swap_executor;
  from_chain = from_chain;
  to_chain = request.destination_params.destination_chain;
  from_token_address = request.asset_id;
  to_token_address = request.destination_params.destination_asset_id;
  from_amount_units = units;
  expected_to_amount_units = 0;
  from_address = request.source_address;
  to_address = request.destination_params.destination_address;
  direction = outgoing;
  origin = request.origin;
}

unfoldable pub schedule_swap :
    Services → OutgoingTransferRequest → Dao ChainExecutorError (Unit {0})
schedule_swap services request = do
  from_chain ← lift (swap_chain_from request.chain)
  let to_chain = request.destination_params.destination_chain
  swap_executor ←
      lift (
        ok_or (detect from_chain to_chain outgoing)
          (unsupported_swap_direction from_chain to_chain))
  units ← lift (unwrap (services.amount_units request.amount))
  swap ←
      map_err (λ _. build_transfer)
        (create_swap_of services.swaps (swap_data request swap_executor from_chain units))
  signature ← lift (ok_or (services.swaps.sign_transaction swap) build_transfer)
  map_err (λ _. build_transfer)
      (submit_with_signature services.swaps swap.id swap_executor signature)
  pure tt

-- The transfers that the request adds to those in flight.
unfoldable pub schedule_request :
    Services → OutgoingTransferRequest → SwapChainType → Dao ChainExecutorError (List InFlight)
schedule_request services request from_chain =
    let to_chain = request.destination_params.destination_chain in
    if swap_chain_eq from_chain to_chain
      && str_eq (services.to_lowercase request.asset_id)
          (services.to_lowercase request.destination_params.destination_asset_id)
    then (do transfer ← schedule_chain_transfer services request; pure (transfer ∷ []))
    else if swap_chain_eq from_chain to_chain
    then (do schedule_swap services request; pure [])
    else lift (err (unsupported_swap_direction from_chain to_chain))

-- A request that was not scheduled is stored as failed; an error of that is logged.
unfoldable pub mark_failed :
    TransactionOriginVariant → RetryMeta → Bool → Dao ChainExecutorError (Unit {0})
mark_failed (payout id) retry_meta retriable = do
  attempt {F = ChainExecutorError} (update_payout_retry id retry_meta retriable)
  pure tt
mark_failed (refund id) retry_meta retriable = do
  attempt {F = ChainExecutorError} (update_refund_retry id retry_meta retriable)
  pure tt
mark_failed (internal_transfer id) retry_meta retriable = lift panic
mark_failed no_origin retry_meta retriable = lift panic

unfoldable pub after_scheduling :
    Services
    → OutgoingTransferRequest
    → Result ChainExecutorError (List InFlight)
    → Dao ChainExecutorError (List InFlight)
after_scheduling services request (ok transfers) = pure transfers
after_scheduling services request (err e) = do
  time ← now
  retry_meta ← lift (increment_retry time (services.error_text e) request.retry_meta)
  mark_failed (variant request.origin) retry_meta (is_retriable e)
  pure []
after_scheduling services request panic = lift panic

unfoldable pub send_transfer :
    Services → OutgoingTransferRequest → Dao ChainExecutorError (List InFlight)
send_transfer services request = do
  from_chain ← lift (swap_chain_from request.chain)
  result ← attempt (schedule_request services request from_chain)
  after_scheduling services request result

unfoldable pub send_transfers :
    Services → List OutgoingTransferRequest → List InFlight → Dao ChainExecutorError (List InFlight)
send_transfers services [] futures = pure futures
send_transfers services (request ∷ rest) futures = do
  transfers ← send_transfer services request
  send_transfers services rest (futures ++ transfers)

-- `u32::checked_sub`, whose overflow panics.
abbrev pub minus : ℕ → ℕ → Result ChainExecutorError ℕ
minus a b = if leb b a then ok (a - b) else panic

-- The refunds with a destination, as requests.
abbrev pub requests_of_refunds : List Refund → List OutgoingTransferRequest
requests_of_refunds [] = []
requests_of_refunds (r ∷ rs) =
    let rest = requests_of_refunds rs in
    elim (request_of_refund r) [ none ↦ rest | some request ↦ request ∷ rest ]

unfoldable pub collect_pending_refund_requests :
    Services → ℕ → Dao ChainExecutorError (List OutgoingTransferRequest)
collect_pending_refund_requests services zero = pure []
collect_pending_refund_requests services (suc n) = do
  refunds ←
      map_err (λ _. executor_dao_error) (get_refunds_with_destination services.to_lowercase (suc n))
  pure (requests_of_refunds refunds)

unfoldable pub schedule_pending :
    Services → List InFlight → ℕ → Dao ChainExecutorError (List InFlight)
schedule_pending services futures limit = do
  payouts ← map_err (λ _. fetch_transfers) (get_pending_payouts limit)
  remaining_limit ← lift (minus limit (length payouts))
  refund_requests ← collect_pending_refund_requests services remaining_limit
  send_transfers services (map request_of_payout payouts ++ refund_requests) futures

-- The futures that are in flight after the tick. `saturating_sub` is the subtraction on ℕ.
unfoldable pub schedule_transfers :
    Services → List InFlight → Dao ChainExecutorError (List InFlight)
schedule_transfers services futures =
    let limit = max_concurrent_transfers - length futures in
    if limit == 0 then pure futures else schedule_pending services futures limit

-- ===== src/Tests/Schedules.antt =====
-- Runs of the tracker's delays, of the schedule of retries and of the executor's tick.
use kalatori.Dao.Store.{map_err, new_uuid, query, attempt, now, ◌>>=◌}
use kalatori.Dao.Transactions.{create_transaction, get_completed_transactions_by_invoice}
use kalatori.Dao.Swaps.{get_completed_incoming_swaps_by_invoice}
use kalatori.Dao.Transfers.{
  pending_payout_ids, get_pending_payouts, pending_refund_ids, get_pending_refunds,
  update_refund_retry, transition_allowed,
}
use kalatori.RefundDestination.{
  find_destination_in_swaps, destination_of_first, destination_from, find_refund_destination,
  store_destination, find_and_update_refund_destination, detect_all, get_refunds_with_destination,
  filter_out_swap_transactions,
}
use kalatori.Executor.{ChainExecutorError}
use kalatori.Types.Retry.Delays.{retry_delay_secs-bounds}
use kalatori.Types.Retry.{retry_delay_secs, increment_retry}
use kalatori.Types.Chain.{swap_chain_from, SwapChainType-discrete}
use kalatori.Common.{◌≤◌, ◌≡◌, refl, [], ◌∷◌, arith, inl, inr, ◌==◌}
use kalatori.Tracker.Backoff.{new, record_failures}
use kalatori.Tracker.Backoff.Outage.{delays, record_failures-delays}
use kalatori.Tests.Running.{services}
use kalatori.Tests.Tables.{waiting_store}
use kalatori.Executor.Scheduling.{
  schedule_transfers, send_transfers, send_transfer, schedule_pending, schedule_request,
  schedule_chain_transfer, after_scheduling, collect_pending_refund_requests, InFlight,
}
use kalatori.Executor.Scheduling.Bound.{schedule_transfers-bound}
use kalatori.RefundDestination.Bound.{UniqueIds}
use kalatori.Executor.Sending.{store_built_transfer}
use kalatori.Common.{List, Result, ok, err, panic, length, Bool-cases}

record_failures-delays_example : (record_failures (10 ∷ 20 ∷ 30 ∷ []) new).0 ≡ delays 0 3
record_failures-delays_example = record_failures-delays (10 ∷ 20 ∷ 30 ∷ [])

retry_delay_secs-bounds_example :
    60 ≤ retry_delay_secs 2 × retry_delay_secs 2 ≤ retry_delay_secs 3 × retry_delay_secs 3 ≤ 7200
retry_delay_secs-bounds_example = retry_delay_secs-bounds 2 3 (omega arith)

-- A tick that claims a payout and a refund, and schedules the payout.
abbrev transfers_of : Result ChainExecutorError (List InFlight) → List InFlight
transfers_of (ok l) = l
transfers_of (err e) = []
transfers_of panic = []

abbrev after_tick : List InFlight
after_tick = transfers_of (schedule_transfers services [] waiting_store).0

one_refund : UniqueIds waiting_store.db.refunds
one_refund id = elim (Bool-cases (52 == id)) [
  | inl e ↦ rw e (omega arith)
  | inr e ↦ rw e (omega arith)
]

ran : (schedule_transfers services [] waiting_store).0 ≡ ok after_tick
unfolding schedule_transfers send_transfers send_transfer schedule_pending schedule_request
    schedule_chain_transfer after_scheduling collect_pending_refund_requests store_built_transfer
    get_pending_payouts pending_payout_ids get_refunds_with_destination get_pending_refunds
    pending_refund_ids detect_all find_and_update_refund_destination find_refund_destination
    destination_from find_destination_in_swaps store_destination update_refund_retry
    get_completed_incoming_swaps_by_invoice get_completed_transactions_by_invoice
    destination_of_first create_transaction swap_chain_from map_err query attempt now new_uuid ◌>>=◌
    SwapChainType-discrete filter_out_swap_transactions increment_retry transition_allowed
ran = refl

schedule_transfers-bound_example : length after_tick ≤ 10
schedule_transfers-bound_example =
    schedule_transfers-bound services [] after_tick waiting_store one_refund (omega arith) ran

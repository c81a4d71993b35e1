-- ===== src/SwapsTracker.antt =====
-- The tracker of swaps: daemon/src/swaps/tracker.rs. The status that a swap's service reports is a
-- parameter. A panic of a handler ends the process.
pub mod Tracking
use kalatori.Common.Int.{eq_ℤ, pos}
use kalatori.Types.Invoice.{Uuid, InvoiceWithReceivedAmount, Invoice}
use kalatori.Types.SwapOrder.{Swap}
use kalatori.Types.Retry.{increment_retry}
use kalatori.Dao.Swaps
use kalatori.Dao.Swaps.{DaoSwapError, update_swap_completed, update_swap_failed}
use kalatori.Dao.Transfers.{
  update_payout_status, update_payout_retry, get_payout_by_id, get_refund_by_id,
  update_refund_status, update_refund_retry,
}
use kalatori.BalanceChecker.{BalanceCheckerError, check_invoice_balance, Chains}
use kalatori.World.{World}
use kalatori.Config.{PaymentsConfig}
use kalatori.Common.{
  ok, err, panic, [], ◌∷◌, true, not, Option, none, some, List, ◌==◌, if◌then◌else◌, select, Result,
}
use kalatori.Types.Transaction.{
  payout, refund, internal_transfer, no_origin, TransactionOriginVariant, variant, Transaction,
}
use kalatori.Types.Transfer.{completed, Payout, Refund}
use kalatori.Dao.Store.{◌>>=◌, ◌>>◌, now, Dao, pure, lift, map_err, transaction, Store}

pub data SwapsTrackerError : Type 0 where
  api_error tracker_database_error balance_checker_error : SwapsTrackerError

pub data ExecutorSwapStatus : Type 0 where
  still_pending executed has_failed : ExecutorSwapStatus

-- The swaps that are watched, one for each id, in the order of the map's iterator.
abbrev pub TrackedSwaps : Type 0
TrackedSwaps = List Swap

abbrev pub remove_swap : Uuid → TrackedSwaps → TrackedSwaps
remove_swap id = select λ s. not (s.id == id)

unfoldable pub add_swaps : List Swap → TrackedSwaps → TrackedSwaps
add_swaps [] tracked = tracked
add_swaps (s ∷ rest) tracked = add_swaps rest (s ∷ remove_swap s.id tracked)

abbrev tracking {ℓ κ} : {F : Type ℓ} {A : Type κ} → Dao F A → Dao SwapsTrackerError A
tracking = map_err λ _. tracker_database_error

-- The payout or the refund that the swap has carried out.
unfoldable pub complete_swapped : TransactionOriginVariant → Dao SwapsTrackerError (Unit {0})
complete_swapped (payout id) = do tracking (update_payout_status id completed); pure tt
complete_swapped (refund id) = do tracking (update_refund_status id completed); pure tt
complete_swapped (internal_transfer id) = lift panic
complete_swapped no_origin = pure tt

unfoldable pub executed_body : Swap → Dao SwapsTrackerError (Unit {0})
executed_body swap = do
  tracking (update_swap_completed swap.id)
  complete_swapped (variant swap.request.origin)

unfoldable pub retry_payout : Uuid → Option Payout → Dao SwapsTrackerError (Unit {0})
retry_payout id none = pure tt
retry_payout id (some row) = do
  time ← now
  retry_meta ← lift (increment_retry time "Swap has failed" row.retry_meta)
  tracking (update_payout_retry id retry_meta true)
  pure tt

unfoldable pub retry_refund : Uuid → Option Refund → Dao SwapsTrackerError (Unit {0})
retry_refund id none = pure tt
retry_refund id (some row) = do
  time ← now
  retry_meta ← lift (increment_retry time "Swap has failed" row.retry_meta)
  tracking (update_refund_retry id retry_meta true)
  pure tt

-- The payout or the refund is to be tried again.
unfoldable pub retry_swapped : TransactionOriginVariant → Dao SwapsTrackerError (Unit {0})
retry_swapped (payout id) = do row ← tracking (get_payout_by_id id); retry_payout id row
retry_swapped (refund id) = do row ← tracking (get_refund_by_id id); retry_refund id row
retry_swapped (internal_transfer id) = lift panic
retry_swapped no_origin = pure tt

unfoldable pub failed_body : Swap → Dao SwapsTrackerError (Unit {0})
failed_body swap = do
  tracking (update_swap_failed swap.id "Swap has been failed and refunded")
  retry_swapped (variant swap.request.origin)

-- The result of a handler, the swaps that are still watched, and the world.
abbrev pub Handled : Type 0
Handled = Result SwapsTrackerError (Unit {0}) × TrackedSwaps × World

-- The swap is watched no more once its end is stored.
abbrev pub after_end :
    Swap → TrackedSwaps → World → Result SwapsTrackerError (Unit {0}) × Store → Handled
after_end swap tracked w (ok _, s) = (ok tt, remove_swap swap.id tracked, record w { store = s })
after_end swap tracked w (err e, s) = (err e, tracked, record w { store = s })
after_end swap tracked w (panic, s) = (panic, tracked, record w { store = s })

unfoldable pub store_executed : Swap → TrackedSwaps → World → Handled
store_executed swap tracked w =
    after_end swap tracked w
      (transaction tracker_database_error tracker_database_error (executed_body swap) w.store)

-- An invoice that has still received nothing is checked again later.
abbrev pub after_balance :
    Swap → TrackedSwaps → Result BalanceCheckerError InvoiceWithReceivedAmount × World → Handled
after_balance swap tracked (ok r, w) =
    if eq_ℤ r.total_received_amount (pos 0)
    then (err balance_checker_error, tracked, w)
    else store_executed swap tracked w
after_balance swap tracked (err e, w) = (err balance_checker_error, tracked, w)
after_balance swap tracked (panic, w) = (panic, tracked, w)

unfoldable pub handle_swap_executed :
    PaymentsConfig → Chains → Swap → TrackedSwaps → World → Handled
handle_swap_executed config chains swap tracked w =
    after_balance swap tracked (check_invoice_balance config chains swap.request.invoice_id w)

unfoldable pub handle_swap_failed : Swap → TrackedSwaps → World → Handled
handle_swap_failed swap tracked w =
    after_end swap tracked w
      (transaction tracker_database_error tracker_database_error (failed_body swap) w.store)

-- What the service answers, or nothing when the call fails.
unfoldable pub check_swap :
    PaymentsConfig → Chains → Option ExecutorSwapStatus → Swap → TrackedSwaps → World → Handled
check_swap config chains none swap tracked w = (err api_error, tracked, w)
check_swap config chains (some still_pending) swap tracked w = (ok tt, tracked, w)
check_swap config chains (some executed) swap tracked w =
    handle_swap_executed config chains swap tracked w
check_swap config chains (some has_failed) swap tracked w = handle_swap_failed swap tracked w

-- What the service answers for each of the swaps; an error is logged, and a panic ends the process.
abbrev go_on : (TrackedSwaps → World → Handled) → Handled → Handled
go_on rest (ok _, tracked, w) = rest tracked w
go_on rest (err e, tracked, w) = rest tracked w
go_on rest (panic, tracked, w) = (panic, tracked, w)

abbrev check_each :
    PaymentsConfig
    → Chains
    → (Swap → Option ExecutorSwapStatus)
    → List Swap
    → TrackedSwaps
    → World
    → Handled
check_each config chains status [] tracked w = (ok tt, tracked, w)
check_each config chains status (swap ∷ rest) tracked w =
    go_on (check_each config chains status rest)
      (check_swap config chains (status swap) swap tracked w)

abbrev check_swaps :
    PaymentsConfig → Chains → (Swap → Option ExecutorSwapStatus) → TrackedSwaps → World → Handled
check_swaps config chains status tracked w = check_each config chains status tracked tracked w

-- The swaps that the database hands out are watched from now on; an error is logged.
abbrev watched : TrackedSwaps → Result DaoSwapError (List Swap) × Store → TrackedSwaps × Store
watched tracked (ok swaps, s) = (add_swaps swaps tracked, s)
watched tracked (err e, s) = (tracked, s)
watched tracked (panic, s) = (tracked, s)

abbrev get_submitted_swaps : TrackedSwaps → Store → TrackedSwaps × Store
get_submitted_swaps tracked s = watched tracked (Swaps.get_submitted_swaps s)

abbrev get_outdated_swaps : Store → Store
get_outdated_swaps s = (Swaps.get_outdated_swaps s).1

-- ===== src/SwapsTracker/Tracking.antt =====
-- The books through the handlers of daemon/src/swaps/tracker.rs.
use kalatori.Common.Int.{eq_ℤ, pos}
use kalatori.Types.Invoice.{Uuid, InvoiceWithReceivedAmount}
use kalatori.Types.SwapOrder.{Swap}
use kalatori.Dao.Store.{Store}
use kalatori.Dao.Transfers.{get_payout_by_id, get_refund_by_id}
use kalatori.Ledger.Rows.{update_swap_completed-Keeps, update_swap_failed-Keeps}
use kalatori.Ledger.Statements.{
  update_payout_status-Keeps, update_payout_retry-Keeps, update_refund_status-Keeps,
  update_refund_retry-Keeps,
}
use kalatori.Ledger.Same.{same_books-IsSound, same_rows}
use kalatori.Ledger.Keeping.{
  SameBooks, transaction-Keeps, lift-Keeps, map_err-Keeps, bind-Keeps, pure-Keeps, now-Keeps, Keeps,
}
use kalatori.BalanceChecker.Checking.{Checks, FewFor, Unsettled, check_invoice_balance-IsSound}
use kalatori.BalanceChecker.Nothing.{NoneFor, check_invoice_balance-known}
use kalatori.Ledger.Tracking.{same_tables-IsSound}
use kalatori.RefundDestination.Keeping.{reads}
use kalatori.BalanceChecker.{BalanceCheckerError, check_invoice_balance, Chains}
use kalatori.World.{World}
use kalatori.Ledger.{IsSound}
use kalatori.Config.{PaymentsConfig}
use kalatori.Common.{
  ok, err, panic, ◌⊎◌, refl, ◌≡◌, inl, inr, true, Option, none, some, Bool-cases, Result,
}
use kalatori.Types.Transaction.{
  payout, refund, internal_transfer, no_origin, TransactionOriginVariant, variant,
}
use kalatori.Types.Transfer.{completed, Payout, Refund}
use kalatori.SwapsTracker.{
  still_pending, executed, has_failed, SwapsTrackerError, ExecutorSwapStatus, TrackedSwaps,
  complete_swapped, executed_body, retry_payout, retry_refund, retry_swapped, failed_body, Handled,
  after_end, store_executed, after_balance, handle_swap_executed, handle_swap_failed, check_swap,
  tracker_database_error,
}

complete_swapped-Keeps : (origin : TransactionOriginVariant) → Keeps (complete_swapped origin)
unfolding complete_swapped
complete_swapped-Keeps (payout id) =
    bind-Keeps _ _ (map_err-Keeps _ _ (update_payout_status-Keeps id completed))
      λ _. pure-Keeps _ tt
complete_swapped-Keeps (refund id) =
    bind-Keeps _ _ (map_err-Keeps _ _ (update_refund_status-Keeps id completed))
      λ _. pure-Keeps _ tt
complete_swapped-Keeps (internal_transfer id) = lift-Keeps panic
complete_swapped-Keeps no_origin = pure-Keeps _ tt

executed_body-Keeps : (swap : Swap) → Keeps (executed_body swap)
unfolding executed_body
executed_body-Keeps swap =
    bind-Keeps _ _ (map_err-Keeps _ _ (update_swap_completed-Keeps swap.id))
      λ _. complete_swapped-Keeps (variant swap.request.origin)

retry_payout-Keeps : (id : Uuid) (row : Option Payout) → Keeps (retry_payout id row)
unfolding retry_payout
retry_payout-Keeps id none = pure-Keeps _ tt
retry_payout-Keeps id (some row) = bind-Keeps _ _ (now-Keeps _) λ time.
    bind-Keeps _ _ (lift-Keeps _) λ meta.
      bind-Keeps _ _ (map_err-Keeps _ _ (update_payout_retry-Keeps id meta true))
        λ _. pure-Keeps _ tt

retry_refund-Keeps : (id : Uuid) (row : Option Refund) → Keeps (retry_refund id row)
unfolding retry_refund
retry_refund-Keeps id none = pure-Keeps _ tt
retry_refund-Keeps id (some row) = bind-Keeps _ _ (now-Keeps _) λ time.
    bind-Keeps _ _ (lift-Keeps _) λ meta.
      bind-Keeps _ _ (map_err-Keeps _ _ (update_refund_retry-Keeps id meta true))
        λ _. pure-Keeps _ tt

retry_swapped-Keeps : (origin : TransactionOriginVariant) → Keeps (retry_swapped origin)
unfolding retry_swapped get_payout_by_id get_refund_by_id
retry_swapped-Keeps (payout id) =
    bind-Keeps _ _ (map_err-Keeps _ _ (reads _ _)) (retry_payout-Keeps id)
retry_swapped-Keeps (refund id) =
    bind-Keeps _ _ (map_err-Keeps _ _ (reads _ _)) (retry_refund-Keeps id)
retry_swapped-Keeps (internal_transfer id) = lift-Keeps panic
retry_swapped-Keeps no_origin = pure-Keeps _ tt

failed_body-Keeps : (swap : Swap) → Keeps (failed_body swap)
unfolding failed_body
failed_body-Keeps swap =
    bind-Keeps _ _ (map_err-Keeps _ _ (update_swap_failed-Keeps swap.id _))
      λ _. retry_swapped-Keeps (variant swap.request.origin)

abbrev pub handled_world : Handled → World
handled_world (a, tracked, w) = w

after_end-IsSound :
    (swap : Swap) (tracked : TrackedSwaps) (w : World)
    (q : Result SwapsTrackerError (Unit {0}) × Store)
    → IsSound w
    → SameBooks w.store.db q.1.db
    → IsSound (handled_world (after_end swap tracked w q))
after_end-IsSound swap tracked w (ok u, s) sound (invs, sums) =
    same_books-IsSound w (record w { store = s }) sound sound.keyed (λ _ _ got. got)
      (same_rows w.store.db s.db invs) sums
after_end-IsSound swap tracked w (err e, s) sound (invs, sums) =
    same_books-IsSound w (record w { store = s }) sound sound.keyed (λ _ _ got. got)
      (same_rows w.store.db s.db invs) sums
after_end-IsSound swap tracked w (panic, s) sound (invs, sums) =
    same_books-IsSound w (record w { store = s }) sound sound.keyed (λ _ _ got. got)
      (same_rows w.store.db s.db invs) sums

store_executed-IsSound :
    (swap : Swap) (tracked : TrackedSwaps) (w : World)
    → IsSound w
    → IsSound (handled_world (store_executed swap tracked w))
unfolding store_executed
store_executed-IsSound swap tracked w sound = after_end-IsSound swap tracked w _ sound (
    (transaction-Keeps tracker_database_error tracker_database_error (executed_body swap)
        (executed_body-Keeps swap)).same_books
      w.store)

after_balance-IsSound :
    (swap : Swap) (tracked : TrackedSwaps)
    (c : Result BalanceCheckerError InvoiceWithReceivedAmount × World)
    → IsSound c.1
    → IsSound (handled_world (after_balance swap tracked c))
after_balance-IsSound swap tracked (ok r, w) sound =
    elim (Bool-cases (eq_ℤ r.total_received_amount (pos 0))) [
      | inl e ↦ rw (e, handled_world) sound
      | inr e ↦ rw (e, handled_world) (store_executed-IsSound swap tracked w sound)
    ]
after_balance-IsSound swap tracked (err e, w) sound = sound
after_balance-IsSound swap tracked (panic, w) sound = sound

Checks-IsSound :
    (c : Result BalanceCheckerError InvoiceWithReceivedAmount × World) → Checks c → IsSound c.1
Checks-IsSound (ok r, w) known = known.0
Checks-IsSound (err e, w) sound = sound
Checks-IsSound (panic, w) sound = sound

-- For the record that the check finds: either the invoice's row is not settled and the table lacks
-- one transfer at most, or it lacks none.
abbrev pub Checkable : Chains → Uuid → World → Type 0
Checkable chains id w = (Unsettled id w × FewFor chains id w) ⊎ NoneFor chains id w

-- From a sound state, `check_swap` leads to a sound state, whatever the service reports and
-- whatever fails. The premise is only for a swap that the service reports as executed, whose
-- invoice's balance is checked: of the indexer's transfers to the address of the record that the
-- check finds, the table lacks none, or one at most when the invoice's row is not settled.
pub check_swap-IsSound :
    (config : PaymentsConfig) (chains : Chains) (status : Option ExecutorSwapStatus) (swap : Swap)
    (tracked : TrackedSwaps) (w : World)
    → IsSound w
    → (status ≡ some executed → Checkable chains swap.request.invoice_id w)
    → IsSound (handled_world (check_swap config chains status swap tracked w))
unfolding check_swap handle_swap_executed handle_swap_failed
check_swap-IsSound config chains none swap tracked w sound checkable = sound
check_swap-IsSound config chains (some still_pending) swap tracked w sound checkable = sound
check_swap-IsSound config chains (some executed) swap tracked w sound checkable =
    elim (checkable refl) [
      | inl (unsettled, few) ↦
          after_balance-IsSound swap tracked
            (check_invoice_balance config chains swap.request.invoice_id w)
            (Checks-IsSound _ (
              check_invoice_balance-IsSound config chains swap.request.invoice_id w sound unsettled
                few))
      | inr none_missing ↦
          let (same_db, same_registry) =
            check_invoice_balance-known config chains swap.request.invoice_id w none_missing in
          after_balance-IsSound swap tracked
            (check_invoice_balance config chains swap.request.invoice_id w)
            (same_tables-IsSound _ w same_db same_registry sound)
    ]
check_swap-IsSound config chains (some has_failed) swap tracked w sound checkable =
    after_end-IsSound swap tracked w _ sound (
      (transaction-Keeps tracker_database_error tracker_database_error (failed_body swap)
          (failed_body-Keeps swap)).same_books
        w.store)

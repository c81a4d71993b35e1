-- ===== src/RefundDestination.antt =====
-- Where a refund goes: daemon/src/utils/refund_destination_detector.rs.
pub mod Sources
pub mod Keeping
pub mod Bound
use kalatori.Types.SwapOrder.{swap_chain_eq, Swap}
use kalatori.Types.Retry.{increment_retry}
use kalatori.Types.Transaction.{Transaction}
use kalatori.Types.Transfer.{TransferDestinationParams, Refund}
use kalatori.Types.Chain.{swap_chain_from, SwapChainType}
use kalatori.Dao.Transactions.{get_completed_transactions_by_invoice}
use kalatori.Dao.Swaps.{get_completed_incoming_swaps_by_invoice}
use kalatori.Dao.Transfers.{
  get_pending_refunds, update_refund_retry, update_refund_destination_params,
}
use kalatori.Common.{
  ok, err, panic, [], ◌∷◌, ℕ, String, Bool, true, false, not, Option, none, some, List, str_eq,
  if◌then◌else◌, select, exists, Result,
}
use kalatori.Dao.Store.{attempt, ◌>>=◌, ◌>>◌, now, Dao, pure, lift, map_err, Store}

pub data RefundDestinationDetectorError : Type 0 where
  detector_database_error no_available_destination : RefundDestinationDetectorError

abbrev pub can_retry : RefundDestinationDetectorError → Bool
can_retry detector_database_error = true
can_retry no_available_destination = false

-- The text of each error.
abbrev pub detector_error_text : RefundDestinationDetectorError → String
detector_error_text detector_database_error = "Database Error"
detector_error_text no_available_destination = "No available destination found"

abbrev pub is_same_chain : Swap → Bool
is_same_chain s = swap_chain_eq s.request.from_chain s.request.to_chain

abbrev pub same_bool : Bool → Bool → Bool
same_bool true b = b
same_bool false b = not b

abbrev pub params_of_swap : Swap → TransferDestinationParams
params_of_swap s = record {
  destination_address = s.request.from_address;
  destination_chain = s.request.from_chain;
  destination_asset_id = s.request.from_token_address;
}

-- The source of the first swap of that kind.
unfoldable pub find_destination_in_swaps : List Swap → Bool → Option TransferDestinationParams
find_destination_in_swaps [] same_chain = none
find_destination_in_swaps (s ∷ rest) same_chain =
    if same_bool (is_same_chain s) same_chain
    then some (params_of_swap s)
    else find_destination_in_swaps rest same_chain

-- `lower` is `str::to_lowercase`.
unfoldable pub filter_out_swap_transactions :
    (String → String) → List Transaction → List Swap → List Transaction
filter_out_swap_transactions lower transactions swaps =
    select
      (λ (t : Transaction). not (
        exists
          (λ (s : Swap).
            str_eq (lower s.request.from_address) (lower t.transfer_info.source_address))
          swaps))
      transactions

abbrev pub to_sender :
    Transaction
    → Result RefundDestinationDetectorError SwapChainType
    → Result RefundDestinationDetectorError TransferDestinationParams
to_sender t (ok chain) = ok (record {
  destination_address = t.transfer_info.source_address;
  destination_chain = chain;
  destination_asset_id = t.transfer_info.asset_id;
})
to_sender t (err e) = err e
to_sender t panic = panic

unfoldable pub destination_of_first :
    List Transaction → Result RefundDestinationDetectorError TransferDestinationParams
destination_of_first [] = err no_available_destination
destination_of_first (t ∷ rest) = to_sender t (swap_chain_from t.transfer_info.chain)

-- What follows the read of the swaps.
unfoldable pub destination_from :
    (String → String)
    → Refund
    → List Swap
    → Dao RefundDestinationDetectorError TransferDestinationParams
destination_from lower r swaps = elim (find_destination_in_swaps swaps true) [
  | some params ↦ pure params
  | none ↦ do
    transactions ←
        map_err (λ _. detector_database_error) (get_completed_transactions_by_invoice r.invoice_id)
    lift (destination_of_first (filter_out_swap_transactions lower transactions swaps))
]

unfoldable pub find_refund_destination :
    (String → String) → Refund → Dao RefundDestinationDetectorError TransferDestinationParams
find_refund_destination lower r = do
  swaps ←
      map_err (λ _. detector_database_error) (get_completed_incoming_swaps_by_invoice r.invoice_id)
  destination_from lower r swaps

-- The refund with its destination, or none when it was not found, which is stored as a failure.
unfoldable pub store_destination :
    Refund
    → Result RefundDestinationDetectorError TransferDestinationParams
    → Dao RefundDestinationDetectorError (Option Refund)
store_destination r (ok params) = do
  refund ← map_err (λ _. detector_database_error) (update_refund_destination_params r.id params)
  pure (some refund)
store_destination r (err e) = do
  time ← now
  retry_meta ← lift (increment_retry time (detector_error_text e) r.retry_meta)
  map_err (λ _. detector_database_error) (update_refund_retry r.id retry_meta (can_retry e))
  pure none
store_destination r panic = lift panic

unfoldable pub find_and_update_refund_destination :
    (String → String) → Refund → Dao RefundDestinationDetectorError (Option Refund)
find_and_update_refund_destination lower r = do
  found ← attempt (find_refund_destination lower r)
  store_destination r found

-- What a found refund adds to the list; an error is logged.
abbrev pub with_found :
    Result RefundDestinationDetectorError (Option Refund) → List Refund → List Refund
with_found (ok (some r)) rs = r ∷ rs
with_found (ok none) rs = rs
with_found (err e) rs = rs
with_found panic rs = rs

unfoldable pub detect_all :
    (String → String) → List Refund → Dao RefundDestinationDetectorError (List Refund)
detect_all lower [] = pure []
detect_all lower (r ∷ rs) = elim r.destination_params [
  | some params ↦ do rest ← detect_all lower rs; pure (r ∷ rest)
  | none ↦ do
    found ← attempt (find_and_update_refund_destination lower r)
    rest ← detect_all lower rs
    pure (with_found found rest)
]

abbrev pub or_no_refunds {ℓ} : {E : Type ℓ} → Result E (List Refund) → List Refund
or_no_refunds (ok rs) = rs
or_no_refunds (err e) = []
or_no_refunds panic = []

unfoldable pub get_refunds_with_destination :
    (String → String) → ℕ → Dao RefundDestinationDetectorError (List Refund)
get_refunds_with_destination lower limit = do
  refunds ← attempt (get_pending_refunds limit)
  detect_all lower (or_no_refunds refunds)

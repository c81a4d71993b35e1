-- ===== src/RefundDestination/Keeping.antt =====
-- The books through everything that the refund destination detector of
-- daemon/src/utils/refund_destination_detector.rs does.
use kalatori.Types.SwapOrder.{Swap}
use kalatori.Types.Transfer.{TransferDestinationParams, Refund}
use kalatori.Dao.Store.{attempt, Dao, query, Db}
use kalatori.Dao.Transactions.{get_completed_transactions_by_invoice}
use kalatori.Dao.Swaps.{get_completed_incoming_swaps_by_invoice}
use kalatori.Ledger.Statements.{
  get_pending_refunds-Keeps, update_refund_retry-Keeps, update_refund_destination_params-Keeps,
}
use kalatori.Ledger.Keeping.{
  SameBooks-refl, query-Keeps, lift-Keeps, map_err-Keeps, bind-Keeps, pure-Keeps, now-Keeps, Keeps,
}
use kalatori.RefundDestination.{
  RefundDestinationDetectorError, can_retry, find_destination_in_swaps, destination_from,
  find_refund_destination, store_destination, find_and_update_refund_destination, with_found,
  detect_all, get_refunds_with_destination,
}
use kalatori.Common.{
  ok, err, panic, [], ◌∷◌, ℕ, String, refl, inl, inr, true, none, some, List, Option-cases, Result,
}

pub attempt-Keeps {ℓ κ ι} :
    {E : Type ℓ} (F : Type κ) {A : Type ι} (m : Dao E A) → Keeps m → Keeps (attempt {F = F} m)
unfolding attempt
attempt-Keeps F m keeps = record { same_books = λ s. keeps.same_books s }

pub reads :
    {E A : Type 0} (fault : E) (f : Db → A)
    → Keeps (query {E = E} {A = A} fault λ _ db. ok (f db, db))
reads fault f = query-Keeps fault _ λ _ db. SameBooks-refl db db refl

destination_from-Keeps :
    (lower : String → String) (r : Refund) (swaps : List Swap)
    → Keeps (destination_from lower r swaps)
unfolding destination_from get_completed_transactions_by_invoice
destination_from-Keeps lower r swaps = elim (Option-cases (find_destination_in_swaps swaps true)) [
  | inr (params, e) ↦ rw (e, destination_from) (pure-Keeps _ params)
  | inl e ↦
      rw (e, destination_from)
        (bind-Keeps _ _ (map_err-Keeps _ _ (reads _ _)) λ transactions. lift-Keeps _)
]

find_refund_destination-Keeps :
    (lower : String → String) (r : Refund) → Keeps (find_refund_destination lower r)
unfolding find_refund_destination get_completed_incoming_swaps_by_invoice
find_refund_destination-Keeps lower r =
    bind-Keeps _ _ (map_err-Keeps _ _ (reads _ _)) (destination_from-Keeps lower r)

store_destination-Keeps :
    (r : Refund) (found : Result RefundDestinationDetectorError TransferDestinationParams)
    → Keeps (store_destination r found)
unfolding store_destination
store_destination-Keeps r (ok params) =
    bind-Keeps _ _ (map_err-Keeps _ _ (update_refund_destination_params-Keeps r.id params))
      λ x. pure-Keeps _ (some x)
store_destination-Keeps r (err e) = bind-Keeps _ _ (now-Keeps _) λ time.
    bind-Keeps _ _ (lift-Keeps _) λ meta.
      bind-Keeps _ _ (map_err-Keeps _ _ (update_refund_retry-Keeps r.id meta (can_retry e)))
        λ _. pure-Keeps _ none
store_destination-Keeps r panic = lift-Keeps panic

find_and_update-Keeps :
    (lower : String → String) (r : Refund) → Keeps (find_and_update_refund_destination lower r)
unfolding find_and_update_refund_destination
find_and_update-Keeps lower r =
    bind-Keeps _ _ (attempt-Keeps _ _ (find_refund_destination-Keeps lower r))
      (store_destination-Keeps r)

detect_all-Keeps : (lower : String → String) (rs : List Refund) → Keeps (detect_all lower rs)
unfolding detect_all
detect_all-Keeps lower [] = pure-Keeps _ []
detect_all-Keeps lower (r ∷ rs) = elim (Option-cases r.destination_params) [
  | inr (params, e) ↦
      rw e (bind-Keeps _ _ (detect_all-Keeps lower rs) λ rest. pure-Keeps _ (r ∷ rest))
  | inl e ↦ rw e (
      bind-Keeps _ _ (attempt-Keeps _ _ (find_and_update-Keeps lower r)) λ found.
        bind-Keeps _ _ (detect_all-Keeps lower rs) λ rest. pure-Keeps _ (with_found found rest))
]

pub refunds_with_destination-Keeps :
    (lower : String → String) (limit : ℕ) → Keeps (get_refunds_with_destination lower limit)
unfolding get_refunds_with_destination
refunds_with_destination-Keeps lower limit =
    bind-Keeps _ _ (attempt-Keeps _ _ (get_pending_refunds-Keeps limit))
      λ rs. detect_all-Keeps lower _

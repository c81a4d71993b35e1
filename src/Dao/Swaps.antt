-- ===== src/Dao/Swaps.antt =====
-- The table `swaps`: daemon/src/dao/swap.rs, and its trigger of
-- migrations/20260303181227_add_swaps.sql.
use kalatori.Types.Invoice.{Uuid}
use kalatori.Dao.Store.{Dao, query, Db}
use kalatori.Common.{
  [], ◌∷◌, ok, err, String, Bool, true, false, ◌&&◌, ◌||◌, Option, none, some, List, ◌++◌, map, ltb,
  ◌==◌, if◌then◌else◌, find, select, update, exists, order_by, Result,
}
use kalatori.Types.SwapOrder.{
  created, submitted, pending, completed, failed, abandoned, incoming, outgoing, SwapStatus,
  swap_status_eq, Swap,
}
use kalatori.Dao.Invoices.{has_id}

pub data DaoSwapError : Type 0 where
  not_found invoice_not_found : Uuid → DaoSwapError
  status_constraint_violation : SwapStatus → SwapStatus → DaoSwapError
  database_error : DaoSwapError

-- The lists of the trigger `enforce_swap_status_transition`, which says nothing of an abandoned
-- swap.
unfoldable pub transition_allowed : SwapStatus → SwapStatus → Bool
transition_allowed abandoned new = true
transition_allowed old new =
    swap_status_eq new old || exists (swap_status_eq new) (next_statuses old)
  where
    next_statuses : SwapStatus → List SwapStatus
    next_statuses created = submitted ∷ failed ∷ abandoned ∷ []
    next_statuses submitted = pending ∷ failed ∷ []
    next_statuses pending = completed ∷ failed ∷ []
    next_statuses _ = []

abbrev pub has_swap_id : Uuid → Swap → Bool
has_swap_id id s = s.id == id

unfoldable pub create_swap : Swap → Dao DaoSwapError Swap
create_swap s = query database_error λ _ db.
    if exists (has_swap_id s.id) db.swaps
    then err database_error
    else if exists (has_id s.request.invoice_id) db.invoices
    then ok (s, record db { swaps = db.swaps ++ s ∷ [] })
    else err (invoice_not_found s.request.invoice_id)

-- The change of every row with a status, and the changed rows.
abbrev claim_all : SwapStatus → (Swap → Bool) → (Swap → Swap) → Db → List Swap × Db
claim_all status also change db =
    let chosen = λ (s : Swap). swap_status_eq s.status status && also s in
    (map change (select chosen db.swaps), record db { swaps = update chosen change db.swaps })

unfoldable pub get_submitted_swaps : Dao DaoSwapError (List Swap)
get_submitted_swaps =
    query database_error
      λ _ db. ok (claim_all submitted (λ _. true) (λ s. record s { status = pending }) db)

unfoldable pub get_pending_swaps : Dao DaoSwapError (List Swap)
get_pending_swaps =
    query database_error λ _ db. ok (select (λ s. swap_status_eq s.status pending) db.swaps, db)

unfoldable pub get_outdated_swaps : Dao DaoSwapError (List Swap)
get_outdated_swaps = query database_error λ time db. ok (
    claim_all created (λ s. ltb s.valid_till time)
      (λ s. record s { status = abandoned; finished_at = some time }) db)

-- The update of one row, through the trigger.
unfoldable pub change_swap :
    Uuid → SwapStatus → (Swap → Swap) → Db → Result DaoSwapError (Swap × Db)
change_swap id status change db = elim (find (has_swap_id id) db.swaps) [
  | none ↦ err (not_found id)
  | some row ↦
      if transition_allowed row.status status
      then ok (change row, record db { swaps = update (has_swap_id id) change db.swaps })
      else err (status_constraint_violation row.status status)
]

unfoldable pub update_swap_submitted : Uuid → Dao DaoSwapError Swap
unfolding change_swap
update_swap_submitted id = query database_error λ time db.
    change_swap id submitted (λ s. record s { status = submitted; submitted_at = some time }) db

-- `json_set`, which leaves the status alone.
unfoldable pub update_swap_set_signature : Uuid → String → Dao DaoSwapError Swap
update_swap_set_signature id signature = query database_error λ _ db.
    elim (find (has_swap_id id) db.swaps) [
      | none ↦ err (not_found id)
      | some row ↦
          let change = λ (s : Swap). record s {
            swap_details = record s.swap_details { signature = some signature };
          } in
          ok (change row, record db { swaps = update (has_swap_id id) change db.swaps })
    ]

unfoldable pub update_swap_submitted_with_hash : Uuid → String → Dao DaoSwapError Swap
unfolding change_swap
update_swap_submitted_with_hash id hash = query database_error λ time db.
    change_swap id submitted
      (λ s. record s {
        status = submitted;
        submitted_at = some time;
        swap_details = record s.swap_details { transaction_hash = some hash };
      })
      db

unfoldable pub update_swap_completed : Uuid → Dao DaoSwapError Swap
unfolding change_swap
update_swap_completed id = query database_error λ time db.
    change_swap id completed (λ s. record s { status = completed; finished_at = some time }) db

unfoldable pub update_swap_failed : Uuid → String → Dao DaoSwapError Swap
unfolding change_swap
update_swap_failed id message = query database_error λ time db.
    change_swap id failed
      (λ s. record s { status = failed; error_message = some message; finished_at = some time }) db

abbrev pub is_from_user : Swap → Bool
is_from_user s = elim s.request.direction [ incoming ↦ true | outgoing ↦ false ]

unfoldable pub get_completed_incoming_swaps_by_invoice : Uuid → Dao DaoSwapError (List Swap)
get_completed_incoming_swaps_by_invoice id = query database_error λ _ db. ok (
  order_by (λ s. s.created_at)
      (select
        (λ s. swap_status_eq s.status completed && is_from_user s && (s.request.invoice_id == id))
        db.swaps),
  db,
)

unfoldable pub get_swap_by_id : Uuid → Dao DaoSwapError (Option Swap)
get_swap_by_id id = query database_error λ _ db. ok (find (has_swap_id id) db.swaps, db)

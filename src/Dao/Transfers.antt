-- ===== src/Dao/Transfers.antt =====
-- The tables `payouts` and `refunds`: daemon/src/dao/payout.rs and refund.rs, with the triggers and
-- the columns of migrations/20250104000001_initial_schema.sql and
-- migrations/20260401000001_refund_destination_fields.sql.
pub mod Few
pub mod Claims
pub mod Turns
use kalatori.Common.{
  ℕ, Bool, false, ◌&&◌, ◌||◌, Option, none, some, List, [], ◌∷◌, ◌++◌, map, ok, err, ◌==◌, leb,
  if◌then◌else◌, find, select, update, exists, order_by, take,
}
use kalatori.Types.Retry.{RetryMeta}
use kalatori.Types.Invoice.{Uuid, Invoice}
use kalatori.Types.Transfer.{
  TransferStatus, waiting, in_progress, completed, failed_retriable, failed, transfer_status_eq,
  TransferDestinationParams, Payout, Refund,
}
use kalatori.Dao.Store.{Dao, query, Store}
use kalatori.Dao.Invoices.{has_id}

-- `DaoPayoutError` and `DaoRefundError`, which have the same variants.
pub data DaoTransferError : Type 0 where
  not_found : Uuid → DaoTransferError
  invoice_not_found : Uuid → DaoTransferError
  status_constraint_violation : TransferStatus → TransferStatus → DaoTransferError
  database_error : DaoTransferError

-- The lists of the triggers `enforce_payout_status_transition` and
-- `enforce_refund_status_transition`.
abbrev pub next_statuses : TransferStatus → List TransferStatus
next_statuses waiting = in_progress ∷ []
next_statuses in_progress = completed ∷ failed_retriable ∷ failed ∷ []
next_statuses failed_retriable = in_progress ∷ []
next_statuses _ = []

unfoldable pub transition_allowed : TransferStatus → TransferStatus → Bool
transition_allowed old new =
    transfer_status_eq new old || exists (transfer_status_eq new) (next_statuses old)

-- `next_retry_at <= datetime('now')`, which NULL does not pass.
abbrev pub is_due : ℕ → Option ℕ → Bool
is_due time none = false
is_due time (some at) = leb at time

-- The condition of the `WITH sel` of both claims.
abbrev pub is_pending : ℕ → TransferStatus → RetryMeta → Bool
is_pending time status retry =
    transfer_status_eq status waiting
    || (transfer_status_eq status failed_retriable && is_due time retry.next_retry_at)

abbrev pub failure_status : Bool → TransferStatus
failure_status is_retriable = if is_retriable then failed_retriable else failed

-- payouts

abbrev pub has_payout_id : Uuid → Payout → Bool
has_payout_id id p = p.id == id

unfoldable pub create_payout : Payout → Dao DaoTransferError Payout
create_payout p = query database_error λ _ db.
    if exists (has_payout_id p.id) db.payouts
    then err database_error
    else if exists (has_id p.invoice_id) db.invoices
    then ok (p, record db { payouts = db.payouts ++ p ∷ [] })
    else err (invoice_not_found p.invoice_id)

-- The payouts that may be claimed, oldest first.
abbrev pub ranked_payouts : ℕ → List Payout → List Payout
ranked_payouts time ps =
    order_by (λ p. p.created_at) (select (λ p. is_pending time p.status p.retry_meta) ps)

unfoldable pub pending_payout_ids : ℕ → ℕ → List Payout → List Uuid
pending_payout_ids time limit ps = map (λ p. p.id) (take limit (ranked_payouts time ps))

unfoldable pub get_pending_payouts : ℕ → Dao DaoTransferError (List Payout)
get_pending_payouts limit = query database_error λ time db.
    let chosen =
      λ (p : Payout). exists (λ id. p.id == id) (pending_payout_ids time limit db.payouts) in
    let claim = λ (p : Payout). record p { status = in_progress; updated_at = time } in
    ok
      (map claim (select chosen db.payouts), record db { payouts = update chosen claim db.payouts })

unfoldable pub update_payout_status : Uuid → TransferStatus → Dao DaoTransferError Payout
update_payout_status id status = query database_error λ time db.
    elim (find (has_payout_id id) db.payouts) [
      | none ↦ err (not_found id)
      | some row ↦
          let change = λ (p : Payout). record p { status = status; updated_at = time } in
          if transition_allowed row.status status
          then ok (change row, record db { payouts = update (has_payout_id id) change db.payouts })
          else err (status_constraint_violation row.status status)
    ]

unfoldable pub update_payout_retry : Uuid → RetryMeta → Bool → Dao DaoTransferError Payout
update_payout_retry id retry is_retriable = query database_error λ time db.
    elim (find (has_payout_id id) db.payouts) [
      | none ↦ err (not_found id)
      | some row ↦
          let status = failure_status is_retriable in
          let change =
            λ (p : Payout). record p { retry_meta = retry; status = status; updated_at = time } in
          if transition_allowed row.status status
          then ok (change row, record db { payouts = update (has_payout_id id) change db.payouts })
          else err (status_constraint_violation row.status status)
    ]

unfoldable pub get_payout_by_id : Uuid → Dao DaoTransferError (Option Payout)
get_payout_by_id id = query database_error λ _ db. ok (find (has_payout_id id) db.payouts, db)

-- refunds

abbrev pub has_refund_id : Uuid → Refund → Bool
has_refund_id id r = r.id == id

unfoldable pub create_refund : Refund → Dao DaoTransferError Refund
create_refund r = query database_error λ _ db.
    if exists (has_refund_id r.id) db.refunds
    then err database_error
    else if exists (has_id r.invoice_id) db.invoices
    then ok (r, record db { refunds = db.refunds ++ r ∷ [] })
    else err (invoice_not_found r.invoice_id)

unfoldable pub get_refund_by_id : Uuid → Dao DaoTransferError (Option Refund)
get_refund_by_id id = query database_error λ _ db. ok (find (has_refund_id id) db.refunds, db)

abbrev pub ranked_refunds : ℕ → List Refund → List Refund
ranked_refunds time rs =
    order_by (λ r. r.created_at) (select (λ r. is_pending time r.status r.retry_meta) rs)

unfoldable pub pending_refund_ids : ℕ → ℕ → List Refund → List Uuid
pending_refund_ids time limit rs = map (λ r. r.id) (take limit (ranked_refunds time rs))

unfoldable pub get_pending_refunds : ℕ → Dao DaoTransferError (List Refund)
get_pending_refunds limit = query database_error λ time db.
    let chosen =
      λ (r : Refund). exists (λ id. r.id == id) (pending_refund_ids time limit db.refunds) in
    let claim = λ (r : Refund). record r { status = in_progress; updated_at = time } in
    ok
      (map claim (select chosen db.refunds), record db { refunds = update chosen claim db.refunds })

unfoldable pub update_refund_status : Uuid → TransferStatus → Dao DaoTransferError Refund
update_refund_status id status = query database_error λ time db.
    elim (find (has_refund_id id) db.refunds) [
      | none ↦ err (not_found id)
      | some row ↦
          let change = λ (r : Refund). record r { status = status; updated_at = time } in
          if transition_allowed row.status status
          then ok (change row, record db { refunds = update (has_refund_id id) change db.refunds })
          else err (status_constraint_violation row.status status)
    ]

unfoldable pub update_refund_retry : Uuid → RetryMeta → Bool → Dao DaoTransferError Refund
update_refund_retry id retry is_retriable = query database_error λ time db.
    elim (find (has_refund_id id) db.refunds) [
      | none ↦ err (not_found id)
      | some row ↦
          let status = failure_status is_retriable in
          let change =
            λ (r : Refund). record r { retry_meta = retry; status = status; updated_at = time } in
          if transition_allowed row.status status
          then ok (change row, record db { refunds = update (has_refund_id id) change db.refunds })
          else err (status_constraint_violation row.status status)
    ]

-- A missing row is a `RowNotFound`, which is mapped to `DatabaseError` too.
unfoldable pub update_refund_destination_params :
    Uuid → TransferDestinationParams → Dao DaoTransferError Refund
update_refund_destination_params id params = query database_error λ time db.
    elim (find (has_refund_id id) db.refunds) [
      | none ↦ err database_error
      | some row ↦
          let change =
            λ (r : Refund). record r { destination_params = some params; updated_at = time } in
          ok (change row, record db { refunds = update (has_refund_id id) change db.refunds })
    ]

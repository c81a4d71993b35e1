-- ===== src/Dao/Transactions.antt =====
-- The table `transactions`: daemon/src/dao/transaction.rs, its trigger, and the unique indexes of
-- migrations/20250218000001_add_transaction_uniqueness_constraints.sql.
pub mod Uniqueness
use kalatori.Common.{
  Bool, false, not, ◌&&◌, ◌||◌, Option, none, some, String, List, [], ◌∷◌, ◌++◌, Result, ok, err,
  ◌==◌, str_eq, if◌then◌else◌, find, select, update, exists, order_by,
}
use kalatori.Types.Chain.{ChainType, chain_eq}
use kalatori.Types.Invoice.{Uuid, DateTime, Invoice}
use kalatori.Types.Transaction.{
  TransactionStatus, waiting, in_progress, completed, failed, transaction_status_eq,
  GeneralTransactionId, Transaction, is_incoming,
}
use kalatori.Dao.Store.{Db, Dao, query, Store}
use kalatori.Dao.Invoices.{has_id}

pub data DaoTransactionError : Type 0 where
  not_found : Uuid → DaoTransactionError
  invoice_not_found : Uuid → DaoTransactionError
  status_constraint_violation : TransactionStatus → TransactionStatus → DaoTransactionError
  duplicate_transaction : ChainType → GeneralTransactionId → DaoTransactionError
  database_error : DaoTransactionError

-- The lists of the trigger `enforce_transaction_status_transition`.
abbrev pub next_statuses : TransactionStatus → List TransactionStatus
next_statuses waiting = in_progress ∷ completed ∷ []
next_statuses in_progress = completed ∷ failed ∷ []
next_statuses _ = []

unfoldable pub transition_allowed : TransactionStatus → TransactionStatus → Bool
transition_allowed old new =
    transaction_status_eq new old || exists (transaction_status_eq new) (next_statuses old)

abbrev pub both {ℓ} : {A : Type ℓ} → (A → A → Bool) → Option A → Option A → Bool
both eq none y = false
both eq (some a) none = false
both eq (some a) (some b) = eq a b

-- Two rows that the partial unique indexes on (chain, tx_hash) and on (chain, block_number,
-- position_in_block) do not let stand together.
unfoldable pub same_coordinates :
    ChainType → GeneralTransactionId → ChainType → GeneralTransactionId → Bool
same_coordinates c x d y =
    chain_eq c d
    && (both str_eq x.tx_hash y.tx_hash
        || (both ◌==◌ x.block_number y.block_number
            && both ◌==◌ x.position_in_block y.position_in_block))

abbrev pub clashes : Transaction → Transaction → Bool
clashes t u =
    same_coordinates t.transfer_info.chain t.transaction_id u.transfer_info.chain u.transaction_id

abbrev pub has_transaction_id : Uuid → Transaction → Bool
has_transaction_id id t = t.id == id

unfoldable pub create_transaction : Transaction → Dao DaoTransactionError Transaction
create_transaction t = query database_error λ _ db.
    if exists (λ u. (u.id == t.id) || clashes t u) db.transactions
    then err (duplicate_transaction t.transfer_info.chain t.transaction_id)
    else if exists (has_id t.invoice_id) db.invoices
    then ok (t, record db { transactions = db.transactions ++ t ∷ [] })
    else err (invoice_not_found t.invoice_id)

-- The update of one row, which keeps its id and its chain: the trigger comes first, then the
-- unique indexes.
unfoldable pub settle :
    Uuid
    → TransactionStatus
    → (Transaction → Transaction)
    → Db
    → Result DaoTransactionError (Transaction × Db)
settle id status change db = elim (find (has_transaction_id id) db.transactions) [
  | none ↦ err (not_found id)
  | some row ↦
      if transition_allowed row.status status
      then if exists (λ u. not (u.id == id) && clashes (change row) u) db.transactions
        then err database_error
        else ok (
          change row,
          record db { transactions = update (has_transaction_id id) change db.transactions },
        )
      else err (status_constraint_violation row.status status)
]

unfoldable pub update_transaction_successful :
    Uuid → GeneralTransactionId → DateTime → Dao DaoTransactionError Transaction
unfolding settle
update_transaction_successful id chain_id confirmed_at = query database_error λ _ db.
    settle id completed
      (λ t. record t {
        transaction_id = chain_id;
        updated_at = confirmed_at;
        status = completed;
        outgoing_meta = record t.outgoing_meta { confirmed_at = some confirmed_at };
      })
      db

unfoldable pub update_transaction_failed :
    Uuid → GeneralTransactionId → String → DateTime → Dao DaoTransactionError Transaction
unfolding settle
update_transaction_failed id chain_id message failed_at = query database_error λ _ db.
    settle id failed
      (λ t. record t {
        transaction_id = chain_id;
        updated_at = failed_at;
        status = failed;
        outgoing_meta = record t.outgoing_meta {
          failed_at = some failed_at;
          failure_message = some message;
        };
      })
      db

unfoldable pub get_completed_transactions_by_invoice :
    Uuid → Dao DaoTransactionError (List Transaction)
get_completed_transactions_by_invoice id = query database_error λ _ db. ok (
  order_by (λ t. t.created_at)
      (select
        (λ t. (t.invoice_id == id) && is_incoming t && transaction_status_eq t.status completed)
        db.transactions),
  db,
)

-- ===== src/Dao/AllRows.antt =====
-- The listings of all rows in daemon/src/dao/, and the table `front_end_swaps` of
-- daemon/src/dao/swap.rs.
use kalatori.Types.Changes.{CreateFrontEndSwapParams, FrontEndSwap}
use kalatori.Types.Invoice.{Uuid, DateTime, Invoice}
use kalatori.Types.Transaction.{Transaction, completed, transaction_status_eq}
use kalatori.Types.Transfer.{Payout, Refund}
use kalatori.Dao.Invoices.{DaoInvoiceError, has_id}
use kalatori.Dao.Transactions.{DaoTransactionError}
use kalatori.Dao.Transfers.{DaoTransferError}
use kalatori.Dao.Swaps.{DaoSwapError}
use kalatori.Dao.Store.{Dao, query, new_uuid, ◌>>=◌}
use kalatori.Common.{[], ◌∷◌, ◌++◌, List, ok, err, select, exists, ◌==◌, if◌then◌else◌}

unfoldable pub get_all_invoices : Dao DaoInvoiceError (List Invoice)
get_all_invoices = query DaoInvoiceError.database_error λ _ db. ok (db.invoices, db)

-- `get_all_completed_transactions`, under the name that the interface gives it.
unfoldable pub get_all_transactions : Dao DaoTransactionError (List Transaction)
get_all_transactions =
    query DaoTransactionError.database_error
      λ _ db. ok (select (λ t. transaction_status_eq t.status completed) db.transactions, db)

unfoldable pub get_all_payouts : Dao DaoTransferError (List Payout)
get_all_payouts = query DaoTransferError.database_error λ _ db. ok (db.payouts, db)

unfoldable pub get_all_refunds : Dao DaoTransferError (List Refund)
get_all_refunds = query DaoTransferError.database_error λ _ db. ok (db.refunds, db)

unfoldable pub get_all_front_end_swaps : Dao DaoSwapError (List FrontEndSwap)
get_all_front_end_swaps = query DaoSwapError.database_error λ _ db. ok (db.front_end_swaps, db)

abbrev new_front_end_swap : Uuid → DateTime → CreateFrontEndSwapParams → FrontEndSwap
new_front_end_swap id time params = record {
  id = id;
  invoice_id = params.invoice_id;
  from_amount_units = params.from_amount_units;
  from_chain_id = params.from_chain_id;
  from_asset_id = params.from_asset_id;
  transaction_hash = params.transaction_hash;
  created_at = time;
  updated_at = time;
}

unfoldable pub create_front_end_swap : CreateFrontEndSwapParams → Dao DaoSwapError FrontEndSwap
create_front_end_swap params = do
  id ← new_uuid
  query DaoSwapError.database_error λ time db.
      let swap = new_front_end_swap id time params in
      if exists (λ (f : FrontEndSwap). f.id == id) db.front_end_swaps
      then err DaoSwapError.database_error
      else if exists (has_id params.invoice_id) db.invoices
      then ok (swap, record db { front_end_swaps = db.front_end_swaps ++ swap ∷ [] })
      else err (DaoSwapError.invoice_not_found params.invoice_id)

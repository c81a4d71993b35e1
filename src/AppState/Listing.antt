-- ===== src/AppState/Listing.antt =====
-- The listings of daemon/src/state.rs.
pub mod Pages
pub mod Whole
use kalatori.Dao.Listing.{
  Sqlite, ListInvoicesParams, ListPayoutsParams, ListSwapsParams, ListTransactionsParams,
  get_invoices_paginated, count_invoices, get_payouts_paginated, count_payouts,
  get_transactions_paginated, count_transactions, get_swaps_paginated, count_swaps,
}
use kalatori.Types.Retry.{
  PaginationParams, PaginatedResponse, validated_page, validated_per_page, paginated,
}
use kalatori.Types.Invoice.{Uuid, Invoice, PublicInvoice, into_public_invoice}
use kalatori.Types.Transfer.{Payout}
use kalatori.Types.Transaction.{Transaction}
use kalatori.Types.SwapOrder.{Swap}
use kalatori.Dao.Invoices.{DaoInvoiceError}
use kalatori.Dao.Transactions.{DaoTransactionError}
use kalatori.Dao.Transfers.{DaoTransferError}
use kalatori.Dao.Swaps.{DaoSwapError}
use kalatori.Dao.Store.{Dao, attempt, lift, ◌>>=◌}
use kalatori.Common.{ℕ, String, List, map, Result, ok, err, panic}

module _ {E A B : Type 0} where
  -- The first error is the answer.
  abbrev pub respond :
      (A → B) → PaginationParams → Result E (List A) → Result E ℕ → Result E (PaginatedResponse B)
  respond view pagination (ok items) (ok total) =
      ok (
        paginated (map view items) total (validated_page pagination)
          (validated_per_page pagination))
  respond view pagination (ok items) (err e) = err e
  respond view pagination (ok items) panic = panic
  respond view pagination (err e) total = err e
  respond view pagination panic total = panic

  -- The page and the number of rows are read together.
  unfoldable pub list_rows :
      (A → B) → PaginationParams → Dao E (List A) → Dao E ℕ → Dao E (PaginatedResponse B)
  list_rows view pagination rows count = do
    items ← attempt {F = E} rows
    total ← attempt {F = E} count
    lift (respond view pagination items total)

abbrev pub list_payouts :
    (List Payout → List Payout)
    → ListPayoutsParams
    → Dao DaoTransferError (PaginatedResponse Payout)
list_payouts scan params =
    list_rows (λ p. p) params.pagination (get_payouts_paginated scan params) (count_payouts params)

abbrev pub list_transactions :
    (List Transaction → List Transaction)
    → ListTransactionsParams
    → Dao DaoTransactionError (PaginatedResponse Transaction)
list_transactions scan params =
    list_rows (λ t. t) params.pagination (get_transactions_paginated scan params)
      (count_transactions params)

abbrev list_swaps :
    (List Swap → List Swap) → ListSwapsParams → Dao DaoSwapError (PaginatedResponse Swap)
list_swaps scan params =
    list_rows (λ s. s) params.pagination (get_swaps_paginated scan params) (count_swaps params)

-- The invoices are shown with their addresses for payments.
abbrev list_invoices :
    Sqlite
    → (List Invoice → List Invoice)
    → (Uuid → String)
    → ListInvoicesParams
    → Dao DaoInvoiceError (PaginatedResponse PublicInvoice)
list_invoices sql scan payment_url params =
    list_rows (into_public_invoice payment_url) params.pagination
      (get_invoices_paginated sql scan params) (count_invoices sql params)

-- ===== src/AppState/Listing/Whole.antt =====
-- The listings of payouts and of transactions of daemon/src/state.rs, page after page.
use kalatori.AppState.Listing.Pages.{at_page, asked, whole_listing}
use kalatori.AppState.Listing.{list_payouts, list_transactions}
use kalatori.Dao.Listing.{
  SortOrder, asc, desc, ListPayoutsParams, ListTransactionsParams, sort_rows, insert_down,
  order_down, listed_payouts, listed_transactions, payout_passes, transaction_passes,
  get_payouts_paginated, count_payouts, get_transactions_paginated, count_transactions,
}
use kalatori.Types.Retry.{PaginatedResponse, u32_max}
use kalatori.Types.Transfer.{Payout}
use kalatori.Types.Transaction.{Transaction}
use kalatori.Dao.Transactions.{DaoTransactionError}
use kalatori.Dao.Transactions
use kalatori.Dao.Transfers.{DaoTransferError}
use kalatori.Dao.Transfers
use kalatori.Dao.Store.{Store}
use kalatori.Common.{
  ℕ, suc, ◌≤◌, ◌≡◌, refl, sym, ap, ◌∙◌, inl, inr, false, Bool-cases, List, [], ◌∷◌, ok, leb, select,
  length, order_by, insert_by,
}
use mathlib.Core.List.{map-id}

module _ {A : Type 0} (key : A → ℕ) where
  length-insert_by : (x : A) (xs : List A) → length (insert_by key x xs) ≡ suc (length xs)
  length-insert_by x [] = refl
  length-insert_by x (y ∷ ys) = elim (Bool-cases (leb (key x) (key y))) [
    | inl e ↦ rw e refl
    | inr e ↦ rw e (ap suc (length-insert_by x ys))
  ]

  length-insert_down : (x : A) (xs : List A) → length (insert_down key x xs) ≡ suc (length xs)
  length-insert_down x [] = refl
  length-insert_down x (y ∷ ys) = elim (Bool-cases (leb (key y) (key x))) [
    | inl e ↦ rw e refl
    | inr e ↦ rw e (ap suc (length-insert_down x ys))
  ]

  -- An order keeps the number of rows.
  length-sort_rows : (order : SortOrder) (xs : List A) → length (sort_rows key order xs) ≡ length xs
  length-sort_rows asc [] = refl
  length-sort_rows asc (x ∷ xs) =
      length-insert_by x (order_by key xs) ∙ ap suc (length-sort_rows asc xs)
  length-sort_rows desc [] = refl
  length-sort_rows desc (x ∷ xs) =
      length-insert_down x (order_down key xs) ∙ ap suc (length-sort_rows desc xs)

-- When the engine does not fail and comes upon the same rows in the same order in every query, and
-- the rows are at most the largest `u32`, the pages that the first answer of `list_payouts` counts,
-- asked for one after the other, are together the whole listing.
pub list_payouts-pages :
    (scan : List Payout → List Payout) (params : ListPayoutsParams) (s : Store)
    (r : PaginatedResponse Payout)
    → ((n : ℕ) → s.env.faulty n ≡ false)
    → length (scan (select (payout_passes params) s.db.payouts))
      ≡ length (select (payout_passes params) s.db.payouts)
    → length (listed_payouts scan params s.db) ≤ u32_max
    → (list_payouts scan (record params { pagination = at_page 1 params.pagination }) s).0 ≡ ok r
    → asked
        (λ k. (list_payouts scan (record params { pagination = at_page k params.pagination }) s).0)
        r.total_pages
        1
      ≡ listed_payouts scan params s.db
unfolding get_payouts_paginated count_payouts
list_payouts-pages scan params s r quiet same fits e =
    whole_listing Transfers.database_error (λ p. p) (listed_payouts scan params)
      (λ db. select (payout_passes params) db.payouts) params.pagination s quiet
      (sym (
        length-sort_rows (λ p. p.created_at) params.sort_order
          (scan (select (payout_passes params) s.db.payouts))
        ∙ same))
      fits r e
    ∙ map-id (listed_payouts scan params s.db)

-- The same of `list_transactions`.
pub list_transactions-pages :
    (scan : List Transaction → List Transaction) (params : ListTransactionsParams) (s : Store)
    (r : PaginatedResponse Transaction)
    → ((n : ℕ) → s.env.faulty n ≡ false)
    → length (scan (select (transaction_passes params) s.db.transactions))
      ≡ length (select (transaction_passes params) s.db.transactions)
    → length (listed_transactions scan params s.db) ≤ u32_max
    → (list_transactions scan (record params { pagination = at_page 1 params.pagination }) s).0
      ≡ ok r
    → asked
        (λ k.
          (list_transactions scan (record params { pagination = at_page k params.pagination }) s).0)
        r.total_pages
        1
      ≡ listed_transactions scan params s.db
unfolding get_transactions_paginated count_transactions
list_transactions-pages scan params s r quiet same fits e =
    whole_listing Transactions.database_error (λ t. t) (listed_transactions scan params)
      (λ db. select (transaction_passes params) db.transactions) params.pagination s quiet
      (sym (
        length-sort_rows (λ t. t.created_at) params.sort_order
          (scan (select (transaction_passes params) s.db.transactions))
        ∙ same))
      fits r e
    ∙ map-id (listed_transactions scan params s.db)

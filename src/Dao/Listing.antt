-- ===== src/Dao/Listing.antt =====
-- The listings of daemon/src/dao with the parameters of daemon/src/types/admin.rs: filters, an
-- order, and a page. SQLite's functions on text are parameters, and so is `scan`, which gives the
-- order in which the engine comes upon the rows of one query: it decides between rows that `ORDER
-- BY` does not tell apart.
use kalatori.Types.Retry.{PaginationParams, validated_per_page, offset}
use kalatori.Types.Invoice.{
  Uuid, DateTime, Decimal, Invoice, InvoiceStatus, invoice_status_eq, InvoiceWithReceivedAmount,
  with_amount,
}
use kalatori.Types.Chain.{ChainType, chain_eq}
use kalatori.Types.Transfer.{Payout, TransferStatus, transfer_status_eq}
use kalatori.Types.Transaction.{
  Transaction, TransactionStatus, TransactionType, transaction_status_eq, incoming, outgoing,
}
use kalatori.Types.SwapOrder.{
  Swap, SwapStatus, SwapExecutorType, swap_status_eq, across, bungee, zero_ex, zero_ex_gasless,
}
use kalatori.Dao.Invoices.{DaoInvoiceError, received_for}
use kalatori.Dao.Invoices
use kalatori.Dao.Transactions.{DaoTransactionError}
use kalatori.Dao.Transactions
use kalatori.Dao.Transfers.{DaoTransferError}
use kalatori.Dao.Transfers
use kalatori.Dao.Swaps.{DaoSwapError}
use kalatori.Dao.Swaps
use kalatori.Dao.Store.{Dao, Db, query, lift, ◌>>=◌}
use kalatori.Common.{
  drop, ℕ, ◌%◌, ◌^◌, String, Bool, true, false, ◌&&◌, ◌||◌, Option, none, some, List, [], ◌∷◌, map,
  ok, leb, ◌==◌, if◌then◌else◌, select, exists, order_by, take, length, str_eq,
}

pub data SortOrder : Type 0 where
  asc desc : SortOrder

module _ {A : Type 0} (key : A → ℕ) where
  abbrev pub insert_down : A → List A → List A
  insert_down x [] = x ∷ []
  insert_down x (y ∷ ys) =
      let rest = insert_down x ys in if leb (key y) (key x) then x ∷ y ∷ ys else y ∷ rest

  abbrev pub order_down : List A → List A
  order_down [] = []
  order_down (x ∷ xs) = insert_down x (order_down xs)

  -- `ORDER BY`
  abbrev pub sort_rows : SortOrder → List A → List A
  sort_rows asc = order_by key
  sort_rows desc = order_down

module _ {E A : Type 0} where
  -- The rows of a page; the place of its first row may overflow.
  unfoldable pub get_page : E → PaginationParams → (Db → List A) → Dao E (List A)
  get_page fault pagination listed = do
    from ← lift (offset pagination)
    query fault λ _ db. ok (take (validated_per_page pagination) (drop from (listed db)), db)

  -- `COUNT(*)`, `as u32`
  unfoldable pub count_rows : E → (Db → List A) → Dao E ℕ
  count_rows fault passing = query fault λ _ db. ok (length (passing db) % 2 ^ 32, db)

-- A filter that is not given lets every row through.
abbrev given : {A : Type 0} → Option A → (A → Bool) → Bool
given none test = true
given (some a) test = test a

-- A list of statuses that is empty filters nothing.
abbrev one_of : {A : Type 0} → (A → A → Bool) → Option (List A) → A → Bool
one_of eq none status = true
one_of eq (some []) status = true
one_of eq (some (s ∷ ss)) status = exists (λ t. eq t status) (s ∷ ss)

abbrev in_period : Option DateTime → Option DateTime → DateTime → Bool
in_period from to time = given from (λ f. leb f time) && given to (λ t. leb time t)

-- payouts

pub record ListPayoutsParams : Type 0 where
  pub pagination : PaginationParams
  pub status : Option (List TransferStatus)
  pub chain : Option ChainType
  pub asset_id : Option String
  pub invoice_id : Option Uuid
  pub created_from : Option DateTime
  pub created_to : Option DateTime
  pub sort_order : SortOrder

abbrev pub payout_passes : ListPayoutsParams → Payout → Bool
payout_passes params p =
    one_of transfer_status_eq params.status p.status
    && given params.chain (λ c. chain_eq p.chain c)
    && given params.asset_id (λ a. str_eq p.asset_id a)
    && given params.invoice_id (λ i. p.invoice_id == i)
    && in_period params.created_from params.created_to p.created_at

abbrev pub listed_payouts : (List Payout → List Payout) → ListPayoutsParams → Db → List Payout
listed_payouts scan params db =
    sort_rows (λ p. p.created_at) params.sort_order
      (scan (select (payout_passes params) db.payouts))

unfoldable pub get_payouts_paginated :
    (List Payout → List Payout) → ListPayoutsParams → Dao DaoTransferError (List Payout)
get_payouts_paginated scan params =
    get_page Transfers.database_error params.pagination (listed_payouts scan params)

unfoldable pub count_payouts : ListPayoutsParams → Dao DaoTransferError ℕ
count_payouts params =
    count_rows Transfers.database_error λ db. select (payout_passes params) db.payouts

-- transactions

pub record ListTransactionsParams : Type 0 where
  pub pagination : PaginationParams
  pub status : Option (List TransactionStatus)
  pub transaction_type : Option TransactionType
  pub chain : Option ChainType
  pub asset_id : Option String
  pub invoice_id : Option Uuid
  pub payout_id : Option Uuid
  pub refund_id : Option Uuid
  pub created_from : Option DateTime
  pub created_to : Option DateTime
  pub sort_order : SortOrder

abbrev transaction_type_eq : TransactionType → TransactionType → Bool
transaction_type_eq incoming incoming = true
transaction_type_eq outgoing outgoing = true
transaction_type_eq _ _ = false

-- A column that is NULL equals nothing.
abbrev id_is : Option Uuid → Uuid → Bool
id_is none id = false
id_is (some i) id = i == id

abbrev pub transaction_passes : ListTransactionsParams → Transaction → Bool
transaction_passes params t =
    one_of transaction_status_eq params.status t.status
    && given params.transaction_type (λ y. transaction_type_eq t.transaction_type y)
    && given params.chain (λ c. chain_eq t.transfer_info.chain c)
    && given params.asset_id (λ a. str_eq t.transfer_info.asset_id a)
    && given params.invoice_id (λ i. t.invoice_id == i)
    && given params.payout_id (id_is t.origin.payout_id)
    && given params.refund_id (id_is t.origin.refund_id)
    && in_period params.created_from params.created_to t.created_at

abbrev pub listed_transactions :
    (List Transaction → List Transaction) → ListTransactionsParams → Db → List Transaction
listed_transactions scan params db =
    sort_rows (λ t. t.created_at) params.sort_order
      (scan (select (transaction_passes params) db.transactions))

unfoldable pub get_transactions_paginated :
    (List Transaction → List Transaction)
    → ListTransactionsParams
    → Dao DaoTransactionError (List Transaction)
get_transactions_paginated scan params =
    get_page Transactions.database_error params.pagination (listed_transactions scan params)

unfoldable pub count_transactions : ListTransactionsParams → Dao DaoTransactionError ℕ
count_transactions params =
    count_rows Transactions.database_error λ db. select (transaction_passes params) db.transactions

-- swaps

pub record ListSwapsParams : Type 0 where
  pub pagination : PaginationParams
  pub status : Option (List SwapStatus)
  pub swap_executor : Option SwapExecutorType
  pub invoice_id : Option Uuid
  pub created_from : Option DateTime
  pub created_to : Option DateTime
  pub sort_order : SortOrder

abbrev executor_eq : SwapExecutorType → SwapExecutorType → Bool
executor_eq across across = true
executor_eq bungee bungee = true
executor_eq zero_ex zero_ex = true
executor_eq zero_ex_gasless zero_ex_gasless = true
executor_eq _ _ = false

abbrev pub swap_passes : ListSwapsParams → Swap → Bool
swap_passes params s =
    one_of swap_status_eq params.status s.status
    && given params.swap_executor (λ e. executor_eq s.request.swap_executor e)
    && given params.invoice_id (λ i. s.request.invoice_id == i)
    && in_period params.created_from params.created_to s.created_at

abbrev pub listed_swaps : (List Swap → List Swap) → ListSwapsParams → Db → List Swap
listed_swaps scan params db =
    sort_rows (λ s. s.created_at) params.sort_order (scan (select (swap_passes params) db.swaps))

unfoldable pub get_swaps_paginated :
    (List Swap → List Swap) → ListSwapsParams → Dao DaoSwapError (List Swap)
get_swaps_paginated scan params =
    get_page Swaps.database_error params.pagination (listed_swaps scan params)

unfoldable pub count_swaps : ListSwapsParams → Dao DaoSwapError ℕ
count_swaps params = count_rows Swaps.database_error λ db. select (swap_passes params) db.swaps

-- invoices

pub data InvoiceSortBy : Type 0 where
  by_created_at by_amount : InvoiceSortBy

pub record ListInvoicesParams : Type 0 where
  pub pagination : PaginationParams
  pub search : Option String
  pub status : Option (List InvoiceStatus)
  pub chain : Option ChainType
  pub asset_id : Option String
  pub order_id : Option String
  pub created_from : Option DateTime
  pub created_to : Option DateTime
  pub sort_by : InvoiceSortBy
  pub sort_order : SortOrder

-- `like text part` is `LIKE` with the pattern that `escape_like` makes of a part of a text. The
-- texts of an invoice are its order, its id and its amount, and the names of its cart.
pub record Sqlite : Type 0 where
  pub like : String → String → Bool
  pub to_lowercase : String → String
  pub without_dashes : String → String
  pub lower_order_id : Invoice → String
  pub lower_hex_id : Invoice → String
  pub amount_text : Invoice → String
  pub lower_item_names : Invoice → List String
  pub amount_as_real : Decimal → ℕ

abbrev matches : Sqlite → Invoice → String → Bool
matches sql i search =
    let lowered = sql.to_lowercase search in
    sql.like (sql.lower_order_id i) lowered
    || sql.like (sql.lower_hex_id i) (sql.without_dashes lowered)
    || sql.like (sql.amount_text i) lowered
    || exists (λ name. sql.like name lowered) (sql.lower_item_names i)

abbrev pub invoice_passes : Sqlite → ListInvoicesParams → Invoice → Bool
invoice_passes sql params i =
    given params.search (matches sql i)
    && one_of invoice_status_eq params.status i.status
    && given params.chain (λ c. chain_eq i.chain c)
    && given params.asset_id (λ a. str_eq i.asset_id a)
    && given params.order_id (sql.like i.order_id)
    && in_period params.created_from params.created_to i.created_at

-- Invoices of one amount are ordered by their creation.
abbrev sort_invoices : Sqlite → InvoiceSortBy → SortOrder → List Invoice → List Invoice
sort_invoices sql by_created_at order is = sort_rows (λ i. i.created_at) order is
sort_invoices sql by_amount order is =
    sort_rows (λ i. sql.amount_as_real i.amount) order (sort_rows (λ i. i.created_at) order is)

abbrev pub listed_invoices :
    Sqlite
    → (List Invoice → List Invoice)
    → ListInvoicesParams
    → Db
    → List InvoiceWithReceivedAmount
listed_invoices sql scan params db =
    map (λ i. with_amount i (received_for i.id db.transactions))
      (sort_invoices sql params.sort_by params.sort_order
        (scan (select (invoice_passes sql params) db.invoices)))

unfoldable pub get_invoices_paginated :
    Sqlite
    → (List Invoice → List Invoice)
    → ListInvoicesParams
    → Dao DaoInvoiceError (List InvoiceWithReceivedAmount)
get_invoices_paginated sql scan params =
    get_page Invoices.database_error params.pagination (listed_invoices sql scan params)

unfoldable pub count_invoices : Sqlite → ListInvoicesParams → Dao DaoInvoiceError ℕ
count_invoices sql params =
    count_rows Invoices.database_error λ db. select (invoice_passes sql params) db.invoices

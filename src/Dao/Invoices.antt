-- ===== src/Dao/Invoices.antt =====
-- The table `invoices`: daemon/src/dao/invoice.rs, and its constraints and triggers of
-- migrations/20250104000001_initial_schema.sql.
pub mod Statuses
use kalatori.Common.{
  Bool, ◌&&◌, ◌||◌, Option, none, some, String, List, [], ◌∷◌, ◌++◌, map, ok, err, ltb, ◌==◌,
  str_eq, if◌then◌else◌, find, select, update, exists, order_by,
}
use kalatori.Common.Int.{sum_ℤ}
use kalatori.Types.Invoice.{
  Uuid, Decimal, InvoiceStatus, waiting, partially_paid, paid, over_paid, unpaid_expired,
  partially_paid_expired, customer_canceled, admin_canceled, invoice_status_eq, is_active, Invoice,
  InvoiceWithReceivedAmount, with_amount, CreateInvoiceData, new_invoice, UpdateInvoiceData,
}
use kalatori.Types.Transaction.{Transaction, is_incoming}
use kalatori.Dao.Store.{Dao, ◌>>=◌, now, query}

pub data DaoInvoiceError : Type 0 where
  not_found : Uuid → DaoInvoiceError
  update_not_allowed : Uuid → InvoiceStatus → DaoInvoiceError
  status_constraint_violation : InvoiceStatus → InvoiceStatus → DaoInvoiceError
  duplicate_order_id : String → DaoInvoiceError
  database_error : DaoInvoiceError

-- The lists of the trigger `enforce_invoice_status_transition`.
abbrev pub next_statuses : InvoiceStatus → List InvoiceStatus
next_statuses waiting =
    partially_paid ∷ paid ∷ over_paid ∷ unpaid_expired ∷ admin_canceled ∷ customer_canceled ∷ []
next_statuses partially_paid = paid ∷ over_paid ∷ partially_paid_expired ∷ admin_canceled ∷ []
next_statuses _ = []

-- The trigger lets an update to the same status pass.
unfoldable pub transition_allowed : InvoiceStatus → InvoiceStatus → Bool
transition_allowed old new =
    invoice_status_eq new old || exists (invoice_status_eq new) (next_statuses old)

abbrev pub has_id : Uuid → Invoice → Bool
has_id id i = i.id == id

unfoldable pub create_invoice : CreateInvoiceData → Dao DaoInvoiceError Invoice
create_invoice data' = do
  time ← now
  let i = new_invoice time data'
  query database_error λ _ db.
      if exists (has_id i.id) db.invoices
      then err database_error
      else if exists (λ j. str_eq j.order_id i.order_id) db.invoices
      then err (duplicate_order_id i.order_id)
      else ok (i, record db { invoices = db.invoices ++ i ∷ [] })

unfoldable pub get_invoice_by_id : Uuid → Dao DaoInvoiceError (Option Invoice)
get_invoice_by_id id = query database_error λ _ db. ok (find (has_id id) db.invoices, db)

-- The amounts of the join with the incoming transactions, summed.
abbrev pub received_for : Uuid → List Transaction → Decimal
received_for id ts =
    sum_ℤ
      (map (λ t. t.transfer_info.amount) (select (λ t. (t.invoice_id == id) && is_incoming t) ts))

unfoldable pub get_invoice_with_received_amount_by_id :
    Uuid → Dao DaoInvoiceError (Option InvoiceWithReceivedAmount)
get_invoice_with_received_amount_by_id id = query database_error λ _ db.
    elim (find (has_id id) db.invoices) [
      | none ↦ ok (none, db)
      | some i ↦ ok (some (with_amount i (received_for id db.transactions)), db)
    ]

unfoldable pub get_active_invoices_with_amounts :
    Dao DaoInvoiceError (List InvoiceWithReceivedAmount)
get_active_invoices_with_amounts = query database_error λ _ db. ok (
  map (λ i. with_amount i (received_for i.id db.transactions))
      (order_by (λ i. i.created_at) (select (λ i. is_active i.status) db.invoices)),
  db,
)

unfoldable pub update_invoice_status : Uuid → InvoiceStatus → Dao DaoInvoiceError Invoice
update_invoice_status id status = query database_error λ time db.
    elim (find (has_id id) db.invoices) [
      | none ↦ err (not_found id)
      | some row ↦
          let change = λ (i : Invoice). record i { status = status; updated_at = time } in
          if transition_allowed row.status status
          then ok (change row, record db { invoices = update (has_id id) change db.invoices })
          else err (status_constraint_violation row.status status)
    ]

-- The trigger `update_amount_and_cart_only_for_waiting_invoice` refuses every other status.
unfoldable pub update_invoice_data : UpdateInvoiceData → Dao DaoInvoiceError Invoice
update_invoice_data d = query database_error λ time db.
    elim (find (has_id d.invoice_id) db.invoices) [
      | none ↦ err (not_found d.invoice_id)
      | some row ↦
          let change = λ (i : Invoice). record i {
            amount = d.amount;
            cart = d.cart;
            valid_till = d.valid_till;
            updated_at = time;
          } in
          if invoice_status_eq row.status waiting
          then ok
              (change row, record db { invoices = update (has_id d.invoice_id) change db.invoices })
          else err (update_not_allowed d.invoice_id row.status)
    ]

unfoldable pub get_expired_invoices : Dao DaoInvoiceError (List Invoice)
get_expired_invoices =
    query database_error
      λ time db. ok (select (λ i. is_active i.status && ltb i.valid_till time) db.invoices, db)

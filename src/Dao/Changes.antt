-- ===== src/Dao/Changes.antt =====
-- The change feed's query and the reading of its rows: daemon/src/dao/changes.rs. The related rows
-- travel as arrays of JSON objects.
pub mod Rows
use kalatori.Types.Changes.{
  PayoutChanges, RefundChanges, InvoiceChanges, ChangesResponse, FrontEndSwap,
}
use kalatori.Types.ChangesJson.{
  Codec, TransactionJson, PayoutJson, RefundJson, FrontEndSwapJson, all_read, transaction_json,
  payout_json, refund_json, swap_json, transaction_from, payout_from, refund_from, swap_from,
}
use kalatori.Types.Invoice.{Uuid, DateTime, Invoice}
use kalatori.Types.Transaction.{Transaction, is_incoming, completed, transaction_status_eq}
use kalatori.Types.Transfer.{Payout, Refund}
use kalatori.Common.Groups.{Groups, no_groups, pushed, taken}
use kalatori.Dao.Store.{Dao, Db, query, now, lift, pure, ◌>>=◌}
use kalatori.Common.{
  [], ◌∷◌, ◌++◌, List, ok, Bool, ◌&&◌, ◌||◌, ltb, Option, none, some, ok_or, map, select, exists,
  order_by, if◌then◌else◌, ◌==◌,
}

pub data DaoChangesError : Type 0 where
  database_error json_parse_error : DaoChangesError

-- The related rows of an invoice.
pub record RelatedRows : Type 0 where
  pub invoice : Invoice
  pub transactions : List Transaction
  pub payouts : List Payout
  pub refunds : List Refund
  pub swaps : List FrontEndSwap

-- A row of the answer. The arrays are the objects of the JSON texts.
pub record InvoiceChangesRow : Type 0 where
  pub invoice : Invoice
  pub transactions_json : List TransactionJson
  pub payouts_json : List PayoutJson
  pub refunds_json : List RefundJson
  pub swaps_json : List FrontEndSwapJson

-- The `WHERE` of the query, whose joins are on the invoice's id.
abbrev pub is_changed : DateTime → Db → Invoice → Bool
is_changed since db i =
    ltb since i.updated_at
    || exists (λ (t : Transaction). (t.invoice_id == i.id) && ltb since t.updated_at)
        db.transactions
    || exists (λ (p : Payout). (p.invoice_id == i.id) && ltb since p.updated_at) db.payouts
    || exists (λ (r : Refund). (r.invoice_id == i.id) && ltb since r.updated_at) db.refunds
    || exists (λ (f : FrontEndSwap). (f.invoice_id == i.id) && ltb since f.updated_at)
        db.front_end_swaps

-- The `WHERE` of each subselect.
abbrev pub related_rows : Db → Invoice → RelatedRows
related_rows db i = record {
  invoice = i;
  transactions =
      select (λ t. (t.invoice_id == i.id) && transaction_status_eq t.status completed)
        db.transactions;
  payouts = select (λ p. p.invoice_id == i.id) db.payouts;
  refunds = select (λ r. r.invoice_id == i.id) db.refunds;
  swaps = select (λ f. f.invoice_id == i.id) db.front_end_swaps;
}

abbrev pub json_row : Codec → RelatedRows → InvoiceChangesRow
json_row codec rows = record {
  invoice = rows.invoice;
  transactions_json = map (transaction_json codec) rows.transactions;
  payouts_json = map (payout_json codec) rows.payouts;
  refunds_json = map (refund_json codec) rows.refunds;
  swaps_json = map (swap_json codec) rows.swaps;
}

abbrev pub changes_row : Codec → Db → Invoice → InvoiceChangesRow
changes_row codec db i = json_row codec (related_rows db i)

-- The transactions of an invoice: the incoming ones, and the others by payout and by refund.
pub record Split : Type 0 where
  pub incoming_transactions : List Transaction
  pub outgoing_by_payout : Groups Transaction
  pub outgoing_by_refund : Groups Transaction

abbrev pub nothing_split : Split
nothing_split = record {
  incoming_transactions = [];
  outgoing_by_payout = no_groups;
  outgoing_by_refund = no_groups;
}

-- An outgoing transaction, by its origin; one of neither a payout nor a refund is dropped.
abbrev pub put_outgoing : Option Uuid → Option Uuid → Transaction → Split → Split
put_outgoing (some id) refund_id t s = record s {
  outgoing_by_payout = pushed id t s.outgoing_by_payout;
}
put_outgoing none (some id) t s = record s { outgoing_by_refund = pushed id t s.outgoing_by_refund }
put_outgoing none none t s = s

unfoldable pub put : Transaction → Split → Split
put t s =
    if is_incoming t
    then record s { incoming_transactions = s.incoming_transactions ++ t ∷ [] }
    else put_outgoing t.origin.payout_id t.origin.refund_id t s

unfoldable pub split_all : List Transaction → Split → Split
split_all [] s = s
split_all (t ∷ ts) s = split_all ts (put t s)

-- Each payout takes the transactions under its id out of the map.
abbrev pub payout_changes : List Payout → Groups Transaction → List PayoutChanges
payout_changes = taken (λ p. p.id) (λ p ts. record { payout = p; transactions = ts })

abbrev pub refund_changes : List Refund → Groups Transaction → List RefundChanges
refund_changes = taken (λ r. r.id) (λ r ts. record { refund = r; transactions = ts })

unfoldable pub parse_invoice_changes_row :
    Codec → InvoiceChangesRow → Dao DaoChangesError InvoiceChanges
parse_invoice_changes_row codec row = do
  all_transactions ←
      lift (ok_or (all_read (transaction_from codec) row.transactions_json) json_parse_error)
  let split = split_all all_transactions nothing_split
  payouts ← lift (ok_or (all_read (payout_from codec) row.payouts_json) json_parse_error)
  refunds ← lift (ok_or (all_read (refund_from codec) row.refunds_json) json_parse_error)
  swaps ← lift (ok_or (all_read (swap_from codec) row.swaps_json) json_parse_error)
  pure (record {
    invoice = row.invoice;
    transactions = split.incoming_transactions;
    payouts = payout_changes payouts split.outgoing_by_payout;
    refunds = refund_changes refunds split.outgoing_by_refund;
    swaps = swaps;
  })

-- The first row that is not read ends the loop.
unfoldable pub parse_rows :
    Codec → List InvoiceChangesRow → Dao DaoChangesError (List InvoiceChanges)
parse_rows codec [] = pure []
parse_rows codec (row ∷ rows) = do
  changes ← parse_invoice_changes_row codec row
  rest ← parse_rows codec rows
  pure (changes ∷ rest)

unfoldable pub get_invoice_changes : Codec → DateTime → Dao DaoChangesError ChangesResponse
get_invoice_changes codec since = do
  rows ← query database_error λ _ db. ok (
    map (changes_row codec db)
        (order_by (λ i. i.updated_at) (codec.scan (select (is_changed since db) db.invoices))),
    db,
  )
  invoices ← parse_rows codec rows
  sync_timestamp ← now
  pure (record { invoices = invoices; sync_timestamp = sync_timestamp })

-- ===== src/AppState/Feed/Since.antt =====
-- What the change feed of daemon/src/state.rs says of the rows that changed since a time.
use kalatori.AppState.Feed.Reference.{map_agrees}
use kalatori.Dao.Changes.Rows.{pays, repays, split_all-Added}
use kalatori.Dao.Changes.{
  RelatedRows, json_row, related_rows, is_changed, nothing_split, split_all,
  parse_invoice_changes_row, parse_rows, get_invoice_changes,
}
use kalatori.Types.Changes.{PayoutChanges, RefundChanges, InvoiceChanges}
use kalatori.Types.ChangesJson.{Codec}
use kalatori.Types.ChangesJson.ReadBack.{
  Reads, ReadSwap, transactions_read, payouts_read, refunds_read, swaps_read,
}
use kalatori.Types.Invoice.{Invoice, DateTime}
use kalatori.Types.Transaction.{Transaction, is_incoming}
use kalatori.Types.Transfer.{Payout, Refund}
use kalatori.Common.Groups.{DistinctIds, DistinctIds-select, All-selected, taken_lem}
use kalatori.Dao.Store.{tick, Db, Store, query, now, ◌>>=◌}
use kalatori.Common.{
  suc, ◌≡◌, refl, sym, ap, ◌∙◌, false, List, [], ◌∷◌, map, select, order_by, All, ok,
}

abbrev pub with_payments_of : List Transaction → Payout → PayoutChanges
with_payments_of ts p = record { payout = p; transactions = select (pays p.id) ts }

abbrev pub with_repayments_of : List Transaction → Refund → RefundChanges
with_repayments_of ts r = record { refund = r; transactions = select (repays r.id) ts }

-- What the feed is to say of a row.
abbrev pub row_changes : RelatedRows → InvoiceChanges
row_changes row = record {
  invoice = row.invoice;
  transactions = select is_incoming row.transactions;
  payouts = map (with_payments_of row.transactions) row.payouts;
  refunds = map (with_repayments_of row.transactions) row.refunds;
  swaps = row.swaps;
}

abbrev DistinctRow : RelatedRows → Type 0
DistinctRow row =
    DistinctIds (λ (p : Payout). p.id) row.payouts × DistinctIds (λ (r : Refund). r.id) row.refunds

-- A row that is read, as it is to be.
parse_row_lem :
    (codec : Codec) (row : RelatedRows) (s : Store)
    → Reads codec
    → DistinctRow row
    → All (ReadSwap codec) row.swaps
    → parse_invoice_changes_row codec (json_row codec row) s ≡ (ok (row_changes row), s)
unfolding parse_invoice_changes_row ◌>>=◌
parse_row_lem codec row s reads (ps, rs) swaps =
    let (incoming, paid, repaid) = split_all-Added row.transactions nothing_split in
    rw
      (
        transactions_read codec reads row.transactions,
        payouts_read codec reads row.payouts,
        refunds_read codec reads row.refunds,
        swaps_read codec reads row.swaps swaps,
        incoming,
        taken_lem (λ (p : Payout). p.id) (λ p ts. record { payout = p; transactions = ts })
              row.payouts (split_all row.transactions nothing_split).outgoing_by_payout ps
            ∙ map_agrees _ (with_payments_of row.transactions) row.payouts
                (λ p. ap (λ ts. record { payout = p; transactions = ts }) (paid p.id)),
        taken_lem (λ (r : Refund). r.id) (λ r ts. record { refund = r; transactions = ts })
              row.refunds (split_all row.transactions nothing_split).outgoing_by_refund rs
            ∙ map_agrees _ (with_repayments_of row.transactions) row.refunds
                (λ r. ap (λ ts. record { refund = r; transactions = ts }) (repaid r.id)),
      )
      refl

abbrev ReadableRow : Codec → RelatedRows → Type 0
ReadableRow codec row = DistinctRow row × All (ReadSwap codec) row.swaps

parse_rows_lem :
    (codec : Codec) (rows : List RelatedRows) (s : Store)
    → Reads codec
    → All (ReadableRow codec) rows
    → parse_rows codec (map (json_row codec) rows) s ≡ (ok (map row_changes rows), s)
unfolding parse_rows ◌>>=◌
parse_rows_lem codec [] s reads all = refl
parse_rows_lem codec (row ∷ rows) s reads ((distinct, swaps), all) =
    rw (parse_row_lem codec row s reads distinct swaps, parse_rows_lem codec rows s reads all) refl

-- The ids of payouts and of refunds are primary keys.
abbrev pub DistinctTransfers : Db → Type 0
DistinctTransfers db =
    DistinctIds (λ (p : Payout). p.id) db.payouts × DistinctIds (λ (r : Refund). r.id) db.refunds

every_row :
    (codec : Codec) (db : Db) (is : List Invoice)
    → DistinctTransfers db
    → All (ReadSwap codec) db.front_end_swaps
    → All (ReadableRow codec) (map (related_rows db) is)
every_row codec db [] distinct swaps = tt
every_row codec db (i ∷ is) (ps, rs) swaps = (
  (
    (DistinctIds-select _ _ db.payouts ps, DistinctIds-select _ _ db.refunds rs),
    All-selected _ _ db.front_end_swaps swaps,
  ),
  every_row codec db is (ps, rs) swaps,
)

map-map :
    {A B C : Type 0} (f : B → C) (g : A → B) (xs : List A)
    → map f (map g xs) ≡ map (λ x. f (g x)) xs
map-map f g [] = refl
map-map f g (x ∷ xs) = ap (λ l. f (g x) ∷ l) (map-map f g xs)

-- The invoices that the query finds, in order.
abbrev pub found_invoices : Codec → DateTime → Db → List Invoice
found_invoices codec since db =
    order_by (λ i. i.updated_at) (codec.scan (select (is_changed since db) db.invoices))

pub get_invoice_changes_lem :
    (codec : Codec) (since : DateTime) (s : Store)
    → Reads codec
    → DistinctTransfers s.db
    → All (ReadSwap codec) s.db.front_end_swaps
    → s.env.faulty s.calls ≡ false
    → (get_invoice_changes codec since s).0
      ≡ ok (record {
        invoices = map (λ i. row_changes (related_rows s.db i)) (found_invoices codec since s.db);
        sync_timestamp = s.env.clock (suc s.calls);
      })
unfolding get_invoice_changes query now ◌>>=◌
get_invoice_changes_lem codec since s reads distinct swaps good =
    rw
      (
        good,
        sym (map-map (json_row codec) (related_rows s.db) (found_invoices codec since s.db)),
        parse_rows_lem codec (map (related_rows s.db) (found_invoices codec since s.db)) (tick s)
            reads (every_row codec s.db (found_invoices codec since s.db) distinct swaps),
        map-map row_changes (related_rows s.db) (found_invoices codec since s.db),
      )
      refl

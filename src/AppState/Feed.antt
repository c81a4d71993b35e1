-- ===== src/AppState/Feed.antt =====
-- The change feed of daemon/src/state.rs: the rows that changed since a time, or a snapshot of all.
pub mod Reference
pub mod Snapshot
pub mod Changed
pub mod Shown
pub mod Since
pub mod Agreement
use kalatori.Types.Changes.{
  PayoutChanges, RefundChanges, InvoiceChanges, ChangesResponse, PublicChangesResponse,
  FrontEndSwap, into_public,
}
use kalatori.Types.Invoice.{Uuid, DateTime, Invoice}
use kalatori.Types.Transaction.{Transaction, is_incoming}
use kalatori.Types.Transfer.{Payout, Refund}
use kalatori.Common.Groups.{Groups, no_groups, grouped, removed, is_some_id}
use kalatori.Dao.AllRows.{
  get_all_invoices, get_all_transactions, get_all_payouts, get_all_refunds, get_all_front_end_swaps,
}
use kalatori.Dao.Changes.{DaoChangesError, database_error, get_invoice_changes}
use kalatori.Types.ChangesJson.{Codec}
use kalatori.Dao.Store.{Dao, now, map_err, pure, ◌>>=◌}
use kalatori.Common.{
  [], ◌∷◌, List, String, Bool, false, Option, none, some, map, select, order_by, ◌==◌,
}

abbrev pub of_payout : Groups Transaction → Payout → PayoutChanges
of_payout transactions p = record {
  payout = p;
  transactions =
      select (λ (t : Transaction). is_some_id p.id t.origin.payout_id) (transactions p.invoice_id);
}

abbrev pub of_refund : Groups Transaction → Refund → RefundChanges
of_refund transactions r = record {
  refund = r;
  transactions =
      select (λ (t : Transaction). is_some_id r.id t.origin.refund_id) (transactions r.invoice_id);
}

-- The maps by the invoice's id.
pub record ByInvoice : Type 0 where
  pub transactions : Groups Transaction
  pub payouts : Groups PayoutChanges
  pub refunds : Groups RefundChanges
  pub swaps : Groups FrontEndSwap

abbrev pub by_invoice : List Transaction → List Payout → List Refund → List FrontEndSwap → ByInvoice
by_invoice transactions payouts refunds swaps =
    let of_invoice = grouped (λ (t : Transaction). t.invoice_id) transactions no_groups in
    record {
      transactions = of_invoice;
      payouts =
          grouped (λ (c : PayoutChanges). c.payout.invoice_id) (map (of_payout of_invoice) payouts)
            no_groups;
      refunds =
          grouped (λ (c : RefundChanges). c.refund.invoice_id) (map (of_refund of_invoice) refunds)
            no_groups;
      swaps = grouped (λ (f : FrontEndSwap). f.invoice_id) swaps no_groups;
    }

abbrev pub changes_of : Invoice → ByInvoice → InvoiceChanges
changes_of i m = record {
  invoice = i;
  transactions = select is_incoming (m.transactions i.id);
  payouts = m.payouts i.id;
  refunds = m.refunds i.id;
  swaps = m.swaps i.id;
}

abbrev pub without_invoice : Uuid → ByInvoice → ByInvoice
without_invoice id m = record {
  transactions = removed id m.transactions;
  payouts = removed id m.payouts;
  refunds = removed id m.refunds;
  swaps = removed id m.swaps;
}

-- Each invoice takes its rows out of the maps.
unfoldable pub invoices_response : List Invoice → ByInvoice → List InvoiceChanges
invoices_response [] m = []
invoices_response (i ∷ is) m = changes_of i m ∷ invoices_response is (without_invoice i.id m)

unfoldable pub get_all_changes : Dao DaoChangesError ChangesResponse
get_all_changes = do
  sync_timestamp ← now
  invoices ← map_err (λ _. database_error) get_all_invoices
  transactions ← map_err (λ _. database_error) get_all_transactions
  payouts ← map_err (λ _. database_error) get_all_payouts
  refunds ← map_err (λ _. database_error) get_all_refunds
  swaps ← map_err (λ _. database_error) get_all_front_end_swaps
  pure (record {
    invoices = invoices_response invoices (by_invoice transactions payouts refunds swaps);
    sync_timestamp = sync_timestamp;
  })

abbrev pub changes_since : Codec → Option DateTime → Dao DaoChangesError ChangesResponse
changes_since codec (some since) = get_invoice_changes codec since
changes_since codec none = get_all_changes

abbrev pub sorted_response : ChangesResponse → ChangesResponse
sorted_response r = record r {
  invoices = order_by (λ (c : InvoiceChanges). c.invoice.updated_at) r.invoices;
}

unfoldable pub get_changes :
    (Uuid → String) → Codec → Option DateTime → Dao DaoChangesError PublicChangesResponse
get_changes payment_url codec since = do
  response ← changes_since codec since
  pure (into_public payment_url (sorted_response response))

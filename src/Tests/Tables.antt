-- ===== src/Tests/Tables.antt =====
-- Runs of the tables and of the registry.
use kalatori.Dao.Transfers.Few.{UniqueKeys}
use kalatori.Common.Int.{pos}
use kalatori.Types.Transaction.{from_incoming}
use kalatori.Types.Transfer.{new_payout, new_refund, TransferDestinationParams, Payout}
use kalatori.Types.Chain.{SwapChainType}
use kalatori.Types.Webhook.{InvoiceEventType, build_event, webhook_from, WebhookEvent}
use kalatori.Dao.Transactions.Uniqueness.{Distinct, create_transaction-Distinct}
use kalatori.Dao.Invoices.Statuses.{Kept, update_invoice_status-settled, update_invoice_data-locked}
use kalatori.Dao.WebhookEvents.Sending.{get_webhook_events_to_send-first, FirstUnsent}
use kalatori.Dao.Transfers.Claims.{Claimed, NotAgain, claimed_at, get_pending_payouts-claims}
use kalatori.Dao.Store.{query, Store}
use kalatori.Dao.Transactions.{create_transaction}
use kalatori.Dao.Invoices.{update_invoice_status, update_invoice_data}
use kalatori.Dao.WebhookEvents.{is_first_unsent, get_webhook_events_to_send}
use kalatori.Dao.Transfers.{pending_payout_ids, get_pending_payouts}
use kalatori.Common.{
  ℕ, ◌+◌, ◌≤◌, ◌≡◌, refl, [], ◌∷◌, arith, length, All, inl, inr, ◌==◌, Bool-cases, ok,
}
use kalatori.Types.Invoice.{
  paid, unpaid_expired, empty_cart, into_public_invoice, Invoice, UpdateInvoiceData,
}
use kalatori.Tests.{config, invoice, entry, db, world, payment}

abbrev store : Store
store = world.store

-- The invoice, paid.
abbrev paid_invoice : Invoice
paid_invoice = record invoice { status = paid }

abbrev paid_store : Store
paid_store = record store { db = record db { invoices = paid_invoice ∷ [] } }

update_invoice_status-settled_example :
    Kept 7 paid_invoice (update_invoice_status 7 unpaid_expired paid_store).1.db.invoices
update_invoice_status-settled_example =
    update_invoice_status-settled 7 unpaid_expired paid_store 7 paid_invoice refl refl

abbrev dearer : UpdateInvoiceData
dearer = record { invoice_id = 7; amount = pos 300; cart = empty_cart; valid_till = 9000 }

update_invoice_data-locked_example :
    Kept 7 paid_invoice (update_invoice_data dearer paid_store).1.db.invoices
update_invoice_data-locked_example =
    update_invoice_data-locked dearer paid_store 7 paid_invoice refl (λ e. grind arith)

-- A store with the transaction already in its table.
abbrev one_transfer : Store
one_transfer = record store {
  db = record db { transactions = from_incoming 1900 (payment (pos 40)) ∷ [] };
}

create_transaction-Distinct_example :
    Distinct
      (create_transaction (from_incoming 2000 (payment (pos 40))) one_transfer).1.db.transactions
create_transaction-Distinct_example =
    create_transaction-Distinct (from_incoming 2000 (payment (pos 40))) one_transfer (tt, tt)

-- A payout and a refund that wait.
abbrev destination : TransferDestinationParams
destination = record {
  destination_address = "merchant";
  destination_chain = SwapChainType.polygon;
  destination_asset_id = "usdc";
}

abbrev waiting_payout : Payout
waiting_payout = new_payout 51 1500 1500 invoice destination (pos 100)

abbrev pub waiting_store : Store
waiting_store = record store {
  db = record db {
    payouts = waiting_payout ∷ [];
    refunds = new_refund 52 1500 invoice (pos 30) ∷ [];
  };
}

one_payout : UniqueKeys (λ (p : Payout). p.id) waiting_store.db.payouts
one_payout id = elim (Bool-cases (51 == id)) [
  | inl e ↦ rw e (omega arith)
  | inr e ↦ rw e (omega arith)
]

claimed : (get_pending_payouts 10 waiting_store).0 ≡ ok (claimed_at 2000 waiting_payout ∷ [])
unfolding get_pending_payouts query pending_payout_ids
claimed = refl

get_pending_payouts-claims_example :
    (1 ≤ 10)
    × All (Claimed 2000 waiting_store.db.payouts) (claimed_at 2000 waiting_payout ∷ [])
    × All
        (NotAgain 3000 (claimed_at 2000 waiting_payout ∷ []))
        (get_pending_payouts 10 waiting_store).1.db.payouts
get_pending_payouts-claims_example =
    get_pending_payouts-claims 10 3000 waiting_store (claimed_at 2000 waiting_payout ∷ [])
      one_payout claimed

abbrev event : ℕ → WebhookEvent
event id = webhook_from (
    build_event id (1000 + id) (into_public_invoice config.payment_url entry)
      InvoiceEventType.updated)

abbrev unsent_store : Store
unsent_store = record store { db = record db { webhook_events = event 61 ∷ event 62 ∷ [] } }

get_webhook_events_to_send-first_example :
    (length (event 61 ∷ []) ≤ 5) × All (FirstUnsent unsent_store.db.webhook_events) (event 61 ∷ [])
unfolding get_webhook_events_to_send query is_first_unsent
get_webhook_events_to_send-first_example =
    get_webhook_events_to_send-first 5 unsent_store (event 61 ∷ []) refl

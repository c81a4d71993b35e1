-- ===== src/Ledger.antt =====
-- The books of one invoice, read from the tables: what came in for it, and what payouts and refunds
-- send out again. `received_for` of the DAO says what came in.
use kalatori.Registry.Keys.{Keyed}
use kalatori.Common.Int.{◌+ℤ◌, sum_where, pos}
use kalatori.Types.Invoice.{
  partially_paid_expired, Decimal, Uuid, InvoiceStatus, is_final, Invoice,
  InvoiceWithReceivedAmount,
}
use kalatori.Types.Transfer.{Payout, Refund}
use kalatori.Dao.Store.{Db, Dao, Store}
use kalatori.Dao.Invoices.{has_id, received_for}
use kalatori.Registry.{get_invoice, Registry}
use kalatori.World.{World}
use kalatori.Common.{◌≡◌, false, some, List, ◌==◌, if◌then◌else◌, find, Bool, true}
pub mod Books
pub mod Recording
pub mod Sound
pub mod Tracking
pub mod Start
pub mod Same
pub mod Keeping
pub mod Statements
pub mod Rows

-- The payouts and refunds of an invoice, summed.
abbrev pub paid_out : Uuid → List Payout → Decimal
paid_out id = sum_where (λ p. p.invoice_id == id) λ p. p.amount

abbrev pub given_back : Uuid → List Refund → Decimal
given_back id = sum_where (λ r. r.invoice_id == id) λ r. r.amount

abbrev pub sent_out : Uuid → Db → Decimal
sent_out id db = paid_out id db.payouts +ℤ given_back id db.refunds

-- The statuses with which all that came in is sent out: to the merchant when the invoice is paid,
-- and back when it has expired partially paid.
abbrev pub is_settled : InvoiceStatus → Bool
is_settled partially_paid_expired = true
is_settled status = is_final status

-- What should be sent out: all that came in once the invoice is settled, and nothing before.
abbrev pub due : InvoiceStatus → Decimal → Decimal
due status received = if is_settled status then received else pos 0

-- For every invoice, what is sent out is what is due.
abbrev pub Balanced : Db → Type 0
Balanced db =
    (row : Invoice) (id : Uuid)
    → find (has_id id) db.invoices ≡ some row
    → sent_out id db ≡ due row.status (received_for id db.transactions)

-- An entry of the registry stands for a row that is not settled, and knows what came in for it.
abbrev pub Entry : Db → Uuid → InvoiceWithReceivedAmount → Type 0
Entry db id r =
    (r.invoice.id ≡ id)
    × (r.total_received_amount ≡ received_for id db.transactions)
    × ((row : Invoice) → find (has_id id) db.invoices ≡ some row → is_settled row.status ≡ false)

abbrev pub InSync : World → Type 0
InSync w =
    (id : Uuid) (r : InvoiceWithReceivedAmount)
    → get_invoice id w.registry ≡ some r
    → Entry w.store.db id r

-- All of it, for a registry with distinct keys.
pub record IsSound (w : World) : Type 0 where
  pub keyed : Keyed w.registry
  pub in_sync : InSync w
  pub balanced : Balanced w.store.db

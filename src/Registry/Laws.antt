-- ===== src/Registry/Laws.antt =====
-- Lookups after each operation of daemon/src/chain/invoice_registry.rs.
use kalatori.Common.{◌≡◌, refl, none, some, [], ◌∷◌, ◌==◌, if◌then◌else◌, arith}
use kalatori.Types.Invoice.{Uuid, Decimal, InvoiceStatus, InvoiceWithReceivedAmount}
use kalatori.Registry.{
  Registry, get_invoice, put, add_invoice, remove_invoice, update_filled_amount,
}

pub get_invoice-put :
    (j k : Uuid) (r : InvoiceWithReceivedAmount) (reg : Registry)
    → get_invoice j (put k r reg) ≡ (if k == j then some r else get_invoice j reg)
unfolding get_invoice put
get_invoice-put j k r [] = refl
get_invoice-put j k r ((i, q) ∷ rest) = ground (arith, get_invoice-put j k r rest)

-- An invoice that is added is found under its id, and every other id is looked up as before.
pub get_invoice-add_invoice :
    (j : Uuid) (r : InvoiceWithReceivedAmount) (reg : Registry)
    → get_invoice j (add_invoice r reg) ≡ (if r.invoice.id == j then some r else get_invoice j reg)
unfolding add_invoice
get_invoice-add_invoice j r reg = get_invoice-put j r.invoice.id r reg

-- A removed id is found no more, and every other id is looked up as before.
pub get_invoice-remove_invoice :
    (j k : Uuid) (reg : Registry)
    → get_invoice j (remove_invoice k reg) ≡ (if k == j then none else get_invoice j reg)
unfolding get_invoice remove_invoice
get_invoice-remove_invoice j k [] = ground arith
get_invoice-remove_invoice j k ((i, q) ∷ rest) = ground (arith, get_invoice-remove_invoice j k rest)

-- The record that `update_filled_amount` leaves under the key.
abbrev pub refilled :
    Decimal → InvoiceStatus → InvoiceWithReceivedAmount → InvoiceWithReceivedAmount
refilled amount status r = record {
  invoice = record r.invoice { status = status };
  total_received_amount = amount;
}

-- `update_filled_amount` changes the status and the received amount under its id, if there is one,
-- and every other id is looked up as before.
pub get_invoice-update_filled_amount :
    (j k : Uuid) (amount : Decimal) (status : InvoiceStatus) (reg : Registry)
    → get_invoice j (update_filled_amount k amount status reg) ≡ (
        if k == j
        then elim (get_invoice j reg) [ none ↦ none | some r ↦ some (refilled amount status r) ]
        else get_invoice j reg)
unfolding get_invoice update_filled_amount
get_invoice-update_filled_amount j k amount status [] = ground arith
get_invoice-update_filled_amount j k amount status ((i, q) ∷ rest) =
    ground (arith, get_invoice-update_filled_amount j k amount status rest)

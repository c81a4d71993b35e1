-- ===== src/Registry.antt =====
-- The registry of active invoices: daemon/src/chain/invoice_registry.rs. The `HashMap` is a list of
-- its entries, in the order in which its iterator gives them.
pub mod Laws
pub mod Keys
pub mod Refinement
use kalatori.Common.{
  ℕ, Bool, true, false, ◌&&◌, Option, none, some, String, List, [], ◌∷◌, ◌++◌, ◌==◌, str_eq,
  if◌then◌else◌, length,
}
use kalatori.Types.Chain.{ChainType, chain_eq}
use kalatori.Types.Invoice.{Uuid, Decimal, InvoiceStatus, InvoiceWithReceivedAmount, Invoice}

abbrev pub Registry : Type 0
Registry = List (Uuid × InvoiceWithReceivedAmount)

unfoldable pub get_invoice : Uuid → Registry → Option InvoiceWithReceivedAmount
get_invoice id [] = none
get_invoice id ((k, r) ∷ rest) = if k == id then some r else get_invoice id rest

-- `HashMap::insert`
pub put : Uuid → InvoiceWithReceivedAmount → Registry → Registry
put id r [] = (id, r) ∷ []
put id r ((k, q) ∷ rest) = if k == id then (id, r) ∷ rest else (k, q) ∷ put id r rest

pub add_invoice : InvoiceWithReceivedAmount → Registry → Registry
add_invoice r = put r.invoice.id r

unfoldable pub add_invoices : List InvoiceWithReceivedAmount → Registry → Registry
unfolding add_invoice
add_invoices [] reg = reg
add_invoices (r ∷ rs) reg = add_invoices rs (add_invoice r reg)

-- The map without the key; the code's `remove` gives the removed record too, which is
-- `get_invoice` of the old map.
unfoldable pub remove_invoice : Uuid → Registry → Registry
remove_invoice id [] = []
remove_invoice id ((k, r) ∷ rest) =
    let left = remove_invoice id rest in if k == id then left else (k, r) ∷ left

-- The removed records, and the map without them.
unfoldable pub remove_invoices : List Uuid → Registry → List InvoiceWithReceivedAmount × Registry
unfolding get_invoice remove_invoice
remove_invoices [] reg = ([], reg)
remove_invoices (id ∷ ids) reg =
    let (removed, left) = remove_invoices ids (remove_invoice id reg) in
    elim (get_invoice id reg) [ none ↦ (removed, left) | some r ↦ (r ∷ removed, left) ]

abbrev pub is_paid_to : String → ChainType → String → InvoiceWithReceivedAmount → Bool
is_paid_to address chain asset_id r =
    chain_eq r.invoice.chain chain
    && str_eq r.invoice.payment_address address
    && str_eq r.invoice.asset_id asset_id

unfoldable pub find_invoice_by_address :
    String → ChainType → String → Registry → Option InvoiceWithReceivedAmount
find_invoice_by_address address chain asset_id [] = none
find_invoice_by_address address chain asset_id ((k, r) ∷ rest) =
    if is_paid_to address chain asset_id r
    then some r
    else find_invoice_by_address address chain asset_id rest

pub update_filled_amount : Uuid → Decimal → InvoiceStatus → Registry → Registry
update_filled_amount id amount status [] = []
update_filled_amount id amount status ((k, r) ∷ rest) =
    if k == id
    then (
      k,
      record r { invoice = record r.invoice { status = status }; total_received_amount = amount },
    )
      ∷ rest
    else (k, r) ∷ update_filled_amount id amount status rest

unfoldable pub invoices_count : Registry → ℕ
invoices_count reg = length reg

-- ===== src/Types/Invoice.antt =====
-- Invoices: daemon/src/types/invoice.rs and client/src/types/invoice.rs. A `Decimal` is read by its
-- value, an exact integer number of the smallest step; ids and times are numbers.
use kalatori.Common.{ℕ, Bool, true, false, Option, String, List, []}
use kalatori.Common.Int.{ℤ, pos, ◌-ℤ◌, max_ℤ}
use kalatori.Types.Chain.{ChainType}

abbrev pub Decimal : Type 0
Decimal = ℤ

abbrev pub Uuid : Type 0
Uuid = ℕ

-- `DateTime<Utc>`, in seconds.
abbrev pub DateTime : Type 0
DateTime = ℕ

pub data InvoiceStatus : Type 0 where
  waiting partially_paid paid over_paid : InvoiceStatus
  unpaid_expired partially_paid_expired customer_canceled admin_canceled : InvoiceStatus

-- `PartialEq`, which is derived.
abbrev pub invoice_status_eq : InvoiceStatus → InvoiceStatus → Bool
invoice_status_eq waiting waiting = true
invoice_status_eq partially_paid partially_paid = true
invoice_status_eq paid paid = true
invoice_status_eq over_paid over_paid = true
invoice_status_eq unpaid_expired unpaid_expired = true
invoice_status_eq partially_paid_expired partially_paid_expired = true
invoice_status_eq customer_canceled customer_canceled = true
invoice_status_eq admin_canceled admin_canceled = true
invoice_status_eq _ _ = false

abbrev pub is_active : InvoiceStatus → Bool
is_active waiting = true
is_active partially_paid = true
is_active _ = false

abbrev pub is_final : InvoiceStatus → Bool
is_final paid = true
is_final over_paid = true
is_final _ = false

abbrev pub is_expired : InvoiceStatus → Bool
is_expired unpaid_expired = true
is_expired partially_paid_expired = true
is_expired _ = false

abbrev pub is_canceled : InvoiceStatus → Bool
is_canceled customer_canceled = true
is_canceled admin_canceled = true
is_canceled _ = false

pub record InvoiceCartItem : Type 0 where
  pub name : String
  pub quantity : ℕ
  pub price : Decimal
  pub product_url : Option String
  pub image_url : Option String
  pub tax : Option Decimal
  pub discount : Option Decimal

pub record InvoiceCart : Type 0 where
  pub items : List InvoiceCartItem

abbrev pub empty_cart : InvoiceCart
empty_cart = record { items = [] }

pub record Invoice : Type 0 where
  pub id : Uuid
  pub order_id : String
  pub asset_id : String
  pub asset_name : String
  pub chain : ChainType
  pub amount : Decimal
  pub payment_address : String
  pub status : InvoiceStatus
  pub cart : InvoiceCart
  pub redirect_url : String
  pub valid_till : DateTime
  pub created_at : DateTime
  pub updated_at : DateTime

pub record InvoiceWithReceivedAmount : Type 0 where
  pub invoice : Invoice
  pub total_received_amount : Decimal

abbrev pub with_amount : Invoice → Decimal → InvoiceWithReceivedAmount
with_amount i total = record { invoice = i; total_received_amount = total }

unfoldable pub unfilled_amount : InvoiceWithReceivedAmount → Decimal
unfilled_amount i = max_ℤ (i.invoice.amount -ℤ i.total_received_amount) (pos 0)

-- The invoice of the client library. Its transactions are left empty by `into_public_invoice`.
pub record PublicInvoice : Type 0 where
  pub id : Uuid
  pub order_id : String
  pub asset_name : String
  pub asset_id : String
  pub chain : ChainType
  pub amount : Decimal
  pub payment_address : String
  pub status : InvoiceStatus
  pub payment_url : String
  pub redirect_url : String
  pub cart : InvoiceCart
  pub total_received_amount : Decimal
  pub valid_till : DateTime
  pub created_at : DateTime
  pub updated_at : DateTime

-- `payment_url` is the text that `format!` makes of the configured base and the id.
abbrev pub into_public_invoice : (Uuid → String) → InvoiceWithReceivedAmount → PublicInvoice
into_public_invoice payment_url r = record {
  id = r.invoice.id;
  order_id = r.invoice.order_id;
  asset_name = r.invoice.asset_name;
  asset_id = r.invoice.asset_id;
  chain = r.invoice.chain;
  amount = r.invoice.amount;
  payment_address = r.invoice.payment_address;
  status = r.invoice.status;
  payment_url = payment_url r.invoice.id;
  redirect_url = r.invoice.redirect_url;
  cart = r.invoice.cart;
  total_received_amount = r.total_received_amount;
  valid_till = r.invoice.valid_till;
  created_at = r.invoice.created_at;
  updated_at = r.invoice.updated_at;
}

pub record CreateInvoiceData : Type 0 where
  pub id : Uuid
  pub order_id : String
  pub asset_id : String
  pub asset_name : String
  pub chain : ChainType
  pub amount : Decimal
  pub payment_address : String
  pub cart : InvoiceCart
  pub redirect_url : String
  pub valid_till : DateTime

-- `From<CreateInvoiceData> for Invoice`, at the given time.
abbrev pub new_invoice : DateTime → CreateInvoiceData → Invoice
new_invoice now d = record {
  id = d.id;
  order_id = d.order_id;
  asset_id = d.asset_id;
  asset_name = d.asset_name;
  chain = d.chain;
  amount = d.amount;
  payment_address = d.payment_address;
  status = waiting;
  cart = d.cart;
  redirect_url = d.redirect_url;
  valid_till = d.valid_till;
  created_at = now;
  updated_at = now;
}

pub record UpdateInvoiceData : Type 0 where
  pub invoice_id : Uuid
  pub amount : Decimal
  pub cart : InvoiceCart
  pub valid_till : DateTime

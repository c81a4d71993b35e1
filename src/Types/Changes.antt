-- ===== src/Types/Changes.antt =====
-- The change feed's types: daemon/src/types/changes.rs, the public transaction of
-- client/src/types/transaction.rs, and the swaps of the front end of daemon/src/types/swap.rs. The
-- link of a transaction is kept before its formatting.
use kalatori.Common.Int.{sum_ℤ}
use kalatori.Types.Invoice.{
  Uuid, Decimal, DateTime, Invoice, PublicInvoice, with_amount, into_public_invoice,
}
use kalatori.Types.Chain.{ChainType}
use kalatori.Types.Transaction.{Transaction, TransactionType, TransactionStatus}
use kalatori.Types.Transfer.{Payout, Refund}
use kalatori.Common.{ℕ, String, Option, none, some, List, map}

pub record CreateFrontEndSwapParams : Type 0 where
  pub invoice_id : Uuid
  pub from_amount_units : ℕ
  pub from_chain_id : ℕ
  pub from_asset_id : String
  pub transaction_hash : String

pub record FrontEndSwap : Type 0 where
  pub id : Uuid
  pub invoice_id : Uuid
  pub from_amount_units : ℕ
  pub from_chain_id : ℕ
  pub from_asset_id : String
  pub transaction_hash : String
  pub created_at : DateTime
  pub updated_at : DateTime

pub record PayoutChanges : Type 0 where
  pub payout : Payout
  pub transactions : List Transaction

pub record RefundChanges : Type 0 where
  pub refund : Refund
  pub transactions : List Transaction

pub record InvoiceChanges : Type 0 where
  pub invoice : Invoice
  pub transactions : List Transaction
  pub payouts : List PayoutChanges
  pub refunds : List RefundChanges
  pub swaps : List FrontEndSwap

pub record ChangesResponse : Type 0 where
  pub invoices : List InvoiceChanges
  pub sync_timestamp : DateTime

-- The page of a transaction in its chain's explorer.
pub data TransactionLink : Type 0 where
  subscan_extrinsic polygonscan_block : ℕ → ℕ → TransactionLink
  polygonscan_tx : String → TransactionLink

pub record PublicTransaction : Type 0 where
  pub id : Uuid
  pub invoice_id : Uuid
  pub block_number : Option ℕ
  pub position_in_block : Option ℕ
  pub tx_hash : Option String
  pub transaction_type : TransactionType
  pub asset_name : String
  pub asset_id : String
  pub chain : ChainType
  pub amount : Decimal
  pub source_address : String
  pub destination_address : String
  pub created_at : DateTime
  pub updated_at : DateTime
  pub status : TransactionStatus
  pub transaction_link : TransactionLink

abbrev or_zero : Option ℕ → ℕ
or_zero none = 0
or_zero (some n) = n

-- The link of `From<Transaction> for PublicTransaction`.
unfoldable pub transaction_link_of : Transaction → TransactionLink
transaction_link_of t =
    let block = or_zero t.transaction_id.block_number in
    let position = or_zero t.transaction_id.position_in_block in
    elim t.transfer_info.chain [
      | ChainType.polkadot_asset_hub ↦ subscan_extrinsic block position
      | ChainType.polygon ↦ elim t.transaction_id.tx_hash [
        | some hash ↦ polygonscan_tx hash
        | none ↦ polygonscan_block block position
      ]
    ]

abbrev pub public_transaction : Transaction → PublicTransaction
public_transaction t = record {
  id = t.id;
  invoice_id = t.invoice_id;
  block_number = t.transaction_id.block_number;
  position_in_block = t.transaction_id.position_in_block;
  tx_hash = t.transaction_id.tx_hash;
  transaction_type = t.transaction_type;
  asset_name = t.transfer_info.asset_name;
  asset_id = t.transfer_info.asset_id;
  chain = t.transfer_info.chain;
  amount = t.transfer_info.amount;
  source_address = t.transfer_info.source_address;
  destination_address = t.transfer_info.destination_address;
  created_at = t.created_at;
  updated_at = t.updated_at;
  status = t.status;
  transaction_link = transaction_link_of t;
}

pub record PublicPayoutChanges : Type 0 where
  pub payout : Payout
  pub transactions : List PublicTransaction

pub record PublicRefundChanges : Type 0 where
  pub refund : Refund
  pub transactions : List PublicTransaction

pub record PublicInvoiceChanges : Type 0 where
  pub invoice : PublicInvoice
  pub incoming_transactions : List PublicTransaction
  pub payouts : List PublicPayoutChanges
  pub refunds : List PublicRefundChanges
  pub swaps : List FrontEndSwap

pub record PublicChangesResponse : Type 0 where
  pub invoices : List PublicInvoiceChanges
  pub sync_timestamp : DateTime

-- `PayoutChanges::into_public`
abbrev pub public_payout : PayoutChanges → PublicPayoutChanges
public_payout c = record { payout = c.payout; transactions = map public_transaction c.transactions }

-- `RefundChanges::into_public`
abbrev pub public_refund : RefundChanges → PublicRefundChanges
public_refund c = record { refund = c.refund; transactions = map public_transaction c.transactions }

-- `InvoiceChanges::into_public`: what the invoice has received is the sum of the listed
-- transactions.
unfoldable pub public_changes : (Uuid → String) → InvoiceChanges → PublicInvoiceChanges
public_changes payment_url c = record {
  invoice = into_public_invoice payment_url (
      with_amount c.invoice
        (sum_ℤ (map (λ (t : Transaction). t.transfer_info.amount) c.transactions)));
  incoming_transactions = map public_transaction c.transactions;
  payouts = map public_payout c.payouts;
  refunds = map public_refund c.refunds;
  swaps = c.swaps;
}

-- `ChangesResponse::into_public`, without the daemon's version, which the build gives.
abbrev pub into_public : (Uuid → String) → ChangesResponse → PublicChangesResponse
into_public payment_url r = record {
  invoices = map (public_changes payment_url) r.invoices;
  sync_timestamp = r.sync_timestamp;
}

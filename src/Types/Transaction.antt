-- ===== src/Types/Transaction.antt =====
-- Transactions: daemon/src/types/transaction.rs, `TransferInfo` of common.rs, and the chain's
-- transfers of daemon/src/chain_client.rs.
use kalatori.Common.{ℕ, Bool, true, false, Option, none, some, String}
use kalatori.Types.Chain.{ChainType}
use kalatori.Types.Invoice.{Decimal, Uuid, DateTime}

pub data TransactionType : Type 0 where
  incoming outgoing : TransactionType

pub data TransactionStatus : Type 0 where
  waiting in_progress completed failed : TransactionStatus

abbrev pub transaction_status_eq : TransactionStatus → TransactionStatus → Bool
transaction_status_eq waiting waiting = true
transaction_status_eq in_progress in_progress = true
transaction_status_eq completed completed = true
transaction_status_eq failed failed = true
transaction_status_eq _ _ = false

pub record TransferInfo : Type 0 where
  pub chain : ChainType
  pub asset_id : String
  pub asset_name : String
  pub amount : Decimal
  pub source_address : String
  pub destination_address : String

pub record GeneralTransactionId : Type 0 where
  pub block_number : Option ℕ
  pub position_in_block : Option ℕ
  pub tx_hash : Option String

-- `GeneralTransactionId::empty`
abbrev pub empty_id : GeneralTransactionId
empty_id = record { block_number = none; position_in_block = none; tx_hash = none }

pub record TransactionOrigin : Type 0 where
  pub refund_id : Option Uuid
  pub payout_id : Option Uuid
  pub internal_transfer_id : Option Uuid

pub data TransactionOriginVariant : Type 0 where
  payout refund internal_transfer : Uuid → TransactionOriginVariant
  no_origin : TransactionOriginVariant

abbrev pub default_origin : TransactionOrigin
default_origin = record { refund_id = none; payout_id = none; internal_transfer_id = none }

abbrev pub payout_origin : Uuid → TransactionOrigin
payout_origin id = record default_origin { payout_id = some id }

abbrev pub refund_origin : Uuid → TransactionOrigin
refund_origin id = record default_origin { refund_id = some id }

abbrev pub internal_transfer_origin : Uuid → TransactionOrigin
internal_transfer_origin id = record default_origin { internal_transfer_id = some id }

-- `TransactionOrigin::variant`
abbrev pub variant : TransactionOrigin → TransactionOriginVariant
variant o = elim o.payout_id [
  | some id ↦ payout id
  | none ↦ elim o.refund_id [
    | some id ↦ refund id
    | none ↦ elim o.internal_transfer_id [ some id ↦ internal_transfer id | none ↦ no_origin ]
  ]
]

pub record OutgoingTransactionMeta : Type 0 where
  pub extrinsic_bytes : Option String
  pub built_at : Option DateTime
  pub sent_at : Option DateTime
  pub confirmed_at : Option DateTime
  pub failed_at : Option DateTime
  pub failure_message : Option String

abbrev pub no_meta : OutgoingTransactionMeta
no_meta = record {
  extrinsic_bytes = none;
  built_at = none;
  sent_at = none;
  confirmed_at = none;
  failed_at = none;
  failure_message = none;
}

pub record Transaction : Type 0 where
  pub id : Uuid
  pub invoice_id : Uuid
  pub transfer_info : TransferInfo
  pub transaction_id : GeneralTransactionId
  pub origin : TransactionOrigin
  pub status : TransactionStatus
  pub transaction_type : TransactionType
  pub outgoing_meta : OutgoingTransactionMeta
  pub created_at : DateTime
  pub updated_at : DateTime

abbrev pub is_incoming : Transaction → Bool
is_incoming t = elim t.transaction_type [ incoming ↦ true | outgoing ↦ false ]

pub record OutgoingTransaction : Type 0 where
  pub id : Uuid
  pub invoice_id : Uuid
  pub transfer_info : TransferInfo
  pub tx_hash : String
  pub transaction_bytes : String
  pub origin : TransactionOrigin

-- `From<OutgoingTransaction> for Transaction`, at the given time.
abbrev pub from_outgoing : DateTime → OutgoingTransaction → Transaction
from_outgoing now o = record {
  id = o.id;
  invoice_id = o.invoice_id;
  transfer_info = o.transfer_info;
  transaction_id = record empty_id { tx_hash = some o.tx_hash };
  origin = o.origin;
  status = in_progress;
  transaction_type = outgoing;
  outgoing_meta = record no_meta {
    extrinsic_bytes = some o.transaction_bytes;
    built_at = some now;
  };
  created_at = now;
  updated_at = now;
}

pub record IncomingTransaction : Type 0 where
  pub id : Uuid
  pub invoice_id : Uuid
  pub transfer_info : TransferInfo
  pub transaction_id : GeneralTransactionId

-- `From<IncomingTransaction> for Transaction`, at the given time.
abbrev pub from_incoming : DateTime → IncomingTransaction → Transaction
from_incoming now i = record {
  id = i.id;
  invoice_id = i.invoice_id;
  transfer_info = i.transfer_info;
  transaction_id = i.transaction_id;
  origin = default_origin;
  status = completed;
  transaction_type = incoming;
  outgoing_meta = no_meta;
  created_at = now;
  updated_at = now;
}

-- A transfer that a chain reports.
pub record GeneralChainTransfer : Type 0 where
  pub id : Uuid
  pub chain : ChainType
  pub asset_id : String
  pub asset_name : String
  pub amount : Decimal
  pub sender : String
  pub recipient : String
  pub block_number : Option ℕ
  pub position_in_block : Option ℕ
  pub transaction_hash : Option String
  pub timestamp : ℕ

abbrev pub general_transaction_id : GeneralChainTransfer → GeneralTransactionId
general_transaction_id t = record {
  block_number = t.block_number;
  position_in_block = t.position_in_block;
  tx_hash = t.transaction_hash;
}

abbrev pub into_transfer_info : GeneralChainTransfer → TransferInfo
into_transfer_info t = record {
  chain = t.chain;
  asset_id = t.asset_id;
  asset_name = t.asset_name;
  amount = t.amount;
  source_address = t.sender;
  destination_address = t.recipient;
}

-- `IncomingTransaction::from_chain_transfer`
abbrev pub from_chain_transfer : Uuid → GeneralChainTransfer → IncomingTransaction
from_chain_transfer invoice_id t = record {
  id = t.id;
  invoice_id = invoice_id;
  transfer_info = into_transfer_info t;
  transaction_id = general_transaction_id t;
}

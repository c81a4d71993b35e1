-- ===== src/Types/Transfer.antt =====
-- Payouts and refunds: daemon/src/types/payout.rs and refund.rs.
use kalatori.Common.{Bool, true, false, Option, none, String}
use kalatori.Types.Chain.{ChainType, SwapChainType}
use kalatori.Types.Retry.{RetryMeta, no_retries}
use kalatori.Types.Invoice.{Decimal, Uuid, DateTime, Invoice}

pub data InitiatorType : Type 0 where
  system admin : InitiatorType

-- `PayoutStatus` and `RefundStatus` have the same variants, and the database gives them the same
-- transitions; the model has one type for both.
pub data TransferStatus : Type 0 where
  waiting in_progress completed failed_retriable failed : TransferStatus

abbrev pub transfer_status_eq : TransferStatus → TransferStatus → Bool
transfer_status_eq waiting waiting = true
transfer_status_eq in_progress in_progress = true
transfer_status_eq completed completed = true
transfer_status_eq failed_retriable failed_retriable = true
transfer_status_eq failed failed = true
transfer_status_eq _ _ = false

pub record TransferDestinationParams : Type 0 where
  pub destination_address : String
  pub destination_chain : SwapChainType
  pub destination_asset_id : String

pub record Payout : Type 0 where
  pub id : Uuid
  pub invoice_id : Uuid
  pub initiator_type : InitiatorType
  pub initiator_id : Option Uuid
  pub status : TransferStatus
  pub created_at : DateTime
  pub updated_at : DateTime
  pub chain : ChainType
  pub asset_id : String
  pub asset_name : String
  pub amount : Decimal
  pub source_address : String
  pub destination_params : TransferDestinationParams
  pub retry_meta : RetryMeta

pub record Refund : Type 0 where
  pub id : Uuid
  pub invoice_id : Uuid
  pub initiator_type : InitiatorType
  pub initiator_id : Option Uuid
  pub status : TransferStatus
  pub chain : ChainType
  pub asset_id : String
  pub asset_name : String
  pub amount : Decimal
  pub source_address : String
  pub destination_params : Option TransferDestinationParams
  pub retry_meta : RetryMeta
  pub created_at : DateTime
  pub updated_at : DateTime

-- `Payout::from_invoice`, with the new id and the two readings of the clock.
abbrev pub new_payout :
    Uuid → DateTime → DateTime → Invoice → TransferDestinationParams → Decimal → Payout
new_payout id created updated i destination_params amount = record {
  id = id;
  invoice_id = i.id;
  initiator_type = system;
  initiator_id = none;
  status = waiting;
  created_at = created;
  updated_at = updated;
  chain = i.chain;
  asset_id = i.asset_id;
  asset_name = i.asset_name;
  amount = amount;
  source_address = i.payment_address;
  destination_params = destination_params;
  retry_meta = no_retries;
}

-- `Refund::from_invoice`, with the new id and the time.
abbrev pub new_refund : Uuid → DateTime → Invoice → Decimal → Refund
new_refund id now i amount = record {
  id = id;
  invoice_id = i.id;
  initiator_type = system;
  initiator_id = none;
  status = waiting;
  chain = i.chain;
  asset_id = i.asset_id;
  asset_name = i.asset_name;
  amount = amount;
  source_address = i.payment_address;
  destination_params = none;
  retry_meta = no_retries;
  created_at = now;
  updated_at = now;
}

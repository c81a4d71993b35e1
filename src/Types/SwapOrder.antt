-- ===== src/Types/SwapOrder.antt =====
-- The orders of swaps: the rest of daemon/src/types/swap.rs.
use kalatori.Common.{ℕ, Bool, true, false, Option, none, some, String}
use kalatori.Types.Chain.{SwapChainType, SwapChainType-discrete}
use kalatori.Types.Invoice.{Uuid, Decimal, DateTime}
use kalatori.Types.Transaction.{TransactionOrigin}

pub data SwapExecutorType : Type 0 where
  across bungee zero_ex zero_ex_gasless : SwapExecutorType

pub data SwapDirection : Type 0 where
  incoming outgoing : SwapDirection

-- `PartialEq` of `SwapChainType`, which is derived.
abbrev pub swap_chain_eq : SwapChainType → SwapChainType → Bool
swap_chain_eq c d = elim (SwapChainType-discrete c d) [ yes e ↦ true | no e ↦ false ]

-- `SwapExecutorType::detect`
unfoldable pub detect : SwapChainType → SwapChainType → SwapDirection → Option SwapExecutorType
detect from_chain to_chain outgoing = elim (SwapChainType-discrete from_chain to_chain) [
  | yes same ↦ some zero_ex_gasless
  | no other ↦ none
]
detect from_chain to_chain incoming = elim (SwapChainType-discrete from_chain to_chain) [
  | yes same ↦ some zero_ex
  | no other ↦ some across
]

pub data SwapStatus : Type 0 where
  created submitted pending completed failed abandoned : SwapStatus

-- `PartialEq`, which is derived.
abbrev pub swap_status_eq : SwapStatus → SwapStatus → Bool
swap_status_eq created created = true
swap_status_eq submitted submitted = true
swap_status_eq pending pending = true
swap_status_eq completed completed = true
swap_status_eq failed failed = true
swap_status_eq abandoned abandoned = true
swap_status_eq _ _ = false

pub record CreateSwapData : Type 0 where
  pub invoice_id : Uuid
  pub swap_executor : SwapExecutorType
  pub from_chain : SwapChainType
  pub to_chain : SwapChainType
  pub from_token_address : String
  pub to_token_address : String
  pub from_amount_units : ℕ
  pub expected_to_amount_units : ℕ
  pub from_address : String
  pub to_address : String
  pub direction : SwapDirection
  pub origin : TransactionOrigin

-- The raw transaction of the swap's service is kept as its text.
pub record SwapDetails : Type 0 where
  pub id : String
  pub raw_transaction : String
  pub signature : Option String
  pub transaction_hash : Option String

pub record SwapQuote : Type 0 where
  pub swap_executor : SwapExecutorType
  pub id : String
  pub estimated_to_amount_units : ℕ
  pub estimated_to_amount : Decimal
  pub valid_till : DateTime
  pub quote_details : String

pub record Swap : Type 0 where
  pub id : Uuid
  pub request : CreateSwapData
  pub status : SwapStatus
  pub estimated_to_amount : Decimal
  pub swap_details : SwapDetails
  pub created_at : DateTime
  pub submitted_at : Option DateTime
  pub finished_at : Option DateTime
  pub valid_till : DateTime
  pub error_message : Option String

-- `Swap::new`, with the new id and the time, and `From<SwapQuote> for SwapDetails`.
abbrev pub new_swap : Uuid → DateTime → CreateSwapData → SwapQuote → Swap
new_swap id now request quote = record {
  id = id;
  request = request;
  status = created;
  estimated_to_amount = quote.estimated_to_amount;
  swap_details = record {
    id = quote.id;
    raw_transaction = quote.quote_details;
    signature = none;
    transaction_hash = none;
  };
  created_at = now;
  submitted_at = none;
  finished_at = none;
  valid_till = quote.valid_till;
  error_message = none;
}

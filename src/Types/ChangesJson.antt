-- ===== src/Types/ChangesJson.antt =====
-- The JSON objects of the change feed: the column lists of daemon/src/dao/changes.rs, and the
-- types, the deserializers and the conversions of daemon/src/types/changes.rs. The hexadecimal
-- code, the formats of times, the texts of numbers and addresses, and the order of a scan are
-- parameters. A value whose deserialization is derived stands for its JSON. A text is read where
-- its record is converted; the source reads times already in serde, with the same error.
pub mod ReadBack
use kalatori.Types.Changes.{FrontEndSwap}
use kalatori.Types.Invoice.{Invoice, Uuid, DateTime, Decimal}
use kalatori.Types.Chain.{ChainType, SwapChainType}
use kalatori.Types.Retry.{RetryMeta}
use kalatori.Types.Transaction.{
  Transaction, TransactionOrigin, TransactionStatus, TransactionType, OutgoingTransactionMeta,
}
use kalatori.Types.Transfer.{
  Payout, Refund, InitiatorType, TransferStatus, TransferDestinationParams,
}
use kalatori.Common.{ℕ, String, str_eq, Option, none, some, List, [], ◌∷◌, map, if◌then◌else◌}

pub record Codec : Type 0 where
  -- SQLite's `hex`, and `const_hex::decode` with `Uuid::from_slice`.
  pub hex : Uuid → String
  pub from_hex : String → Option Uuid
  -- The text of a time in SQLite, and chrono's readers: RFC 3339, with and without a fraction.
  pub time_text : DateTime → String
  pub parse_from_rfc3339 : String → Option DateTime
  pub parse_with_fraction : String → Option DateTime
  pub parse_without_fraction : String → Option DateTime
  -- The text of a `u128`, and its `parse`; that of an address.
  pub units_text : ℕ → String
  pub parse_units : String → Option ℕ
  pub parse_address : String → Option String
  -- The order in which the engine comes upon the invoices of a query: it decides between those that
  -- were updated at one time.
  pub scan : List Invoice → List Invoice

pub record TransactionJson : Type 0 where
  pub id : String
  pub invoice_id : String
  pub asset_id : String
  pub asset_name : String
  pub chain : ChainType
  pub amount : Decimal
  pub source_address : String
  pub destination_address : String
  pub block_number : Option ℕ
  pub position_in_block : Option ℕ
  pub tx_hash : Option String
  pub origin : TransactionOrigin
  pub status : TransactionStatus
  pub transaction_type : TransactionType
  pub outgoing_meta : OutgoingTransactionMeta
  pub created_at : String
  pub updated_at : String

pub record PayoutJson : Type 0 where
  pub id : String
  pub invoice_id : String
  pub asset_id : String
  pub asset_name : String
  pub chain : ChainType
  pub amount : Decimal
  pub source_address : String
  pub destination_address : String
  pub destination_chain : SwapChainType
  pub destination_asset_id : String
  pub initiator_type : InitiatorType
  pub initiator_id : Option String
  pub status : TransferStatus
  pub retry_count : ℕ
  pub last_attempt_at : Option String
  pub next_retry_at : Option String
  pub failure_message : Option String
  pub created_at : String
  pub updated_at : String

pub record RefundJson : Type 0 where
  pub id : String
  pub invoice_id : String
  pub asset_id : String
  pub asset_name : String
  pub chain : ChainType
  pub amount : Decimal
  pub source_address : String
  pub destination_address : Option String
  pub destination_chain : Option SwapChainType
  pub destination_asset_id : Option String
  pub initiator_type : InitiatorType
  pub initiator_id : Option String
  pub status : TransferStatus
  pub retry_count : ℕ
  pub last_attempt_at : Option String
  pub next_retry_at : Option String
  pub failure_message : Option String
  pub created_at : String
  pub updated_at : String

pub record FrontEndSwapJson : Type 0 where
  pub id : String
  pub invoice_id : String
  pub from_amount_units : String
  pub from_chain_id : ℕ
  pub from_asset_id : String
  pub transaction_hash : String
  pub created_at : String
  pub updated_at : String

module _ {A B : Type 0} where
  abbrev pub and_then : Option A → (A → Option B) → Option B
  and_then none f = none
  and_then (some a) f = f a

  abbrev pub map_some : (A → B) → Option A → Option B
  map_some f none = none
  map_some f (some a) = some (f a)

-- `collect` of results: the first failure is the answer.
abbrev pub all_read : {A B : Type 0} → (A → Option B) → List A → Option (List B)
all_read f [] = some []
all_read f (x ∷ xs) =
    let rest = all_read f xs in and_then (f x) λ y. and_then rest λ ys. some (y ∷ ys)

module _ (c : Codec) where
  -- `hex(NULL)` is the empty text.
  abbrev pub hex_or_empty : Option Uuid → String
  hex_or_empty none = ""
  hex_or_empty (some id) = c.hex id

  abbrev pub transaction_json : Transaction → TransactionJson
  transaction_json t = record {
    id = c.hex t.id;
    invoice_id = c.hex t.invoice_id;
    asset_id = t.transfer_info.asset_id;
    asset_name = t.transfer_info.asset_name;
    chain = t.transfer_info.chain;
    amount = t.transfer_info.amount;
    source_address = t.transfer_info.source_address;
    destination_address = t.transfer_info.destination_address;
    block_number = t.transaction_id.block_number;
    position_in_block = t.transaction_id.position_in_block;
    tx_hash = t.transaction_id.tx_hash;
    origin = t.origin;
    status = t.status;
    transaction_type = t.transaction_type;
    outgoing_meta = t.outgoing_meta;
    created_at = c.time_text t.created_at;
    updated_at = c.time_text t.updated_at;
  }

  abbrev pub payout_json : Payout → PayoutJson
  payout_json p = record {
    id = c.hex p.id;
    invoice_id = c.hex p.invoice_id;
    asset_id = p.asset_id;
    asset_name = p.asset_name;
    chain = p.chain;
    amount = p.amount;
    source_address = p.source_address;
    destination_address = p.destination_params.destination_address;
    destination_chain = p.destination_params.destination_chain;
    destination_asset_id = p.destination_params.destination_asset_id;
    initiator_type = p.initiator_type;
    initiator_id = some (hex_or_empty p.initiator_id);
    status = p.status;
    retry_count = p.retry_meta.retry_count;
    last_attempt_at = map_some c.time_text p.retry_meta.last_attempt_at;
    next_retry_at = map_some c.time_text p.retry_meta.next_retry_at;
    failure_message = p.retry_meta.failure_message;
    created_at = c.time_text p.created_at;
    updated_at = c.time_text p.updated_at;
  }

  abbrev pub refund_json : Refund → RefundJson
  refund_json r = record {
    id = c.hex r.id;
    invoice_id = c.hex r.invoice_id;
    asset_id = r.asset_id;
    asset_name = r.asset_name;
    chain = r.chain;
    amount = r.amount;
    source_address = r.source_address;
    destination_address =
        map_some (λ (d : TransferDestinationParams). d.destination_address) r.destination_params;
    destination_chain =
        map_some (λ (d : TransferDestinationParams). d.destination_chain) r.destination_params;
    destination_asset_id =
        map_some (λ (d : TransferDestinationParams). d.destination_asset_id) r.destination_params;
    initiator_type = r.initiator_type;
    initiator_id = some (hex_or_empty r.initiator_id);
    status = r.status;
    retry_count = r.retry_meta.retry_count;
    last_attempt_at = map_some c.time_text r.retry_meta.last_attempt_at;
    next_retry_at = map_some c.time_text r.retry_meta.next_retry_at;
    failure_message = r.retry_meta.failure_message;
    created_at = c.time_text r.created_at;
    updated_at = c.time_text r.updated_at;
  }

  abbrev pub swap_json : FrontEndSwap → FrontEndSwapJson
  swap_json f = record {
    id = c.hex f.id;
    invoice_id = c.hex f.invoice_id;
    from_amount_units = c.units_text f.from_amount_units;
    from_chain_id = f.from_chain_id;
    from_asset_id = f.from_asset_id;
    transaction_hash = f.transaction_hash;
    created_at = c.time_text f.created_at;
    updated_at = c.time_text f.updated_at;
  }

  abbrev pub or_else : {A : Type 0} → Option A → Option A → Option A
  or_else none other = other
  or_else (some a) other = some a

  unfoldable pub deserialize_sqlite_datetime : String → Option DateTime
  deserialize_sqlite_datetime s =
      or_else (c.parse_from_rfc3339 s)
        (or_else (c.parse_with_fraction s) (c.parse_without_fraction s))

  unfoldable pub deserialize_sqlite_datetime_opt : Option String → Option (Option DateTime)
  deserialize_sqlite_datetime_opt none = some none
  deserialize_sqlite_datetime_opt (some s) =
      if str_eq s ""
      then some none
      else and_then
          (or_else (c.parse_from_rfc3339 s)
            (or_else (c.parse_with_fraction s) (c.parse_without_fraction s)))
          λ t. some (some t)

  abbrev pub deserialize_optional_hex_uuid : Option String → Option String
  deserialize_optional_hex_uuid none = none
  deserialize_optional_hex_uuid (some s) = if str_eq s "" then none else some s

  abbrev pub parse_hex_uuid : String → Option Uuid
  parse_hex_uuid s = c.from_hex s

  abbrev pub parse_hex_uuid_opt : Option String → Option (Option Uuid)
  parse_hex_uuid_opt none = some none
  parse_hex_uuid_opt (some s) =
      if str_eq s "" then some none else and_then (parse_hex_uuid s) λ id. some (some id)

  unfoldable pub transaction_from : TransactionJson → Option Transaction
  transaction_from j = and_then (deserialize_sqlite_datetime j.created_at) λ created_at.
      and_then (deserialize_sqlite_datetime j.updated_at) λ updated_at.
        and_then (parse_hex_uuid j.id) λ id. and_then (parse_hex_uuid j.invoice_id) λ invoice_id.
          some (record {
            id = id;
            invoice_id = invoice_id;
            transfer_info = record {
              chain = j.chain;
              asset_id = j.asset_id;
              asset_name = j.asset_name;
              amount = j.amount;
              source_address = j.source_address;
              destination_address = j.destination_address;
            };
            transaction_id = record {
              block_number = j.block_number;
              position_in_block = j.position_in_block;
              tx_hash = j.tx_hash;
            };
            origin = j.origin;
            status = j.status;
            transaction_type = j.transaction_type;
            outgoing_meta = j.outgoing_meta;
            created_at = created_at;
            updated_at = updated_at;
          })

  unfoldable pub payout_from : PayoutJson → Option Payout
  payout_from j = and_then (deserialize_sqlite_datetime_opt j.last_attempt_at) λ last_attempt_at.
      and_then (deserialize_sqlite_datetime_opt j.next_retry_at) λ next_retry_at.
        and_then (deserialize_sqlite_datetime j.created_at) λ created_at.
          and_then (deserialize_sqlite_datetime j.updated_at) λ updated_at.
            and_then (parse_hex_uuid j.id) λ id.
              and_then (parse_hex_uuid j.invoice_id) λ invoice_id.
                and_then (parse_hex_uuid_opt (deserialize_optional_hex_uuid j.initiator_id))
                  λ initiator_id. some (record {
                    id = id;
                    invoice_id = invoice_id;
                    initiator_type = j.initiator_type;
                    initiator_id = initiator_id;
                    status = j.status;
                    created_at = created_at;
                    updated_at = updated_at;
                    chain = j.chain;
                    asset_id = j.asset_id;
                    asset_name = j.asset_name;
                    amount = j.amount;
                    source_address = j.source_address;
                    destination_params = record {
                      destination_address = j.destination_address;
                      destination_chain = j.destination_chain;
                      destination_asset_id = j.destination_asset_id;
                    };
                    retry_meta = record {
                      retry_count = j.retry_count;
                      last_attempt_at = last_attempt_at;
                      next_retry_at = next_retry_at;
                      failure_message = j.failure_message;
                    };
                  })

  -- A destination only when all of its three columns are given.
  abbrev pub destination_of :
      Option String → Option SwapChainType → Option String → Option TransferDestinationParams
  destination_of (some address) (some chain) (some asset_id) = some (record {
    destination_address = address;
    destination_chain = chain;
    destination_asset_id = asset_id;
  })
  destination_of _ _ _ = none

  unfoldable pub refund_from : RefundJson → Option Refund
  refund_from j = and_then (deserialize_sqlite_datetime_opt j.last_attempt_at) λ last_attempt_at.
      and_then (deserialize_sqlite_datetime_opt j.next_retry_at) λ next_retry_at.
        and_then (deserialize_sqlite_datetime j.created_at) λ created_at.
          and_then (deserialize_sqlite_datetime j.updated_at) λ updated_at.
            and_then (parse_hex_uuid j.id) λ id.
              and_then (parse_hex_uuid j.invoice_id) λ invoice_id.
                and_then (parse_hex_uuid_opt (deserialize_optional_hex_uuid j.initiator_id))
                  λ initiator_id. some (record {
                    id = id;
                    invoice_id = invoice_id;
                    initiator_type = j.initiator_type;
                    initiator_id = initiator_id;
                    status = j.status;
                    chain = j.chain;
                    asset_id = j.asset_id;
                    asset_name = j.asset_name;
                    amount = j.amount;
                    source_address = j.source_address;
                    destination_params =
                        destination_of j.destination_address j.destination_chain
                          j.destination_asset_id;
                    retry_meta = record {
                      retry_count = j.retry_count;
                      last_attempt_at = last_attempt_at;
                      next_retry_at = next_retry_at;
                      failure_message = j.failure_message;
                    };
                    created_at = created_at;
                    updated_at = updated_at;
                  })

  unfoldable pub swap_from : FrontEndSwapJson → Option FrontEndSwap
  swap_from j = and_then (deserialize_sqlite_datetime j.created_at) λ created_at.
      and_then (deserialize_sqlite_datetime j.updated_at) λ updated_at.
        and_then (parse_hex_uuid j.id) λ id. and_then (parse_hex_uuid j.invoice_id) λ invoice_id.
          and_then (c.parse_units j.from_amount_units) λ units.
            and_then (c.parse_address j.from_asset_id) λ asset_id. some (record {
              id = id;
              invoice_id = invoice_id;
              from_amount_units = units;
              from_chain_id = j.from_chain_id;
              from_asset_id = asset_id;
              transaction_hash = j.transaction_hash;
              created_at = created_at;
              updated_at = updated_at;
            })

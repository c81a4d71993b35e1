-- ===== src/Types/ChangesJson/ReadBack.antt =====
-- The JSON objects of the change feed are read back as the rows they were made of.
use kalatori.Types.ChangesJson.{
  Codec, all_read, transaction_json, payout_json, refund_json, swap_json,
  deserialize_sqlite_datetime, deserialize_sqlite_datetime_opt, deserialize_optional_hex_uuid,
  parse_hex_uuid_opt, hex_or_empty, map_some, or_else, transaction_from, payout_from, refund_from,
  swap_from, destination_of,
}
use kalatori.Types.Changes.{FrontEndSwap}
use kalatori.Types.Invoice.{Uuid, DateTime}
use kalatori.Types.Transaction.{Transaction}
use kalatori.Types.Transfer.{Payout, Refund, TransferDestinationParams}
use kalatori.Common.{
  ◌≡◌, refl, inl, inr, ◌⊎◌, false, str_eq, Option, none, some, List, [], ◌∷◌, map, All,
}

-- What is known of the code outside: hexadecimal ids are read back, and so is SQLite's text of a
-- time, which is not of RFC 3339 and may have a fraction; neither text is empty.
pub record Reads (c : Codec) : Type 0 where
  pub ids : (id : Uuid) → c.from_hex (c.hex id) ≡ some id
  pub ids_given : (id : Uuid) → str_eq (c.hex id) "" ≡ false
  pub not_rfc3339 : (t : DateTime) → c.parse_from_rfc3339 (c.time_text t) ≡ none
  pub times :
      (t : DateTime)
      → (c.parse_with_fraction (c.time_text t) ≡ some t)
        ⊎ ((c.parse_with_fraction (c.time_text t) ≡ none)
            × (c.parse_without_fraction (c.time_text t) ≡ some t))
  pub times_given : (t : DateTime) → str_eq (c.time_text t) "" ≡ false

-- The amount and the address of a swap are read back: the amount is a `u128`, and the text is one
-- of an address.
abbrev pub ReadSwap : Codec → FrontEndSwap → Type 0
ReadSwap c f =
    (c.parse_units (c.units_text f.from_amount_units) ≡ some f.from_amount_units)
    × (c.parse_address f.from_asset_id ≡ some f.from_asset_id)

module _ (c : Codec) (reads : Reads c) where
  parsed :
      (t : DateTime)
      → or_else c (c.parse_from_rfc3339 (c.time_text t)) (
          or_else c
            (c.parse_with_fraction (c.time_text t))
            (c.parse_without_fraction (c.time_text t)))
        ≡ some t
  parsed t = elim (reads.times t) [
    | inl e ↦ rw (reads.not_rfc3339 t, e) refl
    | inr (e, f) ↦ rw (reads.not_rfc3339 t, e) f
  ]

  time_read : (t : DateTime) → deserialize_sqlite_datetime c (c.time_text t) ≡ some t
  unfolding deserialize_sqlite_datetime
  time_read t = parsed t

  time_opt_read :
      (t : Option DateTime) → deserialize_sqlite_datetime_opt c (map_some c.time_text t) ≡ some t
  unfolding deserialize_sqlite_datetime_opt
  time_opt_read none = refl
  time_opt_read (some t) = rw (reads.times_given t, parsed t) refl

  id_opt_read :
      (id : Option Uuid)
      → parse_hex_uuid_opt c (deserialize_optional_hex_uuid c (some (hex_or_empty c id))) ≡ some id
  id_opt_read none = refl
  id_opt_read (some id) = rw (reads.ids_given id, reads.ids_given id, reads.ids id) refl

  transaction_read : (t : Transaction) → transaction_from c (transaction_json c t) ≡ some t
  unfolding transaction_from
  transaction_read t =
      rw (time_read t.created_at, time_read t.updated_at, reads.ids t.id, reads.ids t.invoice_id)
        refl

  payout_read : (p : Payout) → payout_from c (payout_json c p) ≡ some p
  unfolding payout_from
  payout_read p =
      rw
        (
          time_opt_read p.retry_meta.last_attempt_at,
          time_opt_read p.retry_meta.next_retry_at,
          time_read p.created_at,
          time_read p.updated_at,
          reads.ids p.id,
          reads.ids p.invoice_id,
          id_opt_read p.initiator_id,
        )
        refl

  destination_read :
      (d : Option TransferDestinationParams)
      → destination_of c
          (map_some (λ (d : TransferDestinationParams). d.destination_address) d)
          (map_some (λ (d : TransferDestinationParams). d.destination_chain) d)
          (map_some (λ (d : TransferDestinationParams). d.destination_asset_id) d)
        ≡ d
  destination_read none = refl
  destination_read (some d) = refl

  refund_read : (r : Refund) → refund_from c (refund_json c r) ≡ some r
  unfolding refund_from
  refund_read r =
      rw
        (
          time_opt_read r.retry_meta.last_attempt_at,
          time_opt_read r.retry_meta.next_retry_at,
          time_read r.created_at,
          time_read r.updated_at,
          reads.ids r.id,
          reads.ids r.invoice_id,
          id_opt_read r.initiator_id,
          destination_read r.destination_params,
        )
        refl

  swap_read : (f : FrontEndSwap) → ReadSwap c f → swap_from c (swap_json c f) ≡ some f
  unfolding swap_from
  swap_read f (units, address) =
      rw
        (
          time_read f.created_at,
          time_read f.updated_at,
          reads.ids f.id,
          reads.ids f.invoice_id,
          units,
          address,
        )
        refl

  pub transactions_read :
      (ts : List Transaction)
      → all_read (transaction_from c) (map (transaction_json c) ts) ≡ some ts
  transactions_read [] = refl
  transactions_read (t ∷ ts) = rw (transaction_read t, transactions_read ts) refl

  pub payouts_read :
      (ps : List Payout) → all_read (payout_from c) (map (payout_json c) ps) ≡ some ps
  payouts_read [] = refl
  payouts_read (p ∷ ps) = rw (payout_read p, payouts_read ps) refl

  pub refunds_read :
      (rs : List Refund) → all_read (refund_from c) (map (refund_json c) rs) ≡ some rs
  refunds_read [] = refl
  refunds_read (r ∷ rs) = rw (refund_read r, refunds_read rs) refl

  pub swaps_read :
      (fs : List FrontEndSwap)
      → All (ReadSwap c) fs
      → all_read (swap_from c) (map (swap_json c) fs) ≡ some fs
  swaps_read [] all = refl
  swaps_read (f ∷ fs) (readable, all) = rw (swap_read f readable, swaps_read fs all) refl

-- ===== src/RefundDestination/Sources.antt =====
-- Where the destinations of daemon/src/utils/refund_destination_detector.rs come from.
use kalatori.Dao.Transactions.{get_completed_transactions_by_invoice}
use kalatori.Dao.Swaps.{is_from_user, get_completed_incoming_swaps_by_invoice}
use kalatori.Types.Invoice.{Uuid}
use kalatori.Types.Transfer.{TransferDestinationParams, Refund}
use kalatori.Types.Chain.{swap_chain_from, SwapChainType, SwapChainType-discrete}
use kalatori.RefundDestination.{
  RefundDestinationDetectorError, is_same_chain, params_of_swap, find_destination_in_swaps,
  destination_of_first, filter_out_swap_transactions, to_sender, find_refund_destination,
  destination_from,
}
use kalatori.Common.{
  ok, err, panic, [], ◌∷◌, ℕ, String, ◌≡◌, sym, inl, inr, Bool, true, false, ◌&&◌, some, Memᴰ, List,
  str_eq, ◌==◌, Bool-cases, none-some, some_inj, select, exists, order_by, All, All-order_by,
  All-select_both, All-Memᴰ, err_ok, ap, ◌∙◌, ◌⊎◌, not, arith, Option-cases, Result, ok_inj,
  panic_ok, refl,
}
use kalatori.Types.Transaction.{
  Transaction, TransactionStatus, TransactionType, completed, transaction_status_eq, is_incoming,
}
use kalatori.Types.SwapOrder.{Swap, SwapDirection, SwapStatus, swap_status_eq}
use kalatori.Dao.Store.{◌>>=◌, Db, Store, map_err, query, tick}

-- The swaps and the transactions that the detector reads for an invoice.
abbrev pub pays_by_swap : Uuid → Swap → Bool
pays_by_swap id s =
    swap_status_eq s.status SwapStatus.completed && is_from_user s && (s.request.invoice_id == id)

abbrev pub pays_by_transfer : Uuid → Transaction → Bool
pays_by_transfer id t =
    (t.invoice_id == id) && is_incoming t && transaction_status_eq t.status completed

abbrev pub swaps_of : Uuid → Db → List Swap
swaps_of id db = order_by (λ s. s.created_at) (select (pays_by_swap id) db.swaps)

-- A completed swap with which the invoice's payer has paid, and a completed transfer to the
-- invoice.
abbrev pub SwapOf : Uuid → Swap → Type 0
SwapOf id s =
    (s.status ≡ SwapStatus.completed)
    × (s.request.direction ≡ SwapDirection.incoming)
    × (s.request.invoice_id ≡ id)

abbrev pub TransferOf : Uuid → Transaction → Type 0
TransferOf id t =
    (t.status ≡ completed) × (t.transaction_type ≡ TransactionType.incoming) × (t.invoice_id ≡ id)

all_three : (a b c : Bool) → (a && b && c) ≡ true → (a ≡ true) × (b ≡ true) × (c ≡ true)
all_three true true true h = (refl, refl, refl)
all_three true true false h = absurd (grind arith)
all_three true false c h = absurd (grind arith)
all_three false b c h = absurd (grind arith)

completed_swap :
    (x : SwapStatus) → swap_status_eq x SwapStatus.completed ≡ true → x ≡ SwapStatus.completed
completed_swap SwapStatus.completed h = refl
completed_swap SwapStatus.created h = absurd (grind arith)
completed_swap SwapStatus.submitted h = absurd (grind arith)
completed_swap SwapStatus.pending h = absurd (grind arith)
completed_swap SwapStatus.failed h = absurd (grind arith)
completed_swap SwapStatus.abandoned h = absurd (grind arith)

incoming_swap :
    (x : SwapDirection)
    → elim x as (λ _. Bool) [ SwapDirection.incoming ↦ true | SwapDirection.outgoing ↦ false ]
      ≡ true
    → x ≡ SwapDirection.incoming
incoming_swap SwapDirection.incoming h = refl
incoming_swap SwapDirection.outgoing h = absurd (grind arith)

completed_transfer :
    (x : TransactionStatus) → transaction_status_eq x completed ≡ true → x ≡ completed
completed_transfer TransactionStatus.completed h = refl
completed_transfer TransactionStatus.waiting h = absurd (grind arith)
completed_transfer TransactionStatus.in_progress h = absurd (grind arith)
completed_transfer TransactionStatus.failed h = absurd (grind arith)

incoming_transfer :
    (x : TransactionType)
    → elim x as (λ _. Bool) [ TransactionType.incoming ↦ true | TransactionType.outgoing ↦ false ]
      ≡ true
    → x ≡ TransactionType.incoming
incoming_transfer TransactionType.incoming h = refl
incoming_transfer TransactionType.outgoing h = absurd (grind arith)

same_invoice : (a b : Uuid) → (a == b) ≡ true → a ≡ b
same_invoice a b h = ground arith

pays_by_swap-SwapOf : (id : Uuid) (s : Swap) → pays_by_swap id s ≡ true → SwapOf id s
pays_by_swap-SwapOf id s h =
    let (status, user, invoice) = all_three _ _ _ h in
    (
      completed_swap s.status status,
      incoming_swap s.request.direction user,
      same_invoice s.request.invoice_id id invoice,
    )

pays_by_transfer-TransferOf :
    (id : Uuid) (t : Transaction) → pays_by_transfer id t ≡ true → TransferOf id t
pays_by_transfer-TransferOf id t h =
    let (invoice, incoming, status) = all_three _ _ _ h in
    (
      completed_transfer t.status status,
      incoming_transfer t.transaction_type incoming,
      same_invoice t.invoice_id id invoice,
    )

one_chain : (s : Swap) → is_same_chain s ≡ true → s.request.from_chain ≡ s.request.to_chain
one_chain s = on_equal (SwapChainType-discrete s.request.from_chain s.request.to_chain)
  where
    on_equal :
        (d : Dec (s.request.from_chain ≡ s.request.to_chain))
        → elim d as (λ _. Bool) [ yes e ↦ true | no e ↦ false ] ≡ true
        → s.request.from_chain ≡ s.request.to_chain
    on_equal (yes e) h = e
    on_equal (no e) h = absurd (grind arith)

-- The source of a swap of the invoice, on one chain.
abbrev pub FromSwap : Uuid → Db → TransferDestinationParams → Type 0
FromSwap id db params =
    (s : Swap) × Memᴰ s db.swaps
    × SwapOf id s
    × (s.request.from_chain ≡ s.request.to_chain)
    × (params.destination_address ≡ s.request.from_address)
    × (params.destination_chain ≡ s.request.from_chain)
    × (params.destination_asset_id ≡ s.request.from_token_address)

-- The sender of a transfer for the invoice, which is no source of its swaps.
abbrev pub FromTransfer : (String → String) → Uuid → Db → TransferDestinationParams → Type 0
FromTransfer lower id db params =
    (t : Transaction) × Memᴰ t db.transactions
    × TransferOf id t
    × (exists
          (λ (s : Swap).
            str_eq (lower s.request.from_address) (lower t.transfer_info.source_address))
          (swaps_of id db)
        ≡ false)
    × (swap_chain_from {E = RefundDestinationDetectorError} t.transfer_info.chain
        ≡ ok params.destination_chain)
    × (params.destination_address ≡ t.transfer_info.source_address)
    × (params.destination_asset_id ≡ t.transfer_info.asset_id)

-- What holds of all rows of a table that pass a test, in any order.
All-ordered :
    {A : Type 0} (key : A → ℕ) (p : A → Bool) (rows : List A)
    → All (λ x. Memᴰ x rows × (p x ≡ true)) (order_by key (select p rows))
All-ordered key p rows =
    All-order_by _ key (select p rows) (
      All-select_both (λ x. Memᴰ x rows) _ p rows (All-Memᴰ rows) λ x there passes. (there, passes))

found_swap :
    (P : Swap → Type 0) (swaps : List Swap) (params : TransferDestinationParams)
    → All P swaps
    → find_destination_in_swaps swaps true ≡ some params
    → (s : Swap) × P s × (is_same_chain s ≡ true) × (params ≡ params_of_swap s)
unfolding find_destination_in_swaps
found_swap P [] params h e = absurd (none-some e)
found_swap P (s ∷ rest) params h e = elim (Bool-cases (is_same_chain s)) [
  | inl same ↦ (s, h.0, same, sym (some_inj (rw (same, find_destination_in_swaps) at e)))
  | inr other ↦ found_swap P rest params h.1 (rw (other, find_destination_in_swaps) at e)
]

-- The sender, on a chain that swaps know.
abbrev SentBy : Transaction → TransferDestinationParams → Type 0
SentBy t params =
    (swap_chain_from {E = RefundDestinationDetectorError} t.transfer_info.chain
      ≡ ok params.destination_chain)
    × (params.destination_address ≡ t.transfer_info.source_address)
    × (params.destination_asset_id ≡ t.transfer_info.asset_id)

to_sender-SentBy :
    (t : Transaction) (r : Result RefundDestinationDetectorError SwapChainType)
    (params : TransferDestinationParams)
    → to_sender t r ≡ ok params
    → (r ≡ ok params.destination_chain)
      × (params.destination_address ≡ t.transfer_info.source_address)
      × (params.destination_asset_id ≡ t.transfer_info.asset_id)
to_sender-SentBy t (ok chain) params e =
    let same = ok_inj RefundDestinationDetectorError e in
    (
      ap (λ (p : TransferDestinationParams). ok p.destination_chain) same,
      ap (λ (p : TransferDestinationParams). p.destination_address) (sym same),
      ap (λ (p : TransferDestinationParams). p.destination_asset_id) (sym same),
    )
to_sender-SentBy t (err x) params e = absurd (err_ok e)
to_sender-SentBy t panic params e = absurd (panic_ok e)

first_sender :
    (P : Transaction → Type 0) (ts : List Transaction) (params : TransferDestinationParams)
    → All P ts
    → destination_of_first ts ≡ ok params
    → (t : Transaction) × P t × SentBy t params
unfolding destination_of_first
first_sender P [] params h e = absurd (err_ok e)
first_sender P (t ∷ rest) params h e =
    (t, h.0, to_sender-SentBy t (swap_chain_from t.transfer_info.chain) params e)

kept_transfers :
    (lower : String → String) (id : Uuid) (db : Db)
    → All
        (λ (t : Transaction).
          Memᴰ t db.transactions
          × (pays_by_transfer id t ≡ true)
          × (exists
                (λ (s : Swap).
                  str_eq (lower s.request.from_address) (lower t.transfer_info.source_address))
                (swaps_of id db)
              ≡ false))
        (filter_out_swap_transactions lower
          (order_by (λ t. t.created_at) (select (pays_by_transfer id) db.transactions))
          (swaps_of id db))
unfolding filter_out_swap_transactions
kept_transfers lower id db =
    All-select_both (λ (t : Transaction). Memᴰ t db.transactions × (pays_by_transfer id t ≡ true)) _
      _ _ (All-ordered (λ (t : Transaction). t.created_at) (pays_by_transfer id) db.transactions)
      λ t (there, passes) kept. (there, passes, not_true _ kept)
  where
    not_true : (b : Bool) → not b ≡ true → b ≡ false
    not_true b e = ground arith

destination_from-sources :
    (lower : String → String) (r : Refund) (s : Store) (params : TransferDestinationParams)
    → (destination_from lower r (swaps_of r.invoice_id s.db) s).0 ≡ ok params
    → FromSwap r.invoice_id s.db params ⊎ FromTransfer lower r.invoice_id s.db params
unfolding destination_from get_completed_transactions_by_invoice query map_err ◌>>=◌
destination_from-sources lower r s params e =
    elim (Option-cases (find_destination_in_swaps (swaps_of r.invoice_id s.db) true)) [
      | inr (found, f) ↦
          let (w, (there, passes), same, is) =
            found_swap (λ (w : Swap). Memᴰ w s.db.swaps × (pays_by_swap r.invoice_id w ≡ true))
              (swaps_of r.invoice_id s.db) found
              (All-ordered (λ (w : Swap). w.created_at) (pays_by_swap r.invoice_id) s.db.swaps) f in
          inl (
            w,
            there,
            pays_by_swap-SwapOf r.invoice_id w passes,
            one_chain w same,
            ap (λ (p : TransferDestinationParams). p.destination_address)
                (from_source w found is f),
            ap (λ (p : TransferDestinationParams). p.destination_chain) (from_source w found is f),
            ap (λ (p : TransferDestinationParams). p.destination_asset_id)
                (from_source w found is f),
          )
      | inl f ↦ elim (Bool-cases (s.env.faulty s.calls)) [
        | inl bad ↦ absurd (err_ok (rw (f, destination_from, bad) at e))
        | inr good ↦
            let (t, (there, passes, apart), (chain, address, asset)) =
              first_sender _ _ params (kept_transfers lower r.invoice_id s.db)
                (rw (f, destination_from, good) at e) in
            inr (
              t,
              there,
              pays_by_transfer-TransferOf r.invoice_id t passes,
              apart,
              chain,
              address,
              asset,
            )
      ]
    ]
  where
    from_source :
        (w : Swap) (found : TransferDestinationParams)
        → found ≡ params_of_swap w
        → find_destination_in_swaps (swaps_of r.invoice_id s.db) true ≡ some found
        → params ≡ params_of_swap w
    from_source w found is f =
        sym (ok_inj RefundDestinationDetectorError (rw (f, destination_from) at e)) ∙ is

-- When `find_refund_destination` succeeds, the destination is the source of a completed incoming
-- swap of the refund's invoice on one chain, or the sender of a completed incoming transaction of
-- the invoice who is not the source of any of its completed incoming swaps.
pub find_refund_destination-sources :
    (lower : String → String) (r : Refund) (s : Store) (params : TransferDestinationParams)
    → (find_refund_destination lower r s).0 ≡ ok params
    → FromSwap r.invoice_id s.db params ⊎ FromTransfer lower r.invoice_id s.db params
unfolding find_refund_destination get_completed_incoming_swaps_by_invoice query map_err ◌>>=◌
find_refund_destination-sources lower r s params e = elim (Bool-cases (s.env.faulty s.calls)) [
  | inl bad ↦ absurd (err_ok (rw bad at e))
  | inr good ↦ destination_from-sources lower r (tick s) params (rw good at e)
]

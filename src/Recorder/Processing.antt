-- ===== src/Recorder/Processing.antt =====
-- `process_invoice_transaction` of daemon/src/chain/transactions_recorder.rs: its status and
-- outcomes.
use kalatori.Dao.Transactions.{create_transaction}
use kalatori.Dao.Store.Triples.{Ensures, transaction_rolls_back}
use kalatori.Dao.Store.{Store, map_err, now, query, transaction, ◌>>=◌}
use kalatori.Recorder.Storing.{Stored, Ensures-store_transaction, Ready, is_known}
use kalatori.Registry.{Registry, remove_invoice, update_filled_amount}
use kalatori.Common.Int.{◌+ℤ◌, ◌-ℤ◌, ◌≤ℤ◌, ◌<ℤ◌, ltb_ℤ}
use kalatori.Types.Invoice.{
  Decimal, InvoiceStatus, is_final, Invoice, InvoiceWithReceivedAmount, over_paid, paid,
  partially_paid,
}
use kalatori.Types.Transaction.{IncomingTransaction}
use kalatori.Recorder.{
  TransactionsRecorderError, paid_status, Processed, store_transaction, credited,
  process_invoice_transaction, after_store, store_body, dao_transaction_error,
  transaction_duplication,
}
use kalatori.World.{World}
use kalatori.Common.{
  ◌≡◌, ◌↔◌, ◌⊎◌, true, Result, not, ◌&&◌, arith, if◌then◌else◌, false, is_ok, ok, refl, inr, err,
  panic, inl, ℕ, suc,
}
use kalatori.Config.{
  get_asset_underpayment_tolerance, get_asset_overpayment_tolerance, PaymentsConfig,
}

-- The inputs of the storing: what the invoice has received with this transaction, and its status.
abbrev pub total_with : InvoiceWithReceivedAmount → IncomingTransaction → Decimal
total_with r t = r.total_received_amount +ℤ t.transfer_info.amount

abbrev pub status_with :
    PaymentsConfig → InvoiceWithReceivedAmount → IncomingTransaction → InvoiceStatus
status_with config r t = paid_status config r.invoice (total_with r t)

abbrev pub result_of : Processed → Result TransactionsRecorderError (Unit {0})
result_of (a, r, w) = a

abbrev pub record_of : Processed → InvoiceWithReceivedAmount
record_of (a, r, w) = r

abbrev pub world_after : Processed → World
world_after (a, r, w) = w

abbrev pub min_paid : PaymentsConfig → Invoice → Decimal
min_paid config i = i.amount -ℤ get_asset_underpayment_tolerance config i.chain i.asset_id

abbrev pub max_paid : PaymentsConfig → Invoice → Decimal
max_paid config i = i.amount +ℤ get_asset_overpayment_tolerance config i.chain i.asset_id

-- The choice between the three statuses, by the two bounds.
abbrev chosen : Decimal → Decimal → Decimal → InvoiceStatus
chosen low high u =
    if not (ltb_ℤ u low) && not (ltb_ℤ high u)
    then paid
    else if ltb_ℤ u low
    then partially_paid
    else over_paid

chosen_paid : (low high u : Decimal) → (chosen low high u ≡ paid) ↔ (low ≤ℤ u × u ≤ℤ high)
chosen_paid low high u = ground arith

chosen_partially : (low high u : Decimal) → (chosen low high u ≡ partially_paid) ↔ (u <ℤ low)
chosen_partially low high u = ground arith

chosen_over : (low high u : Decimal) → (chosen low high u ≡ over_paid) ↔ (low ≤ℤ u × high <ℤ u)
chosen_over low high u = ground arith

-- The new status is `Paid` exactly within the tolerances, `PartiallyPaid` exactly below them, and
-- `OverPaid` exactly above them.
pub paid_status-thresholds :
    (config : PaymentsConfig) (i : Invoice) (u : Decimal)
    → ((paid_status config i u ≡ paid) ↔ (min_paid config i ≤ℤ u × u ≤ℤ max_paid config i))
      × ((paid_status config i u ≡ partially_paid) ↔ (u <ℤ min_paid config i))
      × ((paid_status config i u ≡ over_paid) ↔ (min_paid config i ≤ℤ u × max_paid config i <ℤ u))
unfolding paid_status
paid_status-thresholds config i u = (
  chosen_paid (min_paid config i) (max_paid config i) u,
  chosen_partially (min_paid config i) (max_paid config i) u,
  chosen_over (min_paid config i) (max_paid config i) u,
)

pub paid_status-cases :
    (config : PaymentsConfig) (i : Invoice) (u : Decimal)
    → (is_final (paid_status config i u) ≡ true) ⊎ (paid_status config i u ≡ partially_paid)
unfolding paid_status
paid_status-cases config i u = ground arith

-- What the registry holds after a success.
abbrev pub registry_after :
    InvoiceWithReceivedAmount → InvoiceStatus → Decimal → Registry → Registry
registry_after r status total reg =
    if is_final status
    then remove_invoice r.invoice.id reg
    else update_filled_amount r.invoice.id total status reg

-- A success with a given status and total: the result, the tables, the caller's record and the
-- registry.
abbrev CompletedAs :
    PaymentsConfig
    → InvoiceWithReceivedAmount
    → IncomingTransaction
    → World
    → InvoiceStatus
    → Decimal
    → Processed
    → Type 0
CompletedAs config r t w status total p =
    (result_of p ≡ ok tt)
    × Stored config t status total w.store.db (world_after p).store.db
    × (record_of p ≡ credited r status total)
    × ((world_after p).registry ≡ registry_after r status total w.registry)

abbrev pub Completed :
    PaymentsConfig → InvoiceWithReceivedAmount → IncomingTransaction → World → Processed → Type 0
Completed config r t w = CompletedAs config r t w (status_with config r t) (total_with r t)

-- Nothing has changed but the number of calls.
abbrev pub Untouched : InvoiceWithReceivedAmount → World → Processed → Type 0
Untouched r w p =
    (is_ok (result_of p) ≡ false)
    × ((world_after p).store.db ≡ w.store.db)
    × (record_of p ≡ r)
    × ((world_after p).registry ≡ w.registry)

after_store-outcomes :
    (config : PaymentsConfig) (r : InvoiceWithReceivedAmount) (t : IncomingTransaction) (w : World)
    (status : InvoiceStatus) (total : Decimal)
    → (is_final status ≡ true) ⊎ (status ≡ partially_paid)
    → (q : Result TransactionsRecorderError (Unit {0}) × Store)
    → Ensures w.store.env
        (¬ Ready config t status w.store)
        (λ _ new. Stored config t status total w.store.db new)
        q
    → (is_ok q.0 ≡ false → q.1.db ≡ w.store.db)
    → CompletedAs config r t w status total
        (after_store r status total (record w { store = q.1 }) q.0)
      ⊎ (Untouched r w (after_store r status total (record w { store = q.1 }) q.0)
          × ¬ Ready config t status w.store)
unfolding after_store
after_store-outcomes config r t w status total (inl f) (ok u, s) (e, stored) back =
    rw f (inl (refl, stored, refl, refl))
after_store-outcomes config r t w status total (inr f) (ok u, s) (e, stored) back =
    rw f (inl (refl, rw f at stored, refl, refl))
after_store-outcomes config r t w status total c (err x, s) stuck back =
    inr ((refl, back refl, refl, refl), stuck)
after_store-outcomes config r t w status total c (panic, s) stuck back =
    inr ((refl, back refl, refl, refl), stuck)

pub process-outcomes :
    (config : PaymentsConfig) (r : InvoiceWithReceivedAmount) (t : IncomingTransaction) (w : World)
    → Completed config r t w (process_invoice_transaction config r t w)
      ⊎ (Untouched r w (process_invoice_transaction config r t w)
          × ¬ Ready config t (status_with config r t) w.store)
unfolding process_invoice_transaction store_transaction
process-outcomes config r t w =
    after_store-outcomes config r t w (status_with config r t) (total_with r t)
      (paid_status-cases config r.invoice (total_with r t))
      (store_transaction config t (status_with config r t) (total_with r t) w.store)
      (Ensures-store_transaction config t (status_with config r t) w.store (total_with r t))
      (λ h.
        transaction_rolls_back dao_transaction_error dao_transaction_error
          (store_body config t (status_with config r t) (total_with r t)) w.store h)

-- When the engine does not fail, the transaction is new, the invoice's row may take the new status
-- and, for a final status, a recipient is configured for a chain that payouts know, and the new ids
-- are new, `process_invoice_transaction` succeeds: the transaction is appended, the status updated,
-- the payout, refund and event of the status added, and the registry and the caller's record
-- follow.
pub process-completes :
    (config : PaymentsConfig) (r : InvoiceWithReceivedAmount) (t : IncomingTransaction) (w : World)
    → Ready config t (status_with config r t) w.store
    → Completed config r t w (process_invoice_transaction config r t w)
process-completes config r t w ready = elim (process-outcomes config r t w) [
  | inl done ↦ done
  | inr stuck ↦ absurd (stuck.1 ready)
]

-- `process_invoice_transaction` either completes or, whatever fails on the way, reports it and
-- leaves the tables, the caller's record and the registry as they were.
pub process-all_or_nothing :
    (config : PaymentsConfig) (r : InvoiceWithReceivedAmount) (t : IncomingTransaction) (w : World)
    → Completed config r t w (process_invoice_transaction config r t w)
      ⊎ Untouched r w (process_invoice_transaction config r t w)
process-all_or_nothing config r t w = elim (process-outcomes config r t w) [
  | inl done ↦ inl done
  | inr stuck ↦ inr stuck.0
]

-- A transaction whose id, or whose place on the chain, is in the table already is refused as a
-- duplicate when the engine does not fail, and nothing changes.
pub process-duplicate :
    (config : PaymentsConfig) (r : InvoiceWithReceivedAmount) (t : IncomingTransaction) (w : World)
    → ((n : ℕ) → w.store.env.faulty n ≡ false)
    → is_known t w.store.db.transactions ≡ true
    → (result_of (process_invoice_transaction config r t w)
        ≡ err (transaction_duplication t.transfer_info.chain t.transaction_id))
      × Untouched r w (process_invoice_transaction config r t w)
unfolding process_invoice_transaction store_transaction after_store store_body transaction ◌>>=◌ now
    map_err create_transaction query
process-duplicate config r t w quiet known =
    rw (quiet w.store.calls, quiet (suc (suc w.store.calls)), known)
      (refl, (refl, refl, refl, refl))

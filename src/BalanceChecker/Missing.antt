-- ===== src/BalanceChecker/Missing.antt =====
-- The state through the loop of daemon/src/balance_checker.rs that stores what may be missing.
use kalatori.Dao.Effects.{with_status}
use kalatori.Types.Invoice.{InvoiceWithReceivedAmount, is_final}
use kalatori.Types.Transaction.{Transaction, IncomingTransaction, from_incoming}
use kalatori.Dao.Store.{map_err, query, transaction, Db, ◌>>=◌, now}
use kalatori.Dao.Transactions.{create_transaction, same_coordinates}
use kalatori.Ledger.Tracking.{
  same_tables-IsSound, process_invoice_transaction-IsSound, process_invoice_transaction-Entry,
}
use kalatori.Ledger.Recording.{Lent, Outcome-keeps}
use kalatori.Recorder.Storing.{is_known, booked}
use kalatori.Recorder.Processing.{
  record_of, world_after, Untouched, total_with, status_with, process-all_or_nothing,
}
use kalatori.Registry.{get_invoice}
use kalatori.World.{World}
use kalatori.Common.{
  suc, ◌≤◌, ◌≡◌, refl, sym, ap, ◌∙◌, subst, ◌⊎◌, inl, inr, Bool, true, false, not, none, some, List,
  [], ◌∷◌, arith, Bool-cases, or_false, length, select, exists, All, ℕ, ◌||◌, ◌++◌, ◌==◌,
  exists-append,
}
use kalatori.Ledger.{Entry, IsSound}
use kalatori.Config.{PaymentsConfig}
use kalatori.Recorder.{
  store_body, store_transaction, Processed, after_store, process_invoice_transaction,
}
use kalatori.Common.{ok, err, panic}
use kalatori.BalanceChecker.{Checked, store_transactions, next_transaction}

abbrev pub checked_world : Checked → World
checked_world (a, r, w) = w

abbrev pub lent_record : Checked → InvoiceWithReceivedAmount
lent_record (a, r, w) = r

-- A sound state, in which the record knows what came in for its invoice unless that is paid.
abbrev pub Known : InvoiceWithReceivedAmount → World → Type 0
Known r w = IsSound w × (is_final r.invoice.status ≡ false → Entry w.store.db r.invoice.id r)

-- The transactions that the table does not have.
abbrev pub missing : List Transaction → List IncomingTransaction → List IncomingTransaction
missing rows = select λ t. not (is_known t rows)

not-false : (b : Bool) → not b ≡ false → b ≡ true
not-false b e = ground arith

one_less : (n : ℕ) → suc n ≤ 1 → n ≤ 0
one_less n h = omega arith

pub none_selected :
    {A : Type 0} (p : A → Bool) (xs : List A) → length (select p xs) ≤ 0 → exists p xs ≡ false
none_selected p [] h = refl
none_selected p (x ∷ xs) h = ground (arith, none_selected p xs)

-- A transaction that the table has changes nothing, whatever else fails.
process-known :
    (config : PaymentsConfig) (r : InvoiceWithReceivedAmount) (t : IncomingTransaction) (w : World)
    → is_known t w.store.db.transactions ≡ true
    → Untouched r w (process_invoice_transaction config r t w)
unfolding process_invoice_transaction store_transaction after_store store_body transaction ◌>>=◌ now
    map_err create_transaction query
process-known config r t w known = elim (Bool-cases (w.store.env.faulty w.store.calls)) [
  | inl bad ↦ rw bad (refl, refl, refl, refl)
  | inr good ↦ elim (Bool-cases (w.store.env.faulty (suc (suc w.store.calls)))) [
    | inl bad ↦ rw (good, bad) (refl, refl, refl, refl)
    | inr still ↦ rw (good, still, known) (refl, refl, refl, refl)
  ]
]

-- What holds after a transaction holds after the loop, when the rest of the loop keeps it.
next_transaction-keeps :
    (P : InvoiceWithReceivedAmount → World → Type 0) (p : Processed)
    (next : InvoiceWithReceivedAmount → World → Checked)
    → P (record_of p) (world_after p)
    → P
        (lent_record (next (record_of p) (world_after p)))
        (checked_world (next (record_of p) (world_after p)))
    → P (lent_record (next_transaction p next)) (checked_world (next_transaction p next))
next_transaction-keeps P (ok u, r, w) next now_holds later = later
next_transaction-keeps P (err e, r, w) next now_holds later = later
next_transaction-keeps P (panic, r, w) next now_holds later = now_holds

abbrev Same : InvoiceWithReceivedAmount → World → InvoiceWithReceivedAmount → World → Type 0
Same r w q v = (v.store.db ≡ w.store.db) × (v.registry ≡ w.registry) × (q ≡ r)

pub store_transactions-known :
    (config : PaymentsConfig) (ts : List IncomingTransaction) (r : InvoiceWithReceivedAmount)
    (w : World)
    → exists (λ t. not (is_known t w.store.db.transactions)) ts ≡ false
    → Same r w
        (lent_record (store_transactions config ts r w))
        (checked_world (store_transactions config ts r w))
unfolding store_transactions
store_transactions-known config [] r w h = (refl, refl, refl)
store_transactions-known config (t ∷ ts) r w h =
    let (known, rest) = or_false (not (is_known t w.store.db.transactions)) _ h in
    let p = process_invoice_transaction config r t w in
    let (failed, same_db, same, same_registry) = process-known config r t w (not-false _ known) in
    next_transaction-keeps (Same r w) p (store_transactions config ts)
      (same_db, same_registry, same)
      let later =
          store_transactions-known config ts (record_of p) (world_after p)
            (ap (λ (d : Db). exists (λ u. not (is_known u d.transactions)) ts) same_db ∙ rest) in
        (later.0 ∙ same_db, later.1 ∙ same_registry, later.2 ∙ same)

-- What `Lent` looks at.
Lent-same :
    (v w : World) (r q : InvoiceWithReceivedAmount)
    → v.store.db ≡ w.store.db
    → v.registry ≡ w.registry
    → q ≡ r
    → Lent w r
    → Lent v q
Lent-same v w r q same_db same_registry same lent =
    subst (λ p. Lent v p) (sym same)
      (subst
        (λ reg.
          Entry v.store.db r.invoice.id r
          × ((get_invoice r.invoice.id reg ≡ some r) ⊎ (get_invoice r.invoice.id reg ≡ none)))
        (sym same_registry) (subst (λ db. Entry db r.invoice.id r) (sym same_db) lent.0, lent.1))

Known-Same :
    (r : InvoiceWithReceivedAmount) (w : World) (q : InvoiceWithReceivedAmount) (v : World)
    → Same r w q v
    → Known r w
    → Known q v
Known-Same r w q v (same_db, same_registry, same) known = (
  same_tables-IsSound v w same_db same_registry known.0,
  subst
      (λ (p : InvoiceWithReceivedAmount).
        is_final p.invoice.status ≡ false → Entry v.store.db p.invoice.id p)
      (sym same)
      (subst (λ (d : Db). is_final r.invoice.status ≡ false → Entry d r.invoice.id r) (sym same_db)
        known.1),
)

-- A transaction that is known stays known when rows are appended.
known-append :
    (ts : List IncomingTransaction) (rows : List Transaction) (row : Transaction)
    → exists (λ t. not (is_known t rows)) ts ≡ false
    → exists (λ t. not (is_known t (rows ++ row ∷ []))) ts ≡ false
known-append [] rows row h = refl
known-append (t ∷ ts) rows row h =
    let (known, rest) = or_false (not (is_known t rows)) _ h in
    rw
      (
        exists-append
            (λ u.
              (u.id == t.id)
              || same_coordinates t.transfer_info.chain t.transaction_id u.transfer_info.chain
                  u.transaction_id)
            rows row,
        not-false _ known,
        known-append ts rows row rest,
      )
      refl

known_after :
    (config : PaymentsConfig) (ts : List IncomingTransaction) (r : InvoiceWithReceivedAmount)
    (t : IncomingTransaction) (w : World)
    → exists (λ u. not (is_known u w.store.db.transactions)) ts ≡ false
    → exists
        (λ u. not (
          is_known u
            (world_after (process_invoice_transaction config r t w)).store.db.transactions))
        ts
      ≡ false
known_after config ts r t w h = elim (process-all_or_nothing config r t w) [
  | inl (done, (row, time, changed, found, allowed, o), credit, registered) ↦
      let (inv, txs) =
        Outcome-keeps config (with_status (status_with config r t) changed row) (total_with r t)
          (booked t (status_with config r t) time changed w.store.db)
          (world_after (process_invoice_transaction config r t w)).store.db (status_with config r t)
          o in
      rw txs (known-append ts w.store.db.transactions (from_incoming time t) h)
  | inr (failed, same_db, same, same_registry) ↦ rw same_db h
]

-- When the state is sound, the record is lent by it, the transactions are for its invoice, and the
-- table lacks one of them at most, the loop leaves a sound state, whatever fails on the way, and a
-- record that knows what came in for its invoice unless that is paid.
pub store_transactions-IsSound :
    (config : PaymentsConfig) (ts : List IncomingTransaction) (r : InvoiceWithReceivedAmount)
    (w : World)
    → IsSound w
    → Lent w r
    → All (λ t. t.invoice_id ≡ r.invoice.id) ts
    → length (missing w.store.db.transactions ts) ≤ 1
    → Known
        (lent_record (store_transactions config ts r w))
        (checked_world (store_transactions config ts r w))
unfolding store_transactions
store_transactions-IsSound config [] r w sound lent own few = (sound, λ _. lent.0)
store_transactions-IsSound config (t ∷ ts) r w sound lent own few =
    let p = process_invoice_transaction config r t w in
    let now_sound = process_invoice_transaction-IsSound config r t w sound (lent, own.0) in
    let known_now = process_invoice_transaction-Entry config r t w sound (lent, own.0) in
    next_transaction-keeps Known p (store_transactions config ts) (now_sound, known_now)
      (elim (Bool-cases (is_known t w.store.db.transactions)) [
        | inl known ↦
            let (failed, same_db, same, same_registry) = process-known config r t w known in
            store_transactions-IsSound config ts (record_of p) (world_after p) now_sound
              (Lent-same (world_after p) w r (record_of p) same_db same_registry same lent)
              (subst (λ (q : InvoiceWithReceivedAmount). All (λ u. u.invoice_id ≡ q.invoice.id) ts)
                (sym same) own.1)
              (subst (λ (d : Db). length (missing d.transactions ts) ≤ 1) (sym same_db)
                (rw known at few))
        | inr new ↦
            let (same_db, same_registry, same) =
              store_transactions-known config ts (record_of p) (world_after p)
                (known_after config ts r t w (none_selected _ ts (one_less _ (rw new at few)))) in
            Known-Same (record_of p) (world_after p)
              (lent_record (store_transactions config ts (record_of p) (world_after p)))
              (checked_world (store_transactions config ts (record_of p) (world_after p)))
              (same_db, same_registry, same) (now_sound, known_now)
      ])

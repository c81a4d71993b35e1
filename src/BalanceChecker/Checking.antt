-- ===== src/BalanceChecker/Checking.antt =====
-- The state through `check_invoice_balance` of daemon/src/balance_checker.rs.
use kalatori.Common.Int.{eq_ℤ, sum_ℤ}
use kalatori.Types.Invoice.{Uuid, Invoice, InvoiceWithReceivedAmount}
use kalatori.Types.Transaction.{Transaction, IncomingTransaction}
use kalatori.Dao.Invoices.{has_id, received_for, get_invoice_with_received_amount_by_id}
use kalatori.Ledger.Tracking.{same_tables-IsSound}
use kalatori.Ledger.Recording.{Lent}
use kalatori.BalanceChecker.Missing.{
  checked_world, lent_record, Known, missing, store_transactions-IsSound,
}
use kalatori.BalanceChecker.{
  BalanceCheckerError, into_incoming_transaction, get_account_incoming_transfers,
  get_incoming_transactions, Checked, get_and_store_transactions, compare_balance, find_checked,
  checked_record, check_found, check_invoice_balance, EtherscanTransaction, Chains, find_in_dao,
  with_store,
}
use kalatori.Registry.{get_invoice}
use kalatori.World.{World}
use kalatori.Ledger.{is_settled, Entry, IsSound}
use kalatori.Config.{PaymentsConfig}
use kalatori.Common.{
  ok, err, panic, ◌≤◌, String, ◌≡◌, refl, sym, ap, ◌∙◌, subst, inl, inr, false, some, List, [], ◌∷◌,
  map, ==_iff, Bool-cases, Option-cases, none-some, some_inj, length, find, All, find_passes,
  Result, none,
}
use kalatori.Types.Chain.{ChainType}
use kalatori.Dao.Store.{◌>>=◌, map_err, query, Db}

-- What a check leaves: a sound state, and with a success a record that knows what came in for its
-- invoice unless that is paid.
abbrev pub Checks : Result BalanceCheckerError InvoiceWithReceivedAmount × World → Type 0
Checks (ok r, w) = Known r w
Checks (err e, w) = IsSound w
Checks (panic, w) = IsSound w

-- Of the indexer's transfers to the record's address, the table lacks one at most.
abbrev pub Few : Chains → List Transaction → InvoiceWithReceivedAmount → Type 0
Few chains rows r =
    (ts : List IncomingTransaction)
    → get_incoming_transactions chains r ≡ some ts
    → length (missing rows ts) ≤ 1

-- So it is for the record that a check of the invoice finds.
abbrev pub FewFor : Chains → Uuid → World → Type 0
FewFor chains id w =
    (r : InvoiceWithReceivedAmount)
    → (find_checked id w).0 ≡ ok r
    → Few chains w.store.db.transactions r

-- The invoice's row is not settled.
abbrev pub Unsettled : Uuid → World → Type 0
Unsettled id w =
    (row : Invoice)
    → find (has_id id) w.store.db.invoices ≡ some row
    → is_settled row.status ≡ false

own_transactions :
    (id : Uuid) (ts : List EtherscanTransaction)
    → All (λ (t : IncomingTransaction). t.invoice_id ≡ id) (map (into_incoming_transaction id) ts)
own_transactions id [] = tt
own_transactions id (t ∷ ts) = (refl, own_transactions id ts)

fetched-own :
    (chains : Chains) (chain : ChainType) (asset_id address : String) (id : Uuid)
    (ts : List IncomingTransaction)
    → get_account_incoming_transfers chains chain asset_id address id ≡ some ts
    → All (λ t. t.invoice_id ≡ id) ts
unfolding get_account_incoming_transfers
fetched-own chains ChainType.polkadot_asset_hub asset_id address id ts e = absurd (none-some e)
fetched-own chains ChainType.polygon asset_id address id ts e =
    elim (Option-cases (chains.get_account_transfers asset_id address)) [
      | inl f ↦ absurd (none-some (rw (f, get_account_incoming_transfers) at e))
      | inr (all, f) ↦
          subst (All λ t. t.invoice_id ≡ id)
            (some_inj (rw (f, get_account_incoming_transfers) at e)) (own_transactions id _)
    ]

incoming-own :
    (chains : Chains) (r : InvoiceWithReceivedAmount) (ts : List IncomingTransaction)
    → get_incoming_transactions chains r ≡ some ts
    → All (λ t. t.invoice_id ≡ r.invoice.id) ts
unfolding get_incoming_transactions
incoming-own chains r ts e = go r.invoice.chain e
  where
    go :
        (c : ChainType)
        → (elim c [
          | ChainType.polkadot_asset_hub ↦ some []
          | ChainType.polygon ↦
              get_account_incoming_transfers chains ChainType.polygon r.invoice.asset_id
                r.invoice.payment_address r.invoice.id
        ])
          ≡ some ts
        → All (λ t. t.invoice_id ≡ r.invoice.id) ts
    go ChainType.polkadot_asset_hub h = subst (All λ t. t.invoice_id ≡ r.invoice.id) (some_inj h) tt
    go ChainType.polygon h = fetched-own chains ChainType.polygon _ _ _ ts h

module _ (config : PaymentsConfig) (chains : Chains) (r : InvoiceWithReceivedAmount) (w : World)
    (sound : IsSound w) (lent : Lent w r) (few : Few chains w.store.db.transactions r) where
  get_and_store_transactions-IsSound :
      Known
        (lent_record (get_and_store_transactions config chains r w))
        (checked_world (get_and_store_transactions config chains r w))
  unfolding get_and_store_transactions
  get_and_store_transactions-IsSound = elim (Option-cases (get_incoming_transactions chains r)) [
    | inl e ↦ rw (e, lent_record, checked_world) (sound, λ _. lent.0)
    | inr (ts, e) ↦
        rw (e, lent_record, checked_world)
          (elim (Bool-cases (
            eq_ℤ r.total_received_amount
              (sum_ℤ (map (λ (t : IncomingTransaction). t.transfer_info.amount) ts)))) [
                | inl same ↦ rw (same, lent_record, checked_world) (sound, λ _. lent.0)
                | inr other ↦
                    rw (other, lent_record, checked_world)
                      (store_transactions-IsSound config ts r w sound lent
                        (incoming-own chains r ts e) (few ts e))
              ])
  ]

  compare_balance-IsSound :
      Known
        (lent_record (compare_balance config chains r w))
        (checked_world (compare_balance config chains r w))
  unfolding compare_balance
  compare_balance-IsSound =
      elim (Option-cases
        (chains.fetch_asset_balance r.invoice.chain r.invoice.asset_id r.invoice.payment_address)) [
          | inl e ↦ rw (e, lent_record, checked_world) (sound, λ _. lent.0)
          | inr (balance, e) ↦
              rw (e, lent_record, checked_world)
                (elim (Bool-cases (eq_ℤ r.total_received_amount balance)) [
                  | inl same ↦ rw (same, lent_record, checked_world) (sound, λ _. lent.0)
                  | inr other ↦
                      rw (other, lent_record, checked_world) get_and_store_transactions-IsSound
                ])
        ]

checked_record-Checks :
    (c : Checked) → Known (lent_record c) (checked_world c) → Checks (checked_record c)
checked_record-Checks (ok u, r, w) known = known
checked_record-Checks (err e, r, w) known = known.0
checked_record-Checks (panic, r, w) known = known.0

-- What is found is lent by the world, whose tables are as they were.
abbrev Finds : Uuid → World → Result BalanceCheckerError InvoiceWithReceivedAmount × World → Type 0
Finds id w (ok r, v) =
    (v.store.db ≡ w.store.db) × (v.registry ≡ w.registry) × Lent v r × (r.invoice.id ≡ id)
Finds id w (err e, v) = (v.store.db ≡ w.store.db) × (v.registry ≡ w.registry)
Finds id w (panic, v) = (v.store.db ≡ w.store.db) × (v.registry ≡ w.registry)

-- The record of the database, when the registry has none.
find_in_dao-Finds :
    (id : Uuid) (w : World)
    → get_invoice id w.registry ≡ none
    → ((row : Invoice)
        → find (has_id id) w.store.db.invoices ≡ some row
        → is_settled row.status ≡ false)
    → Finds id w (with_store w (find_in_dao id w.store))
unfolding find_in_dao get_invoice_with_received_amount_by_id query map_err ◌>>=◌
find_in_dao-Finds id w e unsettled = elim (Bool-cases (w.store.env.faulty w.store.calls)) [
  | inl bad ↦ rw (bad, Finds, with_store) (refl, refl)
  | inr good ↦ elim (Option-cases (find (has_id id) w.store.db.invoices)) [
    | inl f ↦ rw (good, f, Finds, with_store) (refl, refl)
    | inr (row, f) ↦
        let same : row.id ≡ id = (==_iff row.id id).0 (find_passes (has_id id) _ row f) in
        rw (good, f, Finds, with_store)
          (
            refl,
            refl,
            (
              (
                refl,
                ap (λ k. received_for k w.store.db.transactions) (sym same),
                λ other found.
                    unsettled other
                      (ap (λ k. find (has_id k) w.store.db.invoices) (sym same) ∙ found),
              ),
              inr (ap (λ k. get_invoice k w.registry) same ∙ e),
            ),
            same,
          )
  ]
]

pub find_checked-some :
    (id : Uuid) (w : World) (r : InvoiceWithReceivedAmount)
    → get_invoice id w.registry ≡ some r
    → (ok r, w) ≡ find_checked id w
unfolding find_checked
find_checked-some id w r e = rw (e, find_checked) refl

pub find_checked-none :
    (id : Uuid) (w : World)
    → get_invoice id w.registry ≡ none
    → with_store w (find_in_dao id w.store) ≡ find_checked id w
unfolding find_checked
find_checked-none id w e = rw (e, find_checked) refl

find_checked-Finds :
    (id : Uuid) (w : World)
    → IsSound w
    → ((row : Invoice)
        → find (has_id id) w.store.db.invoices ≡ some row
        → is_settled row.status ≡ false)
    → Finds id w (find_checked id w)
find_checked-Finds id w sound unsettled = elim (Option-cases (get_invoice id w.registry)) [
  | inr (r, e) ↦
      let entry = sound.in_sync id r e in
      subst (Finds id w) (find_checked-some id w r e) (
        refl,
        refl,
        (
          subst (λ k. Entry w.store.db k r) (sym entry.0) entry,
          inl (ap (λ k. get_invoice k w.registry) entry.0 ∙ e),
        ),
        entry.0,
      )
  | inl e ↦ subst (Finds id w) (find_checked-none id w e) (find_in_dao-Finds id w e unsettled)
]

check_found-Checks :
    (config : PaymentsConfig) (chains : Chains) (id : Uuid) (w : World)
    (found : Result BalanceCheckerError InvoiceWithReceivedAmount × World)
    → IsSound w
    → ((r : InvoiceWithReceivedAmount) → found.0 ≡ ok r → Few chains w.store.db.transactions r)
    → Finds id w found
    → Checks (check_found config chains found)
check_found-Checks config chains id w (ok r, v) sound few (same_db, same_registry, lent, own) =
    checked_record-Checks (compare_balance config chains r v) (
      compare_balance-IsSound config chains r v
        (same_tables-IsSound v w same_db same_registry sound) lent
        (subst (λ (d : Db). Few chains d.transactions r) (sym same_db) (few r refl)))
check_found-Checks config chains id w (err e, v) sound few (same_db, same_registry) =
    same_tables-IsSound v w same_db same_registry sound
check_found-Checks config chains id w (panic, v) sound few (same_db, same_registry) =
    same_tables-IsSound v w same_db same_registry sound

-- When the state is sound, the invoice's row is not settled, and of the indexer's transfers to the
-- address of the record that the check finds the table lacks one at most, `check_invoice_balance`
-- leaves a sound state, whatever it returns, and a record that it returns knows what came in for
-- its invoice unless that is paid.
pub check_invoice_balance-IsSound :
    (config : PaymentsConfig) (chains : Chains) (id : Uuid) (w : World)
    → IsSound w
    → Unsettled id w
    → FewFor chains id w
    → Checks (check_invoice_balance config chains id w)
unfolding check_invoice_balance
check_invoice_balance-IsSound config chains id w sound unsettled few =
    check_found-Checks config chains id w (find_checked id w) sound few
      (find_checked-Finds id w sound unsettled)

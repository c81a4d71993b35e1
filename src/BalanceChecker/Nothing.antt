-- ===== src/BalanceChecker/Nothing.antt =====
-- A check of daemon/src/balance_checker.rs that finds nothing new.
use kalatori.Common.{
  ◌≤◌, ◌≡◌, refl, sym, ◌∙◌, subst, inl, inr, some, List, map, Bool-cases, Option-cases, length,
  find, Result, ok,
}
use kalatori.Common.Int.{eq_ℤ, sum_ℤ}
use kalatori.Types.Invoice.{Uuid, InvoiceWithReceivedAmount}
use kalatori.Types.Transaction.{IncomingTransaction}
use kalatori.Dao.Invoices.{get_invoice_with_received_amount_by_id, has_id}
use kalatori.BalanceChecker.Missing.{
  checked_world, missing, store_transactions-known, none_selected,
}
use kalatori.BalanceChecker.{
  BalanceCheckerError, get_incoming_transactions, Checked, get_and_store_transactions,
  compare_balance, find_checked, checked_record, check_found, check_invoice_balance, Chains,
  find_in_dao, with_store,
}
use kalatori.BalanceChecker.Checking.{find_checked-some, find_checked-none}
use kalatori.Common.{err, panic}
use kalatori.World.{World}
use kalatori.Config.{PaymentsConfig}
use kalatori.Registry.{get_invoice}
use kalatori.Dao.Store.{◌>>=◌, map_err, query, Db}

-- The table has all of the indexer's transfers to the address of the record that a check finds.
abbrev pub NoneFor : Chains → Uuid → World → Type 0
NoneFor chains id w =
    (r : InvoiceWithReceivedAmount) (ts : List IncomingTransaction)
    → (find_checked id w).0 ≡ ok r
    → get_incoming_transactions chains r ≡ some ts
    → length (missing w.store.db.transactions ts) ≤ 0

abbrev pub SameTables : World → World → Type 0
SameTables w v = (v.store.db ≡ w.store.db) × (v.registry ≡ w.registry)

module _ (config : PaymentsConfig) (chains : Chains) (r : InvoiceWithReceivedAmount) (w : World)
    (nothing : (ts : List IncomingTransaction)
      → get_incoming_transactions chains r ≡ some ts
      → length (missing w.store.db.transactions ts) ≤ 0) where
  stored-SameTables : SameTables w (checked_world (get_and_store_transactions config chains r w))
  unfolding get_and_store_transactions
  stored-SameTables = elim (Option-cases (get_incoming_transactions chains r)) [
    | inl e ↦ rw (e, checked_world) (refl, refl)
    | inr (ts, e) ↦
        rw (e, checked_world)
          (elim (Bool-cases (
            eq_ℤ r.total_received_amount
              (sum_ℤ (map (λ (t : IncomingTransaction). t.transfer_info.amount) ts)))) [
                | inl same ↦ rw (same, checked_world) (refl, refl)
                | inr other ↦
                    rw (other, checked_world)
                      (let (d, g, _) =
                          store_transactions-known config ts r w
                            (none_selected _ ts (nothing ts e)) in
                        (d, g))
              ])
  ]

  compared-SameTables : SameTables w (checked_world (compare_balance config chains r w))
  unfolding compare_balance
  compared-SameTables =
      elim (Option-cases
        (chains.fetch_asset_balance r.invoice.chain r.invoice.asset_id r.invoice.payment_address)) [
          | inl e ↦ rw (e, checked_world) (refl, refl)
          | inr (balance, e) ↦
              rw (e, checked_world)
                (elim (Bool-cases (eq_ℤ r.total_received_amount balance)) [
                  | inl same ↦ rw (same, checked_world) (refl, refl)
                  | inr other ↦ rw (other, checked_world) stored-SameTables
                ])
        ]

checked-SameTables :
    (c : Checked) (w : World) → SameTables w (checked_world c) → SameTables w (checked_record c).1
checked-SameTables (ok u, r, v) w same = same
checked-SameTables (err e, r, v) w same = same
checked-SameTables (panic, r, v) w same = same

dao-SameTables : (id : Uuid) (w : World) → SameTables w (with_store w (find_in_dao id w.store)).1
unfolding find_in_dao get_invoice_with_received_amount_by_id query map_err ◌>>=◌
dao-SameTables id w = elim (Bool-cases (w.store.env.faulty w.store.calls)) [
  | inl bad ↦ rw (bad, with_store) (refl, refl)
  | inr good ↦ elim (Option-cases (find (has_id id) w.store.db.invoices)) [
    | inl f ↦ rw (good, f, with_store) (refl, refl)
    | inr (row, f) ↦ rw (good, f, with_store) (refl, refl)
  ]
]

found-SameTables : (id : Uuid) (w : World) → SameTables w (find_checked id w).1
found-SameTables id w = elim (Option-cases (get_invoice id w.registry)) [
  | inr (r, e) ↦ subst (λ p. SameTables w p.1) (find_checked-some id w r e) (refl, refl)
  | inl e ↦ subst (λ p. SameTables w p.1) (find_checked-none id w e) (dao-SameTables id w)
]

checked_found-SameTables :
    (config : PaymentsConfig) (chains : Chains) (w : World)
    (found : Result BalanceCheckerError InvoiceWithReceivedAmount × World)
    → ((r : InvoiceWithReceivedAmount) (ts : List IncomingTransaction)
        → found.0 ≡ ok r
        → get_incoming_transactions chains r ≡ some ts
        → length (missing w.store.db.transactions ts) ≤ 0)
    → SameTables w found.1
    → SameTables w (check_found config chains found).1
checked_found-SameTables config chains w (ok r, v) nothing (same_db, same_registry) =
    let (d, g) = checked-SameTables (compare_balance config chains r v) v (
      compared-SameTables config chains r v (λ ts e.
        subst (λ (d : Db). length (missing d.transactions ts) ≤ 0) (sym same_db)
          (nothing r ts refl e))) in
    (d ∙ same_db, g ∙ same_registry)
checked_found-SameTables config chains w (err e, v) nothing same = same
checked_found-SameTables config chains w (panic, v) nothing same = same

-- A check that finds no transfer that the table lacks leaves the tables and the registry as they
-- were.
pub check_invoice_balance-known :
    (config : PaymentsConfig) (chains : Chains) (id : Uuid) (w : World)
    → NoneFor chains id w
    → SameTables w (check_invoice_balance config chains id w).1
unfolding check_invoice_balance
check_invoice_balance-known config chains id w nothing =
    checked_found-SameTables config chains w (find_checked id w) nothing (found-SameTables id w)

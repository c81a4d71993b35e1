-- ===== src/AppState/Creating.antt =====
-- The state through `create_invoice` of daemon/src/state.rs.
use kalatori.Ledger.Tracking.{same_tables-IsSound}
use kalatori.Ledger.Sound.{not_due}
use kalatori.Registry.Keys.{add_invoice-Keyed}
use kalatori.Registry.Laws.{get_invoice-add_invoice}
use kalatori.Registry.{get_invoice, add_invoice}
use kalatori.World.{World}
use kalatori.Dao.Store.Triples.{Ensures}
use kalatori.AppState.Inserting.{Unused, Created, create_stored_lem}
use kalatori.Ledger.{sent_out, due, Balanced, Entry, IsSound}
use kalatori.Config.{PaymentsConfig}
use kalatori.Common.{
  ok, err, panic, ◌∷◌, [], ◌≡◌, refl, ◌∙◌, subst, inl, inr, false, ◌++◌, Bool-cases, Option-cases,
  Result, is_ok, sym, ap, ◌⊎◌, Bool, none, some, List, arith, ◌==◌, if◌then◌else◌, ==_iff,
  none-some, some_inj, contrary, find, find_exists,
}
use kalatori.Dao.Store.{Db, Store}
use kalatori.Types.Invoice.{Uuid, Invoice, InvoiceWithReceivedAmount}
use kalatori.Dao.Invoices.{DaoInvoiceError, has_id, received_for}
use kalatori.AppState.{create_invoice, create_stored, CreateInvoiceParams, Directory, after_create}

-- What is found after a row is appended.
find-append :
    (p : Invoice → Bool) (xs : List Invoice) (y : Invoice)
    → find p (xs ++ y ∷ [])
      ≡ elim (find p xs) [ none ↦ (if p y then some y else none) | some x ↦ some x ]
find-append p [] y = refl
find-append p (x ∷ xs) y = ground (arith, find-append p xs y)

module _ (r : InvoiceWithReceivedAmount) (w : World) (new : Db) (sound : IsSound w)
    (unused : Unused r.invoice.id w.store.db) (c : Created r.invoice.id w.store.db r new) where
  -- A row that is found is an old one, or the new one under its id.
  row_of :
      (id : Uuid) (row : Invoice)
      → find (has_id id) new.invoices ≡ some row
      → (find (has_id id) w.store.db.invoices ≡ some row)
        ⊎ ((r.invoice.id ≡ id) × (row ≡ r.invoice))
  row_of id row found =
      let now_found =
        sym (find-append (has_id id) w.store.db.invoices r.invoice)
        ∙ ap (find (has_id id)) (sym c.rows)
        ∙ found in
      elim (Option-cases (find (has_id id) w.store.db.invoices)) [
        | inr (old, e) ↦ inl (e ∙ (rw e at now_found))
        | inl e ↦ elim (Bool-cases (r.invoice.id == id)) [
          | inl f ↦ inr ((==_iff r.invoice.id id).0 f, sym (some_inj (rw (e, f) at now_found)))
          | inr f ↦ absurd (none-some (rw (e, f) at now_found))
        ]
      ]

  not_old : (row : Invoice) → find (has_id r.invoice.id) w.store.db.invoices ≡ some row → ⊥
  not_old row found =
      contrary _ (find_exists (has_id r.invoice.id) w.store.db.invoices row found) c.was_free

  created-Entry :
      (id : Uuid) (q : InvoiceWithReceivedAmount)
      → get_invoice id (add_invoice r w.registry) ≡ some q
      → Entry new id q
  created-Entry id q got =
      let now_got = sym (get_invoice-add_invoice id r w.registry) ∙ got in
      elim (Bool-cases (r.invoice.id == id)) [
        | inl e ↦
            subst (Entry new id) (some_inj (rw e at now_got))
              (own_Entry ((==_iff r.invoice.id id).0 e))
        | inr e ↦ old_Entry e (rw e at now_got)
      ]
    where
      own_Entry : r.invoice.id ≡ id → Entry new id r
      own_Entry e = (
        e,
        c.nothing_received
            ∙ sym unused.0
            ∙ sym (c.sums r.invoice.id).0
            ∙ ap (λ k. received_for k new.transactions) e,
        λ row found. elim (row_of id row found) [
          | inl old ↦ absurd (not_old row (ap (λ k. find (has_id k) w.store.db.invoices) e ∙ old))
          | inr it ↦ rw (it.1, c.is_waiting) refl
        ],
      )

      old_Entry : (r.invoice.id == id) ≡ false → get_invoice id w.registry ≡ some q → Entry new id q
      old_Entry e old_got =
          let (key, known, unsettled) = sound.in_sync id q old_got in
          (
            key,
            known ∙ sym (c.sums id).0,
            λ row found. elim (row_of id row found) [
              | inl old ↦ unsettled row old
              | inr it ↦ absurd (contrary _ ((==_iff r.invoice.id id).1 it.0) e)
            ],
          )

  created-Balanced : Balanced new
  created-Balanced row id found = elim (row_of id row found) [
    | inl old ↦ (c.sums id).1 ∙ sound.balanced row id old ∙ ap (due row.status) (sym (c.sums id).0)
    | inr (is_id, is_row) ↦
        (c.sums id).1
        ∙ ap (λ k. sent_out k w.store.db) (sym is_id)
        ∙ unused.1
        ∙ sym (not_due row.status _ (rw (is_row, c.is_waiting) refl))
  ]

after_create-IsSound :
    (w : World) (q : Result DaoInvoiceError InvoiceWithReceivedAmount × Store)
    → IsSound w
    → Unused (w.store.env.uuid w.store.calls) w.store.db
    → (is_ok q.0 ≡ false → q.1.db ≡ w.store.db)
    → Ensures w.store.env
        (Unit {0})
        (λ r new. Created (w.store.env.uuid w.store.calls) w.store.db r new)
        q
    → IsSound (after_create w q).1
after_create-IsSound w (ok r, s) sound unused back (same, c) =
    let c' = subst (λ id. Created id w.store.db r s.db) (sym c.own_id) c in
    let unused' = subst (λ id. Unused id w.store.db) (sym c.own_id) unused in
    record {
      keyed = add_invoice-Keyed r w.registry sound.keyed;
      in_sync = λ id q got. created-Entry r w s.db sound unused' c' id q got;
      balanced = created-Balanced r w s.db sound unused' c';
    }
after_create-IsSound w (err e, s) sound unused back p =
    same_tables-IsSound (record w { store = s }) w (back refl) refl sound
after_create-IsSound w (panic, s) sound unused back p =
    same_tables-IsSound (record w { store = s }) w (back refl) refl sound

-- From a sound state in which no money has come in or gone out under the id that is drawn,
-- `create_invoice` leads to a sound state, whatever it returns.
pub create_invoice-IsSound :
    (config : PaymentsConfig) (directory : Directory) (params : CreateInvoiceParams) (w : World)
    → IsSound w
    → Unused (w.store.env.uuid w.store.calls) w.store.db
    → IsSound (create_invoice config directory params w).1
unfolding create_invoice
create_invoice-IsSound config directory params w sound unused =
    let (back, ensured) = create_stored_lem config directory params w.store in
    after_create-IsSound w (create_stored config directory params w.store) sound unused back ensured

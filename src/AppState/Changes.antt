-- ===== src/AppState/Changes.antt =====
-- The state through `update_invoice` and `cancel_invoice_admin` of daemon/src/state.rs.
use kalatori.Ledger.Tracking.{same_tables-IsSound}
use kalatori.Registry.{get_invoice}
use kalatori.Types.Webhook.{InvoiceEventType}
use kalatori.Dao.Store.Triples.{
  Ensures, Ensures-bind, Ensures-query, Ensures-transaction, transaction_rolls_back, Ensures-finish,
  finish_rolls_back, query_rolls_back, bind_leaves,
}
use kalatori.Dao.Store.{
  tick, transaction, Env, Store, ◌>>=◌, now, pure, begin_transaction, within_transaction, finish,
}
use kalatori.Dao.Invoices.{
  DaoInvoiceError, has_id, update_invoice_data, transition_allowed, database_error,
  update_invoice_status,
}
use kalatori.Dao.Effects.{with_status, Moved, Ensures-update_invoice_status}
use kalatori.Ledger.Same.{removed-NoMore}
use kalatori.Registry.Keys.{remove_invoice-Keyed}
use kalatori.World.{World}
use kalatori.Ledger.{is_settled, IsSound}
use kalatori.Config.{PaymentsConfig}
use kalatori.Common.{
  ok, err, panic, ◌≡◌, refl, sym, subst, inl, inr, true, false, arith, Bool-cases, Option-cases,
  find, Result, is_ok,
}
use kalatori.Types.Invoice.{
  waiting, admin_canceled, InvoiceStatus, invoice_status_eq, Invoice, UpdateInvoiceData, Uuid,
  Decimal, with_amount,
}
use kalatori.Dao.Store.{◌>>◌}
use kalatori.AppState.Rewriting.{
  OnlyEvents, Ensures-announce, Rewritten, rewritten, nothing-Rewritten, one_row, settled,
  settled_from, Rewritten-IsSound,
}
use kalatori.AppState.{
  announce, update_body, update_stored, update_invoice, UpdateInvoiceParams, cancel_stored,
  cancel_invoice_admin, total_of, after_begin,
}

-- A row that may be canceled is not settled.
cancelable : (s : InvoiceStatus) → transition_allowed s admin_canceled ≡ true → is_settled s ≡ false
unfolding transition_allowed
cancelable s e = ground arith

Ensures-update_invoice_data :
    (env : Env) (data' : UpdateInvoiceData) (s : Store)
    → s.env ≡ env
    → Ensures env (Unit {0}) (λ _ new. Rewritten s.db new) (update_invoice_data data' s)
unfolding update_invoice_data
Ensures-update_invoice_data env data' s same =
    Ensures-query env (Unit {0}) _ (λ _ _. tt) _ _ s same
      λ time. elim (Option-cases (find (has_id data'.invoice_id) s.db.invoices)) [
        | inl e ↦ rw e tt
        | inr (row, e) ↦ rw e (elim (Bool-cases (invoice_status_eq row.status waiting)) [
          | inl f ↦ rw f (one_row s.db data'.invoice_id _ row (λ _. refl) e refl)
          | inr f ↦ rw f tt
        ])
      ]

Ensures-update_body :
    (env : Env) (config : PaymentsConfig) (data' : UpdateInvoiceData) (s : Store)
    → s.env ≡ env
    → Ensures env (Unit {0}) (λ _ new. Rewritten s.db new) (update_body config data' s)
unfolding update_body
Ensures-update_body env config data' s same =
    Ensures-bind env (Unit {0}) (λ _ new. Rewritten s.db new) _ _ _ s
      (Ensures-update_invoice_data env data' s same)
      λ i s' same' r.
        Ensures-bind env (Unit {0}) (λ _ new. OnlyEvents s'.db new) _ _ _ s'
          (Ensures-announce env config _ _ s' same')
          λ _ s'' same'' events. (same'', rewritten s.db s'.db s''.db r events)

begin_same : (s : Store) → (begin_transaction database_error s).1.db ≡ s.db
unfolding begin_transaction
begin_same s = elim (Bool-cases (s.env.faulty s.calls)) [ inl e ↦ rw e refl | inr e ↦ rw e refl ]

update_fails :
    (id : Uuid) (status : InvoiceStatus) (s : Store)
    → is_ok (update_invoice_status id status s).0 ≡ false
    → (update_invoice_status id status s).1.db ≡ s.db
unfolding update_invoice_status
update_fails id status s h = query_rolls_back database_error _ s h

update_stored-Rewritten :
    (config : PaymentsConfig) (params : UpdateInvoiceParams) (s : Store)
    → Rewritten s.db (update_stored config params s).1.db
unfolding update_stored ◌>>=◌ now
update_stored-Rewritten config params s =
    settled s.db (transaction database_error database_error (update_body config _) (tick s)) s.env
      (Ensures-transaction s.env (Unit {0}) _ (λ _ _. tt) database_error database_error _ (tick s)
        refl (Ensures-update_body s.env config _ (tick (tick s)) refl))
      (λ h. transaction_rolls_back database_error database_error _ (tick s) h)

-- From a sound state, `update_invoice` leads to a sound state, whatever it returns.
pub update_invoice-IsSound :
    (config : PaymentsConfig) (params : UpdateInvoiceParams) (w : World)
    → IsSound w
    → IsSound (update_invoice config params w).1
unfolding update_invoice
update_invoice-IsSound config params w sound =
    Rewritten-IsSound w _ sound sound.keyed (λ _ _ got. got)
      (update_stored-Rewritten config params w.store)

announced_body-Rewritten :
    (config : PaymentsConfig) (id : Uuid) (total : Decimal) (s s' : Store) (i : Invoice)
    → Rewritten s.db s'.db
    → Rewritten s.db
        (within_transaction database_error
          (announce config (with_amount i total) InvoiceEventType.admin_canceled
            >> pure (with_amount i total))
          s').1.db
unfolding within_transaction
announced_body-Rewritten config id total s s' i r =
    let body =
      ◌>>◌ (announce config (with_amount i total) InvoiceEventType.admin_canceled)
        (pure (with_amount i total)) s' in
    settled_from s.db s'.db (finish database_error s'.db body) s'.env r
      (Ensures-finish s'.env (Unit {0}) (λ _ new. OnlyEvents s'.db new) (λ _ _. tt) database_error
        s'.db body
        (Ensures-bind s'.env (Unit {0}) (λ _ new. OnlyEvents s'.db new) _ _ _ s'
          (Ensures-announce s'.env config (with_amount i total) InvoiceEventType.admin_canceled s'
            refl)
          λ _ s'' same events. (same, events)))
      (λ h. finish_rolls_back database_error s'.db body h)

cancel_stored-Rewritten :
    (config : PaymentsConfig) (id : Uuid) (total : Decimal) (s : Store)
    → Rewritten s.db (cancel_stored config id total s).1.db
unfolding cancel_stored
cancel_stored-Rewritten config id total s =
    bind_leaves (Rewritten s.db) (update_invoice_status id admin_canceled) _ s
      (λ i s' e.
        let (same, (row, time, found, allowed, is_row, is_db)) =
          subst (Ensures s.env (Unit {0}) (Moved id admin_canceled s.db)) e (
            Ensures-update_invoice_status s.env (Unit {0}) (λ _ _. tt) s refl id admin_canceled
              (λ _. tt) λ _ _ _. tt) in
        announced_body-Rewritten config id total s s' i (
          subst (Rewritten s.db) (sym is_db) (
            one_row s.db id (with_status admin_canceled time) row (λ _. refl) found
              (sym (cancelable row.status allowed)))))
      (λ h.
        subst (Rewritten s.db) (sym (update_fails id admin_canceled s h)) (nothing-Rewritten s.db))

after_begin-IsSound :
    (config : PaymentsConfig) (id : Uuid) (w : World)
    (q : Result DaoInvoiceError (Unit {0}) × Store)
    → IsSound w
    → q.1.db ≡ w.store.db
    → IsSound (after_begin config id w q).1
after_begin-IsSound config id w (ok u, s) sound same =
    Rewritten-IsSound w _ sound (remove_invoice-Keyed id w.registry sound.keyed)
      (removed-NoMore id w.registry)
      (subst
        (λ db. Rewritten db (cancel_stored config id (total_of (get_invoice id w.registry)) s).1.db)
        same (cancel_stored-Rewritten config id (total_of (get_invoice id w.registry)) s))
after_begin-IsSound config id w (err e, s) sound same =
    same_tables-IsSound (record w { store = s }) w same refl sound
after_begin-IsSound config id w (panic, s) sound same =
    same_tables-IsSound (record w { store = s }) w same refl sound

-- From a sound state, `cancel_invoice_admin` leads to a sound state, whatever fails on the way.
pub cancel_invoice_admin-IsSound :
    (config : PaymentsConfig) (id : Uuid) (w : World)
    → IsSound w
    → IsSound (cancel_invoice_admin config id w).1
unfolding cancel_invoice_admin
cancel_invoice_admin-IsSound config id w sound =
    after_begin-IsSound config id w (begin_transaction database_error w.store) sound
      (begin_same w.store)

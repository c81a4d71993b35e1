-- ===== src/AppState/Inserting.antt =====
-- The row that `create_invoice` of daemon/src/state.rs inserts.
use kalatori.Common.Int.{pos}
use kalatori.Dao.Store.Triples.{
  Ensures, Ensures-bind, Ensures-bind_now, Ensures-query, Ensures-transaction,
  transaction_rolls_back,
}
use kalatori.Ledger.Same.{SameSums, same_sums}
use kalatori.AppState.Rewriting.{OnlyEvents, Ensures-announce}
use kalatori.Ledger.{sent_out}
use kalatori.Config.{PaymentsConfig}
use kalatori.Common.{
  ok, err, panic, ◌∷◌, [], ◌≡◌, refl, ◌∙◌, subst, inl, inr, false, ◌++◌, str_eq, Bool-cases,
  Option-cases, exists, Result, is_ok,
}
use kalatori.Dao.Store.{◌>>=◌, tick, new_uuid, transaction, Db, Env, Store, now}
use kalatori.Types.Invoice.{
  waiting, Uuid, with_amount, InvoiceWithReceivedAmount, CreateInvoiceData,
}
use kalatori.Dao.Invoices.{
  create_invoice as insert_invoice, DaoInvoiceError, has_id, received_for, database_error,
}
use kalatori.AppState.{new_invoice_data, create_body, create_stored, CreateInvoiceParams, Directory}

-- No money has come in or gone out under the id.
abbrev pub Unused : Uuid → Db → Type 0
Unused id db = (received_for id db.transactions ≡ pos 0) × (sent_out id db ≡ pos 0)

-- A waiting row is appended under an id that no row had, and no money has moved.
pub record Created (id : Uuid) (old : Db) (r : InvoiceWithReceivedAmount) (new : Db) : Type 0 where
  pub nothing_received : r.total_received_amount ≡ pos 0
  pub own_id : r.invoice.id ≡ id
  pub is_waiting : r.invoice.status ≡ waiting
  pub was_free : exists (has_id id) old.invoices ≡ false
  pub rows : new.invoices ≡ old.invoices ++ r.invoice ∷ []
  pub sums : SameSums old new

Ensures-insert_invoice :
    (env : Env) (data' : CreateInvoiceData) (s : Store)
    → s.env ≡ env
    → Ensures env
        (Unit {0})
        (λ i new. Created data'.id s.db (with_amount i (pos 0)) new)
        (insert_invoice data' s)
unfolding insert_invoice
Ensures-insert_invoice env data' s same = Ensures-bind_now env (Unit {0}) _ _ s λ time.
    Ensures-query env (Unit {0}) _ (λ _ _. tt) _ _ (tick s) same
      λ _. elim (Bool-cases (exists (has_id data'.id) s.db.invoices)) [
        | inl e ↦ rw e tt
        | inr e ↦
            rw e (elim (Bool-cases (exists (λ j. str_eq j.order_id data'.order_id) s.db.invoices)) [
              | inl f ↦ rw f tt
              | inr f ↦ rw f (record {
                nothing_received = refl;
                own_id = refl;
                is_waiting = refl;
                was_free = e;
                rows = refl;
                sums = λ id. (refl, refl);
              })
            ])
      ]

Ensures-create_body :
    (env : Env) (config : PaymentsConfig) (data' : CreateInvoiceData) (s : Store)
    → s.env ≡ env
    → Ensures env (Unit {0}) (λ r new. Created data'.id s.db r new) (create_body config data' s)
unfolding create_body
Ensures-create_body env config data' s same =
    Ensures-bind env (Unit {0}) (λ i new. Created data'.id s.db (with_amount i (pos 0)) new) _ _ _ s
      (Ensures-insert_invoice env data' s same)
      λ i s' same' c.
        Ensures-bind env (Unit {0}) (λ _ new. OnlyEvents s'.db new) _ _ _ s'
          (Ensures-announce env config _ _ s' same')
          λ _ s'' same'' (invs, txs, pays, gives). (
            same'',
            record {
              nothing_received = refl;
              own_id = c.own_id;
              is_waiting = c.is_waiting;
              was_free = c.was_free;
              rows = invs ∙ c.rows;
              sums = λ id. (
                (same_sums s'.db s''.db txs pays gives id).0 ∙ (c.sums id).0,
                (same_sums s'.db s''.db txs pays gives id).1 ∙ (c.sums id).1,
              );
            },
          )

-- The data has the drawn id, and no table is touched, whatever it returns.
new_invoice_data_lem :
    (config : PaymentsConfig) (directory : Directory) (params : CreateInvoiceParams) (s : Store)
    → ((new_invoice_data config directory params s).1.db ≡ s.db)
      × Ensures s.env
          (Unit {0})
          (λ d db. (d.id ≡ s.env.uuid s.calls) × (db ≡ s.db))
          (new_invoice_data config directory params s)
unfolding new_invoice_data ◌>>=◌ new_uuid now
new_invoice_data_lem config directory params s =
    elim (Option-cases (config.default_asset_id config.default_chain)) [
      | inl e ↦ rw e (refl, tt)
      | inr (asset, e) ↦
          rw e
            (elim (Option-cases
              (directory.generate_address config.default_chain (s.env.uuid s.calls))) [
                | inl f ↦ rw f (refl, tt)
                | inr (address, f) ↦ rw f (refl, (refl, (refl, refl)))
              ])
    ]

-- The tables after the whole call, and what a success ensures.
pub create_stored_lem :
    (config : PaymentsConfig) (directory : Directory) (params : CreateInvoiceParams) (s : Store)
    → (is_ok (create_stored config directory params s).0 ≡ false
        → (create_stored config directory params s).1.db ≡ s.db)
      × Ensures s.env
          (Unit {0})
          (λ r new. Created (s.env.uuid s.calls) s.db r new)
          (create_stored config directory params s)
unfolding create_stored ◌>>=◌
create_stored_lem config directory params s =
    split (new_invoice_data config directory params s)
      (new_invoice_data_lem config directory params s)
  where
    split :
        (q : Result DaoInvoiceError CreateInvoiceData × Store)
        → (q.1.db ≡ s.db)
          × Ensures s.env (Unit {0}) (λ d db. (d.id ≡ s.env.uuid s.calls) × (db ≡ s.db)) q
        → (is_ok
                (◌>>=◌
                  (λ _. q)
                  (λ d. transaction database_error database_error (create_body config d))
                  s).0
              ≡ false
            → (◌>>=◌
                (λ _. q)
                (λ d. transaction database_error database_error (create_body config d))
                s).1.db
              ≡ s.db)
          × Ensures s.env
              (Unit {0})
              (λ r new. Created (s.env.uuid s.calls) s.db r new)
              (◌>>=◌
                (λ _. q)
                (λ d. transaction database_error database_error (create_body config d))
                s)
    split (ok d, s') (kept, (same_env, (own, same_db))) = (
      λ h. transaction_rolls_back database_error database_error (create_body config d) s' h ∙ kept,
      Ensures-transaction s.env (Unit {0}) _ (λ _ _. tt) database_error database_error
          (create_body config d) s' same_env
          (subst
            (λ db.
              Ensures s.env (Unit {0}) (λ r new. Created (s.env.uuid s.calls) db r new)
                (create_body config d (tick s')))
            same_db
            (subst
              (λ id.
                Ensures s.env (Unit {0}) (λ r new. Created id s'.db r new)
                  (create_body config d (tick s')))
              own (Ensures-create_body s.env config d (tick s') same_env))),
    )
    split (err e, s') (kept, u) = (λ h. kept, tt)
    split (panic, s') (kept, u) = (λ h. kept, tt)

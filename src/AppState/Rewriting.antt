-- ===== src/AppState/Rewriting.antt =====
-- Tables in which one row of an invoice is rewritten, as daemon/src/state.rs does.
use kalatori.Types.Webhook.{InvoiceEventType}
use kalatori.Dao.Store.Triples.{
  Ensures, Ensures-bind, Ensures-map_err, Ensures-bind_now, Ensures-bind_new_uuid,
}
use kalatori.Dao.Store.{tick, Db, Env, Store}
use kalatori.Dao.Invoices.{DaoInvoiceError, has_id}
use kalatori.Dao.Effects.{Ensures-create_webhook_event}
use kalatori.Ledger.Same.{
  SameRows, SameSums, NoMore, same_books-IsSound, same_sums, changed_row, same_rows,
}
use kalatori.Registry.Keys.{Keyed}
use kalatori.World.{World}
use kalatori.Ledger.{is_settled, IsSound}
use kalatori.Config.{PaymentsConfig}
use kalatori.Common.{
  ok, err, panic, ◌≡◌, refl, sym, ap, ◌∙◌, subst, false, find, Result, is_ok, some, update,
}
use kalatori.Types.Invoice.{Invoice, InvoiceWithReceivedAmount, Uuid}
use kalatori.AppState.{announce}

-- The tables but the webhook events are the same.
abbrev pub OnlyEvents : Db → Db → Type 0
OnlyEvents old new =
    (new.invoices ≡ old.invoices)
    × (new.transactions ≡ old.transactions)
    × (new.payouts ≡ old.payouts)
    × (new.refunds ≡ old.refunds)

pub Ensures-announce :
    (env : Env) (config : PaymentsConfig) (r : InvoiceWithReceivedAmount)
    (event_type : InvoiceEventType) (s : Store)
    → s.env ≡ env
    → Ensures env (Unit {0}) (λ _ new. OnlyEvents s.db new) (announce config r event_type s)
unfolding announce
Ensures-announce env config r event_type s same =
    Ensures-bind_new_uuid env (Unit {0}) _ _ s same λ id.
      Ensures-bind_now env (Unit {0}) _ _ (tick s) λ time.
        Ensures-bind env (Unit {0}) _ _ _ _ _
          (Ensures-map_err env (Unit {0}) _ _ _ _
            (Ensures-create_webhook_event env (Unit {0}) (λ _ _. tt) _ same _ (λ _. tt)))
          λ _ s' same' e. (
            same',
            (
              ap (λ (d : Db). d.invoices) e,
              ap (λ (d : Db). d.transactions) e,
              ap (λ (d : Db). d.payouts) e,
              ap (λ (d : Db). d.refunds) e,
            ),
          )

-- One row has changed, in a way that keeps its id and whether it is settled; no money has moved.
pub record Rewritten (old new : Db) : Type 0 where
  pub rows : SameRows old new
  pub sums : SameSums old new

pub rewritten : (old mid new : Db) → Rewritten old mid → OnlyEvents mid new → Rewritten old new
rewritten old mid new r (invs, txs, pays, gives) = record {
  rows = λ id row found. r.rows id row (ap (find (has_id id)) (sym invs) ∙ found);
  sums = λ id. (
    (same_sums mid new txs pays gives id).0 ∙ (r.sums id).0,
    (same_sums mid new txs pays gives id).1 ∙ (r.sums id).1,
  );
}

pub nothing-Rewritten : (old : Db) → Rewritten old old
nothing-Rewritten old = record { rows = same_rows old old refl; sums = λ id. (refl, refl) }

pub one_row :
    (old : Db) (k : Uuid) (f : Invoice → Invoice) (row : Invoice)
    → ((i : Invoice) → (f i).id ≡ i.id)
    → find (has_id k) old.invoices ≡ some row
    → is_settled (f row).status ≡ is_settled row.status
    → Rewritten old (record old { invoices = update (has_id k) f old.invoices })
one_row old k f row keeps was same = record {
  rows =
      changed_row old (record old { invoices = update (has_id k) f old.invoices }) k f row keeps
        refl was same;
  sums = λ id. (refl, refl);
}

-- What an answer leaves, when a failure leaves the tables as they were.
pub settled :
    {A : Type 0} (old : Db) (q : Result DaoInvoiceError A × Store) (env : Env)
    → Ensures env (Unit {0}) (λ _ new. Rewritten old new) q
    → (is_ok q.0 ≡ false → q.1.db ≡ old)
    → Rewritten old q.1.db
settled old (ok a, s) env p back = p.1
settled old (err e, s) env p back = subst (Rewritten old) (sym (back refl)) (nothing-Rewritten old)
settled old (panic, s) env p back = subst (Rewritten old) (sym (back refl)) (nothing-Rewritten old)

pub settled_from :
    {A : Type 0} (old mid : Db) (q : Result DaoInvoiceError A × Store) (env : Env)
    → Rewritten old mid
    → Ensures env (Unit {0}) (λ _ new. OnlyEvents mid new) q
    → (is_ok q.0 ≡ false → q.1.db ≡ mid)
    → Rewritten old q.1.db
settled_from old mid (ok a, s) env r p back = rewritten old mid s.db r p.1
settled_from old mid (err e, s) env r p back = subst (Rewritten old) (sym (back refl)) r
settled_from old mid (panic, s) env r p back = subst (Rewritten old) (sym (back refl)) r

-- A sound state stays sound when rows are rewritten and the registry gets no new entry.
pub Rewritten-IsSound :
    (w v : World)
    → IsSound w
    → Keyed v.registry
    → NoMore w.registry v.registry
    → Rewritten w.store.db v.store.db
    → IsSound v
Rewritten-IsSound w v sound keyed no_more r =
    same_books-IsSound w v sound keyed no_more r.rows r.sums

-- ===== src/Ledger/Start.antt =====
-- The start of the daemon, `init_invoice_registry` of daemon/src/main.rs.
use kalatori.Types.Invoice.{
  Uuid, InvoiceStatus, is_active, with_amount, Invoice, InvoiceWithReceivedAmount,
}
use kalatori.Dao.Store.{query, Db, Store, map_err, ◌>>=◌}
use kalatori.Dao.Invoices.{has_id, received_for, get_active_invoices_with_amounts}
use kalatori.Registry.Keys.{Keyed, add_invoice-Keyed}
use kalatori.Registry.Laws.{get_invoice-add_invoice}
use kalatori.Registry.{Registry, get_invoice, add_invoice, add_invoices}
use kalatori.World.{init_invoice_registry}
use kalatori.Common.{
  ◌≡◌, refl, sym, ap, ◌∙◌, subst, inl, inr, true, false, some, List, [], ◌∷◌, map, arith, ◌==◌,
  ==_iff, Bool-cases, none-some, some_inj, find, select, order_by, All, ok, All-order_by,
  All-select_both, All-map,
}
use kalatori.Ledger.{Balanced, Entry, IsSound, is_settled}

-- `id` is the primary key: the row that is found under a row's id is that row.
abbrev pub PrimaryKey : List Invoice → Type 0
PrimaryKey rows = All (λ (i : Invoice). find (has_id i.id) rows ≡ some i) rows

add_invoices-Keyed :
    (rs : List InvoiceWithReceivedAmount) (reg : Registry) → Keyed reg → Keyed (add_invoices rs reg)
unfolding add_invoices
add_invoices-Keyed [] reg keyed = keyed
add_invoices-Keyed (r ∷ rs) reg keyed =
    add_invoices-Keyed rs (add_invoice r reg) (add_invoice-Keyed r reg keyed)

add_invoices-Entry :
    (db : Db) (rs : List InvoiceWithReceivedAmount) (reg : Registry)
    → ((id : Uuid) (q : InvoiceWithReceivedAmount) → get_invoice id reg ≡ some q → Entry db id q)
    → All (λ r. Entry db r.invoice.id r) rs
    → (id : Uuid) (q : InvoiceWithReceivedAmount) → get_invoice id (add_invoices rs reg) ≡ some q
    → Entry db id q
unfolding add_invoices
add_invoices-Entry db [] reg old entries id q got = old id q got
add_invoices-Entry db (r ∷ rs) reg old entries id q got =
    add_invoices-Entry db rs (add_invoice r reg)
      (λ j p found.
        let found' = sym (get_invoice-add_invoice j r reg) ∙ found in
        elim (Bool-cases (r.invoice.id == j)) [
          | inl e ↦
              subst (Entry db j) (some_inj (rw e at found'))
                (subst (λ k. Entry db k r) ((==_iff r.invoice.id j).0 e) entries.0)
          | inr e ↦ old j p (rw e at found')
        ])
      entries.1 id q got

not_final : (status : InvoiceStatus) → is_active status ≡ true → is_settled status ≡ false
not_final status e = ground arith

active_entries :
    (db : Db)
    → PrimaryKey db.invoices
    → All
        (λ r. Entry db r.invoice.id r)
        (map
          (λ i. with_amount i (received_for i.id db.transactions))
          (order_by (λ i. i.created_at) (select (λ i. is_active i.status) db.invoices)))
active_entries db unique = All-map _ _ _ (
    All-order_by _ (λ (i : Invoice). i.created_at) _
      (All-select_both _ _ (λ (i : Invoice). is_active i.status) db.invoices unique
        λ i own e. (
          refl,
          refl,
          λ row found.
              ap (λ (j : Invoice). is_settled j.status) (some_inj (sym found ∙ own))
              ∙ not_final i.status e,
        )))

-- When the ids of the invoices are unique, the books are balanced and the engine does not fail,
-- `init_invoice_registry` gives a registry with which the daemon starts in a sound state.
pub init_invoice_registry-IsSound :
    (s : Store)
    → PrimaryKey s.db.invoices
    → Balanced s.db
    → s.env.faulty s.calls ≡ false
    → (reg : Registry) × ((init_invoice_registry s).0 ≡ ok reg)
      × IsSound (record { store = (init_invoice_registry s).1; registry = reg })
unfolding init_invoice_registry get_active_invoices_with_amounts query get_invoice ◌>>=◌ map_err
init_invoice_registry-IsSound s unique balanced good = rw good (
  _,
  refl,
  record {
    keyed = add_invoices-Keyed _ [] tt;
    in_sync =
        add_invoices-Entry s.db _ [] (λ id q h. absurd (none-some h)) (active_entries s.db unique);
    balanced = balanced;
  },
)

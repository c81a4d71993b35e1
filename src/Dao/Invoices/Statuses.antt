-- ===== src/Dao/Invoices/Statuses.antt =====
-- The writes of daemon/src/dao/invoice.rs on rows that are no longer active.
use kalatori.Dao.Store.{query, Store}
use kalatori.Types.Invoice.{
  waiting, InvoiceStatus, is_active, Uuid, Invoice, UpdateInvoiceData, waiting, invoice_status_eq,
}
use kalatori.Common.{
  ◌≡◌, true, false, arith, refl, sym, ap, ◌∙◌, subst, ◌≢◌, inl, inr, Option, some, List, ◌==◌,
  ==_iff, Bool-cases, Option-cases, find, update, find_passes, or_changed, find-update,
}
use kalatori.Dao.Invoices.{transition_allowed, has_id, update_invoice_status, update_invoice_data}

absorbing :
    (old new : InvoiceStatus)
    → is_active old ≡ false
    → transition_allowed old new ≡ true
    → new ≡ old
unfolding transition_allowed
absorbing old new e h = ground arith

-- The row that stands where `row` stood, with the same status and amount.
abbrev pub Kept : Uuid → Invoice → List Invoice → Type 0
Kept id row rows =
    (now : Invoice) × (find (has_id id) rows ≡ some now)
    × (now.status ≡ row.status)
    × (now.amount ≡ row.amount)

update-Kept :
    (k id : Uuid) (f : Invoice → Invoice) (row : Invoice) (rows : List Invoice)
    → ((i : Invoice) → (f i).id ≡ i.id)
    → find (has_id id) rows ≡ some row
    → (k ≡ id → ((f row).status ≡ row.status) × ((f row).amount ≡ row.amount))
    → Kept id row (update (has_id k) f rows)
update-Kept k id f row rows same found h =
    let after =
      find-update (has_id id) (has_id k) f rows (λ i. ap (λ j. j == id) (same i))
      ∙ ap (or_changed (has_id k) f) found in
    elim (Bool-cases (has_id k row)) [
      | inl e ↦
          let own = h (
            sym ((==_iff row.id k).0 e)
            ∙ (==_iff row.id id).0 (find_passes (has_id id) rows row found)) in
          (f row, rw e at after, own.0, own.1)
      | inr e ↦ (row, rw e at after, refl, refl)
    ]

is_waiting : (status : InvoiceStatus) → invoice_status_eq status waiting ≡ true → status ≡ waiting
is_waiting status e = ground arith

same_row : (o : Option Invoice) {a b : Invoice} → o ≡ some a → o ≡ some b → a ≡ b
same_row o is_a is_b = grind arith

-- A row that is paid, expired or canceled keeps its status and its amount, whatever status
-- `update_invoice_status` is asked to give to whatever invoice, and whatever it returns.
pub update_invoice_status-settled :
    (k : Uuid) (status : InvoiceStatus) (s : Store) (id : Uuid) (row : Invoice)
    → find (has_id id) s.db.invoices ≡ some row
    → is_active row.status ≡ false
    → Kept id row (update_invoice_status k status s).1.db.invoices
unfolding update_invoice_status query
update_invoice_status-settled k status s id row found settled =
    elim (Bool-cases (s.env.faulty s.calls)) [
      | inl bad ↦ rw bad (row, found, refl, refl)
      | inr good ↦ rw good (elim (Option-cases (find (has_id k) s.db.invoices)) [
        | inl e ↦ rw e (row, found, refl, refl)
        | inr (i, e) ↦ rw e (elim (Bool-cases (transition_allowed i.status status)) [
          | inl allowed ↦ rw allowed (
              update-Kept k id _ row s.db.invoices (λ _. refl) found
                λ same.
                  let is_row =
                    same_row _ e
                      (subst (λ j. find (has_id j) s.db.invoices ≡ some row) (sym same) found) in
                  (absorbing row.status status settled (rw is_row at allowed), refl))
          | inr refused ↦ rw refused (row, found, refl, refl)
        ])
      ])
    ]

-- A row that is not waiting keeps its status and its amount, whatever `update_invoice_data` is
-- given, and whatever it returns.
pub update_invoice_data-locked :
    (d : UpdateInvoiceData) (s : Store) (id : Uuid) (row : Invoice)
    → find (has_id id) s.db.invoices ≡ some row
    → row.status ≢ waiting
    → Kept id row (update_invoice_data d s).1.db.invoices
unfolding update_invoice_data query
update_invoice_data-locked d s id row found locked = elim (Bool-cases (s.env.faulty s.calls)) [
  | inl bad ↦ rw bad (row, found, refl, refl)
  | inr good ↦ rw good (elim (Option-cases (find (has_id d.invoice_id) s.db.invoices)) [
    | inl e ↦ rw e (row, found, refl, refl)
    | inr (i, e) ↦ rw e (elim (Bool-cases (invoice_status_eq i.status waiting)) [
      | inl unlocked ↦ rw unlocked (
          update-Kept d.invoice_id id _ row s.db.invoices (λ _. refl) found
            λ same.
              let is_row =
                same_row _ e
                  (subst (λ j. find (has_id j) s.db.invoices ≡ some row) (sym same) found) in
              absurd (locked (is_waiting row.status (rw is_row at unlocked))))
      | inr refused ↦ rw refused (row, found, refl, refl)
    ])
  ])
]

-- ===== src/Ledger/Same.antt =====
-- Changes that keep the books of every invoice.
use kalatori.Types.Invoice.{Decimal, Uuid, InvoiceStatus, Invoice, InvoiceWithReceivedAmount}
use kalatori.Dao.Store.{Db}
use kalatori.Dao.Invoices.{has_id, received_for}
use kalatori.Dao.WebhookEvents.{before}
use kalatori.Ledger.Sound.{old_row}
use kalatori.Registry.Keys.{Keyed}
use kalatori.Registry.Laws.{get_invoice-remove_invoice}
use kalatori.Registry.{Registry, get_invoice, remove_invoice}
use kalatori.World.{World}
use kalatori.Ledger.{sent_out, is_settled, due, IsSound}
use kalatori.Common.{
  ◌≡◌, refl, sym, ap, ◌∙◌, inl, inr, some, ◌==◌, ==_iff, Bool-cases, none-some, some_inj, find,
  update, find-update,
}

-- The rows of `new` stand for rows of `old` that are as settled as they are.
abbrev pub SameRows : Db → Db → Type 0
SameRows old new =
    (id : Uuid) (row : Invoice)
    → find (has_id id) new.invoices ≡ some row
    → (before : Invoice) × (find (has_id id) old.invoices ≡ some before)
      × (is_settled row.status ≡ is_settled before.status)

-- What came in and what is sent out is the same for every invoice.
abbrev pub SameSums : Db → Db → Type 0
SameSums old new =
    (id : Uuid)
    → (received_for id new.transactions ≡ received_for id old.transactions)
      × (sent_out id new ≡ sent_out id old)

-- The registry has no entry that it did not have.
abbrev pub NoMore : Registry → Registry → Type 0
NoMore old new =
    (id : Uuid) (r : InvoiceWithReceivedAmount)
    → get_invoice id new ≡ some r
    → get_invoice id old ≡ some r

due_of : (a b : InvoiceStatus) (x : Decimal) → is_settled a ≡ is_settled b → due a x ≡ due b x
due_of a b x e = rw e refl

-- Soundness looks at these alone.
pub same_books-IsSound :
    (w v : World)
    → IsSound w
    → Keyed v.registry
    → NoMore w.registry v.registry
    → SameRows w.store.db v.store.db
    → SameSums w.store.db v.store.db
    → IsSound v
same_books-IsSound w v sound keyed no_more rows sums = record {
  keyed = keyed;
  in_sync = λ id r got.
      let (key, known, unsettled) = sound.in_sync id r (no_more id r got) in
      (
        key,
        known ∙ sym (sums id).0,
        λ row found. let (before, was, same) = rows id row found in same ∙ unsettled before was,
      );
  balanced = λ row id found.
      let (before, was, same) = rows id row found in
      (sums id).1
      ∙ sound.balanced before id was
      ∙ due_of before.status row.status _ (sym same)
      ∙ ap (due row.status) (sym (sums id).0);
}

pub same_sums :
    (old new : Db)
    → new.transactions ≡ old.transactions
    → new.payouts ≡ old.payouts
    → new.refunds ≡ old.refunds
    → SameSums old new
same_sums old new txs pays gives id = (ap (received_for id) txs, rw (pays, gives) refl)

-- A change of one row that keeps its id and whether it is settled.
pub changed_row :
    (old new : Db) (k : Uuid) (f : Invoice → Invoice) (row : Invoice)
    → ((i : Invoice) → (f i).id ≡ i.id)
    → new.invoices ≡ update (has_id k) f old.invoices
    → find (has_id k) old.invoices ≡ some row
    → is_settled (f row).status ≡ is_settled row.status
    → SameRows old new
changed_row old new k f row keeps is_new was same id now_row found =
    let (before, had, is_row) = old_row k id f old.invoices now_row (
      sym (find-update (has_id id) (has_id k) f old.invoices λ i. ap (λ z. z == id) (keeps i))
      ∙ ap (find (has_id id)) (sym is_new)
      ∙ found) in
    (
      before,
      had,
      elim (Bool-cases (k == id)) [
        | inl e ↦
            let is_k = (==_iff k id).0 e in
            let is_it = some_inj (sym was ∙ ap (λ z. find (has_id z) old.invoices) is_k ∙ had) in
            ap (λ (i : Invoice). is_settled i.status) (rw e at is_row)
            ∙ ap (λ (i : Invoice). is_settled (f i).status) (sym is_it)
            ∙ same
            ∙ ap (λ (i : Invoice). is_settled i.status) is_it
        | inr e ↦ ap (λ (i : Invoice). is_settled i.status) (rw e at is_row)
      ],
    )

-- No change of the rows.
pub same_rows : (old new : Db) → new.invoices ≡ old.invoices → SameRows old new
same_rows old new same id row found = (row, ap (find (has_id id)) (sym same) ∙ found, refl)

pub removed-NoMore : (id : Uuid) (reg : Registry) → NoMore reg (remove_invoice id reg)
removed-NoMore id reg j r got =
    let now_got = sym (get_invoice-remove_invoice j id reg) ∙ got in
    elim (Bool-cases (id == j)) [
      | inl e ↦ absurd (none-some (rw e at now_got))
      | inr e ↦ rw e at now_got
    ]

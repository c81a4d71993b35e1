-- ===== src/Ledger/Sound.antt =====
-- The books and the registry after the storing of one transaction
-- (daemon/src/chain/transactions_recorder.rs).
use kalatori.Recorder.{paid_status}
use kalatori.Common.Int.{ℤ, ◌+ℤ◌, int_laws, pos}
use kalatori.Types.Transaction.{IncomingTransaction}
use kalatori.Dao.Store.{Db}
use kalatori.Dao.WebhookEvents.{before}
use kalatori.Ledger.Recording.{Fits, Stored-books}
use kalatori.Recorder.Storing.{Stored}
use kalatori.World.{World}
use kalatori.Ledger.{IsSound, sent_out, due, Entry, is_settled}
use kalatori.Config.{PaymentsConfig}
use kalatori.Types.Invoice.{
  Decimal, Uuid, InvoiceStatus, is_final, Invoice, InvoiceWithReceivedAmount,
}
use kalatori.Dao.Invoices.{has_id, received_for}
use kalatori.Dao.Effects.{with_status}
use kalatori.Recorder.Processing.{registry_after, total_with, status_with}
use kalatori.Registry.Laws.{get_invoice-remove_invoice, refilled, get_invoice-update_filled_amount}
use kalatori.Registry.{Registry, get_invoice}
use kalatori.Common.{
  ℕ, ◌≡◌, refl, ◌∙◌, inl, inr, Bool, Option, none, some, List, arith, ◌==◌, if◌then◌else◌, ==_iff,
  Bool-cases, find, find_passes, or_changed, sym, ap, subst, false, ==_comm, none-some, some_inj,
}

or_changed-some :
    (p : Invoice → Bool) (f : Invoice → Invoice) (o : Option Invoice) (y : Invoice)
    → or_changed p f o ≡ some y
    → (x : Invoice) × (o ≡ some x) × (y ≡ (if p x then f x else x))
or_changed-some p f none y e = grind arith
or_changed-some p f (some x) y e = (x, refl, grind arith)

-- The row behind a row that is found after the update.
pub old_row :
    (k id : Uuid) (f : Invoice → Invoice) (rows : List Invoice) (new : Invoice)
    → or_changed (has_id k) f (find (has_id id) rows) ≡ some new
    → (row : Invoice) × (find (has_id id) rows ≡ some row)
      × (new ≡ (if k == id then f row else row))
old_row k id f rows new e =
    let (row, found, is_new) = or_changed-some (has_id k) f (find (has_id id) rows) new e in
    let same : row.id ≡ id = (==_iff row.id id).0 (find_passes (has_id id) rows row found) in
    (row, found, is_new ∙ ap (λ b. if b then f row else row) (ap (λ z. z == k) same ∙ ==_comm id k))

abbrev or_refilled :
    InvoiceStatus → Decimal → Option InvoiceWithReceivedAmount → Option InvoiceWithReceivedAmount
or_refilled status total none = none
or_refilled status total (some p) = if is_final status then none else some (refilled total status p)

-- What the registry finds after a success.
lookup_after :
    (r : InvoiceWithReceivedAmount) (status : InvoiceStatus) (total : Decimal) (reg : Registry)
    (id : Uuid)
    → get_invoice id (registry_after r status total reg) ≡ (
        if r.invoice.id == id
        then or_refilled status total (get_invoice id reg)
        else get_invoice id reg)
lookup_after r status total reg id = elim (Bool-cases (is_final status)) [
  | inl f ↦ rw f (get_invoice-remove_invoice id r.invoice.id reg ∙ ground arith)
  | inr f ↦ rw f (get_invoice-update_filled_amount id r.invoice.id total status reg ∙ ground arith)
]

pub add_zero : (a : ℤ) → a +ℤ pos 0 ≡ a
add_zero a = omega int_laws

pub zero_add : (a : ℤ) → pos 0 +ℤ a ≡ a
zero_add a = omega int_laws

pub not_due :
    (status : InvoiceStatus) (a : Decimal) → is_settled status ≡ false → due status a ≡ pos 0
not_due status a e = rw e refl

paid_status-is_settled :
    (config : PaymentsConfig) (i : Invoice) (u : Decimal)
    → is_settled (paid_status config i u) ≡ is_final (paid_status config i u)
unfolding paid_status
paid_status-is_settled config i u = ground arith

module _ (config : PaymentsConfig) (r : InvoiceWithReceivedAmount) (t : IncomingTransaction)
    (w : World) (new : Db) (sound : IsSound w) (fits : Fits w r t)
    (stored : Stored config t (status_with config r t) (total_with r t) w.store.db new) where
  abbrev status : InvoiceStatus
  status = status_with config r t

  abbrev total : Decimal
  total = total_with r t

  plain : is_settled status ≡ is_final status
  plain = paid_status-is_settled config r.invoice total

  module _ (id : Uuid) where
    -- The books of the invoice of the transaction, and those of every other one.
    own :
        t.invoice_id ≡ id
        → (sent_out id new ≡ sent_out id w.store.db +ℤ due status total)
          × (received_for id new.transactions
              ≡ received_for id w.store.db.transactions +ℤ t.transfer_info.amount)
    own e =
        let books = Stored-books config t status total w.store.db new id plain stored in
        let same = (==_iff t.invoice_id id).1 e in (rw same at books.0, rw same at books.1)

    other :
        (t.invoice_id == id) ≡ false
        → (sent_out id new ≡ sent_out id w.store.db)
          × (received_for id new.transactions ≡ received_for id w.store.db.transactions)
    other e =
        let books = Stored-books config t status total w.store.db new id plain stored in
        (rw e at books.0 ∙ add_zero _, rw e at books.1 ∙ add_zero _)

    -- The total is what has come in, this transaction included.
    total_is_received : t.invoice_id ≡ id → total ≡ received_for id new.transactions
    total_is_received e =
        ap (λ a. a +ℤ t.transfer_info.amount)
          (subst (λ k. r.total_received_amount ≡ received_for k w.store.db.transactions)
            (sym fits.1 ∙ e) fits.0.0.1)
        ∙ sym (own e).1

    -- The row of the invoice was not settled.
    was_open :
        t.invoice_id ≡ id
        → (before : Invoice) → find (has_id id) w.store.db.invoices ≡ some before
        → is_settled before.status ≡ false
    was_open e before found =
        fits.0.0.2 before
          (subst (λ k. find (has_id k) w.store.db.invoices ≡ some before) (sym e ∙ fits.1) found)

    row_before :
        (row : Invoice)
        → find (has_id id) new.invoices ≡ some row
        → (before : Invoice) × (time : ℕ) × (find (has_id id) w.store.db.invoices ≡ some before)
          × (row ≡ (if t.invoice_id == id then with_status status time before else before))
    row_before row found =
        let books = Stored-books config t status total w.store.db new id plain stored in
        let (before, was, is_new) =
          old_row t.invoice_id id (with_status status books.2.0) w.store.db.invoices row
            (sym books.2.1 ∙ found) in
        (before, books.2.0, was, is_new)

    pub balanced_after :
        (row : Invoice)
        → find (has_id id) new.invoices ≡ some row
        → sent_out id new ≡ due row.status (received_for id new.transactions)
    balanced_after row found =
        let (before, time, was, is_new) = row_before row found in
        elim (Bool-cases (t.invoice_id == id)) [
          | inl e ↦
              let same = (==_iff t.invoice_id id).0 e in
              (own same).0
              ∙ ap (λ a. a +ℤ due status total)
                  (sound.balanced before id was
                    ∙ not_due before.status _ (was_open same before was))
              ∙ zero_add _
              ∙ ap (due status) (total_is_received same)
              ∙ ap (λ (i : Invoice). due i.status (received_for id new.transactions))
                  (sym (rw e at is_new))
          | inr e ↦
              (other e).0
              ∙ sound.balanced before id was
              ∙ ap (due before.status) (sym (other e).1)
              ∙ ap (λ (i : Invoice). due i.status (received_for id new.transactions))
                  (sym (rw e at is_new))
        ]

    new_status :
        (row : Invoice)
        → t.invoice_id ≡ id
        → find (has_id id) new.invoices ≡ some row
        → is_settled row.status ≡ is_settled status
    new_status row e found =
        let (before, time, was, is_new) = row_before row found in
        ap (λ (i : Invoice). is_settled i.status) (rw ((==_iff t.invoice_id id).1 e) at is_new)

    pub kept_Entry :
        r.invoice.id ≡ id → is_final status ≡ false → Entry new id (refilled total status r)
    kept_Entry e f = (
      e,
      total_is_received (fits.1 ∙ e),
      λ row found. new_status row (fits.1 ∙ e) found ∙ plain ∙ f,
    )

    refilled_Entry :
        (q : InvoiceWithReceivedAmount)
        → r.invoice.id ≡ id
        → or_refilled status total (some r) ≡ some q
        → Entry new id q
    refilled_Entry q e h = elim (Bool-cases (is_final status)) [
      | inl f ↦ absurd (none-some (rw f at h))
      | inr f ↦ subst (Entry new id) (some_inj (rw f at h)) (kept_Entry e f)
    ]

    own-Entry :
        (q : InvoiceWithReceivedAmount)
        → r.invoice.id ≡ id
        → or_refilled status total (get_invoice id w.registry) ≡ some q
        → Entry new id q
    own-Entry q e h = elim fits.0.1 [
      | inl had ↦
          refilled_Entry q e (rw (subst (λ k. get_invoice k w.registry ≡ some r) e had) at h)
      | inr had ↦ absurd (none-some (rw (subst (λ k. get_invoice k w.registry ≡ none) e had) at h))
    ]

    other-Entry :
        (q : InvoiceWithReceivedAmount)
        → (t.invoice_id == id) ≡ false
        → get_invoice id w.registry ≡ some q
        → Entry new id q
    other-Entry q e got =
        let (key, known, unsettled) = sound.in_sync id q got in
        (
          key,
          known ∙ sym (other e).1,
          λ row found.
              let (before, time, was, is_new) = row_before row found in
              ap (λ (i : Invoice). is_settled i.status) (rw e at is_new) ∙ unsettled before was,
        )

    pub in_sync_after :
        (q : InvoiceWithReceivedAmount)
        → get_invoice id (registry_after r status total w.registry) ≡ some q
        → Entry new id q
    in_sync_after q got =
        let after = sym (lookup_after r status total w.registry id) ∙ got in
        elim (Bool-cases (r.invoice.id == id)) [
          | inl e ↦ own-Entry q ((==_iff r.invoice.id id).0 e) (rw e at after)
          | inr e ↦ other-Entry q (ap (λ k. k == id) fits.1 ∙ e) (rw e at after)
        ]

-- ===== src/Ledger/Books.antt =====
-- How a recorded transaction changes the books of each invoice.
use kalatori.Types.Transfer.{Payout, Refund}
use kalatori.Common.Int.{◌+ℤ◌, pos, ℤ, ◌-ℤ◌, int_laws, sum_where-append}
use kalatori.Types.Transaction.{from_incoming, Transaction, IncomingTransaction, is_incoming}
use kalatori.Dao.Store.{Db}
use kalatori.Dao.Invoices.{received_for}
use kalatori.Recorder.Outcome.{Outcome, PaysOut, GivesBack}
use kalatori.Common.{
  ℕ, ◌≡◌, List, [], ◌∷◌, ◌++◌, ◌==◌, if◌then◌else◌, refl, ap, ◌∙◌, inl, inr, Bool, true, false,
  ◌&&◌, Bool-cases, contrary,
}
use kalatori.Ledger.{sent_out, due, paid_out, given_back, is_settled}
use kalatori.Config.{PaymentsConfig}
use kalatori.Types.Invoice.{
  unpaid_expired, partially_paid_expired, customer_canceled, admin_canceled, waiting, waiting,
  partially_paid, paid, over_paid, Decimal, Uuid, InvoiceStatus, Invoice, is_final,
}

-- What a new status adds to the sums, if it adds.
abbrev pub if_of : Uuid → Uuid → Decimal → Decimal
if_of k id amount = if k == id then amount else pos 0

and_true : (b : Bool) → (b && true) ≡ b
and_true true = refl
and_true false = refl

pub received_for-append :
    (id : Uuid) (ts : List Transaction) (time : ℕ) (t : IncomingTransaction)
    → received_for id (ts ++ from_incoming time t ∷ [])
      ≡ received_for id ts +ℤ if_of t.invoice_id id t.transfer_info.amount
received_for-append id ts time t =
    sum_where-append (λ u. (u.invoice_id == id) && is_incoming u) (λ u. u.transfer_info.amount) ts
      (from_incoming time t)
    ∙ ap (λ b. received_for id ts +ℤ (if b then t.transfer_info.amount else pos 0))
        (and_true (t.invoice_id == id))

paid_out-append :
    (id : Uuid) (ps : List Payout) (p : Payout)
    → paid_out id (ps ++ p ∷ []) ≡ paid_out id ps +ℤ if_of p.invoice_id id p.amount
paid_out-append id = sum_where-append (λ p. p.invoice_id == id) λ p. p.amount

pub given_back-append :
    (id : Uuid) (rs : List Refund) (r : Refund)
    → given_back id (rs ++ r ∷ []) ≡ given_back id rs +ℤ if_of r.invoice_id id r.amount
given_back-append id = sum_where-append (λ r. r.invoice_id == id) λ r. r.amount

sum_payout : (a b c : ℤ) → a +ℤ c +ℤ b ≡ a +ℤ b +ℤ c
sum_payout a b c = omega int_laws

sum_both :
    (k id : Uuid) (a b total amount : ℤ)
    → a +ℤ if_of k id amount +ℤ (b +ℤ if_of k id (total -ℤ amount)) ≡ a +ℤ b +ℤ if_of k id total
sum_both k id a b total amount = elim (Bool-cases (k == id)) [
  | inl e ↦ rw e (omega int_laws)
  | inr e ↦ rw e (omega int_laws)
]

pub sum_nothing : (k id : Uuid) (a : ℤ) → a ≡ a +ℤ if_of k id (pos 0)
sum_nothing k id a = elim (Bool-cases (k == id)) [
  | inl e ↦ rw e (omega int_laws)
  | inr e ↦ rw e (omega int_laws)
]

-- The payout that is added, as the books see it.
paid_out-PaysOut :
    (config : PaymentsConfig) (i : Invoice) (amount : Decimal) (p : Payout) (ps : List Payout)
    (id : Uuid)
    → PaysOut config i amount p
    → paid_out id (ps ++ p ∷ []) ≡ paid_out id ps +ℤ if_of i.id id amount
paid_out-PaysOut config i amount p ps id pays =
    paid_out-append id ps p
    ∙ ap (λ k. paid_out id ps +ℤ if_of k id p.amount) pays.of_invoice
    ∙ ap (λ a. paid_out id ps +ℤ if_of i.id id a) pays.pays

given_back-GivesBack :
    (i : Invoice) (amount : Decimal) (r : Refund) (rs : List Refund) (id : Uuid)
    → GivesBack i amount r
    → given_back id (rs ++ r ∷ []) ≡ given_back id rs +ℤ if_of i.id id amount
given_back-GivesBack i amount r rs id gives =
    given_back-append id rs r
    ∙ ap (λ k. given_back id rs +ℤ if_of k id r.amount) gives.of_invoice
    ∙ ap (λ a. given_back id rs +ℤ if_of i.id id a) gives.pays

module _ (config : PaymentsConfig) (i : Invoice) (total : Decimal) (old new : Db) (id : Uuid) where
  sent_out-same :
      sent_out id new ≡ sent_out id old → sent_out id new ≡ sent_out id old +ℤ if_of i.id id (pos 0)
  sent_out-same e = e ∙ sum_nothing i.id id (sent_out id old)

  -- A new status sends out what is due, and only for its own invoice.
  pub sent_out-Outcome :
      (status : InvoiceStatus)
      → is_settled status ≡ is_final status
      → Outcome config i status total old new
      → sent_out id new ≡ sent_out id old +ℤ if_of i.id id (due status total)
  sent_out-Outcome paid plain (p, e, pays, announces, eq) =
      ap (sent_out id) eq
      ∙ ap (λ a. a +ℤ given_back id old.refunds)
          (paid_out-PaysOut config i total p old.payouts id pays)
      ∙ sum_payout (paid_out id old.payouts) (given_back id old.refunds) (if_of i.id id total)
  sent_out-Outcome over_paid plain (p, r, e, pays, gives, announces, eq) =
      ap (sent_out id) eq
      ∙ ap (λ a. a +ℤ given_back id (old.refunds ++ r ∷ []))
          (paid_out-PaysOut config i i.amount p old.payouts id pays)
      ∙ ap (λ a. paid_out id old.payouts +ℤ if_of i.id id i.amount +ℤ a)
          (given_back-GivesBack i (total -ℤ i.amount) r old.refunds id gives)
      ∙ sum_both i.id id (paid_out id old.payouts) (given_back id old.refunds) total i.amount
  sent_out-Outcome partially_paid plain (e, announces, eq) = sent_out-same (ap (sent_out id) eq)
  sent_out-Outcome waiting plain eq = sent_out-same (ap (sent_out id) eq)
  sent_out-Outcome unpaid_expired plain eq = sent_out-same (ap (sent_out id) eq)
  sent_out-Outcome partially_paid_expired plain eq = absurd (contrary true refl plain)
  sent_out-Outcome customer_canceled plain eq = sent_out-same (ap (sent_out id) eq)
  sent_out-Outcome admin_canceled plain eq = sent_out-same (ap (sent_out id) eq)

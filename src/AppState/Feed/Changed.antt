-- ===== src/AppState/Feed/Changed.antt =====
-- The invoices that the query of daemon/src/dao/changes.rs finds, by the time of the last change of
-- each.
use kalatori.Dao.Changes.{is_changed}
use kalatori.Types.Changes.{FrontEndSwap}
use kalatori.Types.Invoice.{Invoice, DateTime}
use kalatori.Types.Transaction.{Transaction}
use kalatori.Types.Transfer.{Payout, Refund}
use kalatori.Dao.Store.{Db}
use kalatori.Common.{
  ◌≡◌, refl, ap, sym, ◌∙◌, inl, inr, Bool, false, ◌&&◌, ◌||◌, ltb, Bool-cases, List, [], ◌∷◌,
  select, exists, if◌then◌else◌, ◌==◌, ℕ, arith,
}

abbrev pub later : DateTime → DateTime → DateTime
later a b = if ltb a b then b else a

-- The last of the times, or the first time there is.
abbrev pub latest : {A : Type 0} → (A → DateTime) → List A → DateTime
latest time [] = 0
latest time (x ∷ xs) = later (time x) (latest time xs)

-- When an invoice, or anything that belongs to it, was updated last.
abbrev pub last_change : Db → Invoice → DateTime
last_change db i =
    later
      (later
        (later
          (later i.updated_at (
            latest (λ (t : Transaction). t.updated_at)
              (select (λ t. t.invoice_id == i.id) db.transactions)))
          (latest (λ (p : Payout). p.updated_at) (select (λ p. p.invoice_id == i.id) db.payouts)))
        (latest (λ (r : Refund). r.updated_at) (select (λ r. r.invoice_id == i.id) db.refunds)))
      (latest (λ (f : FrontEndSwap). f.updated_at)
        (select (λ f. f.invoice_id == i.id) db.front_end_swaps))

abbrev pub changed_invoices : DateTime → Db → List Invoice
changed_invoices since db = select (λ i. ltb since (last_change db i)) db.invoices

ltb-later : (s a b : ℕ) → ltb s (later a b) ≡ (ltb s a || ltb s b)
ltb-later s a b = ground arith

either : (s a b : ℕ) {p q : Bool} → ltb s a ≡ p → ltb s b ≡ q → ltb s (later a b) ≡ (p || q)
either s a b e f = rw (ltb-later s a b, e, f) refl

not_before_zero : (s : ℕ) → ltb s 0 ≡ false
not_before_zero s = ground arith

ltb-latest :
    {A : Type 0} (mine : A → Bool) (time : A → DateTime) (s : DateTime) (xs : List A)
    → ltb s (latest time (select mine xs)) ≡ exists (λ x. mine x && ltb s (time x)) xs
ltb-latest mine time s [] = not_before_zero s
ltb-latest mine time s (x ∷ xs) = elim (Bool-cases (mine x)) [
  | inl e ↦ rw e (
      ltb-later s (time x) (latest time (select mine xs))
      ∙ ap (λ b. ltb s (time x) || b) (ltb-latest mine time s xs))
  | inr e ↦ rw e (ltb-latest mine time s xs)
]

is_changed-last_change :
    (since : DateTime) (db : Db) (i : Invoice)
    → is_changed since db i ≡ ltb since (last_change db i)
is_changed-last_change since db i = sym (
    either since _ _
      (either since _ _
        (either since _ _
          (either since i.updated_at _ refl
            (ltb-latest (λ t. t.invoice_id == i.id) (λ t. t.updated_at) since db.transactions))
          (ltb-latest (λ p. p.invoice_id == i.id) (λ p. p.updated_at) since db.payouts))
        (ltb-latest (λ r. r.invoice_id == i.id) (λ r. r.updated_at) since db.refunds))
      (ltb-latest (λ f. f.invoice_id == i.id) (λ f. f.updated_at) since db.front_end_swaps))

select_same :
    {A : Type 0} (p q : A → Bool) (xs : List A) → ((x : A) → p x ≡ q x) → select p xs ≡ select q xs
select_same p q [] same = refl
select_same p q (x ∷ xs) same = rw (same x, select_same p q xs same) refl

pub select-is_changed :
    (since : DateTime) (db : Db)
    → select (is_changed since db) db.invoices ≡ changed_invoices since db
select-is_changed since db =
    select_same (is_changed since db) (λ i. ltb since (last_change db i)) db.invoices
      (is_changed-last_change since db)

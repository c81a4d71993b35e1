-- ===== src/AppState/Feed/Reference.antt =====
-- What a snapshot of daemon/src/state.rs holds.
use kalatori.AppState.Feed.{
  of_payout, of_refund, by_invoice, ByInvoice, changes_of, without_invoice, invoices_response,
}
use kalatori.Types.Changes.{PayoutChanges, RefundChanges, InvoiceChanges, FrontEndSwap}
use kalatori.Types.Invoice.{Invoice, Uuid}
use kalatori.Types.Transaction.{Transaction, is_incoming, completed, transaction_status_eq}
use kalatori.Types.Transfer.{Payout, Refund}
use kalatori.Common.Groups.{Groups, no_groups, grouped, grouped_lem, DistinctIds, is_some_id}
use kalatori.Dao.Store.{Db}
use kalatori.Common.{
  ◌≡◌, refl, ap, ◌∙◌, inl, inr, Bool-cases, Bool, false, List, [], ◌∷◌, map, select, All, ◌==◌,
}

-- A completed transaction of the invoice, a payout of it, and the rest.
abbrev pub completed_of : Db → Uuid → List Transaction
completed_of db id =
    select (λ t. t.invoice_id == id)
      (select (λ t. transaction_status_eq t.status completed) db.transactions)

abbrev pub with_payments : Db → Payout → PayoutChanges
with_payments db p = record {
  payout = p;
  transactions = select (λ t. is_some_id p.id t.origin.payout_id) (completed_of db p.invoice_id);
}

abbrev pub with_repayments : Db → Refund → RefundChanges
with_repayments db r = record {
  refund = r;
  transactions = select (λ t. is_some_id r.id t.origin.refund_id) (completed_of db r.invoice_id);
}

-- What the feed is to say of an invoice.
abbrev pub changes_in : Db → Invoice → InvoiceChanges
changes_in db i = record {
  invoice = i;
  transactions = select is_incoming (completed_of db i.id);
  payouts = map (with_payments db) (select (λ p. p.invoice_id == i.id) db.payouts);
  refunds = map (with_repayments db) (select (λ r. r.invoice_id == i.id) db.refunds);
  swaps = select (λ f. f.invoice_id == i.id) db.front_end_swaps;
}

select-map :
    {A B : Type 0} (p : B → Bool) (f : A → B) (xs : List A)
    → select p (map f xs) ≡ map f (select (λ x. p (f x)) xs)
select-map p f [] = refl
select-map p f (x ∷ xs) = elim (Bool-cases (p (f x))) [
  | inl e ↦ rw e (ap (λ l. f x ∷ l) (select-map p f xs))
  | inr e ↦ rw e (select-map p f xs)
]

pub map_agrees :
    {A B : Type 0} (f g : A → B) (xs : List A) → ((x : A) → f x ≡ g x) → map f xs ≡ map g xs
map_agrees f g [] same = refl
map_agrees f g (x ∷ xs) same = rw (same x, map_agrees f g xs same) refl

-- The maps before the loop over the invoices.
abbrev gathered : Db → ByInvoice
gathered db =
    by_invoice (select (λ t. transaction_status_eq t.status completed) db.transactions) db.payouts
      db.refunds db.front_end_swaps

gathered-completed :
    (db : Db) (id : Uuid)
    → grouped
        (λ (t : Transaction). t.invoice_id)
        (select (λ t. transaction_status_eq t.status completed) db.transactions)
        no_groups
        id
      ≡ completed_of db id
gathered-completed db id = grouped_lem (λ t. t.invoice_id) _ no_groups id

changes_of-gathered : (db : Db) (i : Invoice) → changes_of i (gathered db) ≡ changes_in db i
changes_of-gathered db i =
    rw
      (
        gathered-completed db i.id,
        payouts,
        refunds,
        grouped_lem (λ (f : FrontEndSwap). f.invoice_id) db.front_end_swaps no_groups i.id,
      )
      refl
  where
    of_invoice : Groups Transaction
    of_invoice = (gathered db).transactions

    payouts :
        grouped
          (λ (c : PayoutChanges). c.payout.invoice_id)
          (map (of_payout (gathered db).transactions) db.payouts)
          no_groups
          i.id
        ≡ map (with_payments db) (select (λ p. p.invoice_id == i.id) db.payouts)
    payouts =
        grouped_lem (λ (c : PayoutChanges). c.payout.invoice_id) _ no_groups i.id
        ∙ select-map (λ (c : PayoutChanges). c.payout.invoice_id == i.id)
            (of_payout (gathered db).transactions) db.payouts
        ∙ map_agrees _ _ _ (λ p. rw (gathered-completed db p.invoice_id) refl)

    refunds :
        grouped
          (λ (c : RefundChanges). c.refund.invoice_id)
          (map (of_refund (gathered db).transactions) db.refunds)
          no_groups
          i.id
        ≡ map (with_repayments db) (select (λ r. r.invoice_id == i.id) db.refunds)
    refunds =
        grouped_lem (λ (c : RefundChanges). c.refund.invoice_id) _ no_groups i.id
        ∙ select-map (λ (c : RefundChanges). c.refund.invoice_id == i.id)
            (of_refund (gathered db).transactions) db.refunds
        ∙ map_agrees _ _ _ (λ r. rw (gathered-completed db r.invoice_id) refl)

-- What has been taken out is of other invoices.
changes_of-without :
    (i j : Invoice) (m : ByInvoice)
    → (i.id == j.id) ≡ false
    → changes_of j (without_invoice i.id m) ≡ changes_of j m
changes_of-without i j m e = rw e refl

same_changes :
    (i : Invoice) (is : List Invoice) (m : ByInvoice)
    → All (λ j. (i.id == j.id) ≡ false) is
    → map (λ j. changes_of j (without_invoice i.id m)) is ≡ map (λ j. changes_of j m) is
same_changes i [] m others = refl
same_changes i (j ∷ is) m (other, others) =
    rw (changes_of-without i j m other, same_changes i is m others) refl

pub invoices_response_lem :
    (is : List Invoice) (m : ByInvoice)
    → DistinctIds (λ (i : Invoice). i.id) is
    → invoices_response is m ≡ map (λ i. changes_of i m) is
unfolding invoices_response
invoices_response_lem [] m distinct = refl
invoices_response_lem (i ∷ is) m (others, distinct) =
    ap (λ l. changes_of i m ∷ l)
      (invoices_response_lem is (without_invoice i.id m) distinct ∙ same_changes i is m others)

pub invoices_response-gathered :
    (db : Db)
    → DistinctIds (λ (i : Invoice). i.id) db.invoices
    → invoices_response db.invoices (gathered db) ≡ map (changes_in db) db.invoices
invoices_response-gathered db distinct =
    invoices_response_lem db.invoices (gathered db) distinct
    ∙ map_agrees _ _ db.invoices (changes_of-gathered db)

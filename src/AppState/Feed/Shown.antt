-- ===== src/AppState/Feed/Shown.antt =====
-- What the public answers of the change feed of daemon/src/state.rs are to show.
use kalatori.Common.{
  ℕ, String, ◌≡◌, refl, ap, ◌∙◌, inl, inr, List, [], ◌∷◌, map, leb, ◌==◌, Bool-cases, select,
  insert_by, order_by,
}
use kalatori.AppState.Feed.{sorted_response}
use kalatori.AppState.Feed.Reference.{
  completed_of, changes_in, with_payments, with_repayments, map_agrees,
}
use kalatori.Common.Groups.{is_some_id}
use kalatori.Common.Int.{sum_ℤ}
use kalatori.Types.Changes.{
  InvoiceChanges, PublicPayoutChanges, PublicRefundChanges, PublicInvoiceChanges,
  PublicChangesResponse, into_public, public_changes, public_payout, public_refund,
  public_transaction,
}
use kalatori.Types.Invoice.{Invoice, Uuid, DateTime, Decimal, PublicInvoice}
use kalatori.Types.Transaction.{Transaction, is_incoming}
use kalatori.Types.Transfer.{Payout, Refund}
use kalatori.Dao.Store.{Db}

-- The invoice with what it has received.
abbrev pub shown_invoice : (Uuid → String) → Invoice → Decimal → PublicInvoice
shown_invoice payment_url i total = record {
  id = i.id;
  order_id = i.order_id;
  asset_name = i.asset_name;
  asset_id = i.asset_id;
  chain = i.chain;
  amount = i.amount;
  payment_address = i.payment_address;
  status = i.status;
  payment_url = payment_url i.id;
  redirect_url = i.redirect_url;
  cart = i.cart;
  total_received_amount = total;
  valid_till = i.valid_till;
  created_at = i.created_at;
  updated_at = i.updated_at;
}

-- The completed incoming transactions of the invoice.
abbrev pub received_in : Db → Uuid → List Transaction
received_in db id = select is_incoming (completed_of db id)

-- A payout, or a refund, with its completed transactions.
abbrev pub shown_payout : Db → Payout → PublicPayoutChanges
shown_payout db p = record {
  payout = p;
  transactions =
      map public_transaction
        (select (λ t. is_some_id p.id t.origin.payout_id) (completed_of db p.invoice_id));
}

abbrev pub shown_refund : Db → Refund → PublicRefundChanges
shown_refund db r = record {
  refund = r;
  transactions =
      map public_transaction
        (select (λ t. is_some_id r.id t.origin.refund_id) (completed_of db r.invoice_id));
}

abbrev pub shown : (Uuid → String) → Db → Invoice → PublicInvoiceChanges
shown payment_url db i = record {
  invoice =
      shown_invoice payment_url i
        (sum_ℤ (map (λ (t : Transaction). t.transfer_info.amount) (received_in db i.id)));
  incoming_transactions = map public_transaction (received_in db i.id);
  payouts = map (shown_payout db) (select (λ p. p.invoice_id == i.id) db.payouts);
  refunds = map (shown_refund db) (select (λ r. r.invoice_id == i.id) db.refunds);
  swaps = select (λ f. f.invoice_id == i.id) db.front_end_swaps;
}

-- The invoices, the one that was updated first at the head.
abbrev pub shown_response : (Uuid → String) → Db → List Invoice → DateTime → PublicChangesResponse
shown_response payment_url db invoices time = record {
  invoices = map (shown payment_url db) (order_by (λ (i : Invoice). i.updated_at) invoices);
  sync_timestamp = time;
}

map_both :
    {A B C : Type 0} (f : B → C) (g : A → B) (xs : List A)
    → map f (map g xs) ≡ map (λ x. f (g x)) xs
map_both f g [] = refl
map_both f g (x ∷ xs) = ap (λ l. f (g x) ∷ l) (map_both f g xs)

public_changes-changes_in :
    (payment_url : Uuid → String) (db : Db) (i : Invoice)
    → public_changes payment_url (changes_in db i) ≡ shown payment_url db i
unfolding public_changes
public_changes-changes_in payment_url db i =
    rw
      (
        map_both public_payout (with_payments db) (select (λ p. p.invoice_id == i.id) db.payouts),
        map_both public_refund (with_repayments db) (select (λ r. r.invoice_id == i.id) db.refunds),
      )
      refl

map-insert_by :
    {A B : Type 0} (f : A → B) (key : B → ℕ) (x : A) (xs : List A)
    → insert_by key (f x) (map f xs) ≡ map f (insert_by (λ y. key (f y)) x xs)
map-insert_by f key x [] = refl
map-insert_by f key x (y ∷ ys) = elim (Bool-cases (leb (key (f x)) (key (f y)))) [
  | inl e ↦ rw e refl
  | inr e ↦ rw e (ap (λ l. f y ∷ l) (map-insert_by f key x ys))
]

order_by-map :
    {A B : Type 0} (f : A → B) (key : B → ℕ) (xs : List A)
    → order_by key (map f xs) ≡ map f (order_by (λ y. key (f y)) xs)
order_by-map f key [] = refl
order_by-map f key (x ∷ xs) =
    ap (insert_by key (f x)) (order_by-map f key xs)
    ∙ map-insert_by f key x (order_by (λ y. key (f y)) xs)

-- What the answer makes of the changes.
pub into_public-shown :
    (payment_url : Uuid → String) (db : Db) (invoices : List Invoice) (time : DateTime)
    → into_public payment_url (
        sorted_response (record { invoices = map (changes_in db) invoices; sync_timestamp = time }))
      ≡ shown_response payment_url db invoices time
into_public-shown payment_url db invoices time =
    rw
      (
        order_by-map (changes_in db) (λ (c : InvoiceChanges). c.invoice.updated_at) invoices,
        map_both (public_changes payment_url) (changes_in db)
            (order_by (λ (i : Invoice). i.updated_at) invoices),
        map_agrees (λ i. public_changes payment_url (changes_in db i)) (shown payment_url db)
            (order_by (λ (i : Invoice). i.updated_at) invoices)
            (public_changes-changes_in payment_url db),
      )
      refl

-- ===== src/AppState/Feed/Agreement.antt =====
-- The two answers of the change feed of daemon/src/state.rs say the same of an invoice.
use kalatori.AppState.Feed.Shown.{shown_response, into_public-shown}
use kalatori.AppState.Feed.Since.{
  DistinctTransfers, found_invoices, row_changes, get_invoice_changes_lem, with_payments_of,
  with_repayments_of,
}
use kalatori.AppState.Feed.Changed.{changed_invoices, select-is_changed}
use kalatori.Common.{order_by, order_by-order_by}
use kalatori.AppState.Feed.Reference.{
  changes_in, map_agrees, completed_of, with_payments, with_repayments,
}
use kalatori.AppState.Feed.{get_changes}
use kalatori.Dao.Changes.Rows.{pays, repays, refund_only}
use kalatori.Dao.Changes.{is_changed, related_rows}
use kalatori.Types.ChangesJson.{Codec}
use kalatori.Types.ChangesJson.ReadBack.{Reads, ReadSwap}
use kalatori.Types.Invoice.{Invoice, Uuid, DateTime}
use kalatori.Types.Transaction.{Transaction, is_incoming, completed, transaction_status_eq}
use kalatori.Types.Transfer.{Payout, Refund}
use kalatori.Common.Groups.{All-selected, is_some_id}
use kalatori.Dao.Store.{Db, Store, ◌>>=◌}
use kalatori.Common.{
  ◌≡◌, refl, ap, ◌∙◌, sym, inl, inr, ◌⊎◌, Bool, true, false, not, ◌&&◌, Bool-cases, List, [], ◌∷◌,
  map, select, All, All-select, ok, String, Option, some, none, suc, ◌==◌, arith,
}

-- An incoming transaction has no origin, and another is not of both a payout and a refund.
abbrev pub WellPlaced : Transaction → Type 0
WellPlaced t =
    (is_incoming t ≡ true → (t.origin.payout_id ≡ none) × (t.origin.refund_id ≡ none))
    × ((t.origin.payout_id ≡ none) ⊎ (t.origin.refund_id ≡ none))

-- By what the two answers look at.
placed :
    (b : Bool) (p r : Option Uuid) (id : Uuid)
    → (b ≡ true → (p ≡ none) × (r ≡ none))
    → (p ≡ none) ⊎ (r ≡ none)
    → ((not b && is_some_id id p) ≡ is_some_id id p)
      × ((not b && refund_only id p r) ≡ is_some_id id r)
placed true p r id incoming one = rw ((incoming refl).0, (incoming refl).1) (refl, refl)
placed false none r id incoming one = (refl, refl)
placed false (some k) r id incoming (inr e) = rw e (refl, refl)
placed false (some k) r id incoming (inl e) = absurd (grind arith)

select_agrees :
    (p q : Transaction → Bool) (ts : List Transaction)
    → All (λ t. p t ≡ q t) ts
    → select p ts ≡ select q ts
select_agrees p q [] all = refl
select_agrees p q (t ∷ ts) (same, all) = rw (same, select_agrees p q ts all) refl

weakened :
    {A : Type 0} (P Q : A → Type 0) (xs : List A) → ((x : A) → P x → Q x) → All P xs → All Q xs
weakened P Q [] f all = tt
weakened P Q (x ∷ xs) f (holds, all) = (f x holds, weakened P Q xs f all)

select_both :
    (p q : Transaction → Bool) (ts : List Transaction)
    → select (λ t. p t && q t) ts ≡ select p (select q ts)
select_both p q [] = refl
select_both p q (t ∷ ts) = elim (Bool-cases (q t)) [
  | inl e ↦ elim (Bool-cases (p t)) [
    | inl f ↦ rw (e, f) (ap (λ l. t ∷ l) (select_both p q ts))
    | inr f ↦ rw (e, f) (select_both p q ts)
  ]
  | inr e ↦ elim (Bool-cases (p t)) [
    | inl f ↦ rw (e, f) (select_both p q ts)
    | inr f ↦ rw (e, f) (select_both p q ts)
  ]
]

map_agrees_on :
    {A B : Type 0} (f g : A → B) (xs : List A) → All (λ x. f x ≡ g x) xs → map f xs ≡ map g xs
map_agrees_on f g [] same = refl
map_agrees_on f g (x ∷ xs) (e, same) = rw (e, map_agrees_on f g xs same) refl

completed_placed :
    (db : Db) (id : Uuid) → All WellPlaced db.transactions → All WellPlaced (completed_of db id)
completed_placed db id all =
    All-selected WellPlaced _ _ (All-selected WellPlaced _ db.transactions all)

same_id : (a b : Uuid) → (a == b) ≡ true → a ≡ b
same_id a b h = ground arith

module _ (db : Db) (id : Uuid) (all : All WellPlaced db.transactions) where
  same_payments :
      (p : Payout)
      → (p.invoice_id == id) ≡ true
      → with_payments_of (completed_of db id) p ≡ with_payments db p
  same_payments p e =
      ap (λ ts. record { payout = p; transactions = ts })
        (select_agrees (pays p.id) (λ t. is_some_id p.id t.origin.payout_id) (completed_of db id)
            (weakened WellPlaced _ (completed_of db id)
              (λ t w. (placed (is_incoming t) t.origin.payout_id t.origin.refund_id p.id w.0 w.1).0)
              (completed_placed db id all))
          ∙ ap (λ k. select (λ t. is_some_id p.id t.origin.payout_id) (completed_of db k))
              (sym (same_id p.invoice_id id e)))

  same_repayments :
      (r : Refund)
      → (r.invoice_id == id) ≡ true
      → with_repayments_of (completed_of db id) r ≡ with_repayments db r
  same_repayments r e =
      ap (λ ts. record { refund = r; transactions = ts })
        (select_agrees (repays r.id) (λ t. is_some_id r.id t.origin.refund_id) (completed_of db id)
            (weakened WellPlaced _ (completed_of db id)
              (λ t w. (placed (is_incoming t) t.origin.payout_id t.origin.refund_id r.id w.0 w.1).1)
              (completed_placed db id all))
          ∙ ap (λ k. select (λ t. is_some_id r.id t.origin.refund_id) (completed_of db k))
              (sym (same_id r.invoice_id id e)))

row_changes-related_rows :
    (db : Db) (i : Invoice)
    → All WellPlaced db.transactions
    → row_changes (related_rows db i) ≡ changes_in db i
row_changes-related_rows db i all =
    rw
      (
        select_both (λ t. t.invoice_id == i.id) (λ t. transaction_status_eq t.status completed)
            db.transactions,
        map_agrees_on (with_payments_of (completed_of db i.id)) (with_payments db)
            (select (λ p. p.invoice_id == i.id) db.payouts)
            (weakened _ _ _ (λ p e. same_payments db i.id all p e)
              (All-select (λ p. p.invoice_id == i.id) db.payouts)),
        map_agrees_on (with_repayments_of (completed_of db i.id)) (with_repayments db)
            (select (λ r. r.invoice_id == i.id) db.refunds)
            (weakened _ _ _ (λ r e. same_repayments db i.id all r e)
              (All-select (λ r. r.invoice_id == i.id) db.refunds)),
      )
      refl

-- A response sorts its invoices anyway.
shown_response-order_by :
    (payment_url : Uuid → String) (db : Db) (invoices : List Invoice) (time : DateTime)
    → shown_response payment_url db (order_by (λ (i : Invoice). i.updated_at) invoices) time
      ≡ shown_response payment_url db invoices time
shown_response-order_by payment_url db invoices time =
    rw (order_by-order_by (λ (i : Invoice). i.updated_at) invoices) refl

-- When the hexadecimal code and the texts of times are read back, and so are the amounts and the
-- addresses of the swaps, no two payouts and no two refunds share an id, an incoming transaction
-- has no origin and another is not of both a payout and a refund, and the engine does not fail at
-- the query, the feed of the changes since a time succeeds: it holds, by the time of their update
-- and then as the engine came upon them, the invoices whose last change, their own or that of a
-- transaction, a payout, a refund or a swap of theirs, is after that time, each as a snapshot shows
-- it; the time for the next request is the one after the query.
pub get_changes-since :
    (payment_url : Uuid → String) (codec : Codec) (since : DateTime) (s : Store)
    → Reads codec
    → DistinctTransfers s.db
    → All (ReadSwap codec) s.db.front_end_swaps
    → All WellPlaced s.db.transactions
    → s.env.faulty s.calls ≡ false
    → (get_changes payment_url codec (some since) s).0
      ≡ ok (
          shown_response payment_url s.db
            (codec.scan (changed_invoices since s.db))
            (s.env.clock (suc s.calls)))
unfolding get_changes ◌>>=◌
get_changes-since payment_url codec since s reads distinct swaps all good =
    let time = s.env.clock (suc s.calls) in
    rw
      (
        get_invoice_changes_lem codec since s reads distinct swaps good,
        map_agrees (λ i. row_changes (related_rows s.db i)) (changes_in s.db)
            (found_invoices codec since s.db) (λ i. row_changes-related_rows s.db i all),
        into_public-shown payment_url s.db (found_invoices codec since s.db) time,
        shown_response-order_by payment_url s.db
            (codec.scan (select (is_changed since s.db) s.db.invoices)) time,
        select-is_changed since s.db,
      )
      refl

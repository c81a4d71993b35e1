-- ===== src/Dao/Changes/Rows.antt =====
-- How daemon/src/dao/changes.rs splits the transactions of an invoice.
use kalatori.Dao.Changes.{Split, put, put_outgoing, split_all}
use kalatori.Types.Invoice.{Uuid}
use kalatori.Types.Transaction.{Transaction, is_incoming}
use kalatori.Common.Groups.{append_none, append_assoc, is_some_id}
use kalatori.Common.{
  ◌≡◌, refl, ap, ◌∙◌, sym, Bool, true, false, if◌then◌else◌, not, ◌&&◌, List, [], ◌∷◌, ◌++◌, select,
  select-append, Option, none, some, ◌==◌,
}

-- An outgoing transaction of the payout.
abbrev pub pays : Uuid → Transaction → Bool
pays id t = not (is_incoming t) && is_some_id id t.origin.payout_id

abbrev pub refund_only : Uuid → Option Uuid → Option Uuid → Bool
refund_only id (some k) r = false
refund_only id none r = is_some_id id r

-- An outgoing transaction of the refund, and of no payout.
abbrev pub repays : Uuid → Transaction → Bool
repays id t = not (is_incoming t) && refund_only id t.origin.payout_id t.origin.refund_id

-- What the loop has added to the split.
abbrev pub Added : List Transaction → Split → Split → Type 0
Added ts old new =
    (new.incoming_transactions ≡ old.incoming_transactions ++ select is_incoming ts)
    × ((id : Uuid) → new.outgoing_by_payout id ≡ old.outgoing_by_payout id ++ select (pays id) ts)
    × ((id : Uuid) → new.outgoing_by_refund id ≡ old.outgoing_by_refund id ++ select (repays id) ts)

pushed_one :
    (q : Bool) (t : Transaction) (l : List Transaction)
    → (if q then l ++ t ∷ [] else l) ≡ l ++ (if q then t ∷ [] else [])
pushed_one true t l = refl
pushed_one false t l = sym (append_none l)

-- By what the loop looks at.
put_cases :
    (b : Bool) (p r : Option Uuid) (t : Transaction) (s : Split)
    → let new =
        if b
        then record s { incoming_transactions = s.incoming_transactions ++ t ∷ [] }
        else put_outgoing p r t s in
      (new.incoming_transactions ≡ s.incoming_transactions ++ (if b then t ∷ [] else []))
      × ((id : Uuid)
          → new.outgoing_by_payout id
            ≡ s.outgoing_by_payout id ++ (if not b && is_some_id id p then t ∷ [] else []))
      × ((id : Uuid)
          → new.outgoing_by_refund id
            ≡ s.outgoing_by_refund id ++ (if not b && refund_only id p r then t ∷ [] else []))
put_cases true p r t s = (refl, λ id. sym (append_none _), λ id. sym (append_none _))
put_cases false (some k) r t s = (
  sym (append_none _),
  λ id. pushed_one (k == id) t (s.outgoing_by_payout id),
  λ id. sym (append_none _),
)
put_cases false none (some k) t s = (
  sym (append_none _),
  λ id. sym (append_none _),
  λ id. pushed_one (k == id) t (s.outgoing_by_refund id),
)
put_cases false none none t s =
    (sym (append_none _), λ id. sym (append_none _), λ id. sym (append_none _))

put-Added : (t : Transaction) (s : Split) → Added (t ∷ []) s (put t s)
unfolding put
put-Added t s = put_cases (is_incoming t) t.origin.payout_id t.origin.refund_id t s

extended :
    (p : Transaction → Bool) (t : Transaction) (ts l m n : List Transaction)
    → m ≡ l ++ select p (t ∷ [])
    → n ≡ m ++ select p ts
    → n ≡ l ++ select p (t ∷ ts)
extended p t ts l m n one rest =
    rest
    ∙ ap (λ x. x ++ select p ts) one
    ∙ append_assoc l (select p (t ∷ [])) (select p ts)
    ∙ ap (λ x. l ++ x) (sym (select-append p (t ∷ []) ts))

pub split_all-Added : (ts : List Transaction) (s : Split) → Added ts s (split_all ts s)
unfolding split_all
split_all-Added [] s = (sym (append_none _), λ id. sym (append_none _), λ id. sym (append_none _))
split_all-Added (t ∷ ts) s =
    let (i, p, r) = put-Added t s in
    let (is, ps, rs) = split_all-Added ts (put t s) in
    (
      extended is_incoming t ts _ _ _ i is,
      λ id. extended (pays id) t ts _ _ _ (p id) (ps id),
      λ id. extended (repays id) t ts _ _ _ (r id) (rs id),
    )

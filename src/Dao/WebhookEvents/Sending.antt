-- ===== src/Dao/WebhookEvents/Sending.antt =====
-- What `get_webhook_events_to_send` of daemon/src/dao/webhook_event.rs hands to the sender.
use kalatori.Types.Webhook.{WebhookEvent}
use kalatori.Dao.Store.{query, Store}
use kalatori.Dao.WebhookEvents.{
  before, is_first_unsent, insert_event, in_order, get_webhook_events_to_send, DaoWebhookEventError,
}
use kalatori.Common.{
  ℕ, zero, suc, ◌≤◌, ◌≡◌, inl, inr, true, List, [], ◌∷◌, Bool-cases, length, All, ok, subst, arith,
  select, length-take-le, All-take, ok_inj, err_ok, ◌<◌, ap, ◌∙◌, ◌⊎◌, Bool, false, not, ◌&&◌, Memᴰ,
  ◌==◌, or_false, exists, All-select_both, All-Memᴰ,
}

insert_event-All :
    (P : WebhookEvent → Type 0) (e : WebhookEvent) (es : List WebhookEvent)
    → P e
    → All P es
    → All P (insert_event e es)
insert_event-All P e [] h hs = (h, tt)
insert_event-All P e (f ∷ fs) h hs = elim (Bool-cases (before f e)) [
  | inl b ↦ rw b (hs.0, insert_event-All P e fs h hs.1)
  | inr b ↦ rw b (h, hs)
]

in_order-All : (P : WebhookEvent → Type 0) (es : List WebhookEvent) → All P es → All P (in_order es)
in_order-All P [] hs = tt
in_order-All P (e ∷ es) hs = insert_event-All P e (in_order es) hs.0 (in_order-All P es hs.1)

-- Created before the other, or at the same time with a smaller id.
abbrev pub Earlier : WebhookEvent → WebhookEvent → Type 0
Earlier f e = (f.created_at < e.created_at) ⊎ ((f.created_at ≡ e.created_at) × (f.id < e.id))

-- An unsent event of the table, with no earlier unsent event of its entity in it.
abbrev pub FirstUnsent : List WebhookEvent → WebhookEvent → Type 0
FirstUnsent table e =
    Memᴰ e table
    × (e.sent ≡ false)
    × ((f : WebhookEvent)
        → Memᴰ f table
        → f.sent ≡ false
        → f.entity_id ≡ e.entity_id
        → ¬ Earlier f e)

before-Earlier : (f e : WebhookEvent) → Earlier f e → before f e ≡ true
before-Earlier f e (inl sooner) = ground arith
before-Earlier f e (inr (same, less)) = ground arith

not_in :
    {A : Type 0} (p : A → Bool) (xs : List A) (x : A)
    → exists p xs ≡ false
    → Memᴰ x xs
    → p x ≡ false
not_in p [] x absent nowhere = elim nowhere [ ]
not_in p (y ∷ ys) x absent (Memᴰ.head e) = ap p e ∙ (or_false (p y) (exists p ys) absent).0
not_in p (y ∷ ys) x absent (Memᴰ.tail there) =
    not_in p ys x (or_false (p y) (exists p ys) absent).1 there

both_not : (a b : Bool) → (not a && not b) ≡ true → (a ≡ false) × (b ≡ false)
both_not a b h = ground arith

all_four : (a b c : Bool) → a ≡ false → b ≡ true → c ≡ true → (not a && b && c) ≡ false → ⊥
all_four a b c x y z h = ground arith

first-FirstUnsent :
    (table : List WebhookEvent) (e : WebhookEvent)
    → Memᴰ e table
    → is_first_unsent table e ≡ true
    → FirstUnsent table e
unfolding is_first_unsent
first-FirstUnsent table e there first =
    let (unsent, absent) = both_not e.sent _ first in
    (
      there,
      unsent,
      λ f f_there f_unsent same earlier.
          all_four f.sent (f.entity_id == e.entity_id) (before f e) f_unsent (same_test f e same)
            (before-Earlier f e earlier)
            (not_in (λ f. not f.sent && (f.entity_id == e.entity_id) && before f e) table f absent
              f_there),
    )
  where
    same_test :
        (f e : WebhookEvent) → f.entity_id ≡ e.entity_id → (f.entity_id == e.entity_id) ≡ true
    same_test f e h = ground arith

rows-FirstUnsent :
    (table : List WebhookEvent) → All (FirstUnsent table) (select (is_first_unsent table) table)
rows-FirstUnsent table =
    All-select_both (λ e. Memᴰ e table) (FirstUnsent table) (is_first_unsent table) table
      (All-Memᴰ table) (λ e there first. first-FirstUnsent table e there first)

-- When the call succeeds, at most `limit` events are handed out, and each is an unsent event of the
-- table, with no earlier unsent event of its entity there.
pub get_webhook_events_to_send-first :
    (limit : ℕ) (s : Store) (es : List WebhookEvent)
    → (get_webhook_events_to_send limit s).0 ≡ ok es
    → (length es ≤ limit) × All (FirstUnsent s.db.webhook_events) es
unfolding get_webhook_events_to_send query
get_webhook_events_to_send-first zero s es e =
    subst (λ l. (length l ≤ 0) × All (FirstUnsent s.db.webhook_events) l)
      (ok_inj DaoWebhookEventError e) (omega arith, tt)
get_webhook_events_to_send-first (suc n) s es e = elim (Bool-cases (s.env.faulty s.calls)) [
  | inl bad ↦ absurd (err_ok (rw bad at e))
  | inr good ↦
      let all = select (is_first_unsent s.db.webhook_events) s.db.webhook_events in
      subst (λ l. (length l ≤ suc n) × All (FirstUnsent s.db.webhook_events) l)
        (ok_inj DaoWebhookEventError (rw good at e))
        (
          length-take-le (suc n) (in_order all),
          All-take _ (suc n) (in_order all)
              (in_order-All _ all (rows-FirstUnsent s.db.webhook_events)),
        )
]

-- ===== src/WebhookSender/Running.antt =====
-- What every run of the sender of daemon/src/webhook_sender.rs keeps.
use kalatori.Types.Invoice.{Uuid}
use kalatori.Types.Webhook.{WebhookEvent}
use kalatori.Dao.WebhookEvents.Sending.{get_webhook_events_to_send-first}
use kalatori.Dao.WebhookEvents.{DaoWebhookEventError, get_webhook_events_to_send}
use kalatori.Common.{
  ok, err, panic, [], ◌∷◌, ℕ, suc, ◌+◌, ◌-◌, ◌≤◌, ◌≡◌, refl, sym, ap, ◌∙◌, subst, inl, inr, Bool,
  false, List, map, arith, ◌==◌, ==_iff, Bool-cases, or_false, length, exists, Result, is_ok,
}
use kalatori.WebhookSender.{
  ticked, answered, here, next, max_concurrent_requests, insert_events, or_no_events,
  prepare_webhook_events, without, answered_future, handle_send_webhook_result, Turns, Sender,
}

abbrev pub NoRepeats : List Uuid → Type 0
NoRepeats [] = Unit
NoRepeats (id ∷ ids) = (exists (λ k. k == id) ids ≡ false) × NoRepeats ids

abbrev ids_of : List WebhookEvent → List Uuid
ids_of = map λ e. e.id

-- The set holds the events in flight, each once, and ten at most.
pub record IsWellFormed (s : Sender) : Type 0 where
  pub same : ids_of s.futures_set ≡ s.processing_events_ids
  pub no_repeats : NoRepeats s.processing_events_ids
  pub bounded : length s.processing_events_ids ≤ max_concurrent_requests

insert_events-IsWellFormed :
    (es : List WebhookEvent) (ids : List Uuid) (futures : List WebhookEvent)
    → ids_of futures ≡ ids
    → NoRepeats ids
    → (ids_of (insert_events es ids futures).1 ≡ (insert_events es ids futures).0)
      × NoRepeats (insert_events es ids futures).0
      × (length (insert_events es ids futures).0 ≤ length ids + length es)
unfolding insert_events
insert_events-IsWellFormed [] ids futures same once = (same, once, omega arith)
insert_events-IsWellFormed (e ∷ es) ids futures same once =
    elim (Bool-cases (exists (λ k. k == e.id) ids)) [
      | inl had ↦
          let (same', once', few) = insert_events-IsWellFormed es ids futures same once in
          rw had (same', once', more (length ids) (length es) _ few)
      | inr new ↦
          let (same', once', few) =
            insert_events-IsWellFormed es (e.id ∷ ids) (e ∷ futures) (ap (λ l. e.id ∷ l) same)
              (new, once) in
          rw new (same', once', one_more (length ids) (length es) _ few)
    ]
  where
    more : (a b n : ℕ) → n ≤ a + b → n ≤ a + suc b
    more a b n h = omega arith

    one_more : (a b n : ℕ) → n ≤ suc a + b → n ≤ a + suc b
    one_more a b n h = omega arith

few_events :
    (limit : ℕ) (q : Result DaoWebhookEventError (List WebhookEvent))
    → ((es : List WebhookEvent) → q ≡ ok es → length es ≤ limit)
    → length (or_no_events q) ≤ limit
few_events limit (ok es) h = h es refl
few_events limit (err e) h = omega arith
few_events limit panic h = omega arith

prepare_webhook_events-IsWellFormed :
    (s : Sender) → IsWellFormed s → IsWellFormed (prepare_webhook_events s)
unfolding prepare_webhook_events
prepare_webhook_events-IsWellFormed s fine =
    let limit = max_concurrent_requests - length s.processing_events_ids in
    elim (Bool-cases (limit == 0)) [
      | inl e ↦ rw e fine
      | inr e ↦
          let q = get_webhook_events_to_send limit s.store in
          let few =
            few_events limit q.0
              λ es is. (get_webhook_events_to_send-first limit s.store es is).0 in
          let (same, once, grown) =
            insert_events-IsWellFormed (or_no_events q.0) s.processing_events_ids s.futures_set
              fine.same fine.no_repeats in
          rw e (record {
            same = same;
            no_repeats = once;
            bounded = within (length s.processing_events_ids) _ _ fine.bounded few grown;
          })
    ]
  where
    within : (a b n : ℕ) → a ≤ 10 → b ≤ 10 - a → n ≤ a + b → n ≤ 10
    within a b n h k l = omega arith

exists-without :
    (id j : Uuid) (ids : List Uuid)
    → exists (λ k. k == j) ids ≡ false
    → exists (λ k. k == j) (without id ids) ≡ false
exists-without id j [] h = refl
exists-without id j (k ∷ ids) h = ground (arith, exists-without id j ids)

without-NoRepeats : (id : Uuid) (ids : List Uuid) → NoRepeats ids → NoRepeats (without id ids)
without-NoRepeats id [] h = tt
without-NoRepeats id (k ∷ ids) h = elim (Bool-cases (k == id)) [
  | inl e ↦ rw e (without-NoRepeats id ids h.1)
  | inr e ↦ rw e (exists-without id k ids h.0, without-NoRepeats id ids h.1)
]

length-without : (id : Uuid) (ids : List Uuid) → length (without id ids) ≤ length ids
length-without id [] = omega arith
length-without id (k ∷ ids) = ground (arith, length-without id ids)

without_absent :
    (id : Uuid) (ids : List Uuid) → exists (λ k. k == id) ids ≡ false → without id ids ≡ ids
without_absent id [] h = refl
without_absent id (k ∷ ids) h =
    let (other, rest) = or_false (k == id) _ h in rw (other, without_absent id ids rest) refl

answered_future-without :
    (id : Uuid) (es : List WebhookEvent)
    → NoRepeats (ids_of es)
    → ids_of (answered_future id es) ≡ without id (ids_of es)
unfolding answered_future
answered_future-without id [] h = refl
answered_future-without id (e ∷ es) h = elim (Bool-cases (e.id == id)) [
  | inl f ↦ rw f (
      sym (
        without_absent id (ids_of es)
          (subst (λ j. exists (λ k. k == j) (ids_of es) ≡ false) ((==_iff e.id id).0 f) h.0)))
  | inr f ↦ rw f (ap (λ l. e.id ∷ l) (answered_future-without id es h.1))
]

handle_result-IsWellFormed :
    (id : Uuid) (is_ok : Bool) (s : Sender)
    → IsWellFormed s
    → IsWellFormed (handle_send_webhook_result id is_ok s)
unfolding handle_send_webhook_result
handle_result-IsWellFormed id is_ok s fine = record {
  same =
      answered_future-without id s.futures_set (subst NoRepeats (sym fine.same) fine.no_repeats)
      ∙ ap (without id) fine.same;
  no_repeats = without-NoRepeats id s.processing_events_ids fine.no_repeats;
  bounded = shorter _ _ (length-without id s.processing_events_ids) fine.bounded;
}
  where
    shorter : (a b : ℕ) → a ≤ b → b ≤ 10 → a ≤ 10
    shorter a b h k = omega arith

-- Every run of the sender, from a well-formed state, ends in one: the set of processed ids is that
-- of the requests in flight, no event is in flight twice, and there are ten requests at most,
-- whatever the database and the shop's server answer.
pub Turns-IsWellFormed : (s t : Sender) → Turns s t → IsWellFormed s → IsWellFormed t
Turns-IsWellFormed s t (here _) fine = fine
Turns-IsWellFormed s t (next {s = m} run (ticked _)) fine =
    prepare_webhook_events-IsWellFormed m (Turns-IsWellFormed s m run fine)
Turns-IsWellFormed s t (next {s = m} run (answered _ id is_ok there)) fine =
    handle_result-IsWellFormed id is_ok m (Turns-IsWellFormed s m run fine)

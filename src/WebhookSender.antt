-- ===== src/WebhookSender.antt =====
-- The sender of webhooks: daemon/src/webhook_sender.rs. A request's future is its event, and what
-- the shop's server answers to it is given to `handle_send_webhook_result`.
pub mod Running
use kalatori.Types.Invoice.{Uuid}
use kalatori.Types.Webhook.{WebhookEvent}
use kalatori.Dao.Store.{Store}
use kalatori.Dao.WebhookEvents.{
  DaoWebhookEventError, get_webhook_events_to_send, mark_webhook_event_as_sent,
}
use kalatori.Common.{
  ok, err, panic, [], ◌∷◌, ℕ, ◌-◌, ◌≡◌, Bool, true, not, List, ◌==◌, if◌then◌else◌, length, select,
  exists, Result, is_ok,
}

-- The sender, with the database and the futures of the requests in flight.
pub record Sender : Type 0 where
  pub store : Store
  pub processing_events_ids : List Uuid
  pub futures_set : List WebhookEvent

abbrev pub max_concurrent_requests : ℕ
max_concurrent_requests = 10

-- `HashSet::insert` for each event: the set, and the futures of the events that it did not have.
unfoldable pub insert_events :
    List WebhookEvent → List Uuid → List WebhookEvent → List Uuid × List WebhookEvent
insert_events [] ids futures = (ids, futures)
insert_events (e ∷ es) ids futures =
    if exists (λ k. k == e.id) ids
    then insert_events es ids futures
    else insert_events es (e.id ∷ ids) (e ∷ futures)

-- A failed read is logged, and gives no events.
abbrev pub or_no_events {ℓ} : {E : Type ℓ} → Result E (List WebhookEvent) → List WebhookEvent
or_no_events (ok es) = es
or_no_events (err e) = []
or_no_events panic = []

abbrev pub start_requests :
    Sender → Result DaoWebhookEventError (List WebhookEvent) × Store → Sender
start_requests s (events, store) =
    let (ids, futures) =
      insert_events (or_no_events events) s.processing_events_ids s.futures_set in
    record { store = store; processing_events_ids = ids; futures_set = futures }

-- `prepare_webhook_events`, and the extension of the futures with its result. The set never has
-- more than the limit, so that the subtraction is the one on ℕ.
unfoldable pub prepare_webhook_events : Sender → Sender
prepare_webhook_events s =
    let limit = max_concurrent_requests - length s.processing_events_ids in
    if limit == 0 then s else start_requests s (get_webhook_events_to_send limit s.store)

-- The set without the id.
abbrev pub without : Uuid → List Uuid → List Uuid
without id = select λ k. not (k == id)

-- The futures without the one that has answered.
unfoldable pub answered_future : Uuid → List WebhookEvent → List WebhookEvent
answered_future id [] = []
answered_future id (e ∷ es) = if e.id == id then es else e ∷ answered_future id es

-- The answer of the future of the event: an error of the database is logged.
unfoldable pub handle_send_webhook_result : Uuid → Bool → Sender → Sender
handle_send_webhook_result event_id is_ok s = record {
  store = if is_ok then (mark_webhook_event_as_sent event_id s.store).1 else s.store;
  processing_events_ids = without event_id s.processing_events_ids;
  futures_set = answered_future event_id s.futures_set;
}

-- One turn of the loop of `perform`.
pub data Turn : Sender → Sender → Type 0 where
  ticked : (s : Sender) → Turn s (prepare_webhook_events s)
  answered :
      (s : Sender) (event_id : Uuid) (is_ok : Bool)
      → exists (λ (e : WebhookEvent). e.id == event_id) s.futures_set ≡ true
      → Turn s (handle_send_webhook_result event_id is_ok s)

pub data Turns : Sender → Sender → Type 0 where
  here : (s : Sender) → Turns s s
  next : {r s t : Sender} → Turns r s → Turn s t → Turns r t

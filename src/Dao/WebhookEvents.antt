-- ===== src/Dao/WebhookEvents.antt =====
-- The table `webhook_events`: daemon/src/dao/webhook_event.rs.
pub mod Sending
use kalatori.Common.{
  ℕ, zero, suc, Bool, true, not, ◌&&◌, ◌||◌, none, some, List, [], ◌∷◌, ◌++◌, ok, err, ◌==◌, ltb,
  if◌then◌else◌, find, select, update, exists, take,
}
use kalatori.Types.Invoice.{Uuid, Invoice}
use kalatori.Types.Webhook.{WebhookEvent}
use kalatori.Dao.Store.{Dao, pure, ◌>>=◌, now, query, Store}

pub data DaoWebhookEventError : Type 0 where
  database_error : DaoWebhookEventError

abbrev pub has_event_id : Uuid → WebhookEvent → Bool
has_event_id id e = e.id == id

unfoldable pub create_webhook_event : WebhookEvent → Dao DaoWebhookEventError WebhookEvent
create_webhook_event e = query database_error λ _ db.
    if exists (has_event_id e.id) db.webhook_events
    then err database_error
    else ok (e, record db { webhook_events = db.webhook_events ++ e ∷ [] })

-- `ORDER BY created_at ASC, id ASC`
abbrev pub before : WebhookEvent → WebhookEvent → Bool
before e f = ltb e.created_at f.created_at || ((e.created_at == f.created_at) && ltb e.id f.id)

-- `rn = 1`: no unsent event of the same entity stands before it.
unfoldable pub is_first_unsent : List WebhookEvent → WebhookEvent → Bool
is_first_unsent es e =
    not e.sent && not (exists (λ f. not f.sent && (f.entity_id == e.entity_id) && before f e) es)

abbrev pub insert_event : WebhookEvent → List WebhookEvent → List WebhookEvent
insert_event e [] = e ∷ []
insert_event e (f ∷ fs) =
    let rest = insert_event e fs in if before f e then f ∷ rest else e ∷ f ∷ fs

abbrev pub in_order : List WebhookEvent → List WebhookEvent
in_order [] = []
in_order (e ∷ es) = insert_event e (in_order es)

unfoldable pub get_webhook_events_to_send : ℕ → Dao DaoWebhookEventError (List WebhookEvent)
unfolding is_first_unsent
get_webhook_events_to_send zero = pure []
get_webhook_events_to_send (suc n) = query database_error λ _ db.
    ok (take (suc n) (in_order (select (is_first_unsent db.webhook_events) db.webhook_events)), db)

-- A missing row is an error as well.
unfoldable pub mark_webhook_event_as_sent : Uuid → Dao DaoWebhookEventError WebhookEvent
mark_webhook_event_as_sent id = do
  time ← now
  query database_error λ _ db. elim (find (has_event_id id) db.webhook_events) [
    | none ↦ err database_error
    | some row ↦
        let change = λ (e : WebhookEvent). record e { sent = true; updated_at = time } in
        ok (
          change row,
          record db { webhook_events = update (has_event_id id) change db.webhook_events },
        )
  ]

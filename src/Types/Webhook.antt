-- ===== src/Types/Webhook.antt =====
-- Webhook events: daemon/src/types/webhook_event.rs and the events of client/src/types/api.rs.
use kalatori.Common.{Bool, false}
use kalatori.Types.Invoice.{Uuid, DateTime, PublicInvoice}

pub data InvoiceEventType : Type 0 where
  created updated admin_canceled customer_canceled paid partially_paid expired : InvoiceEventType

-- `GenericEvent<Invoice>`; its entity is always `Invoice`.
pub record GenericEvent : Type 0 where
  pub id : Uuid
  pub event_type : InvoiceEventType
  pub payload : PublicInvoice
  pub timestamp : DateTime

-- A row of the table `webhook_events`. The payload is kept before its serialisation to JSON.
pub record WebhookEvent : Type 0 where
  pub id : Uuid
  pub entity_id : Uuid
  pub payload : GenericEvent
  pub sent : Bool
  pub created_at : DateTime
  pub updated_at : DateTime

-- `build_event`, with the new id and the time.
abbrev pub build_event : Uuid → DateTime → PublicInvoice → InvoiceEventType → GenericEvent
build_event id now i event_type = record {
  id = id;
  event_type = event_type;
  payload = i;
  timestamp = now;
}

-- `From<GenericEvent> for WebhookEvent`
abbrev pub webhook_from : GenericEvent → WebhookEvent
webhook_from e = record {
  id = e.id;
  entity_id = e.payload.id;
  payload = e;
  sent = false;
  created_at = e.timestamp;
  updated_at = e.timestamp;
}

-- ===== src/Expiration.antt =====
-- The expiration of one invoice: `update_invoice_expired` of daemon/src/expiration_detector.rs.
pub mod Refunding
pub mod Expiring
pub mod Detector
use kalatori.Common.{ok, err, panic}
use kalatori.Common.{if◌then◌else◌, Result, err}
use kalatori.Types.Transfer.{new_refund}
use kalatori.Types.Webhook.{InvoiceEventType, build_event, webhook_from}
use kalatori.Dao.Invoices.{update_invoice_status}
use kalatori.Dao.WebhookEvents.{create_webhook_event}
use kalatori.Dao.Transfers.{create_refund}
use kalatori.Registry.{remove_invoice, Registry}
use kalatori.World.{World}
use kalatori.Config.{PaymentsConfig}
use kalatori.Types.Invoice.{
  waiting, partially_paid, unpaid_expired, partially_paid_expired, InvoiceStatus, invoice_status_eq,
  into_public_invoice, Invoice, InvoiceWithReceivedAmount,
}
use kalatori.Dao.Store.{◌>>=◌, ◌>>◌, now, Dao, pure, lift, map_err, new_uuid, transaction, Store}

pub data ExpirationDetectorError : Type 0 where
  database_error : ExpirationDetectorError

-- The refund of a partial payment, and the new status.
unfoldable pub expire_payment :
    InvoiceWithReceivedAmount → Dao ExpirationDetectorError InvoiceStatus
expire_payment r =
    if invoice_status_eq r.invoice.status partially_paid
    then (do
      time ← now
      id ← new_uuid
      map_err (λ _. database_error)
          (create_refund (new_refund id time r.invoice r.total_received_amount))
      pure partially_paid_expired)
    else if invoice_status_eq r.invoice.status waiting
    then pure unpaid_expired
    else lift (err database_error)

-- What is run between the begin and the commit. The event carries the invoice as it was lent.
unfoldable pub expire_body :
    PaymentsConfig → InvoiceWithReceivedAmount → Dao ExpirationDetectorError (Unit {0})
expire_body config r = do
  status ← expire_payment r
  map_err (λ _. database_error) (update_invoice_status r.invoice.id status)
  id ← new_uuid
  time ← now
  map_err (λ _. database_error)
      (create_webhook_event (
        webhook_from (
          build_event id time (into_public_invoice config.payment_url r) InvoiceEventType.expired)))
  pure tt

abbrev pub after_expiry :
    InvoiceWithReceivedAmount
    → World
    → Result ExpirationDetectorError (Unit {0})
    → Result ExpirationDetectorError (Unit {0}) × World
after_expiry r w (ok u) = (ok tt, record w { registry = remove_invoice r.invoice.id w.registry })
after_expiry r w (err e) = (err e, w)
after_expiry r w panic = (panic, w)

unfoldable pub update_invoice_expired :
    PaymentsConfig
    → InvoiceWithReceivedAmount
    → World
    → Result ExpirationDetectorError (Unit {0}) × World
update_invoice_expired config r w =
    let (result, store) =
      transaction database_error database_error (expire_body config r) w.store in
    after_expiry r (record w { store = store }) result

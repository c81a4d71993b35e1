-- ===== src/AppState.antt =====
-- What the API does with invoices: daemon/src/state.rs.
pub mod Changes
pub mod Creating
pub mod Inserting
pub mod Listing
pub mod Feed
pub mod Rewriting
use kalatori.Common.Int.{pos}
use kalatori.Types.Transfer.{new_payout, Payout}
use kalatori.Dao.Transfers.{create_payout}
use kalatori.Types.Chain.{ChainType, swap_chain_from}
use kalatori.Types.Webhook.{InvoiceEventType, build_event, webhook_from}
use kalatori.Dao.WebhookEvents.{create_webhook_event}
use kalatori.Registry.{get_invoice, add_invoice, remove_invoice, Registry}
use kalatori.World.{World}
use kalatori.Config.{PaymentsConfig}
use kalatori.Common.{
  ok, err, panic, ℕ, ◌+◌, ◌/◌, String, Option, none, some, Result, unwrap, ok_or, unwrap_or,
  if◌then◌else◌,
}
use kalatori.Dao.Invoices.{
  create_invoice as insert_invoice, database_error, not_found, DaoInvoiceError,
  update_invoice_status, update_invoice_data, get_invoice_by_id, update_not_allowed,
}
use kalatori.Dao.Store.{
  ◌>>=◌, ◌>>◌, Dao, pure, lift, map_err, new_uuid, transaction, begin_transaction,
  within_transaction, Store, now,
}
use kalatori.Types.Invoice.{
  admin_canceled, Decimal, Uuid, with_amount, into_public_invoice, InvoiceCart, Invoice,
  InvoiceWithReceivedAmount, CreateInvoiceData, UpdateInvoiceData, is_active,
}

-- `CreateInvoiceParams` and `UpdateInvoiceParams` of client/src/types/api.rs, with the cart as the
-- daemon keeps it.
pub record CreateInvoiceParams : Type 0 where
  pub order_id : String
  pub amount : Decimal
  pub cart : InvoiceCart
  pub redirect_url : String

pub record UpdateInvoiceParams : Type 0 where
  pub invoice_id : Uuid
  pub amount : Decimal
  pub cart : InvoiceCart

-- The address that the keyring derives from an invoice's id for a chain, in its text form, and the
-- configured names of the assets.
pub record Directory : Type 0 where
  pub generate_address : ChainType → Uuid → Option String
  pub asset_name : String → Option String

-- The invoice lives for this long; times are in whole seconds.
abbrev valid_till_of : PaymentsConfig → ℕ → ℕ
valid_till_of config time = time + config.invoice_lifetime_millis / 1000

-- `invoice_to_public_invoice`, `build_event` and `create_webhook_event`.
unfoldable pub announce :
    PaymentsConfig → InvoiceWithReceivedAmount → InvoiceEventType → Dao DaoInvoiceError (Unit {0})
announce config r event_type = do
  id ← new_uuid
  time ← now
  map_err (λ _. database_error)
      (create_webhook_event
        (webhook_from (build_event id time (into_public_invoice config.payment_url r) event_type)))
  pure tt

-- The data of a new invoice.
unfoldable pub new_invoice_data :
    PaymentsConfig → Directory → CreateInvoiceParams → Dao DaoInvoiceError CreateInvoiceData
new_invoice_data config directory params = do
  id ← new_uuid
  asset_id ← lift (unwrap (config.default_asset_id config.default_chain))
  time ← now
  payment_address ← lift (ok_or (directory.generate_address config.default_chain id) database_error)
  pure (record {
    id = id;
    order_id = params.order_id;
    asset_id = asset_id;
    asset_name = unwrap_or (directory.asset_name asset_id) "UNKNOWN";
    chain = config.default_chain;
    amount = params.amount;
    payment_address = payment_address;
    cart = params.cart;
    redirect_url = params.redirect_url;
    valid_till = valid_till_of config time;
  })

-- What is run between the begin and the commit.
unfoldable pub create_body :
    PaymentsConfig → CreateInvoiceData → Dao DaoInvoiceError InvoiceWithReceivedAmount
create_body config data' = do
  invoice ← insert_invoice data'
  announce config (with_amount invoice (pos 0)) InvoiceEventType.created
  pure (with_amount invoice (pos 0))

unfoldable pub create_stored :
    PaymentsConfig → Directory → CreateInvoiceParams → Dao DaoInvoiceError InvoiceWithReceivedAmount
create_stored config directory params = do
  data' ← new_invoice_data config directory params
  transaction database_error database_error (create_body config data')

-- The registry takes the invoice once it is stored.
abbrev pub after_create :
    World
    → Result DaoInvoiceError InvoiceWithReceivedAmount × Store
    → Result DaoInvoiceError InvoiceWithReceivedAmount × World
after_create w (ok r, s) = (ok r, record { store = s; registry = add_invoice r w.registry })
after_create w (err e, s) = (err e, record w { store = s })
after_create w (panic, s) = (panic, record w { store = s })

unfoldable pub create_invoice :
    PaymentsConfig
    → Directory
    → CreateInvoiceParams
    → World
    → Result DaoInvoiceError InvoiceWithReceivedAmount × World
create_invoice config directory params w =
    after_create w (create_stored config directory params w.store)

unfoldable pub update_body :
    PaymentsConfig → UpdateInvoiceData → Dao DaoInvoiceError InvoiceWithReceivedAmount
update_body config data' = do
  invoice ← update_invoice_data data'
  announce config (with_amount invoice (pos 0)) InvoiceEventType.updated
  pure (with_amount invoice (pos 0))

unfoldable pub update_stored :
    PaymentsConfig → UpdateInvoiceParams → Dao DaoInvoiceError InvoiceWithReceivedAmount
update_stored config params = do
  time ← now
  transaction database_error database_error (
      update_body config (record {
        invoice_id = params.invoice_id;
        amount = params.amount;
        cart = params.cart;
        valid_till = valid_till_of config time;
      }))

-- The registry is not told.
unfoldable pub update_invoice :
    PaymentsConfig
    → UpdateInvoiceParams
    → World
    → Result DaoInvoiceError InvoiceWithReceivedAmount × World
update_invoice config params w =
    let (result, store) = update_stored config params w.store in
    (result, record w { store = store })

-- The status is changed outside the transaction, which has the event alone.
unfoldable pub cancel_stored :
    PaymentsConfig → Uuid → Decimal → Dao DaoInvoiceError InvoiceWithReceivedAmount
cancel_stored config id total = do
  invoice ← update_invoice_status id admin_canceled
  within_transaction database_error (do
    announce config (with_amount invoice total) InvoiceEventType.admin_canceled
    pure (with_amount invoice total))

-- What the removed record knows, or nothing.
abbrev pub total_of : Option InvoiceWithReceivedAmount → Decimal
total_of none = pos 0
total_of (some r) = r.total_received_amount

abbrev pub after_begin :
    PaymentsConfig
    → Uuid
    → World
    → Result DaoInvoiceError (Unit {0}) × Store
    → Result DaoInvoiceError InvoiceWithReceivedAmount × World
after_begin config id w (ok u, s) =
    let (result, store) = cancel_stored config id (total_of (get_invoice id w.registry)) s in
    (result, record { store = store; registry = remove_invoice id w.registry })
after_begin config id w (err e, s) = (err e, record w { store = s })
after_begin config id w (panic, s) = (panic, record w { store = s })

-- The entry of the registry is removed first, whatever fails later.
unfoldable pub cancel_invoice_admin :
    PaymentsConfig → Uuid → World → Result DaoInvoiceError InvoiceWithReceivedAmount × World
cancel_invoice_admin config id w =
    after_begin config id w (begin_transaction database_error w.store)

-- A payout is not made by hand for an invoice that is still active.
abbrev refuse_active : Invoice → Result DaoInvoiceError (Unit {0})
refuse_active i = if is_active i.status then err (update_not_allowed i.id i.status) else ok tt

-- A payout that the admin asks for: `amount` is the 0.21 that the code has for every invoice.
unfoldable pub initiate_payout : PaymentsConfig → Decimal → Uuid → Dao DaoInvoiceError Payout
initiate_payout config amount invoice_id = do
  row ← get_invoice_by_id invoice_id
  invoice ← lift (ok_or row (not_found invoice_id))
  lift (refuse_active invoice)
  destination_address ← lift (unwrap (config.recipient invoice.chain))
  destination_chain ← lift (swap_chain_from invoice.chain)
  id ← new_uuid
  created ← now
  updated ← now
  map_err (λ _. database_error)
      (create_payout (
        new_payout id created updated invoice
          (record {
            destination_address = destination_address;
            destination_chain = destination_chain;
            destination_asset_id = invoice.asset_id;
          })
          amount))

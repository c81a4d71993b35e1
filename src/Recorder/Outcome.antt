-- ===== src/Recorder/Outcome.antt =====
-- What `add_outcome` writes: the payout, the refund and the webhook event of each new status.
use kalatori.Common.Int.{◌-ℤ◌}
use kalatori.Dao.Invoices.{has_id}
use kalatori.Types.Chain.{ChainType, swap_chain_fails}
use kalatori.Dao.Transfers.{has_refund_id, has_payout_id}
use kalatori.Types.Transfer.{Payout, Refund, TransferStatus}
use kalatori.Config.{PaymentsConfig}
use kalatori.Common.{
  ℕ, ◌≡◌, refl, true, [], ◌∷◌, ◌++◌, exists, false, none, some, unwrap_ok, unwrap_fails,
}
use kalatori.Types.Invoice.{
  paid, partially_paid, over_paid, PublicInvoice, Invoice, Decimal, InvoiceStatus,
  into_public_invoice, with_amount,
}
use kalatori.Types.Webhook.{InvoiceEventType, WebhookEvent}
use kalatori.Dao.Store.{Env, Store, tick, Db}
use kalatori.Dao.Store.Triples.{
  Ensures, Ensures-bind, Ensures-map_err, Ensures-bind_now, Ensures-bind_new_uuid,
  Ensures-bind_lift,
}
use kalatori.Dao.WebhookEvents.{has_event_id}
use kalatori.Dao.Effects.{
  Ensures-create_webhook_event, Ensures-create_refund, Ensures-create_payout,
}
use kalatori.Recorder.{add_webhook, add_payout, add_refund}

-- The payout that an invoice of the merchant gets, to the recipient that is configured for it.
pub record PaysOut (config : PaymentsConfig) (i : Invoice) (amount : Decimal) (p : Payout)
    : Type 0 where
  pub of_invoice : p.invoice_id ≡ i.id
  pub pays : p.amount ≡ amount
  pub is_new : p.status ≡ TransferStatus.waiting
  pub from_address : p.source_address ≡ i.payment_address
  pub on_chain : p.chain ≡ i.chain
  pub in_asset : p.asset_id ≡ i.asset_id
  pub to_asset : p.destination_params.destination_asset_id ≡ i.asset_id
  pub to_recipient : config.recipient i.chain ≡ some p.destination_params.destination_address

-- The refund of an overpaid invoice, whose destination is not known yet.
pub record GivesBack (i : Invoice) (amount : Decimal) (r : Refund) : Type 0 where
  pub of_invoice : r.invoice_id ≡ i.id
  pub pays : r.amount ≡ amount
  pub is_new : r.status ≡ TransferStatus.waiting
  pub from_address : r.source_address ≡ i.payment_address
  pub on_chain : r.chain ≡ i.chain
  pub in_asset : r.asset_id ≡ i.asset_id
  pub no_destination : r.destination_params ≡ none

-- The event that tells the merchant of it.
pub record Announces (i : PublicInvoice) (event_type : InvoiceEventType) (e : WebhookEvent)
    : Type 0 where
  pub carries : e.payload.payload ≡ i
  pub of_type : e.payload.event_type ≡ event_type
  pub unsent : e.sent ≡ false

abbrev public : PaymentsConfig → Invoice → Decimal → PublicInvoice
public config i total = into_public_invoice config.payment_url (with_amount i total)

-- How the tables change with a new status.
abbrev pub Outcome : PaymentsConfig → Invoice → InvoiceStatus → Decimal → Db → Db → Type 0
Outcome config i paid total old new =
    (p : Payout) × (e : WebhookEvent) × PaysOut config i total p
    × Announces (public config i total) InvoiceEventType.paid e
    × (new ≡ record old {
      payouts = old.payouts ++ p ∷ [];
      webhook_events = old.webhook_events ++ e ∷ [];
    })
Outcome config i partially_paid total old new =
    (e : WebhookEvent) × Announces (public config i total) InvoiceEventType.partially_paid e
    × (new ≡ record old { webhook_events = old.webhook_events ++ e ∷ [] })
Outcome config i over_paid total old new =
    (p : Payout) × (r : Refund) × (e : WebhookEvent) × PaysOut config i i.amount p
    × GivesBack i (total -ℤ i.amount) r
    × Announces (public config i total) InvoiceEventType.paid e
    × (new ≡ record old {
      payouts = old.payouts ++ p ∷ [];
      refunds = old.refunds ++ r ∷ [];
      webhook_events = old.webhook_events ++ e ∷ [];
    })
Outcome config i _ total old new = new ≡ old

module _ (env : Env) (Z : Type 0) (faults : (n : ℕ) → env.faulty n ≡ true → Z) (s : Store)
    (same : s.env ≡ env) (old : Db) (is_old : s.db ≡ old) where
  pub Ensures-add_webhook :
      (i : PublicInvoice) (event_type : InvoiceEventType)
      → ((n : ℕ) → exists (has_event_id (env.uuid n)) old.webhook_events ≡ true → Z)
      → Ensures env Z
          (λ _ db.
            (e : WebhookEvent) × Announces i event_type e
            × (db ≡ record old { webhook_events = old.webhook_events ++ e ∷ [] }))
          (add_webhook i event_type s)
  unfolding add_webhook
  Ensures-add_webhook i event_type dup = Ensures-bind_new_uuid env Z _ _ s same λ id.
      Ensures-bind_now env Z _ _ (tick s) λ time.
        Ensures-bind env Z _ _ _ _ _
          (Ensures-map_err env Z _ _ _ _
            (Ensures-create_webhook_event env Z faults _ same _ (λ h. dup id (rw is_old at h))))
          λ _ s' same' e.
            (same', (_, record { carries = refl; of_type = refl; unsent = refl }, rw is_old at e))

  pub Ensures-add_payout :
      (config : PaymentsConfig) (i : Invoice) (amount : Decimal)
      → (config.recipient i.chain ≡ none → Z)
      → (i.chain ≡ ChainType.polkadot_asset_hub → Z)
      → ((n : ℕ) → exists (has_payout_id (env.uuid n)) old.payouts ≡ true → Z)
      → (exists (has_id i.id) old.invoices ≡ false → Z)
      → Ensures env Z
          (λ _ db.
            (p : Payout) × PaysOut config i amount p
            × (db ≡ record old { payouts = old.payouts ++ p ∷ [] }))
          (add_payout config i amount s)
  unfolding add_payout
  Ensures-add_payout config i amount missing hub dup orphan =
      Ensures-bind_lift env Z _ s _ _
        (λ address found.
          Ensures-bind_lift env Z _ s _ _
            (λ chain _. Ensures-bind_new_uuid env Z _ _ s same λ id.
              Ensures-bind_now env Z _ _ (tick s) λ created.
                Ensures-bind_now env Z _ _ (tick (tick s)) λ updated.
                  Ensures-bind env Z _ _ _ _ _
                    (Ensures-map_err env Z _ _ _ _ (
                      Ensures-create_payout env Z faults _ same _ (λ h. dup id (rw is_old at h))
                        (λ h. orphan (rw is_old at h))))
                    λ _ s' same' e. (
                      same',
                      (
                        _,
                        record {
                          of_invoice = refl;
                          pays = refl;
                          is_new = refl;
                          from_address = refl;
                          on_chain = refl;
                          in_asset = refl;
                          to_asset = refl;
                          to_recipient = unwrap_ok _ _ found;
                        },
                        rw is_old at e,
                      ),
                    ))
            (λ h. hub (swap_chain_fails _ _ h)))
        (λ h. missing (unwrap_fails _ _ h))

  pub Ensures-add_refund :
      (i : Invoice) (amount : Decimal)
      → ((n : ℕ) → exists (has_refund_id (env.uuid n)) old.refunds ≡ true → Z)
      → (exists (has_id i.id) old.invoices ≡ false → Z)
      → Ensures env Z
          (λ _ db.
            (r : Refund) × GivesBack i amount r
            × (db ≡ record old { refunds = old.refunds ++ r ∷ [] }))
          (add_refund i amount s)
  unfolding add_refund
  Ensures-add_refund i amount dup orphan = Ensures-bind_now env Z _ _ s λ time.
      Ensures-bind_new_uuid env Z _ _ (tick s) same λ id.
        Ensures-bind env Z _ _ _ _ _
          (Ensures-map_err env Z _ _ _ _ (
            Ensures-create_refund env Z faults _ same _ (λ h. dup id (rw is_old at h))
              (λ h. orphan (rw is_old at h))))
          λ _ s' same' e. (
            same',
            (
              _,
              record {
                of_invoice = refl;
                pays = refl;
                is_new = refl;
                from_address = refl;
                on_chain = refl;
                in_asset = refl;
                no_destination = refl;
              },
              rw is_old at e,
            ),
          )

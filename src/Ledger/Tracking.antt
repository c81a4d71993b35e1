-- ===== src/Ledger/Tracking.antt =====
-- The books and the registry through the recorder and the loop of
-- daemon/src/chain/transfer_tracker.rs.
use kalatori.Types.Invoice.{Decimal, InvoiceStatus, is_final, InvoiceWithReceivedAmount}
use kalatori.Types.Transaction.{IncomingTransaction, GeneralChainTransfer, from_chain_transfer}
use kalatori.Ledger.Sound.{balanced_after, in_sync_after, kept_Entry}
use kalatori.Ledger.Recording.{Fits}
use kalatori.Recorder.Processing.{
  total_with, status_with, world_after, registry_after, process-all_or_nothing, record_of,
}
use kalatori.Registry.Keys.{
  Keyed, remove_invoice-Keyed, update_filled_amount-Keyed, find_invoice_by_address_lem,
}
use kalatori.Common.{ok, err, panic, false}
use kalatori.Tracker.{
  going, ended, world_of, process_transfer, process_transfers, Flow, flow_of, and_then,
}
use kalatori.Registry.{Registry, get_invoice, find_invoice_by_address}
use kalatori.Recorder.{process_invoice_transaction, Processed}
use kalatori.World.{World}
use kalatori.Common.{
  ◌≡◌, sym, ap, ◌∙◌, subst, inl, inr, List, [], ◌∷◌, Bool-cases, Option-cases, refl,
}
use kalatori.Ledger.{Balanced, Entry, IsSound}
use kalatori.Config.{PaymentsConfig}

registry_after-Keyed :
    (r : InvoiceWithReceivedAmount) (status : InvoiceStatus) (total : Decimal) (reg : Registry)
    → Keyed reg
    → Keyed (registry_after r status total reg)
registry_after-Keyed r status total reg keyed = elim (Bool-cases (is_final status)) [
  | inl f ↦ rw f (remove_invoice-Keyed r.invoice.id reg keyed)
  | inr f ↦ rw f (update_filled_amount-Keyed r.invoice.id total status reg keyed)
]

-- Soundness looks at the tables and the registry alone.
pub same_tables-IsSound :
    (v w : World) → v.store.db ≡ w.store.db → v.registry ≡ w.registry → IsSound w → IsSound v
same_tables-IsSound v w same_db same_registry sound = record {
  keyed = subst Keyed (sym same_registry) sound.keyed;
  in_sync = λ id q got.
      subst (λ db. Entry db id q) (sym same_db)
        (sound.in_sync id q (ap (get_invoice id) (sym same_registry) ∙ got));
  balanced = subst Balanced (sym same_db) sound.balanced;
}

-- When the state is sound, the record knows what came in for its invoice, which is not settled, it
-- is the one of the registry or the registry has none, and the transaction is for the invoice,
-- `process_invoice_transaction` leaves a sound state: for every invoice, payouts and refunds send
-- out exactly what came in once it is settled and nothing before, and every entry of the registry
-- stands for a row that is not settled and knows what came in for it.
pub process_invoice_transaction-IsSound :
    (config : PaymentsConfig) (r : InvoiceWithReceivedAmount) (t : IncomingTransaction) (w : World)
    → IsSound w
    → Fits w r t
    → IsSound (world_after (process_invoice_transaction config r t w))
process_invoice_transaction-IsSound config r t w sound fits =
    let p = process_invoice_transaction config r t w in
    elim (process-all_or_nothing config r t w) [
      | inl (done, stored, credit, registered) ↦ record {
        keyed = subst Keyed (sym registered) (
            registry_after-Keyed r (status_with config r t) (total_with r t) w.registry
              sound.keyed);
        in_sync = λ id q got.
            in_sync_after config r t w (world_after p).store.db sound fits stored id q
              (ap (get_invoice id) (sym registered) ∙ got);
        balanced = λ row id found.
            balanced_after config r t w (world_after p).store.db sound fits stored id row found;
      }
      | inr (failed, same_db, same, same_registry) ↦
          same_tables-IsSound (world_after p) w same_db same_registry sound
    ]

-- The caller's record, unless its invoice is paid now, still knows what came in for it.
pub process_invoice_transaction-Entry :
    (config : PaymentsConfig) (r : InvoiceWithReceivedAmount) (t : IncomingTransaction) (w : World)
    → IsSound w
    → Fits w r t
    → (is_final (record_of (process_invoice_transaction config r t w)).invoice.status ≡ false)
    → Entry
        (world_after (process_invoice_transaction config r t w)).store.db
        (record_of (process_invoice_transaction config r t w)).invoice.id
        (record_of (process_invoice_transaction config r t w))
process_invoice_transaction-Entry config r t w sound fits plain =
    let p = process_invoice_transaction config r t w in
    elim (process-all_or_nothing config r t w) [
      | inl (done, stored, credit, registered) ↦
          subst (λ (q : InvoiceWithReceivedAmount). Entry (world_after p).store.db q.invoice.id q)
            (sym credit)
            (kept_Entry config r t w (world_after p).store.db sound fits stored r.invoice.id refl (
              ap (λ (q : InvoiceWithReceivedAmount). is_final q.invoice.status) (sym credit)
              ∙ plain))
      | inr (failed, same_db, same, same_registry) ↦
          subst (λ (q : InvoiceWithReceivedAmount). Entry (world_after p).store.db q.invoice.id q)
            (sym same) (subst (λ db. Entry db r.invoice.id r) (sym same_db) fits.0.0)
    ]

world_of-flow_of : (p : Processed) → world_of (flow_of p) ≡ world_after p
world_of-flow_of (ok u, r, w) = refl
world_of-flow_of (err e, r, w) = refl
world_of-flow_of (panic, r, w) = refl

-- One transfer, whatever becomes of it.
pub process_transfer-IsSound :
    (config : PaymentsConfig) (transfer : GeneralChainTransfer) (w : World)
    → IsSound w
    → IsSound (world_of (process_transfer config transfer w))
unfolding process_transfer
process_transfer-IsSound config transfer w sound =
    elim (Option-cases
      (find_invoice_by_address transfer.recipient transfer.chain transfer.asset_id w.registry)) [
        | inl e ↦ rw (e, world_of) sound
        | inr (r, e) ↦
            rw (e, world_of)
              let t = from_chain_transfer r.invoice.id transfer in
                let found =
                  find_invoice_by_address_lem transfer.recipient transfer.chain transfer.asset_id
                    w.registry r sound.keyed e in
                subst IsSound (sym (world_of-flow_of (process_invoice_transaction config r t w))) (
                  process_invoice_transaction-IsSound config r t w sound
                    ((sound.in_sync r.invoice.id r found.0, inl found.0), refl))
      ]

and_then-IsSound :
    (x : Flow) (f : World → Flow)
    → IsSound (world_of x)
    → ((w : World) → IsSound w → IsSound (world_of (f w)))
    → IsSound (world_of (and_then x f))
and_then-IsSound (going w) f sound keeps = keeps w sound
and_then-IsSound (ended w) f sound keeps = sound

-- From a sound state, a delivered batch of transfers, with any failures between them, leads to a
-- sound state.
pub process_transfers-IsSound :
    (config : PaymentsConfig) (transfers : List GeneralChainTransfer) (w : World)
    → IsSound w
    → IsSound (world_of (process_transfers config transfers w))
unfolding process_transfers
process_transfers-IsSound config [] w sound = sound
process_transfers-IsSound config (t ∷ ts) w sound =
    and_then-IsSound (process_transfer config t w) (process_transfers config ts)
      (process_transfer-IsSound config t w sound) (process_transfers-IsSound config ts)

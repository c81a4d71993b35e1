-- ===== src/Tracker.antt =====
-- The tracker of incoming transfers: daemon/src/chain/transfer_tracker.rs.
pub mod Backoff
use kalatori.Common.{ℕ, Option, none, some, List, [], ◌∷◌, Result, ok, err, panic}
use kalatori.Types.Transaction.{GeneralChainTransfer, from_chain_transfer, Transaction}
use kalatori.Config.{PaymentsConfig}
use kalatori.Registry.{find_invoice_by_address, Registry}
use kalatori.World.{World}
use kalatori.Recorder.{Processed, process_invoice_transaction}

-- Where a task stands after some work: it goes on, or a panic has ended the process.
pub data Flow : Type 0 where
  going ended : World → Flow

abbrev pub world_of : Flow → World
world_of (going w) = w
world_of (ended w) = w

-- The tracker logs the result and drops it.
abbrev pub flow_of : Processed → Flow
flow_of (ok _, _, w) = going w
flow_of (err _, _, w) = going w
flow_of (panic, _, w) = ended w

unfoldable pub process_transfer : PaymentsConfig → GeneralChainTransfer → World → Flow
process_transfer config transfer w =
    elim (find_invoice_by_address transfer.recipient transfer.chain transfer.asset_id w.registry) [
      | none ↦ going w
      | some r ↦
          flow_of
            (process_invoice_transaction config r (from_chain_transfer r.invoice.id transfer) w)
    ]

abbrev pub and_then : Flow → (World → Flow) → Flow
and_then (going w) f = f w
and_then (ended w) f = ended w

-- The loop of `handle_subscription_event` over one delivered batch.
unfoldable pub process_transfers : PaymentsConfig → List GeneralChainTransfer → World → Flow
process_transfers config [] w = going w
process_transfers config (t ∷ ts) w =
    and_then (process_transfer config t w) (process_transfers config ts)

pub data SubscriptionError : Type 0 where
  asset_not_found : ℕ → SubscriptionError
  subscription_failed stream_closed : SubscriptionError
  block_processing_failed : ℕ → SubscriptionError

-- What the stream yields; `none` is its end.
abbrev pub SubscriptionEvent : Type 0
SubscriptionEvent = Option (Result SubscriptionError (List GeneralChainTransfer))

pub handle_subscription_event :
    PaymentsConfig → SubscriptionEvent → World → Result SubscriptionError (Unit {0}) × Flow
handle_subscription_event config (some (ok transfers)) w =
    (ok tt, process_transfers config transfers w)
handle_subscription_event config (some (err e)) w = (err e, going w)
handle_subscription_event config (some panic) w = (panic, ended w)
handle_subscription_event config none w = (err stream_closed, going w)

-- ===== src/Tests/Running.antt =====
-- Runs of several tasks, of the sender of webhooks and of the registry.
use kalatori.Tests.Deadline.{after_deadline, nothing_new, unused, after_swap}
use kalatori.Tests.Swaps.{swap}
use kalatori.SwapsTracker.{executed}
use kalatori.Common.Int.{pos, ◌+ℤ◌}
use kalatori.System.Runs.{Reach-IsSound}
use kalatori.Types.Invoice.{into_public_invoice, InvoiceStatus}
use kalatori.Types.Webhook.{InvoiceEventType, build_event, webhook_from, WebhookEvent}
use kalatori.Executor.Scheduling.Keeping.{schedule_transfers-Keeps}
use kalatori.Executor.Scheduling.{schedule_transfers, Services}
use kalatori.Dao.Store.{query}
use kalatori.Dao.WebhookEvents.{is_first_unsent, get_webhook_events_to_send}
use kalatori.Ledger.Keeping.{Keeps}
use kalatori.Tests.State.{chains, directory, new_order, not_settled, few}
use kalatori.WebhookSender.Running.{Turns-IsWellFormed, IsWellFormed}
use kalatori.Tracker.{world_of, process_transfers}
use kalatori.AppState.{cancel_invoice_admin, create_invoice}
use kalatori.Registry.{get_invoice}
use kalatori.World.{World}
use kalatori.Ledger.{IsSound}
use kalatori.Common.{[], ◌∷◌, ◌≡◌, refl, true, none, some, arith, inr}
use kalatori.System.{
  tracked, created, canceled, scheduled, here, next, Setting, expired, swap_checked,
}
use kalatori.WebhookSender.{
  ticked, answered, insert_events, prepare_webhook_events, handle_send_webhook_result, Sender,
  Turns,
}
use kalatori.Registry.Refinement.{
  adding, removing, filling, run_calls, run_changes, run_calls-run_changes,
}
use kalatori.Tests.{config, entry, db, env, world, world-IsSound, transfer}

abbrev pub services : Services
services = record {
  build_and_sign = λ _. some ("0xcc", "bytes");
  swaps = record {
    get_quote = λ _. none;
    sign_transaction = λ _. none;
    submit_transaction = λ _. none;
  };
  amount_units = λ _. some 0;
  to_lowercase = λ s. s;
  error_text = λ _. "failed";
}

abbrev setting : Setting
setting = record { config = config }

-- The first invoice expires, with a payment that was missed; its swap is reported again, which
-- finds nothing new; a new invoice comes, a payment that is too high, a tick of the executor, and a
-- cancellation.
abbrev after_order : World
after_order = (create_invoice config directory new_order after_swap).1

abbrev after_payment : World
after_payment = world_of (process_transfers config (transfer (pos 130) ∷ []) after_order)

abbrev after_tick : World
after_tick = record after_payment { store = (schedule_transfers services [] after_payment.store).1 }

Reach-IsSound_example : IsSound (cancel_invoice_admin config 100 after_tick).1
unfolding ◌+ℤ◌
Reach-IsSound_example =
    Reach-IsSound setting world (cancel_invoice_admin config 100 after_tick).1
      (next
        (next
          (next
            (next
              (next (next (here world) (expired chains 7 world not_settled few)) (
                swap_checked chains (some executed) swap (swap ∷ []) after_deadline
                  (λ _. inr nothing_new)))
              (created directory new_order after_swap unused))
            (tracked (transfer (pos 130) ∷ []) after_order))
          (scheduled services [] after_payment))
        (canceled 100 after_tick))
      world-IsSound

schedule_transfers-Keeps_example : Keeps (schedule_transfers services [])
schedule_transfers-Keeps_example = schedule_transfers-Keeps services []

run_calls-run_changes_example :
    get_invoice 7 (
      run_calls
        (adding entry ∷ filling 7 (pos 40) InvoiceStatus.partially_paid ∷ removing 9 ∷ [])
        [])
    ≡ run_changes
        (adding entry ∷ filling 7 (pos 40) InvoiceStatus.partially_paid ∷ removing 9 ∷ [])
        (λ j. get_invoice j [])
        7
run_calls-run_changes_example =
    run_calls-run_changes
      (adding entry ∷ filling 7 (pos 40) InvoiceStatus.partially_paid ∷ removing 9 ∷ []) [] 7

-- A sender with nothing in flight, and one event in the table.
abbrev paid_event : WebhookEvent
paid_event =
    webhook_from
      (build_event 51 2000 (into_public_invoice config.payment_url entry) InvoiceEventType.paid)

abbrev sender : Sender
sender = record {
  store = record { db = record db { webhook_events = paid_event ∷ [] }; env = env; calls = 0 };
  processing_events_ids = [];
  futures_set = [];
}

Turns-IsWellFormed_example :
    IsWellFormed (handle_send_webhook_result 51 true (prepare_webhook_events sender))
unfolding prepare_webhook_events get_webhook_events_to_send query insert_events is_first_unsent
Turns-IsWellFormed_example =
    Turns-IsWellFormed sender (handle_send_webhook_result 51 true (prepare_webhook_events sender))
      (Turns.next (Turns.next (Turns.here sender) (ticked sender))
        (answered (prepare_webhook_events sender) 51 true refl))
      (record { same = refl; no_repeats = tt; bounded = omega arith })

-- ===== src/Tests.antt =====
-- Concrete runs: a polygon invoice of 100 with tolerances of 5, and the transfers that pay it.
mod Tables
mod Deadline
mod Letters
mod Schedules
mod Transfers
mod State
mod Running
mod Swaps
mod Claims
mod Sessions
mod Requests
mod Logins
mod Feeds
use kalatori.Expiration.Expiring.{update_invoice_expired-IsSound}
use kalatori.Expiration.{update_invoice_expired}
use kalatori.Ledger.Start.{init_invoice_registry-IsSound}
use kalatori.Ledger.Tracking.{process_invoice_transaction-IsSound, process_transfers-IsSound}
use kalatori.Tracker.{world_of, process_transfers}
use kalatori.Registry.{get_invoice, Registry}
use kalatori.Ledger.{due, Entry, IsSound, is_settled}
use kalatori.Common.Int.{pos, ◌≤ℤ◌, ◌<ℤ◌, ◌+ℤ◌, ◌-ℤ◌}
use kalatori.Types.Transaction.{
  from_chain_transfer, IncomingTransaction, GeneralChainTransfer, from_incoming,
  general_transaction_id, Transaction,
}
use kalatori.Types.Chain.{ChainType}
use kalatori.Dao.Store.{Db, Env, Dao, Store}
use kalatori.Recorder.Storing.{Ready}
use kalatori.Recorder.Processing.{
  Completed, process-completes, result_of, world_after, min_paid, max_paid, paid_status-thresholds,
  Untouched, process-all_or_nothing, process-duplicate,
}
use kalatori.Recorder.{process_invoice_transaction, paid_status, transaction_duplication}
use kalatori.World.{World, init_invoice_registry}
use kalatori.Common.{
  ◌+◌, ◌≡◌, refl, sym, true, false, none, some, [], ◌∷◌, none-some, ap, subst, ◌↔◌, ◌⊎◌, inl, inr,
  arith, ◌==◌, ==_iff, Bool-cases, some_inj, find, err, ok,
}
use kalatori.Config.{SlippageParams, PaymentsConfig}
use kalatori.Types.Invoice.{
  waiting, partially_paid, paid, over_paid, Decimal, InvoiceStatus, empty_cart, with_amount,
  Invoice, InvoiceWithReceivedAmount, Uuid, is_final,
}
use kalatori.Dao.Invoices.{transition_allowed, has_id}

abbrev tolerances : SlippageParams
tolerances = record { underpayment_tolerance = pos 5; overpayment_tolerance = pos 5 }

abbrev pub config : PaymentsConfig
config = record {
  recipient = λ _. some "merchant";
  invoice_lifetime_millis = 86400000;
  default_chain = ChainType.polygon;
  default_asset_id = λ _. some "usdc";
  payment_url = λ _. "https://pay/";
  slippage_params = λ _ _. some tolerances;
}

abbrev pub invoice : Invoice
invoice = record {
  id = 7;
  order_id = "order-7";
  asset_id = "usdc";
  asset_name = "USDC";
  chain = ChainType.polygon;
  amount = pos 100;
  payment_address = "0x7";
  status = waiting;
  cart = empty_cart;
  redirect_url = "https://shop/";
  valid_till = 5000;
  created_at = 1000;
  updated_at = 1000;
}

abbrev pub entry : InvoiceWithReceivedAmount
entry = with_amount invoice (pos 0)

abbrev pub db : Db
db = record {
  invoices = invoice ∷ [];
  transactions = [];
  payouts = [];
  refunds = [];
  webhook_events = [];
  swaps = [];
  front_end_swaps = [];
}

abbrev pub env : Env
env = record { faulty = λ _. false; clock = λ n. 2000 + n; uuid = λ n. 100 + n }

abbrev pub world : World
world = record { store = record { db = db; env = env; calls = 0 }; registry = (7, entry) ∷ [] }

abbrev pub transfer : Decimal → GeneralChainTransfer
transfer amount = record {
  id = 31;
  chain = ChainType.polygon;
  asset_id = "usdc";
  asset_name = "USDC";
  amount = amount;
  sender = "0x9";
  recipient = "0x7";
  block_number = some 12;
  position_in_block = none;
  transaction_hash = some "0xaa";
  timestamp = 2000;
}

abbrev pub payment : Decimal → IncomingTransaction
payment amount = from_chain_transfer 7 (transfer amount)

pub ready :
    (amount : Decimal) (status : InvoiceStatus)
    → transition_allowed waiting status ≡ true
    → Ready config (payment amount) status world.store
ready amount status allowed = record {
  quiet = λ _. refl;
  unknown = refl;
  row = invoice;
  found = refl;
  allowed = allowed;
  payable = λ _ e. none-some (sym e);
  supported = λ _ e. grind arith;
  payout_ids = λ _. refl;
  refund_ids = λ _. refl;
  event_ids = λ _. refl;
}

-- The invoice is overpaid: the payout takes its amount, and the refund the rest.
process-completes_example :
    Completed config entry
      (payment (pos 130))
      world
      (process_invoice_transaction config entry (payment (pos 130)) world)
unfolding paid_status ◌+ℤ◌ ◌-ℤ◌ transition_allowed
process-completes_example =
    process-completes config entry (payment (pos 130)) world (ready (pos 130) over_paid refl)

process-all_or_nothing_example :
    Completed config entry
      (payment (pos 40))
      world
      (process_invoice_transaction config entry (payment (pos 40)) world)
    ⊎ Untouched entry world (process_invoice_transaction config entry (payment (pos 40)) world)
process-all_or_nothing_example = process-all_or_nothing config entry (payment (pos 40)) world

-- A table that has the payment already.
abbrev recorded : World
recorded = record world {
  store = record world.store {
    db = record db { transactions = from_incoming 2000 (payment (pos 40)) ∷ [] };
  };
}

process-duplicate_example :
    (result_of (process_invoice_transaction config entry (payment (pos 40)) recorded)
      ≡ err
          (transaction_duplication ChainType.polygon (general_transaction_id (transfer (pos 40)))))
    × Untouched entry recorded
        (process_invoice_transaction config entry (payment (pos 40)) recorded)
process-duplicate_example =
    process-duplicate config entry (payment (pos 40)) recorded (λ _. refl) refl

-- The world is sound.
found_invoice :
    (id : Uuid) (row : Invoice)
    → find (has_id id) (invoice ∷ []) ≡ some row
    → (7 ≡ id) × (invoice ≡ row)
found_invoice id row e = elim (Bool-cases (7 == id)) [
  | inl f ↦ ((==_iff 7 id).0 f, some_inj (rw f at e))
  | inr f ↦ absurd (none-some (rw f at e))
]

found_entry :
    (id : Uuid) (r : InvoiceWithReceivedAmount)
    → get_invoice id ((7, entry) ∷ []) ≡ some r
    → (7 ≡ id) × (entry ≡ r)
unfolding get_invoice
found_entry id r e = elim (Bool-cases (7 == id)) [
  | inl f ↦ ((==_iff 7 id).0 f, some_inj (rw f at e))
  | inr f ↦ absurd (none-some (rw f at e))
]

world-IsSound : IsSound world
unfolding get_invoice ◌+ℤ◌
world-IsSound = record {
  keyed = (refl, refl, tt);
  in_sync = λ id r got. subst (Entry db id) (found_entry id r got).1 (
    (found_entry id r got).0,
    refl,
    λ row found. ap (λ (i : Invoice). is_settled i.status) (sym (found_invoice id row found).1),
  );
  balanced =
      λ row id found. ap (λ (i : Invoice). due i.status (pos 0)) (found_invoice id row found).1;
}

process_invoice_transaction-IsSound_example :
    IsSound (world_after (process_invoice_transaction config entry (payment (pos 130)) world))
unfolding get_invoice
process_invoice_transaction-IsSound_example =
    process_invoice_transaction-IsSound config entry (payment (pos 130)) world world-IsSound
      ((world-IsSound.in_sync 7 entry refl, inl refl), refl)

process_transfers-IsSound_example :
    IsSound (world_of (process_transfers config (transfer (pos 40) ∷ transfer (pos 90) ∷ []) world))
process_transfers-IsSound_example =
    process_transfers-IsSound config (transfer (pos 40) ∷ transfer (pos 90) ∷ []) world
      world-IsSound

paid_status-thresholds_example :
    ((paid_status config invoice (pos 97) ≡ paid)
      ↔ (min_paid config invoice ≤ℤ pos 97 × pos 97 ≤ℤ max_paid config invoice))
    × ((paid_status config invoice (pos 97) ≡ partially_paid) ↔ (pos 97 <ℤ min_paid config invoice))
    × ((paid_status config invoice (pos 97) ≡ over_paid)
        ↔ (min_paid config invoice ≤ℤ pos 97 × max_paid config invoice <ℤ pos 97))
paid_status-thresholds_example = paid_status-thresholds config invoice (pos 97)

init_invoice_registry-IsSound_example :
    (reg : Registry) × ((init_invoice_registry world.store).0 ≡ ok reg)
    × IsSound (record { store = (init_invoice_registry world.store).1; registry = reg })
init_invoice_registry-IsSound_example =
    init_invoice_registry-IsSound world.store (refl, tt) world-IsSound.balanced refl

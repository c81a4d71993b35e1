-- ===== src/System.antt =====
-- The daemon's tasks together, as steps between worlds: the tracker of
-- daemon/src/chain/transfer_tracker.rs, the expiration detector, the API of daemon/src/state.rs,
-- the tracker of swaps of daemon/src/swaps/tracker.rs, the executor of
-- daemon/src/chain/executor.rs and the start of daemon/src/main.rs. A step is one
-- turn of a task: the tasks share the database and the registry, and turns come in any order.
pub mod Runs
use kalatori.Dao.Store.{Dao}
use kalatori.SwapsTracker.{executed, ExecutorSwapStatus, TrackedSwaps, check_swap}
use kalatori.SwapsTracker.Tracking.{handled_world, Checkable}
use kalatori.Types.SwapOrder.{Swap}
use kalatori.Expiration.Detector.{handle_expired_invoice}
use kalatori.Types.Invoice.{Uuid, Invoice, InvoiceWithReceivedAmount}
use kalatori.Types.Transaction.{GeneralChainTransfer, Transaction}
use kalatori.Executor.Scheduling.{InFlight, schedule_transfers, Services}
use kalatori.Dao.Invoices.{has_id}
use kalatori.Ledger.Start.{PrimaryKey}
use kalatori.AppState.Inserting.{Unused}
use kalatori.BalanceChecker.Checking.{FewFor, Unsettled}
use kalatori.Tracker.{world_of, process_transfers}
use kalatori.BalanceChecker.{Chains}
use kalatori.AppState.{
  update_invoice, cancel_invoice_admin, CreateInvoiceParams, UpdateInvoiceParams, Directory,
  create_invoice,
}
use kalatori.Registry.{Registry}
use kalatori.Executor.{handle_transfer_result, TransactionExecutionData}
use kalatori.World.{init_invoice_registry, World}
use kalatori.Ledger.{is_settled}
use kalatori.Config.{PaymentsConfig}
use kalatori.Common.{ok, err, panic, ◌≡◌, false, some, List, find, Option}

-- What all steps of a run are given: the settings of the start. What the chains, the swaps'
-- services and the key derivation answer is given to each step anew.
pub record Setting : Type 0 where
  pub config : PaymentsConfig

-- The premises: a check of an expired invoice's balance meets a row that is not settled, and one
-- transfer at most that the table lacks, and that of an executed swap's the same or no such
-- transfer; a new id has no money; and a start finds unique ids and an engine that
-- does not fail.
pub data Step (x : Setting) : World → World → Type 0 where
  -- A delivered batch of transfers.
  tracked :
      (transfers : List GeneralChainTransfer) (w : World)
      → Step x w (world_of (process_transfers x.config transfers w))
  -- One turn of the loop over the expired invoices.
  expired :
      (chains : Chains) (id : Uuid) (w : World)
      → Unsettled id w
      → FewFor chains id w
      → Step x w (world_of (handle_expired_invoice x.config chains id w))
  -- The calls of the API.
  created :
      (directory : Directory) (params : CreateInvoiceParams) (w : World)
      → Unused (w.store.env.uuid w.store.calls) w.store.db
      → Step x w (create_invoice x.config directory params w).1
  updated :
      (params : UpdateInvoiceParams) (w : World) → Step x w (update_invoice x.config params w).1
  canceled : (id : Uuid) (w : World) → Step x w (cancel_invoice_admin x.config id w).1
  -- The outcome that the service of a watched swap reports.
  swap_checked :
      (chains : Chains) (status : Option ExecutorSwapStatus) (swap : Swap) (tracked : TrackedSwaps)
      (w : World)
      → (status ≡ some executed → Checkable chains swap.request.invoice_id w)
      → Step x w (handled_world (check_swap x.config chains status swap tracked w))
  -- A tick of the executor, and the outcome of a transfer.
  scheduled :
      (services : Services) (futures : List InFlight) (w : World)
      → Step x w (record w { store = (schedule_transfers services futures w.store).1 })
  finished :
      (data' : TransactionExecutionData) (w : World)
      → Step x w (record w { store = (handle_transfer_result data' w.store).1 })
  -- A start of the daemon over the same database.
  started :
      (w : World) (reg : Registry)
      → PrimaryKey w.store.db.invoices
      → w.store.env.faulty w.store.calls ≡ false
      → (init_invoice_registry w.store).0 ≡ ok reg
      → Step x w (record { store = (init_invoice_registry w.store).1; registry = reg })

-- Any number of steps.
pub data Reach (x : Setting) : World → World → Type 0 where
  here : (w : World) → Reach x w w
  next : {u v w : World} → Reach x u v → Step x v w → Reach x u w

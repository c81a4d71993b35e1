-- ===== src/System/Runs.antt =====
-- What every run of the daemon's tasks keeps.
use kalatori.Expiration.Detector.{handle_expired_invoice-IsSound}
use kalatori.Executor.Scheduling.Keeping.{schedule_transfers-Keeps, handle_transfer_result-Keeps}
use kalatori.Executor.Scheduling.{schedule_transfers}
use kalatori.Dao.Store.{Dao}
use kalatori.Ledger.Start.{init_invoice_registry-IsSound}
use kalatori.Ledger.Tracking.{process_transfers-IsSound}
use kalatori.Ledger.Same.{same_books-IsSound, same_rows}
use kalatori.Ledger.Keeping.{Keeps}
use kalatori.AppState.Creating.{create_invoice-IsSound}
use kalatori.AppState.Changes.{update_invoice-IsSound, cancel_invoice_admin-IsSound}
use kalatori.Executor.{handle_transfer_result}
use kalatori.World.{StartError, init_invoice_registry, World}
use kalatori.Ledger.{IsSound}
use kalatori.SwapsTracker.Tracking.{check_swap-IsSound}
use kalatori.System.{
  swap_checked, tracked, expired, created, updated, canceled, scheduled, finished, started, here,
  next, Step, Reach, Setting,
}
use kalatori.Common.{sym, ◌∙◌, subst, is_ok, ok_inj}

-- A call that keeps the books keeps the state sound.
Keeps-IsSound :
    {E A : Type 0} (m : Dao E A) (w : World)
    → Keeps m
    → IsSound w
    → IsSound (record w { store = (m w.store).1 })
Keeps-IsSound m w keeps sound =
    let (invs, sums) = keeps.same_books w.store in
    same_books-IsSound w (record w { store = (m w.store).1 }) sound sound.keyed (λ _ _ got. got)
      (same_rows w.store.db (m w.store).1.db invs) sums

pub Step-IsSound : (x : Setting) (v w : World) → Step x v w → IsSound v → IsSound w
Step-IsSound x v w (tracked transfers _) sound =
    process_transfers-IsSound x.config transfers v sound
Step-IsSound x v w (expired chains id _ unsettled few) sound =
    handle_expired_invoice-IsSound x.config chains id v sound unsettled few
Step-IsSound x v w (created directory params _ unused) sound =
    create_invoice-IsSound x.config directory params v sound unused
Step-IsSound x v w (updated params _) sound = update_invoice-IsSound x.config params v sound
Step-IsSound x v w (canceled id _) sound = cancel_invoice_admin-IsSound x.config id v sound
Step-IsSound x v w (swap_checked chains status swap watched _ checkable) sound =
    check_swap-IsSound x.config chains status swap watched v sound checkable
Step-IsSound x v w (scheduled services futures _) sound =
    Keeps-IsSound (schedule_transfers services futures) v
      (schedule_transfers-Keeps services futures) sound
Step-IsSound x v w (finished data' _) sound =
    Keeps-IsSound (handle_transfer_result data') v (handle_transfer_result-Keeps data') sound
Step-IsSound x v w (started _ reg unique quiet is_ok) sound =
    let (reg', same, sound') = init_invoice_registry-IsSound v.store unique sound.balanced quiet in
    subst (λ r. IsSound (record { store = (init_invoice_registry v.store).1; registry = r }))
      (ok_inj StartError (sym same ∙ is_ok)) sound'

-- From a sound state, every run of the daemon's tasks leads to a sound state: whatever the turns of
-- the trackers of transfers and of swaps, the expiration detector, the API, the executor and the
-- starts, their order and their failures, payouts and refunds send out exactly what came in for a
-- settled invoice and nothing for any other, and every entry of the registry knows what came in.
pub Reach-IsSound : (x : Setting) (v w : World) → Reach x v w → IsSound v → IsSound w
Reach-IsSound x v w (here _) sound = sound
Reach-IsSound x v w (next {v = u} run step) sound =
    Step-IsSound x u w step (Reach-IsSound x v u run sound)

-- ===== src/Expiration/Detector.antt =====
-- The expiration detector's loop over the expired invoices: `handle_expirations` of
-- daemon/src/expiration_detector.rs.
use kalatori.Expiration.Expiring.{update_invoice_expired-IsSound}
use kalatori.Types.Invoice.{Uuid, is_final, Invoice, InvoiceWithReceivedAmount}
use kalatori.Dao.Invoices.{get_expired_invoices}
use kalatori.BalanceChecker.Checking.{Checks, FewFor, Unsettled, check_invoice_balance-IsSound}
use kalatori.BalanceChecker.{BalanceCheckerError, check_invoice_balance, Chains}
use kalatori.World.{World}
use kalatori.Ledger.{IsSound}
use kalatori.Expiration.{ExpirationDetectorError, update_invoice_expired}
use kalatori.Config.{PaymentsConfig}
use kalatori.Common.{
  ok, err, panic, [], ◌∷◌, inl, inr, not, List, if◌then◌else◌, Bool-cases, Result,
}
use kalatori.Tracker.{going, ended, Flow, world_of, and_then}

-- A failed read is logged, and gives no invoices.
abbrev or_none {ℓ} : {E : Type ℓ} {A : Type 0} → Result E (List A) → List A
or_none (ok xs) = xs
or_none (err e) = []
or_none panic = []

unfoldable pub fetch_expired_invoices : World → List Invoice × World
fetch_expired_invoices w =
    let (found, store) = get_expired_invoices w.store in (or_none found, record w { store = store })

-- The outcome of the expiry is logged.
abbrev after_update : Result ExpirationDetectorError (Unit {0}) × World → Flow
after_update (ok _, w) = going w
after_update (err _, w) = going w
after_update (panic, w) = ended w

-- A paid invoice does not expire; an error of the check is logged.
abbrev after_check :
    PaymentsConfig → Result BalanceCheckerError InvoiceWithReceivedAmount × World → Flow
after_check config (ok r, w) =
    if not (is_final r.invoice.status)
    then after_update (update_invoice_expired config r w)
    else going w
after_check config (err _, w) = going w
after_check config (panic, w) = ended w

-- One turn of the loop.
unfoldable pub handle_expired_invoice : PaymentsConfig → Chains → Uuid → World → Flow
handle_expired_invoice config chains id w =
    after_check config (check_invoice_balance config chains id w)

unfoldable pub expire_all : PaymentsConfig → Chains → List Invoice → World → Flow
expire_all config chains [] w = going w
expire_all config chains (i ∷ is) w =
    and_then (handle_expired_invoice config chains i.id w) (expire_all config chains is)

unfoldable pub handle_expirations : PaymentsConfig → Chains → World → Flow
handle_expirations config chains w =
    let (expired_invoices, v) = fetch_expired_invoices w in
    expire_all config chains expired_invoices v

after_update-IsSound :
    (p : Result ExpirationDetectorError (Unit {0}) × World)
    → IsSound p.1
    → IsSound (world_of (after_update p))
after_update-IsSound (ok u, w) sound = sound
after_update-IsSound (err e, w) sound = sound
after_update-IsSound (panic, w) sound = sound

after_check-IsSound :
    (config : PaymentsConfig) (c : Result BalanceCheckerError InvoiceWithReceivedAmount × World)
    → Checks c
    → IsSound (world_of (after_check config c))
after_check-IsSound config (ok r, w) known = elim (Bool-cases (is_final r.invoice.status)) [
  | inl f ↦ rw f known.0
  | inr f ↦ rw f (
      after_update-IsSound (update_invoice_expired config r w)
        (update_invoice_expired-IsSound config r w known.0 (known.1 f)))
]
after_check-IsSound config (err e, w) sound = sound
after_check-IsSound config (panic, w) sound = sound

-- When the state is sound, the invoice's row is not settled, and of the indexer's transfers to the
-- address of the record that the check finds the table lacks one at most, one turn of the loop,
-- which checks the balance, stores what was missed and then lets the invoice expire unless it is
-- paid, leaves a sound state, whatever fails on the way.
pub handle_expired_invoice-IsSound :
    (config : PaymentsConfig) (chains : Chains) (id : Uuid) (w : World)
    → IsSound w
    → Unsettled id w
    → FewFor chains id w
    → IsSound (world_of (handle_expired_invoice config chains id w))
unfolding handle_expired_invoice
handle_expired_invoice-IsSound config chains id w sound unsettled few =
    after_check-IsSound config (check_invoice_balance config chains id w)
      (check_invoice_balance-IsSound config chains id w sound unsettled few)

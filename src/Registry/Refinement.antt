-- ===== src/Registry/Refinement.antt =====
-- The registry of daemon/src/chain/invoice_registry.rs as a map from ids to records.
use kalatori.Types.Invoice.{Decimal, Uuid, InvoiceStatus, InvoiceWithReceivedAmount}
use kalatori.Registry.Laws.{
  get_invoice-add_invoice, get_invoice-remove_invoice, refilled, get_invoice-update_filled_amount,
}
use kalatori.Registry.{Registry, get_invoice, add_invoice, remove_invoice, update_filled_amount}
use kalatori.Common.{[], ◌∷◌, ◌≡◌, refl, ap, ◌∙◌, Option, none, some, List, ◌==◌, if◌then◌else◌}

-- The calls that change the registry, with their arguments.
pub data Call : Type 0 where
  adding : InvoiceWithReceivedAmount → Call
  removing : Uuid → Call
  filling : Uuid → Decimal → InvoiceStatus → Call

unfoldable pub run_calls : List Call → Registry → Registry
run_calls [] reg = reg
run_calls (adding r ∷ rest) reg = run_calls rest (add_invoice r reg)
run_calls (removing id ∷ rest) reg = run_calls rest (remove_invoice id reg)
run_calls (filling id amount status ∷ rest) reg =
    run_calls rest (update_filled_amount id amount status reg)

-- The specification: a function from ids, which each call changes at one id.
abbrev pub Contents : Type 0
Contents = Uuid → Option InvoiceWithReceivedAmount

abbrev pub or_refill :
    Decimal → InvoiceStatus → Option InvoiceWithReceivedAmount → Option InvoiceWithReceivedAmount
or_refill amount status none = none
or_refill amount status (some r) = some (refilled amount status r)

abbrev pub change : Call → Contents → Contents
change (adding r) m id = if r.invoice.id == id then some r else m id
change (removing k) m id = if k == id then none else m id
change (filling k amount status) m id = if k == id then or_refill amount status (m id) else m id

abbrev pub run_changes : List Call → Contents → Contents
run_changes [] m = m
run_changes (c ∷ rest) m = run_changes rest (change c m)

-- The specification looks at its map only through its values.
run_changes-same :
    (calls : List Call) (m n : Contents)
    → ((id : Uuid) → m id ≡ n id)
    → (id : Uuid) → run_changes calls m id ≡ run_changes calls n id
run_changes-same [] m n same id = same id
run_changes-same (c ∷ rest) m n same id =
    run_changes-same rest (change c m) (change c n) (step c) id
  where
    step : (c : Call) (j : Uuid) → change c m j ≡ change c n j
    step (adding r) j = ap (λ o. if r.invoice.id == j then some r else o) (same j)
    step (removing k) j = ap (λ o. if k == j then none else o) (same j)
    step (filling k amount status) j =
        ap (λ o. if k == j then or_refill amount status o else o) (same j)

refill_lem :
    (amount : Decimal) (status : InvoiceStatus) (o : Option InvoiceWithReceivedAmount)
    → elim o [ none ↦ none | some r ↦ some (refilled amount status r) ] ≡ or_refill amount status o
refill_lem amount status none = refl
refill_lem amount status (some r) = refl

-- After any sequence of additions, removals and updates of the received amount, the registry finds
-- under every id what the map of the specification has there.
pub run_calls-run_changes :
    (calls : List Call) (reg : Registry) (id : Uuid)
    → get_invoice id (run_calls calls reg) ≡ run_changes calls (λ j. get_invoice j reg) id
unfolding run_calls
run_calls-run_changes [] reg id = refl
run_calls-run_changes (adding r ∷ rest) reg id =
    run_calls-run_changes rest (add_invoice r reg) id
    ∙ run_changes-same rest _ _ (λ j. get_invoice-add_invoice j r reg) id
run_calls-run_changes (removing k ∷ rest) reg id =
    run_calls-run_changes rest (remove_invoice k reg) id
    ∙ run_changes-same rest _ _ (λ j. get_invoice-remove_invoice j k reg) id
run_calls-run_changes (filling k amount status ∷ rest) reg id =
    run_calls-run_changes rest (update_filled_amount k amount status reg) id
    ∙ run_changes-same rest _ _
        (λ j.
          get_invoice-update_filled_amount j k amount status reg
          ∙ ap (λ o. if k == j then o else get_invoice j reg)
              (refill_lem amount status (get_invoice j reg)))
        id

-- ===== src/Ledger/Statements.antt =====
-- The statements of daemon/src/dao that keep the books of every invoice: those on transactions,
-- payouts and refunds that the executor runs, and those on swaps.
use kalatori.Common.Int.{◌+ℤ◌}
use kalatori.Types.Invoice.{Uuid}
use kalatori.Types.Retry.{RetryMeta}
use kalatori.Dao.Store.{Db}
use kalatori.Ledger.Keeping.{SameBooks, Keeps, query-Keeps, sum_where-update}
use kalatori.Ledger.{paid_out, given_back}
use kalatori.Types.Transfer.{in_progress, TransferStatus, TransferDestinationParams, Payout, Refund}
use kalatori.Common.{
  ℕ, ◌≡◌, refl, ap, inl, inr, Bool, some, ◌==◌, Bool-cases, Option-cases, find, update,
}
use kalatori.Dao.Transfers.{
  database_error, transition_allowed, get_pending_payouts, get_pending_refunds,
  update_payout_status, update_payout_retry, update_refund_status, update_refund_retry,
  update_refund_destination_params, has_payout_id, has_refund_id, failure_status,
}

-- A change of payouts, and of refunds, that keeps their invoice and their amount.
payouts_changed :
    (db : Db) (p : Payout → Bool) (f : Payout → Payout)
    → ((x : Payout) → (f x).invoice_id ≡ x.invoice_id)
    → ((x : Payout) → (f x).amount ≡ x.amount)
    → SameBooks db (record db { payouts = update p f db.payouts })
payouts_changed db p f same_invoice same_amount = (
  refl,
  λ id. (
    refl,
    ap (λ a. a +ℤ given_back id db.refunds)
        (sum_where-update (λ x. x.invoice_id == id) p f (λ x. x.amount) db.payouts
          (λ x. ap (λ k. k == id) (same_invoice x)) same_amount),
  ),
)

refunds_changed :
    (db : Db) (p : Refund → Bool) (f : Refund → Refund)
    → ((x : Refund) → (f x).invoice_id ≡ x.invoice_id)
    → ((x : Refund) → (f x).amount ≡ x.amount)
    → SameBooks db (record db { refunds = update p f db.refunds })
refunds_changed db p f same_invoice same_amount = (
  refl,
  λ id. (
    refl,
    ap (λ a. paid_out id db.payouts +ℤ a)
        (sum_where-update (λ x. x.invoice_id == id) p f (λ x. x.amount) db.refunds
          (λ x. ap (λ k. k == id) (same_invoice x)) same_amount),
  ),
)

pub get_pending_payouts-Keeps : (limit : ℕ) → Keeps (get_pending_payouts limit)
unfolding get_pending_payouts
get_pending_payouts-Keeps limit = query-Keeps database_error _ λ time db.
    payouts_changed db _ (λ x. record x { status = in_progress; updated_at = time }) (λ _. refl)
      (λ _. refl)

pub get_pending_refunds-Keeps : (limit : ℕ) → Keeps (get_pending_refunds limit)
unfolding get_pending_refunds
get_pending_refunds-Keeps limit = query-Keeps database_error _ λ time db.
    refunds_changed db _ (λ x. record x { status = in_progress; updated_at = time }) (λ _. refl)
      (λ _. refl)

pub update_payout_status-Keeps :
    (id : Uuid) (status : TransferStatus) → Keeps (update_payout_status id status)
unfolding update_payout_status
update_payout_status-Keeps id status = query-Keeps database_error _ λ time db.
    elim (Option-cases (find (has_payout_id id) db.payouts)) [
      | inl e ↦ rw e tt
      | inr (row, e) ↦ rw e (elim (Bool-cases (transition_allowed row.status status)) [
        | inl f ↦ rw f (
            payouts_changed db (has_payout_id id)
              (λ x. record x { status = status; updated_at = time }) (λ _. refl) (λ _. refl))
        | inr f ↦ rw f tt
      ])
    ]

pub update_payout_retry-Keeps :
    (id : Uuid) (retry : RetryMeta) (retriable : Bool)
    → Keeps (update_payout_retry id retry retriable)
unfolding update_payout_retry
update_payout_retry-Keeps id retry retriable = query-Keeps database_error _ λ time db.
    elim (Option-cases (find (has_payout_id id) db.payouts)) [
      | inl e ↦ rw e tt
      | inr (row, e) ↦
          rw e (elim (Bool-cases (transition_allowed row.status (failure_status retriable))) [
            | inl f ↦ rw f (
                payouts_changed db (has_payout_id id)
                  (λ x. record x {
                    retry_meta = retry;
                    status = failure_status retriable;
                    updated_at = time;
                  })
                  (λ _. refl) (λ _. refl))
            | inr f ↦ rw f tt
          ])
    ]

pub update_refund_status-Keeps :
    (id : Uuid) (status : TransferStatus) → Keeps (update_refund_status id status)
unfolding update_refund_status
update_refund_status-Keeps id status = query-Keeps database_error _ λ time db.
    elim (Option-cases (find (has_refund_id id) db.refunds)) [
      | inl e ↦ rw e tt
      | inr (row, e) ↦ rw e (elim (Bool-cases (transition_allowed row.status status)) [
        | inl f ↦ rw f (
            refunds_changed db (has_refund_id id)
              (λ x. record x { status = status; updated_at = time }) (λ _. refl) (λ _. refl))
        | inr f ↦ rw f tt
      ])
    ]

pub update_refund_retry-Keeps :
    (id : Uuid) (retry : RetryMeta) (retriable : Bool)
    → Keeps (update_refund_retry id retry retriable)
unfolding update_refund_retry
update_refund_retry-Keeps id retry retriable = query-Keeps database_error _ λ time db.
    elim (Option-cases (find (has_refund_id id) db.refunds)) [
      | inl e ↦ rw e tt
      | inr (row, e) ↦
          rw e (elim (Bool-cases (transition_allowed row.status (failure_status retriable))) [
            | inl f ↦ rw f (
                refunds_changed db (has_refund_id id)
                  (λ x. record x {
                    retry_meta = retry;
                    status = failure_status retriable;
                    updated_at = time;
                  })
                  (λ _. refl) (λ _. refl))
            | inr f ↦ rw f tt
          ])
    ]

pub update_refund_destination_params-Keeps :
    (id : Uuid) (params : TransferDestinationParams)
    → Keeps (update_refund_destination_params id params)
unfolding update_refund_destination_params
update_refund_destination_params-Keeps id params = query-Keeps database_error _ λ time db.
    elim (Option-cases (find (has_refund_id id) db.refunds)) [
      | inl e ↦ rw e tt
      | inr (row, e) ↦ rw e (
          refunds_changed db (has_refund_id id)
            (λ x. record x { destination_params = some params; updated_at = time }) (λ _. refl)
            (λ _. refl))
    ]

-- ===== src/Executor/Sending/Waiting.antt =====
-- The retry data of a failed transfer (`send_transfer_request` of daemon/src/chain/executor.rs).
use kalatori.Types.Retry.Delays.{within}
use kalatori.Types.Retry.{u32_max, retry_delay_secs, increment_retry, RetryMeta}
use kalatori.Types.Transaction.{Transaction, empty_id, GeneralTransactionId, GeneralChainTransfer}
use kalatori.Dao.Transfers.{is_pending, failure_status}
use kalatori.Executor.{ChainExecutorError, TransactionExecutionError, TransactionExecutionData}
use kalatori.Common.{
  ok, err, panic, inl, inr, ℕ, ◌+◌, ◌<◌, String, ◌≡◌, refl, subst, Bool, true, false, arith, leb,
  Bool-cases, Result, ok_inj, err_ok, panic_ok, ap, ◌∙◌, ◌⊎◌,
}
use kalatori.Executor.Sending.{
  build_failed, submission_status_unknown, execution_failed, transaction_info_fetch_failed,
  insufficient_balance, unknown_asset, TransactionError, failure_of, send_transfer_request,
  OutgoingTransferRequest, executed,
}
use kalatori.Dao.Store.{now, pure, lift, Store, ◌>>=◌, tick}

-- What the retry data of a failure does to a claim.
waits :
    (now time : ℕ) (message : String) (retriable : Bool) (old new : RetryMeta)
    → increment_retry {E = ChainExecutorError} now message old ≡ ok new
    → time < now + 60
    → is_pending time (failure_status retriable) new ≡ false
unfolding increment_retry
waits now time message false old new e early = refl
waits now time message true old new e early = elim (Bool-cases (leb u32_max old.retry_count)) [
  | inl f ↦ absurd (panic_ok (rw f at e))
  | inr f ↦
      subst (λ m. is_pending time (failure_status true) m ≡ false)
        (ok_inj ChainExecutorError (rw f at e)) (not_due (old.retry_count + 1))
]
  where
    not_due : (n : ℕ) → leb (now + retry_delay_secs n) time ≡ false
    not_due n = ground (arith, within n)

-- Where a success of a block with two lifted results comes from.
lifted :
    (s : Store) (r : Result ChainExecutorError RetryMeta) (f : RetryMeta → TransactionExecutionData)
    (d : TransactionExecutionData)
    → (◌>>=◌ (lift r) (λ m. pure (f m)) s).0 ≡ ok d
    → (m : RetryMeta) × (r ≡ ok m) × (f m ≡ d)
unfolding ◌>>=◌
lifted s (ok m) f d e = (m, refl, ok_inj ChainExecutorError e)
lifted s (err x) f d e = absurd (err_ok e)
lifted s panic f d e = absurd (panic_ok e)

inl_inj :
    {a b : TransactionExecutionError}
    → ◌≡◌ {A = TransactionExecutionError ⊎ GeneralChainTransfer} (inl a) (inl b)
    → a ≡ b
inl_inj e = grind arith

abbrev failure_with : GeneralTransactionId → Bool → RetryMeta → TransactionExecutionError
failure_with id retriable m = record {
  transaction_id = id;
  retry_meta = m;
  is_retriable = retriable;
}

reported :
    (request : OutgoingTransferRequest) (t : Transaction) (s : Store) (d : TransactionExecutionData)
    (failure : TransactionExecutionError) (time : ℕ) (id : GeneralTransactionId) (message : String)
    (retriable : Bool)
    → (◌>>=◌ {E = ChainExecutorError}
        (lift (increment_retry (s.env.clock s.calls) message request.retry_meta))
        (λ m. pure (executed t (inl (failure_with id retriable m))))
        (tick s)).0
      ≡ ok d
    → d.result ≡ inl failure
    → time < s.env.clock s.calls + 60
    → is_pending time (failure_status failure.is_retriable) failure.retry_meta ≡ false
reported request t s d failure time id message retriable e is early =
    let (m, counted, same) =
      lifted (tick s) (increment_retry (s.env.clock s.calls) message request.retry_meta)
        (λ m. executed t (inl (failure_with id retriable m))) d e in
    subst
      (λ (f : TransactionExecutionError).
        is_pending time (failure_status f.is_retriable) f.retry_meta ≡ false)
      (inl_inj (ap (λ (x : TransactionExecutionData). x.result) same ∙ is))
      (waits (s.env.clock s.calls) time message retriable request.retry_meta m counted early)

-- When `send_transfer_request` reports a failure, a payout or refund with the status and the retry
-- data of the report does not pass the test of a claim for a minute, whatever the error and however
-- often it has failed.
pub send_transfer_request-waits :
    (error : TransactionError) (request : OutgoingTransferRequest) (t : Transaction) (s : Store)
    (d : TransactionExecutionData) (failure : TransactionExecutionError) (time : ℕ)
    → (send_transfer_request (inl error) request t s).0 ≡ ok d
    → d.result ≡ inl failure
    → time < s.env.clock s.calls + 60
    → is_pending time (failure_status failure.is_retriable) failure.retry_meta ≡ false
unfolding send_transfer_request failure_of ◌>>=◌ now
send_transfer_request-waits (build_failed reason) request t s d failure time e is early =
    absurd (panic_ok e)
send_transfer_request-waits submission_status_unknown request t s d failure time e is early =
    reported request t s d failure time empty_id "" true e is early
send_transfer_request-waits (execution_failed id code) request t s d failure time e is early =
    reported request t s d failure time id code true e is early
send_transfer_request-waits (transaction_info_fetch_failed id) request t s d failure time e is
      early =
    reported request t s d failure time id "" true e is early
send_transfer_request-waits (insufficient_balance id) request t s d failure time e is early =
    reported request t s d failure time id "" false e is early
send_transfer_request-waits (unknown_asset id asset) request t s d failure time e is early =
    reported request t s d failure time id asset false e is early

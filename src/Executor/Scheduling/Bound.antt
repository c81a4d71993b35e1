-- ===== src/Executor/Scheduling/Bound.antt =====
-- How many transfers daemon/src/chain/executor.rs has in flight.
use kalatori.Types.Retry.{increment_retry}
use kalatori.Types.Transaction.{variant}
use kalatori.Executor.Scheduling.{
  Services, InFlight, max_concurrent_transfers, schedule_chain_transfer, schedule_swap,
  schedule_request, after_scheduling, mark_failed, send_transfer, send_transfers, minus,
  requests_of_refunds, collect_pending_refund_requests, schedule_pending, schedule_transfers,
}
use kalatori.Executor.Sending.{OutgoingTransferRequest, request_of_payout}
use kalatori.Executor.{ChainExecutorError, fetch_transfers, executor_dao_error, is_retriable}
use kalatori.RefundDestination.{get_refunds_with_destination}
use kalatori.Types.Chain.{SwapChainType, swap_chain_from}
use kalatori.Types.SwapOrder.{swap_chain_eq}
use kalatori.Types.Transfer.{Refund}
use kalatori.Dao.Transfers.{get_pending_payouts}
use kalatori.RefundDestination.Bound.{UniqueIds, get_refunds_with_destination-few}
use kalatori.Dao.Store.Successes.{bind_ok, map_err_ok, attempt_ok}
use kalatori.Dao.Store.{Store, ◌>>=◌, ◌>>◌, pure, lift, map_err, query, attempt, now}
use kalatori.Common.{
  ℕ, zero, suc, ◌+◌, ◌-◌, ◌≤◌, ◌≡◌, refl, sym, ◌∙◌, subst, inl, inr, ◌&&◌, Bool-cases, Option-cases,
  List, [], ◌∷◌, ◌++◌, map, Result, ok, err, panic, ok_inj, err_ok, panic_ok, leb, ◌==◌, str_eq,
  length, length-append, length-map, arith,
}

requests_of_refunds-few : (rs : List Refund) → length (requests_of_refunds rs) ≤ length rs
requests_of_refunds-few [] = omega arith
requests_of_refunds-few (r ∷ rs) = elim (Option-cases r.destination_params) [
  | inl e ↦ rw e (omega (arith, requests_of_refunds-few rs))
  | inr (params, e) ↦ rw e (omega (arith, requests_of_refunds-few rs))
]

collect_pending_refund_requests-few :
    (services : Services) (limit : ℕ) (s : Store) (requests : List OutgoingTransferRequest)
    → UniqueIds s.db.refunds
    → (collect_pending_refund_requests services limit s).0 ≡ ok requests
    → length requests ≤ limit
unfolding collect_pending_refund_requests
collect_pending_refund_requests-few services zero s requests unique e =
    subst (λ l. length l ≤ 0) (ok_inj ChainExecutorError e) (omega arith)
collect_pending_refund_requests-few services (suc n) s requests unique e =
    let (refunds, got, last) =
      bind_ok
        (map_err (λ _. executor_dao_error)
          (get_refunds_with_destination services.to_lowercase (suc n)))
        (λ refunds. pure (requests_of_refunds refunds)) s requests e in
    let few = get_refunds_with_destination-few services.to_lowercase (suc n) s refunds unique (
      map_err_ok (λ _. executor_dao_error)
        (get_refunds_with_destination services.to_lowercase (suc n)) s refunds got) in
    subst (λ l. length l ≤ suc n) (ok_inj ChainExecutorError last)
      (omega (arith, few, requests_of_refunds-few refunds))

schedule_request-one :
    (services : Services) (request : OutgoingTransferRequest) (chain : SwapChainType) (s : Store)
    (l : List InFlight)
    → (schedule_request services request chain s).0 ≡ ok l
    → length l ≤ 1
unfolding schedule_request
schedule_request-one services request chain s l e =
    let to_chain = request.destination_params.destination_chain in
    elim (Bool-cases (
      swap_chain_eq chain to_chain
      && str_eq (services.to_lowercase request.asset_id)
          (services.to_lowercase request.destination_params.destination_asset_id))) [
            | inl same ↦
                let (transfer, _, last) =
                  bind_ok (schedule_chain_transfer services request) (λ t. pure (t ∷ [])) s l
                    (rw same at e) in
                subst (λ l. length l ≤ 1) (ok_inj ChainExecutorError last) (omega arith)
            | inr other ↦ elim (Bool-cases (swap_chain_eq chain to_chain)) [
              | inl swapped ↦
                  let (_, _, last) =
                    bind_ok (schedule_swap services request) (λ _. pure []) s l
                      (rw (other, swapped) at e) in
                  subst (λ l. length l ≤ 1) (ok_inj ChainExecutorError last) (omega arith)
              | inr far ↦ absurd (err_ok (rw (other, far) at e))
            ]
          ]

after_scheduling-one :
    (services : Services) (request : OutgoingTransferRequest)
    (q : Result ChainExecutorError (List InFlight)) (s : Store) (l : List InFlight)
    → ((x : List InFlight) → q ≡ ok x → length x ≤ 1)
    → (after_scheduling services request q s).0 ≡ ok l
    → length l ≤ 1
unfolding after_scheduling
after_scheduling-one services request (ok x) s l one e =
    subst (λ l. length l ≤ 1) (ok_inj ChainExecutorError e) (one x refl)
after_scheduling-one services request (err x) s l one e =
    let (time, _, failed) =
      bind_ok now
        (λ time.
          lift (increment_retry time (services.error_text x) request.retry_meta) >>= λ retry_meta.
          mark_failed (variant request.origin) retry_meta (is_retriable x) >> pure [])
        s l e in
    let (retry_meta, _, marked) =
      bind_ok (lift (increment_retry time (services.error_text x) request.retry_meta))
        (λ retry_meta. mark_failed (variant request.origin) retry_meta (is_retriable x) >> pure [])
        (now {E = ChainExecutorError} s).1 l failed in
    let (_, _, last) =
      bind_ok (mark_failed (variant request.origin) retry_meta (is_retriable x)) (λ _. pure [])
        (now {E = ChainExecutorError} s).1 l marked in
    subst (λ l. length l ≤ 1) (ok_inj ChainExecutorError last) (omega arith)
after_scheduling-one services request panic s l one e = absurd (panic_ok e)

send_transfer-one :
    (services : Services) (request : OutgoingTransferRequest) (s : Store) (l : List InFlight)
    → (send_transfer services request s).0 ≡ ok l
    → length l ≤ 1
unfolding send_transfer
send_transfer-one services request s l e =
    let (chain, _, sent) =
      bind_ok (lift (swap_chain_from request.chain))
        (λ chain.
          attempt (schedule_request services request chain) >>= after_scheduling services request)
        s l e in
    let (q, tried, last) =
      bind_ok (attempt (schedule_request services request chain))
        (after_scheduling services request) s l sent in
    after_scheduling-one services request q
      (attempt {F = ChainExecutorError} (schedule_request services request chain) s).1 l
      (λ x same.
        schedule_request-one services request chain s x
          (attempt_ok (schedule_request services request chain) s q tried ∙ same))
      last

send_transfers-few :
    (services : Services) (requests : List OutgoingTransferRequest) (futures : List InFlight)
    (s : Store) (l : List InFlight)
    → (send_transfers services requests futures s).0 ≡ ok l
    → length l ≤ length futures + length requests
unfolding send_transfers
send_transfers-few services [] futures s l e =
    subst (λ l. length l ≤ length futures + 0) (ok_inj ChainExecutorError e) (omega arith)
send_transfers-few services (request ∷ rest) futures s l e =
    let (transfers, sent, later) =
      bind_ok (send_transfer services request)
        (λ transfers. send_transfers services rest (futures ++ transfers)) s l e in
    omega (
      arith,
      send_transfer-one services request s transfers sent,
      send_transfers-few services rest (futures ++ transfers) (send_transfer services request s).1 l
          later,
      length-append futures transfers,
    )

get_pending_payouts-refunds :
    (limit : ℕ) (s : Store)
    → (map_err {F = ChainExecutorError}
        (λ _. fetch_transfers)
        (get_pending_payouts limit)
        s).1.db.refunds
      ≡ s.db.refunds
unfolding get_pending_payouts query map_err
get_pending_payouts-refunds limit s = elim (Bool-cases (s.env.faulty s.calls)) [
  | inl bad ↦ rw bad refl
  | inr good ↦ rw good refl
]

minus_ok : (a b c : ℕ) → minus a b ≡ ok c → c + b ≡ a
minus_ok a b c e = elim (Bool-cases (leb b a)) [
  | inl below ↦ ground (arith, ok_inj ChainExecutorError (rw below at e), below)
  | inr above ↦ absurd (panic_ok (rw above at e))
]

schedule_pending-few :
    (services : Services) (futures : List InFlight) (limit : ℕ) (s : Store) (l : List InFlight)
    → UniqueIds s.db.refunds
    → (schedule_pending services futures limit s).0 ≡ ok l
    → length l ≤ length futures + limit
unfolding schedule_pending
schedule_pending-few services futures limit s l unique e =
    let (payouts, _, later) =
      bind_ok (map_err (λ _. fetch_transfers) (get_pending_payouts limit))
        (λ payouts. lift (minus limit (length payouts)) >>= λ remaining_limit.
          collect_pending_refund_requests services remaining_limit >>= λ refund_requests.
          send_transfers services (map request_of_payout payouts ++ refund_requests) futures)
        s l e in
    let t =
      (map_err {F = ChainExecutorError} (λ _. fetch_transfers) (get_pending_payouts limit) s).1 in
    let (remaining_limit, left, collecting) =
      bind_ok (lift (minus limit (length payouts)))
        (λ remaining_limit.
          collect_pending_refund_requests services remaining_limit >>= λ refund_requests.
          send_transfers services (map request_of_payout payouts ++ refund_requests) futures)
        t l later in
    let (refund_requests, collected, sending) =
      bind_ok (collect_pending_refund_requests services remaining_limit)
        (λ refund_requests.
          send_transfers services (map request_of_payout payouts ++ refund_requests) futures)
        t l collecting in
    omega (
      arith,
      minus_ok limit (length payouts) remaining_limit left,
      collect_pending_refund_requests-few services remaining_limit t refund_requests
          (subst UniqueIds (sym (get_pending_payouts-refunds limit s)) unique) collected,
      send_transfers-few services (map request_of_payout payouts ++ refund_requests) futures
          (collect_pending_refund_requests services remaining_limit t).1 l sending,
      length-append (map request_of_payout payouts) refund_requests,
      length-map request_of_payout payouts,
    )

-- When no two refunds of the table share an id and at most `max_concurrent_transfers` transfers are
-- in flight, a tick that returns leaves at most `max_concurrent_transfers` in flight.
pub schedule_transfers-bound :
    (services : Services) (futures after : List InFlight) (s : Store)
    → UniqueIds s.db.refunds
    → length futures ≤ max_concurrent_transfers
    → (schedule_transfers services futures s).0 ≡ ok after
    → length after ≤ max_concurrent_transfers
unfolding schedule_transfers
schedule_transfers-bound services futures after s unique few e =
    elim (Bool-cases (max_concurrent_transfers - length futures == 0)) [
      | inl full ↦
          subst (λ l. length l ≤ max_concurrent_transfers)
            (ok_inj ChainExecutorError (rw full at e)) few
      | inr free ↦ omega (
        arith,
        few,
        schedule_pending-few services futures (max_concurrent_transfers - length futures) s after
            unique (rw free at e),
      )
    ]

-- ===== src/Dao/Transfers/Turns.antt =====
-- Whose turn a claim of daemon/src/dao/payout.rs is: the oldest rows go first.
use mathlib.Core.Path.{ap₂}
use kalatori.Types.Invoice.{Uuid}
use kalatori.Types.Retry.{u32_max, retry_delay_secs, increment_retry, RetryMeta}
use kalatori.Types.Retry.Delays.{within}
use kalatori.Dao.Store.{query, Store}
use kalatori.Dao.Transfers.{
  DaoTransferError, has_payout_id, is_pending, pending_payout_ids, get_pending_payouts,
  ranked_payouts, transition_allowed, update_payout_retry,
}
use kalatori.Common.{
  ℕ, ◌≤◌, ◌≡◌, ◌==◌, ==_iff, true, false, leb, List, Memᴰ, Memᴰ-map, Memᴰ-select, exists-Memᴰ,
  length, select, take, take-order_by, refl, ok, ap, sym, ◌∙◌, subst, exists, find, ◌+◌, String,
  Bool-cases, Option-cases, inl, inr, arith, err_ok, ok_inj, panic_ok,
}
use kalatori.Types.Transfer.{in_progress, failed_retriable, Payout}

-- The pending payouts that are not younger than this one, itself included.
abbrev pub payouts_before : ℕ → Payout → List Payout → List Payout
payouts_before time p ps =
    select (λ q. leb q.created_at p.created_at)
      (select (λ q. is_pending time q.status q.retry_meta) ps)

payout_has_turn :
    (time limit : ℕ) (p : Payout) (ps : List Payout)
    → Memᴰ p ps
    → is_pending time p.status p.retry_meta ≡ true
    → length (payouts_before time p ps) ≤ limit
    → exists (λ id. p.id == id) (pending_payout_ids time limit ps) ≡ true
unfolding pending_payout_ids
payout_has_turn time limit p ps there pending few =
    exists-Memᴰ (λ id. p.id == id) p.id (pending_payout_ids time limit ps)
      (Memᴰ-map (λ (q : Payout). q.id) p (take limit (ranked_payouts time ps))
        (take-order_by (λ (q : Payout). q.created_at) limit p
          (select (λ (q : Payout). is_pending time q.status q.retry_meta) ps)
          (Memᴰ-select (λ (q : Payout). is_pending time q.status q.retry_meta) p ps there pending)
          few))
      ((==_iff p.id p.id).1 refl)

-- When the engine does not fail, a claim hands out, in progress, every pending payout for which the
-- pending payouts that are not younger, itself included, are at most `limit`.
pub get_pending_payouts-oldest :
    (limit : ℕ) (s : Store) (p : Payout)
    → Memᴰ p s.db.payouts
    → is_pending (s.env.clock s.calls) p.status p.retry_meta ≡ true
    → length (payouts_before (s.env.clock s.calls) p s.db.payouts) ≤ limit
    → s.env.faulty s.calls ≡ false
    → (ps : List Payout) × ((get_pending_payouts limit s).0 ≡ ok ps)
      × Memᴰ (record p { status = in_progress; updated_at = s.env.clock s.calls }) ps
unfolding get_pending_payouts query
get_pending_payouts-oldest limit s p there pending few quiet =
    let now = s.env.clock s.calls in
    let ids = pending_payout_ids now limit s.db.payouts in
    let chosen = select (λ (q : Payout). exists (λ id. q.id == id) ids) s.db.payouts in
    rw quiet (
      _,
      refl,
      Memᴰ-map (λ (q : Payout). record q { status = in_progress; updated_at = now }) p chosen
          (Memᴰ-select (λ (q : Payout). exists (λ id. q.id == id) ids) p s.db.payouts there
            (payout_has_turn now limit p s.db.payouts there pending few)),
    )

retried-is_pending :
    {E : Type 0} (now time : ℕ) (message : String) (old new : RetryMeta)
    → increment_retry {E = E} now message old ≡ ok new
    → now + 7200 ≤ time
    → is_pending time failed_retriable new ≡ true
unfolding increment_retry
retried-is_pending {E = E} now time message old new e late =
    elim (Bool-cases (leb u32_max old.retry_count)) [
      | inl f ↦ absurd (panic_ok (rw f at e))
      | inr f ↦
          subst (λ m. is_pending time failed_retriable m ≡ true) (ok_inj E (rw f at e))
            (due_now (old.retry_count + 1))
    ]
  where
    due_now : (n : ℕ) → leb (now + retry_delay_secs n) time ≡ true
    due_now n = ground (arith, within n)

-- What a stored retry says of the row.
stored_retry :
    (id : Uuid) (new : RetryMeta) (s : Store) (row : Payout)
    → (update_payout_retry id new true s).0 ≡ ok row
    → (row.status ≡ failed_retriable) × (row.retry_meta ≡ new)
unfolding update_payout_retry query
stored_retry id new s row e = elim (Bool-cases (s.env.faulty s.calls)) [
  | inl bad ↦ absurd (err_ok (rw bad at e))
  | inr good ↦ elim (Option-cases (find (has_payout_id id) s.db.payouts)) [
    | inl f ↦ absurd (err_ok (rw (good, f) at e))
    | inr (p, f) ↦ elim (Bool-cases (transition_allowed p.status failed_retriable)) [
      | inl allowed ↦
          let same = ok_inj DaoTransferError (rw (good, f, allowed) at e) in
          (ap (λ (q : Payout). q.status) (sym same), ap (λ (q : Payout). q.retry_meta) (sym same))
      | inr refused ↦ absurd (err_ok (rw (good, f, refused) at e))
    ]
  ]
]

-- A payout whose retriable failure `update_payout_retry` has stored with the data of
-- `increment_retry` is handed out, in progress, by every claim that is two hours later or more,
-- when the row is as it was stored, the pending payouts that are not younger, itself included, are
-- at most `limit`, and the engine does not fail.
pub get_pending_payouts-retries :
    {E : Type 0} (now limit : ℕ) (message : String) (old new : RetryMeta) (id : Uuid) (s u : Store)
    (row : Payout)
    → increment_retry {E = E} now message old ≡ ok new
    → (update_payout_retry id new true s).0 ≡ ok row
    → Memᴰ row u.db.payouts
    → now + 7200 ≤ u.env.clock u.calls
    → length (payouts_before (u.env.clock u.calls) row u.db.payouts) ≤ limit
    → u.env.faulty u.calls ≡ false
    → (ps : List Payout) × ((get_pending_payouts limit u).0 ≡ ok ps)
      × Memᴰ (record row { status = in_progress; updated_at = u.env.clock u.calls }) ps
get_pending_payouts-retries {E = E} now limit message old new id s u row counted kept there late few
      quiet =
    let (status, meta) = stored_retry id new s row kept in
    get_pending_payouts-oldest limit u row there
      (ap₂ (is_pending (u.env.clock u.calls)) status meta
        ∙ retried-is_pending {E = E} now (u.env.clock u.calls) message old new counted late)
      few quiet

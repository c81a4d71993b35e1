-- ===== src/RefundDestination/Bound.antt =====
-- How many refunds daemon/src/utils/refund_destination_detector.rs hands to the executor.
use kalatori.RefundDestination.{
  RefundDestinationDetectorError, with_found, detect_all, or_no_refunds,
  get_refunds_with_destination, find_and_update_refund_destination,
}
use kalatori.Types.Transfer.{Refund, in_progress}
use kalatori.Dao.Transfers.{
  DaoTransferError, get_pending_refunds, pending_refund_ids, ranked_refunds,
}
use kalatori.Dao.Transfers.Few.{UniqueKeys, few_of}
use kalatori.Dao.Store.Successes.{bind_ok, attempt_ok}
use kalatori.Dao.Store.{Store, ◌>>=◌, pure, query, attempt}
use kalatori.Common.{
  ℕ, String, suc, ◌≤◌, ◌≡◌, subst, inl, inr, Bool-cases, Option, Option-cases, none, some, List, [],
  ◌∷◌, map, Result, ok, err, panic, ok_inj, err_ok, ◌==◌, select, exists, take, length, length-map,
  length-take-le, arith,
}

-- A primary key: an id is that of one refund at most.
abbrev pub UniqueIds : List Refund → Type 0
UniqueIds = UniqueKeys λ r. r.id

get_pending_refunds-few :
    (limit : ℕ) (s : Store) (rs : List Refund)
    → UniqueIds s.db.refunds
    → (get_pending_refunds limit s).0 ≡ ok rs
    → length rs ≤ limit
unfolding get_pending_refunds query pending_refund_ids
get_pending_refunds-few limit s rs unique e = elim (Bool-cases (s.env.faulty s.calls)) [
  | inl bad ↦ absurd (err_ok (rw bad at e))
  | inr good ↦
      let time = s.env.clock s.calls in
      let ids = map (λ (r : Refund). r.id) (take limit (ranked_refunds time s.db.refunds)) in
      let chosen = select (λ (r : Refund). exists (λ id. r.id == id) ids) s.db.refunds in
      let same = ok_inj DaoTransferError (rw good at e) in
      subst (λ l. length l ≤ limit) same
        (at_most
          (length
            (map (λ (r : Refund). record r { status = in_progress; updated_at = time }) chosen))
          (length chosen) (length ids) (length (take limit (ranked_refunds time s.db.refunds)))
          limit
          (length-map (λ (r : Refund). record r { status = in_progress; updated_at = time }) chosen)
          (few_of (λ (r : Refund). r.id) s.db.refunds ids unique)
          (length-map (λ (r : Refund). r.id) (take limit (ranked_refunds time s.db.refunds)))
          (length-take-le limit (ranked_refunds time s.db.refunds)))
]
  where
    at_most : (a b c d n : ℕ) → a ≡ b → b ≤ c → c ≡ d → d ≤ n → a ≤ n
    at_most a b c d n e f g h = omega arith

with_found-few :
    (q : Result RefundDestinationDetectorError (Option Refund)) (rs : List Refund)
    → length (with_found q rs) ≤ suc (length rs)
with_found-few (ok (some r)) rs = omega arith
with_found-few (ok none) rs = omega arith
with_found-few (err e) rs = omega arith
with_found-few panic rs = omega arith

detect_all-few :
    (lower : String → String) (refunds : List Refund) (s : Store) (rs : List Refund)
    → (detect_all lower refunds s).0 ≡ ok rs
    → length rs ≤ length refunds
unfolding detect_all
detect_all-few lower [] s rs e =
    subst (λ l. length l ≤ 0) (ok_inj RefundDestinationDetectorError e) (omega arith)
detect_all-few lower (r ∷ refunds) s rs e = elim (Option-cases r.destination_params) [
  | inr (params, f) ↦
      let (rest, ran, last) =
        bind_ok (detect_all lower refunds) (λ rest. pure (r ∷ rest)) s rs
          (rw (f, detect_all) at e) in
      subst (λ l. length l ≤ suc (length refunds)) (ok_inj RefundDestinationDetectorError last)
        (one_more (length rest) (length refunds) (detect_all-few lower refunds s rest ran))
  | inl f ↦
      let (found, looked, later) =
        bind_ok (attempt (find_and_update_refund_destination lower r))
          (λ found. detect_all lower refunds >>= λ rest. pure (with_found found rest)) s rs
          (rw (f, detect_all) at e) in
      let t =
        (attempt {F = RefundDestinationDetectorError} (find_and_update_refund_destination lower r)
          s).1 in
      let (rest, ran, last) =
        bind_ok (detect_all lower refunds) (λ rest. pure (with_found found rest)) t rs later in
      subst (λ l. length l ≤ suc (length refunds)) (ok_inj RefundDestinationDetectorError last)
        (below (length (with_found found rest)) (length rest) (length refunds)
          (with_found-few found rest) (detect_all-few lower refunds t rest ran))
]
  where
    one_more : (a b : ℕ) → a ≤ b → suc a ≤ suc b
    one_more a b h = omega arith

    below : (a b c : ℕ) → a ≤ suc b → b ≤ c → a ≤ suc c
    below a b c f g = omega arith

or_no_refunds-few :
    (limit : ℕ) (s : Store) (q : Result DaoTransferError (List Refund))
    → UniqueIds s.db.refunds
    → (get_pending_refunds limit s).0 ≡ q
    → length (or_no_refunds q) ≤ limit
or_no_refunds-few limit s (ok rs) unique e = get_pending_refunds-few limit s rs unique e
or_no_refunds-few limit s (err x) unique e = omega arith
or_no_refunds-few limit s panic unique e = omega arith

pub get_refunds_with_destination-few :
    (lower : String → String) (limit : ℕ) (s : Store) (rs : List Refund)
    → UniqueIds s.db.refunds
    → (get_refunds_with_destination lower limit s).0 ≡ ok rs
    → length rs ≤ limit
unfolding get_refunds_with_destination
get_refunds_with_destination-few lower limit s rs unique e =
    let (q, looked, later) =
      bind_ok (attempt (get_pending_refunds limit)) (λ q. detect_all lower (or_no_refunds q)) s rs
        e in
    let t = (attempt {F = RefundDestinationDetectorError} (get_pending_refunds limit) s).1 in
    below (length rs) (length (or_no_refunds q)) limit
      (detect_all-few lower (or_no_refunds q) t rs later)
      (or_no_refunds-few limit s q unique (attempt_ok (get_pending_refunds limit) s q looked))
  where
    below : (a b c : ℕ) → a ≤ b → b ≤ c → a ≤ c
    below a b c f g = omega arith

-- ===== src/Dao/Transfers/Claims.antt =====
-- The claims `get_pending_payouts` and `get_pending_refunds` of daemon/src/dao.
use kalatori.Dao.Transfers.Few.{only_one, UniqueKeys, few_of, key_of_one}
use kalatori.Types.Invoice.{Uuid}
use kalatori.Dao.Store.{query, Store}
use kalatori.Dao.Transfers.{
  is_pending, pending_payout_ids, get_pending_payouts, ranked_payouts, DaoTransferError, is_due,
}
use kalatori.Common.{
  ℕ, ◌≤◌, ◌≡◌, inl, inr, false, List, ◌==◌, Bool-cases, length, exists, All, All-update, sym, subst,
  if◌then◌else◌, take, length-take-le, length-map, err_ok, ok, refl, Bool, true, Memᴰ, [], ◌∷◌, map,
  arith, select, update, All-take, All-order_by, All-select_both, All-map, All-Memᴰ, ok_inj, ◌⊎◌,
  ◌&&◌, ◌||◌, Option, none, some,
}
use kalatori.Types.Transfer.{
  in_progress, Payout, TransferStatus, transfer_status_eq, waiting, failed_retriable,
}

-- The row, claimed at a time; and whether its id is one of some.
abbrev pub claimed_at : ℕ → Payout → Payout
claimed_at now p = record p { status = in_progress; updated_at = now }

abbrev among : List Uuid → Payout → Bool
among ids p = exists (λ id. p.id == id) ids

-- A row waits, or it failed and the time for another attempt has come.
abbrev pub MayBeClaimed : ℕ → Payout → Type 0
MayBeClaimed now p =
    (p.status ≡ waiting)
    ⊎ ((p.status ≡ failed_retriable)
        × ((at : ℕ) × (p.retry_meta.next_retry_at ≡ some at) × (at ≤ now)))

due_at : (now : ℕ) (at : Option ℕ) → is_due now at ≡ true → (n : ℕ) × (at ≡ some n) × (n ≤ now)
due_at now none h = absurd (grind arith)
due_at now (some n) h = (n, refl, grind arith)

is_pending-MayBeClaimed :
    (now : ℕ) (status : TransferStatus) (retry : Option ℕ)
    → (transfer_status_eq status waiting
        || (transfer_status_eq status failed_retriable && is_due now retry))
      ≡ true
    → (status ≡ waiting)
      ⊎ ((status ≡ failed_retriable) × ((at : ℕ) × (retry ≡ some at) × (at ≤ now)))
is_pending-MayBeClaimed now TransferStatus.waiting retry h = inl refl
is_pending-MayBeClaimed now TransferStatus.failed_retriable retry h = inr (refl, due_at now retry h)
is_pending-MayBeClaimed now TransferStatus.in_progress retry h = absurd (grind arith)
is_pending-MayBeClaimed now TransferStatus.completed retry h = absurd (grind arith)
is_pending-MayBeClaimed now TransferStatus.failed retry h = absurd (grind arith)

-- A row of the table that waited, or failed and is due again, in progress now.
abbrev pub Claimed : ℕ → List Payout → Payout → Type 0
Claimed now rows p =
    (row : Payout) × Memᴰ row rows
    × MayBeClaimed now row
    × (p ≡ record row { status = in_progress; updated_at = now })

-- A row whose id is handed out cannot be claimed at the time.
abbrev pub NotAgain : ℕ → List Payout → Payout → Type 0
NotAgain time ps q =
    exists (λ (p : Payout). p.id == q.id) ps ≡ true → is_pending time q.status q.retry_meta ≡ false

module _ (limit time : ℕ) (rows : List Payout)
    (unique : UniqueKeys (λ (p : Payout). p.id) rows) where
  abbrev ids : List Uuid
  ids = pending_payout_ids time limit rows

  abbrev chosen : Payout → Bool
  chosen = among ids

  abbrev claim : Payout → Payout
  claim = claimed_at time

  few_chosen : length (map claim (select chosen rows)) ≤ limit
  unfolding pending_payout_ids
  few_chosen =
      bound _ _ _ _ limit (length-map claim (select chosen rows))
        (few_of (λ (p : Payout). p.id) rows ids unique)
        (length-map (λ (p : Payout). p.id) (take limit (ranked_payouts time rows)))
        (length-take-le limit (ranked_payouts time rows))
    where
      bound : (a b c d n : ℕ) → a ≡ b → b ≤ c → c ≡ d → d ≤ n → a ≤ n
      bound a b c d n e f g h = omega arith

  abbrev Waits : Payout → Type 0
  Waits p = Memᴰ p rows × (is_pending time p.status p.retry_meta ≡ true)

  chosen-Waits : (p : Payout) → Memᴰ p rows → chosen p ≡ true → Waits p
  unfolding pending_payout_ids
  chosen-Waits p there picked =
      let (q, (q_there, waits), same) =
        key_of_one (λ (p : Payout). p.id) Waits p.id (take limit (ranked_payouts time rows))
          (All-take Waits limit (ranked_payouts time rows) (
            All-order_by Waits (λ p. p.created_at) _
              (All-select_both (λ p. Memᴰ p rows) Waits _ rows (All-Memᴰ rows)
                (λ p there waits. (there, waits)))))
          picked in
      let p_is_q =
        only_one (λ (r : Payout). r.id == q.id) rows p q (unique q.id) there q_there same
          (self q.id) in
      subst Waits (sym p_is_q) (q_there, waits)
    where
      self : (a : ℕ) → (a == a) ≡ true
      self a = ground arith

  chosen-Claimed : All (Claimed time rows) (map claim (select chosen rows))
  chosen-Claimed = All-map (Claimed time rows) claim (select chosen rows) (
      All-select_both (λ p. Memᴰ p rows) (λ p. Claimed time rows (claim p)) chosen rows
        (All-Memᴰ rows)
        (λ p there picked. (
          p,
          there,
          is_pending-MayBeClaimed time p.status p.retry_meta.next_retry_at
              (chosen-Waits p there picked).1,
          refl,
        )))

-- A row of which an id is handed out has been changed.
handed_out :
    (keys : List Uuid) (now : ℕ) (k : Uuid) (rows : List Payout)
    → exists (λ (p : Payout). p.id == k) (map (claimed_at now) (select (among keys) rows)) ≡ true
    → exists (λ id. k == id) keys ≡ true
handed_out keys now k [] e = absurd (grind arith)
handed_out keys now k (p ∷ rows) e = elim (Bool-cases (among keys p)) [
  | inr other ↦ handed_out keys now k rows (rw other at e)
  | inl picked ↦ elim (Bool-cases (p.id == k)) [
    | inl same ↦ subst (λ i. exists (λ id. i == id) keys ≡ true) (same_id p.id k same) picked
    | inr differs ↦ handed_out keys now k rows (rw (picked, differs) at e)
  ]
]
  where
    same_id : (a b : ℕ) → (a == b) ≡ true → a ≡ b
    same_id a b h = ground arith

not_again :
    (keys : List Uuid) (now time : ℕ) (all : List Payout) (p : Payout)
    → NotAgain time
        (map (claimed_at now) (select (among keys) all))
        (if among keys p then claimed_at now p else p)
not_again keys now time all p = elim (Bool-cases (among keys p)) [
  | inl e ↦ rw e (λ _. refl)
  | inr e ↦ rw e (λ out. absurd (apart _ e (handed_out keys now p.id all out)))
]
  where
    apart : (b : Bool) → b ≡ false → b ≡ true → ⊥
    apart b h i = ground arith

-- When no two payouts of the table share an id, a claim that succeeds hands out at most `limit`
-- payouts, each a payout of the table that waited, or had failed and was due for another attempt,
-- and is now in progress, and none of them can be claimed again, at any time, from the table it
-- leaves.
pub get_pending_payouts-claims :
    (limit time : ℕ) (s : Store) (ps : List Payout)
    → UniqueKeys (λ (p : Payout). p.id) s.db.payouts
    → (get_pending_payouts limit s).0 ≡ ok ps
    → (length ps ≤ limit)
      × All (Claimed (s.env.clock s.calls) s.db.payouts) ps
      × All (NotAgain time ps) (get_pending_payouts limit s).1.db.payouts
unfolding get_pending_payouts query
get_pending_payouts-claims limit time s ps unique e =
    let now = s.env.clock s.calls in
    let rows = s.db.payouts in
    let all_ids = pending_payout_ids now limit rows in
    elim (Bool-cases (s.env.faulty s.calls)) [
      | inl bad ↦ absurd (err_ok (rw bad at e))
      | inr good ↦
          let claim_row = claimed_at now in
          let picked = among all_ids in
          rw good (
            subst
              (λ l.
                (length l ≤ limit)
                × All (Claimed now rows) l
                × All (NotAgain time l) (update picked claim_row rows))
              (ok_inj DaoTransferError (rw good at e))
              (
                few_chosen limit now rows unique,
                chosen-Claimed limit now rows unique,
                All-update (NotAgain time (map claim_row (select picked rows))) picked claim_row
                    rows (not_again all_ids now time rows),
              ))
    ]

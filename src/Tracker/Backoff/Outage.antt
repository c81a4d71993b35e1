-- ===== src/Tracker/Backoff/Outage.antt =====
-- The delays of `RetryState` of daemon/src/chain/transfer_tracker.rs over an outage.
use kalatori.Common.{
  ℕ, zero, suc, ◌*◌, min, ◌≡◌, refl, List, [], ◌∷◌, length, sym, inl, inr, none, arith,
  Option-cases, none-some,
}
use kalatori.Tracker.Backoff.{
  new, record_failure_at, record_health_at, record_failures, delay_after, RetryState,
}

-- min (2 ^ k) 60, min (2 ^ (k + 1)) 60, …: n delays.
abbrev pub delays : ℕ → ℕ → List ℕ
delays k zero = []
delays k (suc n) = delay_after k ∷ delays (suc k) n

doubled : (k : ℕ) → min (delay_after k * 2) 60 ≡ delay_after (suc k)
doubled k = omega arith

ap2_cons : {x y : ℕ} {xs ys : List ℕ} → x ≡ y → xs ≡ ys → (x ∷ xs) ≡ (y ∷ ys)
ap2_cons e es = rw (e, es) refl

delays_from :
    (times : List ℕ) (s : RetryState) (k : ℕ)
    → s.delay ≡ delay_after k
    → (record_failures times s).0 ≡ delays k (length times)
unfolding record_failures record_failure_at
delays_from [] s k e = refl
delays_from (now ∷ times) s k e = ap2_cons e (delays_from times _ (suc k) (rw e (doubled k)))

-- However the failures fall in time, the delays of an outage double from one second up to a
-- minute, and stay there.
pub record_failures-delays :
    (times : List ℕ) → (record_failures times new).0 ≡ delays 0 (length times)
unfolding new
record_failures-delays times = delays_from times new 0 refl

-- A state that is not degraded waits a second, and a failure makes it degraded.
rested :
    (times : List ℕ) (s : RetryState)
    → (s.degraded_since ≡ none → s.delay ≡ 1)
    → (record_failures times s).1.degraded_since ≡ none
    → (record_failures times s).1.delay ≡ 1
unfolding record_failures record_failure_at
rested [] s h = h
rested (now ∷ times) s h = rested times _ λ e. absurd (none-some (sym e))

healthy :
    (now : ℕ) (s : RetryState)
    → (s.degraded_since ≡ none → s.delay ≡ 1)
    → (record_health_at now s).delay ≡ 1
unfolding record_health_at
healthy now s h = elim (Option-cases s.degraded_since) [
  | inl e ↦ rw e (h e)
  | inr (since, e) ↦ rw e refl
]

-- After the health that ends an outage, the next outage starts as the first one did.
pub record_health_at-resets :
    (now : ℕ) (times later : List ℕ)
    → (record_failures later (record_health_at now (record_failures times new).1)).0
      ≡ delays 0 (length later)
unfolding new
record_health_at-resets now times later =
    delays_from later (record_health_at now (record_failures times new).1) 0
      (healthy now _ (rested times new λ _. refl))

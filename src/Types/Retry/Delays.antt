-- ===== src/Types/Retry/Delays.antt =====
-- The schedule of retries of payouts and refunds.
use kalatori.Types.Retry.{retry_delay_secs}
use kalatori.Common.{ℕ, ◌≤◌, zero, suc, ◌+◌, ◌-◌, subst, arith, ◌≡◌}

pub within : (n : ℕ) → 60 ≤ retry_delay_secs n × retry_delay_secs n ≤ 7200
unfolding retry_delay_secs
within zero = (omega arith, omega arith)
within (suc zero) = (omega arith, omega arith)
within (suc (suc zero)) = (omega arith, omega arith)
within (suc (suc (suc zero))) = (omega arith, omega arith)
within (suc (suc (suc (suc zero)))) = (omega arith, omega arith)
within (suc (suc (suc (suc (suc n))))) = (omega arith, omega arith)

grows : (n : ℕ) → retry_delay_secs n ≤ retry_delay_secs (suc n)
unfolding retry_delay_secs
grows zero = omega arith
grows (suc zero) = omega arith
grows (suc (suc zero)) = omega arith
grows (suc (suc (suc zero))) = omega arith
grows (suc (suc (suc (suc zero)))) = omega arith
grows (suc (suc (suc (suc (suc n))))) = omega arith

later : {a b c : ℕ} → a ≤ b → b ≤ c → a ≤ c
later h k = omega arith

grows_by : (m k : ℕ) → retry_delay_secs m ≤ retry_delay_secs (k + m)
grows_by m zero =
    let e : m ≡ zero + m = omega arith in
    subst (λ j. retry_delay_secs m ≤ retry_delay_secs j) e (omega arith)
grows_by m (suc k) =
    let e : suc (k + m) ≡ suc k + m = omega arith in
    subst (λ j. retry_delay_secs m ≤ retry_delay_secs j) e (later (grows_by m k) (grows (k + m)))

monotone : (m n : ℕ) → m ≤ n → retry_delay_secs m ≤ retry_delay_secs n
monotone m n h =
    let e : n - m + m ≡ n = omega arith in
    subst (λ j. retry_delay_secs m ≤ retry_delay_secs j) e (grows_by m (n - m))

-- Every delay is between a minute and two hours, and an attempt that is not earlier does not wait
-- less.
pub retry_delay_secs-bounds :
    (m n : ℕ)
    → m ≤ n
    → 60 ≤ retry_delay_secs m × retry_delay_secs m ≤ retry_delay_secs n × retry_delay_secs n ≤ 7200
retry_delay_secs-bounds m n h = ((within m).0, monotone m n h, (within n).1)

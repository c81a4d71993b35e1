-- ===== src/Types/Retry.antt =====
-- `RetryMeta` and the pagination parameters of daemon/src/types/common.rs.
pub mod Delays
use kalatori.Common.{
  ℕ, zero, suc, ◌+◌, ◌-◌, ◌*◌, ◌/◌, min, max, Option, none, some, String, Result, ok, panic, ◌==◌,
  leb, if◌then◌else◌, unwrap_or, List,
}

pub record RetryMeta : Type 0 where
  pub retry_count : ℕ
  pub last_attempt_at : Option ℕ
  pub next_retry_at : Option ℕ
  pub failure_message : Option String

abbrev pub u32_max : ℕ
u32_max = 4294967295

-- `RetryMeta::default`.
abbrev pub no_retries : RetryMeta
no_retries = record {
  retry_count = 0;
  last_attempt_at = none;
  next_retry_at = none;
  failure_message = none;
}

-- In seconds.
unfoldable pub retry_delay_secs : ℕ → ℕ
retry_delay_secs zero = 60
retry_delay_secs (suc zero) = 5 * 60
retry_delay_secs (suc (suc zero)) = 15 * 60
retry_delay_secs (suc (suc (suc zero))) = 30 * 60
retry_delay_secs (suc (suc (suc (suc zero)))) = 60 * 60
retry_delay_secs (suc (suc (suc (suc (suc n))))) = 2 * 60 * 60

-- `self.retry_count += 1` is a checked addition of `u32`, which panics when it overflows.
unfoldable pub increment_retry {ℓ} : {E : Type ℓ} → ℕ → String → RetryMeta → Result E RetryMeta
unfolding retry_delay_secs
increment_retry now message m =
    if leb u32_max m.retry_count
    then panic
    else ok (record {
      retry_count = m.retry_count + 1;
      last_attempt_at = some now;
      next_retry_at = some (now + retry_delay_secs (m.retry_count + 1));
      failure_message = some message;
    })

-- PaginationParams

pub record PaginationParams : Type 0 where
  pub page : Option ℕ
  pub per_page : Option ℕ

unfoldable pub validated_page : PaginationParams → ℕ
validated_page p = max (unwrap_or p.page 1) 1

unfoldable pub validated_per_page : PaginationParams → ℕ
validated_per_page p = min (max (unwrap_or p.per_page 20) 1) 100

-- `u32` arithmetic, with a panic on overflow.
unfoldable pub offset {ℓ} : {E : Type ℓ} → PaginationParams → Result E ℕ
unfolding validated_page validated_per_page
offset p =
    let n = (validated_page p - 1) * validated_per_page p in if leb n u32_max then ok n else panic

pub record PaginatedResponse (T : Type 0) : Type 0 where
  pub items : List T
  pub total : ℕ
  pub page : ℕ
  pub per_page : ℕ
  pub total_pages : ℕ

-- `div_ceil`
abbrev div_ceil : ℕ → ℕ → ℕ
div_ceil a b = (a + b - 1) / b

unfoldable pub paginated : {T : Type 0} → List T → ℕ → ℕ → ℕ → PaginatedResponse T
paginated items total page per_page = record {
  items = items;
  total = total;
  page = page;
  per_page = per_page;
  total_pages = if per_page == 0 then 0 else div_ceil total per_page;
}

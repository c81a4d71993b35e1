-- ===== src/Common/Results.antt =====
-- The outcome of a Rust function: its value, its error, or a panic, which unwinds the task.
use mathlib.Core.Path.{◌≡◌, refl}
use mathlib.Core.Bool.{Bool, true, false}
use native.Mathlib.Omega.{arith}
use mathlib.Core.Option.{Option, none, some}

pub data Result {ℓ κ} (E : Type ℓ) (A : Type κ) : Type (ℓ ⊔ κ) where
  ok : A → Result E A
  err : E → Result E A
  panic : Result E A

-- `unwrap` on an `Option`.
abbrev pub unwrap {ℓ κ} : {E : Type ℓ} {A : Type κ} → Option A → Result E A
unwrap none = panic
unwrap (some a) = ok a

-- `ok_or` on an `Option`.
abbrev pub ok_or {ℓ κ} : {E : Type ℓ} {A : Type κ} → Option A → E → Result E A
ok_or none e = err e
ok_or (some a) e = ok a

-- `unwrap_or` on an `Option`.
abbrev pub unwrap_or {κ} : {A : Type κ} → Option A → A → A
unwrap_or none d = d
unwrap_or (some a) d = a

-- Why an `unwrap` gave what it gave.
pub unwrap_ok {ℓ κ} :
    {E : Type ℓ} {A : Type κ} (o : Option A) (a : A) → unwrap {E = E} o ≡ ok a → o ≡ some a
unwrap_ok none a h = grind arith
unwrap_ok (some b) a h = grind arith

abbrev pub is_ok {ℓ κ} : {E : Type ℓ} {A : Type κ} → Result E A → Bool
is_ok (ok a) = true
is_ok (err e) = false
is_ok panic = false

pub unwrap_fails {ℓ κ} :
    (E : Type ℓ) {A : Type κ} (o : Option A) → is_ok (unwrap {E = E} o) ≡ false → o ≡ none
unwrap_fails E none h = refl
unwrap_fails E (some b) h = grind arith

pub ok_inj {ℓ κ} : (E : Type ℓ) {A : Type κ} {a b : A} → ◌≡◌ {A = Result E A} (ok a) (ok b) → a ≡ b
ok_inj E e = grind arith

pub err_ok {ℓ κ} :
    {E : Type ℓ} {A : Type κ} {x : E} {a : A} → ◌≡◌ {A = Result E A} (err x) (ok a) → ⊥
err_ok e = grind arith

pub panic_ok {ℓ κ} : {E : Type ℓ} {A : Type κ} {a : A} → ◌≡◌ {A = Result E A} panic (ok a) → ⊥
panic_ok e = grind arith

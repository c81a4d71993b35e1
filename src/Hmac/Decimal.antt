-- ===== src/Hmac/Decimal.antt =====
-- The decimal code of a `u64` in a header.
use kalatori.Common.Bytes.{digits, to_decimal, parse_digits, parse_u64, is_digit, u64_max, Bytes}
use native.Mathlib.Numerals.{unary_clauses}
use kalatori.Common.{
  ℕ, zero, suc, ◌+◌, ◌-◌, ◌*◌, ◌/◌, ◌%◌, ◌^◌, ◌<◌, ◌≤◌, ◌≡◌, Bool, true, false, [], ◌∷◌, some,
  arith, ltb, leb, ◌==◌, ◌&&◌, refl, ap, sym, ◌∙◌, inl, inr, Bool-cases, none-some, exists,
}

digit-kept : (d : ℕ) → d < 10 → (is_digit (48 + d) ≡ true) × (48 + d - 48 ≡ d)
digit-kept d h = ground arith

-- One digit is read back.
read_one :
    (n d : ℕ) (rest : Bytes)
    → d < 10
    → n * 10 + d ≤ u64_max
    → parse_digits n ((48 + d) ∷ rest) ≡ parse_digits (n * 10 + d) rest
unfolding parse_digits
read_one n d rest small fits = rw ((digit-kept d small).0, (digit-kept d small).1, fits_leb) refl
  where
    fits_leb : leb (n * 10 + d) u64_max ≡ true
    fits_leb = ground arith

read_digits :
    (fuel n : ℕ) (rest : Bytes)
    → n < 10 ^ fuel
    → n ≤ u64_max
    → parse_digits 0 (digits fuel n rest) ≡ parse_digits n rest
unfolding digits
read_digits zero n rest small fits = ap (λ m. parse_digits m rest) (nothing n small)
  where
    nothing : (n : ℕ) → n < 1 → 0 ≡ n
    nothing n h = omega arith
read_digits (suc fuel) n rest small fits = elim (Bool-cases (ltb n 10)) [
  | inl e ↦
      rw e
        (read_one 0 n rest (below n e) (omega arith) ∙ ap (λ m. parse_digits m rest) (from_zero n))
  | inr e ↦ rw e (
      read_digits fuel (n / 10) ((48 + n % 10) ∷ rest)
        (quotient n (10 ^ fuel) (simp unary_clauses at small)) (omega arith)
      ∙ read_one (n / 10) (n % 10) rest (omega arith) (omega arith)
      ∙ ap (λ m. parse_digits m rest) (whole n))
]
  where
    below : (n : ℕ) → ltb n 10 ≡ true → n < 10
    below n e = ground arith

    from_zero : (n : ℕ) → 0 * 10 + n ≡ n
    from_zero n = omega arith

    quotient : (n k : ℕ) → n < k * 10 → n / 10 < k
    quotient n k h = omega arith

    whole : (n : ℕ) → n / 10 * 10 + n % 10 ≡ n
    whole n = omega arith

-- The code starts with a digit.
first_digit :
    (fuel n : ℕ) (rest : Bytes)
    → (d : ℕ) × (d < 10) × ((more : Bytes) × (digits (suc fuel) n rest ≡ (48 + d) ∷ more))
unfolding digits
first_digit zero n rest = elim (Bool-cases (ltb n 10)) [
  | inl e ↦ (n, below n e, (rest, rw e refl))
  | inr e ↦ (n % 10, omega arith, (rest, rw e refl))
]
  where
    below : (n : ℕ) → ltb n 10 ≡ true → n < 10
    below n e = ground arith
first_digit (suc fuel) n rest = elim (Bool-cases (ltb n 10)) [
  | inl e ↦ (n, below n e, (rest, rw e refl))
  | inr e ↦
      let (d, small, (more, is)) = first_digit fuel (n / 10) ((48 + n % 10) ∷ rest) in
      (d, small, (more, rw e is))
]
  where
    below : (n : ℕ) → ltb n 10 ≡ true → n < 10
    below n e = ground arith

no_sign : (b : ℕ) (bs : Bytes) → (b == 43) ≡ false → parse_u64 (b ∷ bs) ≡ parse_digits 0 (b ∷ bs)
unfolding parse_u64
no_sign b [] e = refl
no_sign b (c ∷ bs) e = rw e refl

-- A number of 64 bits is read back from its decimal code.
pub parse_u64-to_decimal : (n : ℕ) → n ≤ u64_max → parse_u64 (to_decimal n) ≡ some n
unfolding to_decimal parse_digits
parse_u64-to_decimal n fits =
    let (d, small, (more, is)) = first_digit 19 n [] in
    ap parse_u64 is
    ∙ no_sign (48 + d) more (digit_not_sign d)
    ∙ ap (parse_digits 0) (sym is)
    ∙ read_digits 20 n [] (twenty n fits) fits
  where
    digit_not_sign : (d : ℕ) → ((48 + d) == 43) ≡ false
    digit_not_sign d = ground arith

    twenty : (n : ℕ) → n ≤ u64_max → n < 10 ^ 20
    twenty n h = omega arith

-- What is read as a number has no newline.
abbrev pub has_newline : Bytes → Bool
has_newline = exists (λ b. b == 10)

digits-no_newline :
    (n : ℕ) (bs : Bytes) (t : ℕ) → parse_digits n bs ≡ some t → has_newline bs ≡ false
unfolding parse_digits
digits-no_newline n [] t e = refl
digits-no_newline n (b ∷ bs) t e =
    elim (Bool-cases (is_digit b && leb (n * 10 + (b - 48)) u64_max)) [
      | inl f ↦ rw (digit-no_newline b f) (digits-no_newline (n * 10 + (b - 48)) bs t (rw f at e))
      | inr f ↦ absurd (none-some (rw f at e))
    ]
  where
    digit-no_newline :
        (b : ℕ) → (is_digit b && leb (n * 10 + (b - 48)) u64_max) ≡ true → (b == 10) ≡ false
    digit-no_newline b f = ground arith

pub parse_u64-no_newline : (bs : Bytes) (t : ℕ) → parse_u64 bs ≡ some t → has_newline bs ≡ false
unfolding parse_u64
parse_u64-no_newline [] t e = refl
parse_u64-no_newline (b ∷ []) t e = digits-no_newline 0 (b ∷ []) t e
parse_u64-no_newline (b ∷ c ∷ bs) t e = elim (Bool-cases (b == 43)) [
  | inl f ↦ rw (sign-no_newline b f) (digits-no_newline 0 (c ∷ bs) t (rw f at e))
  | inr f ↦ digits-no_newline 0 (b ∷ c ∷ bs) t (rw f at e)
]
  where
    sign-no_newline : (b : ℕ) → (b == 43) ≡ true → (b == 10) ≡ false
    sign-no_newline b f = ground arith

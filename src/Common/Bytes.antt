-- ===== src/Common/Bytes.antt =====
-- Text in bytes, with what the models use of Rust's `str` and `u64`.
use Prim.Native.Nat.{ℕ, zero, suc, ◌+◌, ◌-◌, ◌*◌, ◌/◌, ◌%◌}
use mathlib.Core.Bool.{Bool, true, false, ◌&&◌, ◌||◌}
use mathlib.Core.List.{List, [], ◌∷◌, ◌++◌}
use mathlib.Core.Option.{Option, none, some}
use mathlib.Core.Path.{◌≡◌, refl}
use native.Mathlib.Omega.{arith}
use kalatori.Common.Tests.{ltb, leb, ◌==◌, ==_iff, if◌then◌else◌}

abbrev pub Bytes : Type 0
Bytes = List ℕ

-- `split` at a byte.
abbrev first_part : ℕ → List Bytes → List Bytes
first_part b [] = (b ∷ []) ∷ []
first_part b (part ∷ parts) = (b ∷ part) ∷ parts

unfoldable pub split_on : ℕ → Bytes → List Bytes
split_on sep [] = [] ∷ []
split_on sep (b ∷ text) =
    let rest = split_on sep text in if b == sep then [] ∷ rest else first_part b rest

-- The two parts of `splitn(2, …)`, of which the second is empty when the byte is missing.
unfoldable pub split_once : ℕ → Bytes → Bytes × Bytes
split_once sep [] = ([], [])
split_once sep (b ∷ text) =
    let (key, value) = split_once sep text in if b == sep then ([], text) else (b ∷ key, value)

abbrev pub join_with : ℕ → List Bytes → Bytes
join_with sep [] = []
join_with sep (part ∷ []) = part
join_with sep (part ∷ next ∷ parts) = part ++ sep ∷ join_with sep (next ∷ parts)

abbrev pub eq_bytes : Bytes → Bytes → Bool
eq_bytes [] [] = true
eq_bytes (a ∷ rest_a) (b ∷ bs) = let rest = eq_bytes rest_a bs in (a == b) && rest
eq_bytes _ _ = false

-- The order of `str`, byte by byte.
abbrev pub leb_bytes : Bytes → Bytes → Bool
leb_bytes [] _ = true
leb_bytes (a ∷ rest_a) [] = false
leb_bytes (a ∷ rest_a) (b ∷ bs) = let rest = leb_bytes rest_a bs in ltb a b || ((a == b) && rest)

abbrev pub u64_max : ℕ
u64_max = 18446744073709551615

-- `to_string` of a `u64`, which has twenty digits at most.
unfoldable pub digits : ℕ → ℕ → Bytes → Bytes
digits zero n rest = rest
digits (suc fuel) n rest =
    let more = digits fuel (n / 10) ((48 + n % 10) ∷ rest) in
    if ltb n 10 then (48 + n) ∷ rest else more

unfoldable pub to_decimal : ℕ → Bytes
to_decimal n = digits 20 n []

abbrev pub is_digit : ℕ → Bool
is_digit b = leb 48 b && leb b 57

unfoldable pub parse_digits : ℕ → Bytes → Option ℕ
parse_digits n [] = some n
parse_digits n (b ∷ bs) =
    let rest = parse_digits (n * 10 + (b - 48)) bs in
    if is_digit b && leb (n * 10 + (b - 48)) u64_max then rest else none

-- `parse` of a `u64`, which takes a sign before the digits.
unfoldable pub parse_u64 : Bytes → Option ℕ
parse_u64 [] = none
parse_u64 (b ∷ []) = parse_digits 0 (b ∷ [])
parse_u64 (b ∷ c ∷ bs) = if b == 43 then parse_digits 0 (c ∷ bs) else parse_digits 0 (b ∷ c ∷ bs)

pub eq_bytes-same : (cs bs : Bytes) → eq_bytes cs bs ≡ true → cs ≡ bs
eq_bytes-same [] [] e = refl
eq_bytes-same (a ∷ cs) (b ∷ bs) e =
    let (f, g) = both (a == b) (eq_bytes cs bs) e in
    rw ((==_iff a b).0 f, eq_bytes-same cs bs g) refl
  where
    both : (p q : Bool) → (p && q) ≡ true → (p ≡ true) × (q ≡ true)
    both p q e = ground arith
eq_bytes-same [] (b ∷ bs) e = absurd (differ e)
  where
    differ : false ≡ true → ⊥
    differ f = grind arith
eq_bytes-same (a ∷ cs) [] e = absurd (differ e)
  where
    differ : false ≡ true → ⊥
    differ f = grind arith

pub eq_bytes_refl : (cs : Bytes) → eq_bytes cs cs ≡ true
eq_bytes_refl [] = refl
eq_bytes_refl (a ∷ cs) = rw ((==_iff a a).1 refl, eq_bytes_refl cs) refl

-- ===== src/Tests/Letters.antt =====
-- Numbers as texts of so many letters, for the runs of the change feed.
use Prim.Native.String.{String, [], ◌∷◌}
use Prim.Native.Char.{nul}
use kalatori.Common.{
  ℕ, zero, suc, ◌≡◌, refl, ap, inl, inr, false, Bool-cases, str_eq, eq_iff, arith,
}

abbrev pub letters_of : ℕ → String
letters_of zero = []
letters_of (suc n) = nul ∷ letters_of n

abbrev pub letters : String → ℕ
letters [] = 0
letters (c ∷ s) = suc (letters s)

pub letters-letters_of : (n : ℕ) → letters (letters_of n) ≡ n
letters-letters_of zero = refl
letters-letters_of (suc n) = ap suc (letters-letters_of n)

pub letters_given : (n : ℕ) → str_eq (letters_of (suc n)) [] ≡ false
letters_given n = elim (Bool-cases (str_eq (letters_of (suc n)) [])) [
  | inl e ↦ absurd (never _ (ap letters ((eq_iff (letters_of (suc n)) []).0 e)))
  | inr e ↦ e
]
  where
    never : (k : ℕ) → suc k ≡ 0 → ⊥
    never k h = omega arith

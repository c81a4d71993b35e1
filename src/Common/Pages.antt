-- ===== src/Common/Pages.antt =====
-- A list cut into pages.
use Prim.Native.Nat.{ℕ, zero, suc, ◌+◌, ◌*◌, ◌≤◌}
use mathlib.Core.Path.{◌≡◌, refl, sym, ap, ◌∙◌}
use mathlib.Core.List.{List, [], ◌∷◌, ◌++◌}
use native.Mathlib.Omega.{arith}
use kalatori.Common.Lists.{length, take}

-- `OFFSET`
abbrev pub drop {ℓ} : {A : Type ℓ} → ℕ → List A → List A
drop zero xs = xs
drop (suc n) [] = []
drop (suc n) (x ∷ xs) = drop n xs

module _ {A : Type 0} where
  take-all : (n : ℕ) (xs : List A) → length xs ≤ n → take n xs ≡ xs
  take-all zero [] h = refl
  take-all zero (x ∷ xs) h = absurd (omega arith)
  take-all (suc n) [] h = refl
  take-all (suc n) (x ∷ xs) h = ap (λ rest. x ∷ rest) (take-all n xs (omega arith))

  take-nil : (n : ℕ) → ◌≡◌ {A = List A} (take n []) []
  take-nil zero = refl
  take-nil (suc n) = refl

  drop-nil : (n : ℕ) → ◌≡◌ {A = List A} (drop n []) []
  drop-nil zero = refl
  drop-nil (suc n) = refl

  take-take : (a b : ℕ) (xs : List A) → take a xs ++ take b (drop a xs) ≡ take (a + b) xs
  take-take zero b xs = ap (λ n. take n xs) (own b)
    where
      own : (b : ℕ) → b ≡ 0 + b
      own b = omega arith
  take-take (suc a) b [] = take-nil b ∙ sym (take-nil (suc a + b))
  take-take (suc a) b (x ∷ xs) =
      ap (λ rest. x ∷ rest) (take-take a b xs) ∙ ap (λ n. take n (x ∷ xs)) (next a b)
    where
      next : (a b : ℕ) → suc (a + b) ≡ suc a + b
      next a b = omega arith

  drop-drop : (a b : ℕ) (xs : List A) → drop a (drop b xs) ≡ drop (b + a) xs
  drop-drop a zero xs = ap (λ n. drop n xs) (own a)
    where
      own : (a : ℕ) → a ≡ 0 + a
      own a = omega arith
  drop-drop a (suc b) [] = drop-nil a ∙ sym (drop-nil (suc b + a))
  drop-drop a (suc b) (x ∷ xs) = drop-drop a b xs ∙ ap (λ n. drop n (x ∷ xs)) (next b a)
    where
      next : (b a : ℕ) → suc (b + a) ≡ suc b + a
      next b a = omega arith

  -- `count` pages of a size, from a place on.
  abbrev pub pages : ℕ → List A → ℕ → ℕ → List A
  pages size rows zero from = []
  pages size rows (suc count) from =
      take size (drop from rows) ++ pages size rows count (from + size)

  pages-take :
      (size : ℕ) (rows : List A) (count from : ℕ)
      → pages size rows count from ≡ take (count * size) (drop from rows)
  pages-take size rows zero from = ap (λ n. take n (drop from rows)) (none_left size)
    where
      none_left : (n : ℕ) → 0 ≡ 0 * n
      none_left n = omega arith
  pages-take size rows (suc count) from =
      ap (λ rest. take size (drop from rows) ++ rest)
        (pages-take size rows count (from + size)
          ∙ ap (take (count * size)) (sym (drop-drop size from rows)))
      ∙ take-take size (count * size) (drop from rows)
      ∙ ap (λ n. take n (drop from rows)) (one_more count size)
    where
      one_more : (c n : ℕ) → n + c * n ≡ suc c * n
      one_more c n = grind arith

  -- All pages together are the list.
  pub pages-whole :
      (size : ℕ) (rows : List A) (count : ℕ)
      → length rows ≤ count * size
      → pages size rows count 0 ≡ rows
  pages-whole size rows count enough =
      pages-take size rows count 0 ∙ take-all (count * size) rows enough

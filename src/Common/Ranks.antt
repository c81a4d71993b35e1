-- ===== src/Common/Ranks.antt =====
-- The first rows of a list that `order_by` has put in order.
use Prim.Native.Nat.{ℕ, zero, suc, ◌≤◌}
use mathlib.Core.Path.{◌≡◌, refl, sym, ap, ◌∙◌, subst}
use mathlib.Core.Bool.{Bool, true, false}
use mathlib.Core.List.{Memᴰ, map, List, [], ◌∷◌}
use mathlib.Core.Logic.{inl, inr}
use native.Mathlib.Omega.{arith}
use kalatori.Common.Tests.{Bool-cases, leb}
use kalatori.Common.Lists.{All, All-insert_by, exists, insert_by, length, order_by, select, take}

pub leb_trans : (a b c : ℕ) → leb a b ≡ true → leb b c ≡ true → leb a c ≡ true
leb_trans a b c e f = ground arith

leb_total : (a b : ℕ) → leb a b ≡ false → leb b a ≡ true
leb_total a b e = ground arith

leb_refl : (a : ℕ) → leb a a ≡ true
leb_refl a = ground arith

module _ {A : Type 0} where
  pub exists-Memᴰ :
      (p : A → Bool) (x : A) (xs : List A) → Memᴰ x xs → p x ≡ true → exists p xs ≡ true
  exists-Memᴰ p x [] nowhere passes = elim nowhere [ ]
  exists-Memᴰ p x (y ∷ ys) (Memᴰ.head e) passes = rw (sym (ap p e) ∙ passes) refl
  exists-Memᴰ p x (y ∷ ys) (Memᴰ.tail there) passes =
      ground (arith, exists-Memᴰ p x ys there passes)

  pub Memᴰ-select :
      (p : A → Bool) (x : A) (xs : List A) → Memᴰ x xs → p x ≡ true → Memᴰ x (select p xs)
  Memᴰ-select p x [] nowhere passes = elim nowhere [ ]
  Memᴰ-select p x (y ∷ ys) (Memᴰ.head e) passes = rw (sym (ap p e) ∙ passes) (Memᴰ.head e)
  Memᴰ-select p x (y ∷ ys) (Memᴰ.tail there) passes = elim (Bool-cases (p y)) [
    | inl e ↦ rw e (Memᴰ.tail (Memᴰ-select p x ys there passes))
    | inr e ↦ rw e (Memᴰ-select p x ys there passes)
  ]

  All-at : (P : A → Type 0) (xs : List A) → All P xs → (z : A) → Memᴰ z xs → P z
  All-at P [] h z nowhere = elim nowhere [ ]
  All-at P (x ∷ xs) h z (Memᴰ.head e) = subst P (sym e) h.0
  All-at P (x ∷ xs) h z (Memᴰ.tail there) = All-at P xs h.1 z there

  module _ (key : A → ℕ) where
    Memᴰ-insert_by : (x : A) (xs : List A) → Memᴰ x (insert_by key x xs)
    Memᴰ-insert_by x [] = Memᴰ.head refl
    Memᴰ-insert_by x (y ∷ ys) = elim (Bool-cases (leb (key x) (key y))) [
      | inl e ↦ rw e (Memᴰ.head refl)
      | inr e ↦ rw e (Memᴰ.tail (Memᴰ-insert_by x ys))
    ]

    insert_by-Memᴰ : (x z : A) (xs : List A) → Memᴰ z xs → Memᴰ z (insert_by key x xs)
    insert_by-Memᴰ x z [] nowhere = elim nowhere [ ]
    insert_by-Memᴰ x z (y ∷ ys) (Memᴰ.head e) = elim (Bool-cases (leb (key x) (key y))) [
      | inl f ↦ rw f (Memᴰ.tail (Memᴰ.head e))
      | inr f ↦ rw f (Memᴰ.head e)
    ]
    insert_by-Memᴰ x z (y ∷ ys) (Memᴰ.tail there) = elim (Bool-cases (leb (key x) (key y))) [
      | inl f ↦ rw f (Memᴰ.tail (Memᴰ.tail there))
      | inr f ↦ rw f (Memᴰ.tail (insert_by-Memᴰ x z ys there))
    ]

    pub order_by-Memᴰ : (z : A) (xs : List A) → Memᴰ z xs → Memᴰ z (order_by key xs)
    order_by-Memᴰ z [] nowhere = elim nowhere [ ]
    order_by-Memᴰ z (x ∷ xs) (Memᴰ.head e) =
        subst (λ y. Memᴰ y (order_by key (x ∷ xs))) (sym e) (Memᴰ-insert_by x (order_by key xs))
    order_by-Memᴰ z (x ∷ xs) (Memᴰ.tail there) =
        insert_by-Memᴰ x z (order_by key xs) (order_by-Memᴰ z xs there)

    select-insert_by :
        (p : A → Bool) (x : A) (xs : List A)
        → length (select p (insert_by key x xs)) ≡ length (select p (x ∷ xs))
    select-insert_by p x [] = refl
    select-insert_by p x (y ∷ ys) = ground (arith, select-insert_by p x ys)

    -- Sorting keeps the number of rows that pass a test.
    pub select-order_by :
        (p : A → Bool) (xs : List A) → length (select p (order_by key xs)) ≡ length (select p xs)
    select-order_by p [] = refl
    select-order_by p (x ∷ xs) =
        select-insert_by p x (order_by key xs) ∙ ground (arith, select-order_by p xs)

    -- Every row comes before the rows with a larger number.
    abbrev pub Ordered : List A → Type 0
    Ordered [] = Unit
    Ordered (x ∷ xs) = All (λ y. leb (key x) (key y) ≡ true) xs × Ordered xs

    All-leb :
        (a b : ℕ) (xs : List A)
        → leb a b ≡ true
        → All (λ y. leb b (key y) ≡ true) xs
        → All (λ y. leb a (key y) ≡ true) xs
    All-leb a b [] below h = tt
    All-leb a b (x ∷ xs) below h = (leb_trans a b (key x) below h.0, All-leb a b xs below h.1)

    insert_by-Ordered : (x : A) (xs : List A) → Ordered xs → Ordered (insert_by key x xs)
    insert_by-Ordered x [] h = (tt, tt)
    insert_by-Ordered x (y ∷ ys) h = elim (Bool-cases (leb (key x) (key y))) [
      | inl e ↦ rw e ((e, All-leb (key x) (key y) ys e h.0), h)
      | inr e ↦ rw e (
        All-insert_by (λ z. leb (key y) (key z) ≡ true) key x ys (leb_total (key x) (key y) e) h.0,
        insert_by-Ordered x ys h.1,
      )
    ]

    pub order_by-Ordered : (xs : List A) → Ordered (order_by key xs)
    order_by-Ordered [] = tt
    order_by-Ordered (x ∷ xs) = insert_by-Ordered x (order_by key xs) (order_by-Ordered xs)

    order_by-Ordered_same : (xs : List A) → Ordered xs → order_by key xs ≡ xs
    order_by-Ordered_same [] h = refl
    order_by-Ordered_same (x ∷ []) h = refl
    order_by-Ordered_same (x ∷ y ∷ ys) h = rw (order_by-Ordered_same (y ∷ ys) h.1, h.0.0) refl

    -- What is in order stays as it is.
    pub order_by-order_by : (xs : List A) → order_by key (order_by key xs) ≡ order_by key xs
    order_by-order_by xs = order_by-Ordered_same (order_by key xs) (order_by-Ordered xs)

    none_below : (n : ℕ) → suc n ≤ zero → ⊥
    none_below n h = omega arith

    one_less : (m n : ℕ) → suc m ≤ suc n → m ≤ n
    one_less m n h = omega arith

    -- In an ordered list, a row is among the first `n` when at most `n` rows are not after it.
    take-Memᴰ :
        (n : ℕ) (z : A) (xs : List A)
        → Ordered xs
        → Memᴰ z xs
        → length (select (λ y. leb (key y) (key z)) xs) ≤ n
        → Memᴰ z (take n xs)
    take-Memᴰ n z [] h nowhere few = elim nowhere [ ]
    take-Memᴰ zero z (x ∷ xs) h (Memᴰ.head e) few =
        absurd (none_below _ (rw (ap (λ y. leb (key y) (key z)) (sym e) ∙ leb_refl (key z)) at few))
    take-Memᴰ (suc n) z (x ∷ xs) h (Memᴰ.head e) few = Memᴰ.head e
    take-Memᴰ zero z (x ∷ xs) h (Memᴰ.tail there) few =
        absurd (none_below _ (rw (All-at _ xs h.0 z there) at few))
    take-Memᴰ (suc n) z (x ∷ xs) h (Memᴰ.tail there) few =
        Memᴰ.tail (take-Memᴰ n z xs h.1 there (one_less _ _ (rw (All-at _ xs h.0 z there) at few)))

    -- Of the rows in order, one is among the first `n` when at most `n` rows are not after it.
    pub take-order_by :
        (n : ℕ) (z : A) (xs : List A)
        → Memᴰ z xs
        → length (select (λ y. leb (key y) (key z)) xs) ≤ n
        → Memᴰ z (take n (order_by key xs))
    take-order_by n z xs there few =
        take-Memᴰ n z (order_by key xs) (order_by-Ordered xs) (order_by-Memᴰ z xs there)
          (subst (λ m. m ≤ n) (sym (select-order_by (λ y. leb (key y) (key z)) xs)) few)

pub Memᴰ-map : {A B : Type 0} (f : A → B) (x : A) (xs : List A) → Memᴰ x xs → Memᴰ (f x) (map f xs)
Memᴰ-map f x [] nowhere = elim nowhere [ ]
Memᴰ-map f x (y ∷ ys) (Memᴰ.head e) = Memᴰ.head (ap f e)
Memᴰ-map f x (y ∷ ys) (Memᴰ.tail there) = Memᴰ.tail (Memᴰ-map f x ys there)

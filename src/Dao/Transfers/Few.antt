-- ===== src/Dao/Transfers/Few.antt =====
-- Rows under a primary key.
use kalatori.Common.{
  ℕ, suc, ◌+◌, ◌≤◌, ◌≡◌, sym, ◌∙◌, ap, inl, inr, Bool, true, false, ◌||◌, Bool-cases, List, [], ◌∷◌,
  map, ◌==◌, select, exists, length, arith, Memᴰ, All, if◌then◌else◌,
}

-- Rows that pass one of two tests.
select-or :
    {A : Type 0} (p q : A → Bool) (rows : List A)
    → length (select (λ r. p r || q r) rows) ≤ length (select p rows) + length (select q rows)
select-or p q [] = omega arith
select-or p q (r ∷ rows) = ground (arith, select-or p q rows)

none_of : {A : Type 0} (rows : List A) → length (select (λ _. false) rows) ≤ 0
none_of [] = omega arith
none_of (r ∷ rows) = none_of rows

member_counts :
    {A : Type 0} (p : A → Bool) (rows : List A) (a : A)
    → Memᴰ a rows
    → p a ≡ true
    → 1 ≤ length (select p rows)
member_counts p [] a nowhere passes = elim nowhere [ ]
member_counts p (r ∷ rows) a (Memᴰ.head e) passes = rw (sym (ap p e) ∙ passes) (omega arith)
member_counts p (r ∷ rows) a (Memᴰ.tail there) passes =
    ground (arith, member_counts p rows a there passes)

-- A test that one row passes at most.
pub only_one :
    {A : Type 0} (p : A → Bool) (rows : List A) (a b : A)
    → length (select p rows) ≤ 1
    → Memᴰ a rows
    → Memᴰ b rows
    → p a ≡ true
    → p b ≡ true
    → a ≡ b
only_one p [] a b few nowhere there x y = elim nowhere [ ]
only_one p (r ∷ rows) a b few (Memᴰ.head e) (Memᴰ.head f) x y = e ∙ sym f
only_one p (r ∷ rows) a b few (Memᴰ.head e) (Memᴰ.tail there) x y = absurd (
    too_many (length (select p rows)) (rw (sym (ap p e) ∙ x) at few)
      (member_counts p rows b there y))
  where
    too_many : (n : ℕ) → suc n ≤ 1 → 1 ≤ n → ⊥
    too_many n h i = omega arith
only_one p (r ∷ rows) a b few (Memᴰ.tail there) (Memᴰ.head f) x y = absurd (
    too_many (length (select p rows)) (rw (sym (ap p f) ∙ y) at few)
      (member_counts p rows a there x))
  where
    too_many : (n : ℕ) → suc n ≤ 1 → 1 ≤ n → ⊥
    too_many n h i = omega arith
only_one p (r ∷ rows) a b few (Memᴰ.tail there) (Memᴰ.tail here) x y =
    only_one p rows a b (fewer (p r) few) there here x y
  where
    fewer :
        (q : Bool)
        → length (if q then r ∷ select p rows else select p rows) ≤ 1
        → length (select p rows) ≤ 1
    fewer true h = omega arith
    fewer false h = h

module _ {A : Type 0} (key : A → ℕ) where
  -- A primary key: it is that of one row at most.
  abbrev pub UniqueKeys : List A → Type 0
  UniqueKeys rows = (id : ℕ) → length (select (λ r. key r == id) rows) ≤ 1

  -- The rows with one of some keys.
  pub few_of :
      (rows : List A) (ids : List ℕ)
      → UniqueKeys rows
      → length (select (λ r. exists (λ id. key r == id) ids) rows) ≤ length ids
  few_of rows [] unique = none_of rows
  few_of rows (id ∷ ids) unique = grind (
    arith,
    select-or (λ r. key r == id) (λ r. exists (λ i. key r == i) ids) rows,
    unique id,
    few_of rows ids unique,
  )

  -- A key of some rows is that of one of them.
  pub key_of_one :
      (P : A → Type 0) (k : ℕ) (xs : List A)
      → All P xs
      → exists (λ id. k == id) (map key xs) ≡ true
      → (x : A) × P x × ((k == key x) ≡ true)
  key_of_one P k [] all e = absurd (grind arith)
  key_of_one P k (x ∷ xs) (holds, all) e = elim (Bool-cases (k == key x)) [
    | inl same ↦ (x, holds, same)
    | inr other ↦ key_of_one P k xs all (rw other at e)
  ]

-- ===== src/Common/Groups.antt =====
-- Rows in a `HashMap` from an id to a vector of rows, as a function.
use kalatori.Common.Lists.{select, All}
use kalatori.Common.{
  ℕ, ◌≡◌, refl, sym, ap, ◌∙◌, inl, inr, false, Bool-cases, List, [], ◌∷◌, ◌++◌, map, Bool, Option,
  none, some, false, if◌then◌else◌, ◌==◌,
}

abbrev pub Groups : Type 0 → Type 0
Groups A = ℕ → List A

-- `_ == Some(id)`
abbrev pub is_some_id : ℕ → Option ℕ → Bool
is_some_id id none = false
is_some_id id (some k) = k == id

module _ {A : Type 0} where
  abbrev pub no_groups : Groups A
  no_groups _ = []

  -- `entry(k).or_default().push(x)`
  abbrev pub pushed : ℕ → A → Groups A → Groups A
  pushed k x m j = if k == j then m j ++ x ∷ [] else m j

  -- `remove(k)`; its result is `m k`, also when the key is missing and the caller takes the
  -- default.
  abbrev pub removed : ℕ → Groups A → Groups A
  removed k m j = if k == j then [] else m j

  -- A loop that pushes each row under its key.
  abbrev pub grouped : (A → ℕ) → List A → Groups A → Groups A
  grouped key [] m = m
  grouped key (x ∷ xs) m = grouped key xs (pushed (key x) x m)

  pub append_none : (xs : List A) → xs ++ [] ≡ xs
  append_none [] = refl
  append_none (x ∷ xs) = ap (λ l. x ∷ l) (append_none xs)

  pub append_assoc : (xs ys zs : List A) → (xs ++ ys) ++ zs ≡ xs ++ (ys ++ zs)
  append_assoc [] ys zs = refl
  append_assoc (x ∷ xs) ys zs = ap (λ l. x ∷ l) (append_assoc xs ys zs)

  pub grouped_lem :
      (key : A → ℕ) (xs : List A) (m : Groups A) (k : ℕ)
      → grouped key xs m k ≡ m k ++ select (λ x. key x == k) xs
  grouped_lem key [] m k = sym (append_none (m k))
  grouped_lem key (x ∷ xs) m k = elim (Bool-cases (key x == k)) [
    | inl e ↦
        grouped_lem key xs (pushed (key x) x m) k
        ∙ rw e (append_assoc (m k) (x ∷ []) (select (λ x. key x == k) xs))
    | inr e ↦ grouped_lem key xs (pushed (key x) x m) k ∙ rw e refl
  ]

  -- No two rows share an id.
  abbrev pub DistinctIds : (A → ℕ) → List A → Type 0
  DistinctIds id [] = Unit
  DistinctIds id (x ∷ xs) = All (λ y. (id x == id y) ≡ false) xs × DistinctIds id xs

  pub All-selected : (P : A → Type 0) (p : A → Bool) (xs : List A) → All P xs → All P (select p xs)
  All-selected P p [] all = tt
  All-selected P p (x ∷ xs) (holds, all) = elim (Bool-cases (p x)) [
    | inl e ↦ rw e (holds, All-selected P p xs all)
    | inr e ↦ rw e (All-selected P p xs all)
  ]

  pub DistinctIds-select :
      (id : A → ℕ) (p : A → Bool) (xs : List A) → DistinctIds id xs → DistinctIds id (select p xs)
  DistinctIds-select id p [] distinct = tt
  DistinctIds-select id p (x ∷ xs) (others, distinct) = elim (Bool-cases (p x)) [
    | inl e ↦ rw e (All-selected _ p xs others, DistinctIds-select id p xs distinct)
    | inr e ↦ rw e (DistinctIds-select id p xs distinct)
  ]

-- A loop in which each row takes what is under its id out of the map.
module _ {A B C : Type 0} (id : A → ℕ) (f : A → List B → C) where
  abbrev pub taken : List A → Groups B → List C
  taken [] m = []
  taken (x ∷ xs) m = f x (m (id x)) ∷ taken xs (removed (id x) m)

  others_kept :
      (x : A) (xs : List A) (m : Groups B)
      → All (λ y. (id x == id y) ≡ false) xs
      → map (λ y. f y (removed (id x) m (id y))) xs ≡ map (λ y. f y (m (id y))) xs
  others_kept x [] m others = refl
  others_kept x (y ∷ ys) m (other, others) = rw (other, others_kept x ys m others) refl

  pub taken_lem :
      (xs : List A) (m : Groups B) → DistinctIds id xs → taken xs m ≡ map (λ x. f x (m (id x))) xs
  taken_lem [] m distinct = refl
  taken_lem (x ∷ xs) m (others, distinct) =
      ap (λ l. f x (m (id x)) ∷ l)
        (taken_lem xs (removed (id x) m) distinct ∙ others_kept x xs m others)

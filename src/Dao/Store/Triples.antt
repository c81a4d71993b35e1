-- ===== src/Dao/Store/Triples.antt =====
-- Reasoning about calls of the database (daemon/src/dao.rs): what holds after a call that succeeds,
-- and what a call that does not succeed shows.
use kalatori.Common.{
  subst, ap, sym, ℕ, ◌≡◌, refl, true, false, Result, ok, err, panic, arith, Bool-cases, inl, inr,
  is_ok, contrary,
}
use kalatori.Dao.Store.{
  Db, Env, Store, tick, Dao, lift, ◌>>=◌, map_err, now, new_uuid, query, transaction, answer,
  finish,
}

-- In the environment `env`, a success satisfies `Q`, and any other outcome is a reason for `Z`.
abbrev pub Ensures {ℓ κ} :
    {E : Type ℓ} {A : Type κ} → Env → Type 0 → (A → Db → Type 0) → Result E A × Store → Type 0
Ensures env Z Q (ok a, s) = (s.env ≡ env) × Q a s.db
Ensures env Z Q (err e, s) = Z
Ensures env Z Q (panic, s) = Z

module _ (env : Env) (Z : Type 0) where
  module _ {ℓ κ ι} {E : Type ℓ} {A : Type κ} {B : Type ι} where
    pub Ensures-bind :
        (P : A → Db → Type 0) (Q : B → Db → Type 0) (m : Dao E A) (f : A → Dao E B) (s : Store)
        → Ensures env Z P (m s)
        → ((a : A) (s' : Store) → s'.env ≡ env → P a s'.db → Ensures env Z Q (f a s'))
        → Ensures env Z Q ((m >>= f) s)
    unfolding ◌>>=◌
    Ensures-bind P Q m f s = split (m s)
      where
        split :
            (r : Result E A × Store)
            → Ensures env Z P r
            → ((a : A) (s' : Store) → s'.env ≡ env → P a s'.db → Ensures env Z Q (f a s'))
            → Ensures env Z Q (◌>>=◌ (λ _. r) f s)
        split (ok a, s') p k = k a s' p.0 p.1
        split (err e, s') p k = p
        split (panic, s') p k = p

  module _ {ℓ κ} {E : Type ℓ} {A : Type κ} (Q : A → Db → Type 0) where
    pub Ensures-mono :
        (P : A → Db → Type 0) (r : Result E A × Store)
        → Ensures env Z P r
        → ((a : A) (db : Db) → P a db → Q a db)
        → Ensures env Z Q r
    Ensures-mono P (ok a, s) p k = (p.0, k a s.db p.1)
    Ensures-mono P (err e, s) p k = p
    Ensures-mono P (panic, s) p k = p

    pub Ensures-map_err {ι} :
        {F : Type ι} (f : F → E) (m : Dao F A) (s : Store)
        → Ensures env Z Q (m s)
        → Ensures env Z Q (map_err f m s)
    unfolding map_err
    Ensures-map_err {F} f m s = split (m s)
      where
        split :
            (r : Result F A × Store) → Ensures env Z Q r → Ensures env Z Q (map_err f (λ _. r) s)
        split (ok a, s') p = p
        split (err e, s') p = p
        split (panic, s') p = p

  module _ {ℓ κ ι} {E : Type ℓ} {A : Type κ} {B : Type ι} (Q : B → Db → Type 0) (s : Store) where
    pub Ensures-bind_lift :
        (r : Result E A) (f : A → Dao E B)
        → ((a : A) → r ≡ ok a → Ensures env Z Q (f a s))
        → (is_ok r ≡ false → Z)
        → Ensures env Z Q ((lift r >>= f) s)
    unfolding ◌>>=◌
    Ensures-bind_lift (ok a) f good bad = good a refl
    Ensures-bind_lift (err e) f good bad = bad refl
    Ensures-bind_lift panic f good bad = bad refl

  module _ {ℓ κ} {E : Type ℓ} {B : Type κ} (Q : B → Db → Type 0) (f : ℕ → Dao E B) (s : Store) where
    pub Ensures-bind_now :
        ((n : ℕ) → Ensures env Z Q (f n (tick s))) → Ensures env Z Q ((now >>= f) s)
    unfolding ◌>>=◌ now
    Ensures-bind_now k = k _

    pub Ensures-bind_new_uuid :
        s.env ≡ env
        → ((n : ℕ) → Ensures env Z Q (f (env.uuid n) (tick s)))
        → Ensures env Z Q ((new_uuid >>= f) s)
    unfolding ◌>>=◌ new_uuid
    Ensures-bind_new_uuid same k =
        subst (λ (u : ℕ → ℕ). Ensures env Z Q (f (u s.calls) (tick s)))
          (ap (λ (e : Env). e.uuid) (sym same)) (k _)

  module _ {ℓ} {E : Type ℓ} {A : Type 0} (Q : A → Db → Type 0)
      (faults : (n : ℕ) → env.faulty n ≡ true → Z) where
    -- What a statement's own answer must satisfy.
    abbrev pub Answers : Result E (A × Db) → Type 0
    Answers (ok (a, db)) = Q a db
    Answers (err e) = Z
    Answers panic = Z

    pub Ensures-query :
        (fault : E) (f : ℕ → Db → Result E (A × Db)) (s : Store)
        → s.env ≡ env
        → ((time : ℕ) → Answers (f time s.db))
        → Ensures env Z Q (query fault f s)
    unfolding query
    Ensures-query fault f s same k = elim (Bool-cases (s.env.faulty s.calls)) [
      | inl bad ↦ rw bad (faults s.calls (rw same at bad))
      | inr good ↦ rw good (split (f (s.env.clock s.calls) s.db) (k _))
    ]
      where
        split : (r : Result E (A × Db)) → Answers r → Ensures env Z Q (answer r (tick s))
        split (ok (a, db)) p = (same, p)
        split (err e) p = p
        split panic p = p

    -- The commit.
    pub Ensures-finish :
        (c : E) (db : Db) (r : Result E A × Store)
        → Ensures env Z Q r
        → Ensures env Z Q (finish c db r)
    Ensures-finish c db (ok a, s') (same', q) = elim (Bool-cases (s'.env.faulty s'.calls)) [
      | inl bad ↦ rw bad (faults s'.calls (rw same' at bad))
      | inr good ↦ rw good (same', q)
    ]
    Ensures-finish c db (err e, s') q = q
    Ensures-finish c db (panic, s') q = q

    pub Ensures-transaction :
        (b c : E) (body : Dao E A) (s : Store)
        → s.env ≡ env
        → Ensures env Z Q (body (tick s))
        → Ensures env Z Q (transaction b c body s)
    unfolding transaction
    Ensures-transaction b c body s same p = elim (Bool-cases (s.env.faulty s.calls)) [
      | inl bad ↦ rw bad (faults s.calls (rw same at bad))
      | inr good ↦ rw good (Ensures-finish c s.db (body (tick s)) p)
    ]

-- A commit that fails, like a body that does, gives the tables back.
pub finish_rolls_back {ℓ} :
    {E : Type ℓ} {A : Type 0} (c : E) (db : Db) (r : Result E A × Store)
    → is_ok (finish c db r).0 ≡ false
    → (finish c db r).1.db ≡ db
finish_rolls_back c db (ok a, s') h = ground arith
finish_rolls_back c db (err e, s') h = refl
finish_rolls_back c db (panic, s') h = refl

-- A transaction that does not return `Ok`, for its begin, its body or its commit, leaves the tables
-- as they were.
pub transaction_rolls_back {ℓ} :
    {E : Type ℓ} {A : Type 0} (b c : E) (body : Dao E A) (s : Store)
    → is_ok (transaction b c body s).0 ≡ false
    → (transaction b c body s).1.db ≡ s.db
unfolding transaction
transaction_rolls_back {E = E} {A = A} b c body s h = elim (Bool-cases (s.env.faulty s.calls)) [
  | inl bad ↦ rw bad
  | inr good ↦ rw good (finish_rolls_back c s.db (body (tick s)) (rw good at h))
]

-- A statement that does not return `Ok` leaves the tables as they were.
pub query_rolls_back {ℓ} :
    {E : Type ℓ} {A : Type 0} (fault : E) (f : ℕ → Db → Result E (A × Db)) (s : Store)
    → is_ok (query fault f s).0 ≡ false
    → (query fault f s).1.db ≡ s.db
unfolding query
query_rolls_back {E = E} {A = A} fault f s h = elim (Bool-cases (s.env.faulty s.calls)) [
  | inl bad ↦ rw bad refl
  | inr good ↦ rw good (split (f (s.env.clock s.calls) s.db) (rw good at h))
]
  where
    split :
        (r : Result E (A × Db))
        → is_ok (answer r (tick s)).0 ≡ false
        → (answer r (tick s)).1.db ≡ s.db
    split (ok (a, db)) h' = absurd (contrary _ refl h')
    split (err e) h' = refl
    split panic h' = refl

-- What holds of the tables after a block, whatever it returns: after its first call when that
-- fails, and else after the rest.
pub bind_leaves {ℓ κ ι} :
    {E : Type ℓ} {A : Type κ} {B : Type ι} (P : Db → Type 0) (m : Dao E A) (f : A → Dao E B)
    (s : Store)
    → ((a : A) (s' : Store) → m s ≡ (ok a, s') → P (f a s').1.db)
    → (is_ok (m s).0 ≡ false → P (m s).1.db)
    → P ((m >>= f) s).1.db
unfolding ◌>>=◌
bind_leaves {E = E} {A = A} P m f s good bad = split (m s) refl
  where
    split : (r : Result E A × Store) → m s ≡ r → P (◌>>=◌ (λ _. r) f s).1.db
    split (ok a, s') e = good a s' e
    split (err x, s') e =
        subst (λ (r : Result E A × Store). P r.1.db) e
          (bad (ap (λ (r : Result E A × Store). is_ok r.0) e))
    split (panic, s') e =
        subst (λ (r : Result E A × Store). P r.1.db) e
          (bad (ap (λ (r : Result E A × Store). is_ok r.0) e))

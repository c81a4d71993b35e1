-- ===== src/Ledger/Keeping.antt =====
-- Calls of the database that keep the books of every invoice, and what is built from them.
use kalatori.Common.Int.{ℤ, sum_where, ◌+ℤ◌}
use kalatori.Dao.Store.Triples.{bind_leaves}
use kalatori.Dao.Invoices.{received_for}
use kalatori.Ledger.Same.{SameSums}
use kalatori.Ledger.{sent_out}
use kalatori.Common.{
  ok, err, panic, [], ◌∷◌, ℕ, ◌≡◌, refl, ap, ◌∙◌, subst, inl, inr, Bool, List, if◌then◌else◌,
  Bool-cases, update, Result, sym,
}
use kalatori.Dao.Store.{
  ◌>>=◌, now, tick, Dao, pure, lift, map_err, new_uuid, query, finish, transaction, Db, Store,
  answer,
}

-- The rows of the invoices, what came in and what is sent out are the same.
abbrev pub SameBooks : Db → Db → Type 0
SameBooks old new = (new.invoices ≡ old.invoices) × SameSums old new

pub SameBooks-refl : (old new : Db) → new ≡ old → SameBooks old new
SameBooks-refl old new e = (
  ap (λ (d : Db). d.invoices) e,
  λ id. (ap (λ (d : Db). received_for id d.transactions) e, ap (sent_out id) e),
)

pub SameBooks-trans : (a b c : Db) → SameBooks a b → SameBooks b c → SameBooks a c
SameBooks-trans a b c p q = (q.0 ∙ p.0, λ id. ((q.1 id).0 ∙ (p.1 id).0, (q.1 id).1 ∙ (p.1 id).1))

-- Whatever the call returns, in any state.
pub record Keeps {ℓ κ} {E : Type ℓ} {A : Type κ} (m : Dao E A) : Type 0 where
  pub same_books : (s : Store) → SameBooks s.db (m s).1.db

-- What an answer of a statement leaves.
abbrev KeepsAnswer {ℓ} : {E : Type ℓ} {A : Type 0} → Db → Result E (A × Db) → Type 0
KeepsAnswer old (ok (a, new)) = SameBooks old new
KeepsAnswer old (err e) = Unit
KeepsAnswer old panic = Unit

module _ {ℓ} {E : Type ℓ} {A : Type 0} where
  query_books :
      (fault : E) (f : ℕ → Db → Result E (A × Db))
      → ((time : ℕ) (db : Db) → KeepsAnswer db (f time db))
      → (s : Store) → SameBooks s.db (query fault f s).1.db
  unfolding query
  query_books fault f keeps s = elim (Bool-cases (s.env.faulty s.calls)) [
    | inl bad ↦ rw bad (SameBooks-refl s.db s.db refl)
    | inr good ↦ rw good (split (f (s.env.clock s.calls) s.db) (keeps _ s.db))
  ]
    where
      split : (r : Result E (A × Db)) → KeepsAnswer s.db r → SameBooks s.db (answer r (tick s)).1.db
      split (ok (a, db)) p = p
      split (err e) p = SameBooks-refl s.db s.db refl
      split panic p = SameBooks-refl s.db s.db refl

  pub query-Keeps :
      (fault : E) (f : ℕ → Db → Result E (A × Db))
      → ((time : ℕ) (db : Db) → KeepsAnswer db (f time db))
      → Keeps (query fault f)
  query-Keeps fault f keeps = record { same_books = query_books fault f keeps }

  transaction_books :
      (b c : E) (body : Dao E A)
      → Keeps body
      → (s : Store) → SameBooks s.db (transaction b c body s).1.db
  unfolding transaction
  transaction_books b c body keeps s = elim (Bool-cases (s.env.faulty s.calls)) [
    | inl bad ↦ rw bad (SameBooks-refl s.db s.db refl)
    | inr good ↦ rw good (split (body (tick s)) (keeps.same_books (tick s)))
  ]
    where
      split :
          (r : Result E A × Store) → SameBooks s.db r.1.db → SameBooks s.db (finish c s.db r).1.db
      split (ok a, s') p = elim (Bool-cases (s'.env.faulty s'.calls)) [
        | inl bad ↦ rw bad (SameBooks-refl s.db s.db refl)
        | inr good ↦ rw good p
      ]
      split (err e, s') p = SameBooks-refl s.db s.db refl
      split (panic, s') p = SameBooks-refl s.db s.db refl

  pub transaction-Keeps : (b c : E) (body : Dao E A) → Keeps body → Keeps (transaction b c body)
  transaction-Keeps b c body keeps = record { same_books = transaction_books b c body keeps }

module _ {ℓ κ} {E : Type ℓ} {A : Type κ} where
  pub lift-Keeps : (r : Result E A) → Keeps (lift r)
  lift-Keeps r = record { same_books = λ s. SameBooks-refl s.db s.db refl }

  pub map_err-Keeps {ι} : {F : Type ι} (f : F → E) (m : Dao F A) → Keeps m → Keeps (map_err f m)
  unfolding map_err
  map_err-Keeps f m keeps = record { same_books = λ s. keeps.same_books s }

  pub bind-Keeps {ι} :
      {B : Type ι} (m : Dao E A) (f : A → Dao E B)
      → Keeps m
      → ((a : A) → Keeps (f a))
      → Keeps (m >>= f)
  bind-Keeps m f first rest = record {
    same_books = λ s.
        bind_leaves (SameBooks s.db) m f s
          (λ a s' e.
            SameBooks-trans s.db s'.db (f a s').1.db
              (subst (λ (q : Result E A × Store). SameBooks s.db q.1.db) e (first.same_books s))
              ((rest a).same_books s'))
          (λ h. first.same_books s);
  }

pub pure-Keeps {ℓ κ} : (E : Type ℓ) {A : Type κ} (a : A) → Keeps (pure {E = E} a)
pure-Keeps E a = record { same_books = λ s. SameBooks-refl s.db s.db refl }

pub now-Keeps {ℓ} : (E : Type ℓ) → Keeps (now {E = E})
unfolding now
now-Keeps E = record { same_books = λ s. SameBooks-refl s.db s.db refl }

pub new_uuid-Keeps {ℓ} : (E : Type ℓ) → Keeps (new_uuid {E = E})
unfolding new_uuid
new_uuid-Keeps E = record { same_books = λ s. SameBooks-refl s.db s.db refl }

sum_where-cons {ℓ} :
    {A : Type ℓ} (q : A → Bool) (amount : A → ℤ) (x : A) (xs : List A)
    → sum_where q amount (x ∷ xs)
      ≡ (if q x then amount x +ℤ sum_where q amount xs else sum_where q amount xs)
sum_where-cons q amount x xs = elim (Bool-cases (q x)) [ inl e ↦ rw e refl | inr e ↦ rw e refl ]

-- A sum over rows that are changed without a change of what is summed.
pub sum_where-update {ℓ} :
    {A : Type ℓ} (q p : A → Bool) (f : A → A) (amount : A → ℤ) (xs : List A)
    → ((x : A) → q (f x) ≡ q x)
    → ((x : A) → amount (f x) ≡ amount x)
    → sum_where q amount (update p f xs) ≡ sum_where q amount xs
sum_where-update q p f amount [] same_test same_amount = refl
sum_where-update q p f amount (x ∷ xs) same_test same_amount =
    sum_where-cons q amount (if p x then f x else x) (update p f xs)
    ∙ (elim (Bool-cases (p x)) [
      | inl e ↦
          rw (e, same_test x, same_amount x, sum_where-update q p f amount xs same_test same_amount)
            refl
      | inr e ↦ rw (e, sum_where-update q p f amount xs same_test same_amount) refl
    ])
    ∙ sym (sum_where-cons q amount x xs)

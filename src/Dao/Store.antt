-- ===== src/Dao/Store.antt =====
-- The database as the daemon sees it: the tables, the calls that reach them, and transactions
-- (daemon/src/dao.rs). Each call may fail for a reason of its own, and sees the clock and the
-- generator of ids; `Env` says how, call by call.
pub mod Triples
pub mod Successes
use kalatori.Common.{ℕ, suc, Bool, true, false, Option, List, Result, ok, err, panic, if◌then◌else◌}
use kalatori.Types.Invoice.{Invoice}
use kalatori.Types.Transaction.{Transaction}
use kalatori.Types.Transfer.{Payout, Refund}
use kalatori.Types.Webhook.{WebhookEvent}
use kalatori.Types.SwapOrder.{Swap}
use kalatori.Types.Changes.{FrontEndSwap}

pub record Db : Type 0 where
  pub invoices : List Invoice
  pub transactions : List Transaction
  pub payouts : List Payout
  pub refunds : List Refund
  pub webhook_events : List WebhookEvent
  pub swaps : List Swap
  pub front_end_swaps : List FrontEndSwap

-- What the n-th call meets: whether the engine fails, the time, and a fresh id.
pub record Env : Type 0 where
  pub faulty : ℕ → Bool
  pub clock : ℕ → ℕ
  pub uuid : ℕ → ℕ

pub record Store : Type 0 where
  pub db : Db
  pub env : Env
  pub calls : ℕ

abbrev pub tick : Store → Store
tick s = record s { calls = suc s.calls }

-- A method of the DAO, or a piece of code that calls them.
abbrev pub Dao {ℓ κ} : Type ℓ → Type κ → Type (ℓ ⊔ κ)
Dao E A = Store → Result E A × Store

module _ {ℓ κ} {E : Type ℓ} {A : Type κ} where
  abbrev pub pure : A → Dao E A
  pure a s = (ok a, s)

  abbrev pub lift : Result E A → Dao E A
  lift r s = (r, s)

module _ {ℓ κ ι} {E : Type ℓ} {A : Type κ} {B : Type ι} where
  abbrev pub continue : Result E A → Store → (A → Dao E B) → Result E B × Store
  continue (ok a) s f = f a s
  continue (err e) s f = (err e, s)
  continue panic s f = (panic, s)

  infixl 5 ◌>>=◌
  -- Shut, so that a proof goes through a block step by step.
  unfoldable pub ◌>>=◌ : Dao E A → (A → Dao E B) → Dao E B
  ◌>>=◌ m f s = let (r, s') = m s in continue r s' f

  infixl 5 ◌>>◌
  abbrev pub ◌>>◌ : Dao E A → Dao E B → Dao E B
  m >> n = m >>= λ _. n

module _ {ℓ κ ι} {E : Type ℓ} {F : Type κ} {A : Type ι} where
  abbrev pub with_error : (E → F) → Result E A → Result F A
  with_error f (ok a) = ok a
  with_error f (err e) = err (f e)
  with_error f panic = panic

  -- `map_err`
  unfoldable pub map_err : (E → F) → Dao E A → Dao F A
  map_err f m s = let (r, s') = m s in (with_error f r, s')

module _ {ℓ} {E : Type ℓ} where
  -- `Utc::now()`
  unfoldable pub now : Dao E ℕ
  now s = (ok (s.env.clock s.calls), tick s)

  -- `Uuid::new_v4()`
  unfoldable pub new_uuid : Dao E ℕ
  new_uuid s = (ok (s.env.uuid s.calls), tick s)

module _ {ℓ} {E : Type ℓ} {A : Type 0} where
  abbrev pub answer : Result E (A × Db) → Store → Result E A × Store
  answer (ok (a, db)) s = (ok a, record s { db = db })
  answer (err e) s = (err e, s)
  answer panic s = (panic, s)

  -- One SQL statement, at the engine's time: it fails with the given error, or is run; a statement
  -- that is refused by a constraint or a trigger changes nothing.
  unfoldable pub query : E → (ℕ → Db → Result E (A × Db)) → Dao E A
  query fault f s =
      if s.env.faulty s.calls
      then (err fault, tick s)
      else answer (f (s.env.clock s.calls) s.db) (tick s)

  abbrev pub finish : E → Db → Result E A × Store → Result E A × Store
  finish e db (ok a, s) =
      if s.env.faulty s.calls then (err e, record (tick s) { db = db }) else (ok a, tick s)
  finish e db (err x, s) = (err x, record s { db = db })
  finish e db (panic, s) = (panic, record s { db = db })

  -- `begin_transaction`, the body, and `commit` at its end. A body that ends early drops the
  -- transaction, which rolls it back; so does a commit that fails.
  unfoldable pub transaction : E → E → Dao E A → Dao E A
  transaction begin_error commit_error body s =
      if s.env.faulty s.calls
      then (err begin_error, tick s)
      else finish commit_error s.db (body (tick s))

module _ {ℓ} {E : Type ℓ} where
  -- `begin_transaction` on its own, for code that runs other calls before those of the transaction.
  unfoldable pub begin_transaction : E → Dao E (Unit {0})
  begin_transaction e s = if s.env.faulty s.calls then (err e, tick s) else (ok tt, tick s)

  -- The rest of such a transaction: its calls, and the commit.
  unfoldable pub within_transaction : {A : Type 0} → E → Dao E A → Dao E A
  within_transaction e body s = finish e s.db (body s)

-- The outcome of a call, which the caller looks into; a panic goes on.
abbrev pub looked_into {ℓ κ ι} :
    {E : Type ℓ} {F : Type κ} {A : Type ι} → Result E A → Result F (Result E A)
looked_into (ok a) = ok (ok a)
looked_into (err e) = ok (err e)
looked_into panic = panic

unfoldable pub attempt {ℓ κ ι} :
    {E : Type ℓ} {F : Type κ} {A : Type ι} → Dao E A → Dao F (Result E A)
attempt m s = let (r, s') = m s in (looked_into r, s')

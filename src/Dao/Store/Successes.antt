-- ===== src/Dao/Store/Successes.antt =====
-- Where the success of a block of DAO calls comes from.
use kalatori.Dao.Store.{Dao, Store, ◌>>=◌, map_err, attempt, continue, looked_into, with_error}
use kalatori.Common.{◌≡◌, refl, ap, Result, ok, err, panic, ok_inj, err_ok, panic_ok}

module _ {E A B : Type 0} where
  pub continue_ok :
      (r : Result E A) (s : Store) (f : A → Dao E B) (b : B)
      → (continue r s f).0 ≡ ok b
      → (a : A) × (r ≡ ok a) × ((f a s).0 ≡ ok b)
  continue_ok (ok a) s f b e = (a, refl, e)
  continue_ok (err x) s f b e = absurd (err_ok e)
  continue_ok panic s f b e = absurd (panic_ok e)

  -- Both steps of a block succeed.
  pub bind_ok :
      (m : Dao E A) (f : A → Dao E B) (s : Store) (b : B)
      → ((m >>= f) s).0 ≡ ok b
      → (a : A) × ((m s).0 ≡ ok a) × ((f a (m s).1).0 ≡ ok b)
  unfolding ◌>>=◌
  bind_ok m f s b e = continue_ok (m s).0 (m s).1 f b e

module _ {E F A : Type 0} where
  pub map_err_ok :
      (f : E → F) (m : Dao E A) (s : Store) (a : A) → (map_err f m s).0 ≡ ok a → (m s).0 ≡ ok a
  unfolding map_err
  map_err_ok f m s a e = same (m s).0 e
    where
      same : (r : Result E A) → with_error f r ≡ ok a → r ≡ ok a
      same (ok x) h = ap ok (ok_inj F h)
      same (err x) h = absurd (err_ok h)
      same panic h = absurd (panic_ok h)

  pub attempt_ok :
      (m : Dao E A) (s : Store) (r : Result E A) → (attempt {F = F} m s).0 ≡ ok r → (m s).0 ≡ r
  unfolding attempt
  attempt_ok m s r e = same (m s).0 e
    where
      same : (q : Result E A) → looked_into {F = F} q ≡ ok r → q ≡ r
      same (ok x) h = ok_inj F h
      same (err x) h = ok_inj F h
      same panic h = absurd (panic_ok h)

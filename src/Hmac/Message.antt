-- ===== src/Hmac/Message.antt =====
-- The message of a signature says which request it is for: client/src/utils.rs.
use kalatori.Hmac.Decimal.{has_newline}
use kalatori.Hmac.{Method, get, post, other, method_name, covered}
use kalatori.Common.Bytes.{Bytes}
use kalatori.Common.{
  ℕ, true, false, [], ◌∷◌, ◌++◌, ◌≡◌, refl, sym, ap, ◌∙◌, ◌==◌, arith, or_false, contrary, ==_iff,
  Option, some, none-some,
}

head_or : Bytes → ℕ
head_or [] = 0
head_or (b ∷ bs) = b

tail_of : Bytes → Bytes
tail_of [] = []
tail_of (b ∷ bs) = bs

heads : (a b : ℕ) (cs bs : Bytes) → (a ∷ cs) ≡ (b ∷ bs) → a ≡ b
unfolding head_or
heads a b cs bs e = ap head_or e

tails : (a b : ℕ) (cs bs : Bytes) → (a ∷ cs) ≡ (b ∷ bs) → cs ≡ bs
unfolding tail_of
tails a b cs bs e = ap tail_of e

apart : (b : ℕ) (bs : Bytes) → has_newline (b ∷ bs) ≡ false → b ≡ 10 → ⊥
apart b bs plain e = contrary _ ((==_iff b 10).1 e) (or_false (b == 10) (has_newline bs) plain).0

rest_plain : (b : ℕ) (bs : Bytes) → has_newline (b ∷ bs) ≡ false → has_newline bs ≡ false
rest_plain b bs plain = (or_false (b == 10) (has_newline bs) plain).1

-- The part before the first newline.
pub first_line :
    (xs ys xs' ys' : Bytes)
    → has_newline xs ≡ false
    → has_newline xs' ≡ false
    → (xs ++ 10 ∷ ys) ≡ (xs' ++ 10 ∷ ys')
    → (xs ≡ xs') × (ys ≡ ys')
first_line [] ys [] ys' p q e = (refl, tails 10 10 ys ys' e)
first_line [] ys (b ∷ bs) ys' p q e = absurd (apart b bs q (sym (heads 10 b ys _ e)))
first_line (a ∷ cs) ys [] ys' p q e = absurd (apart a cs p (heads a 10 _ ys' e))
first_line (a ∷ cs) ys (b ∷ bs) ys' p q e =
    let (same, rest) =
      first_line cs ys bs ys' (rest_plain a cs p) (rest_plain b bs q) (tails a b _ _ e) in
    (rw (heads a b _ _ e, same) refl, rest)

inside : (bs ts : Bytes) → has_newline (bs ++ 10 ∷ ts) ≡ true
inside [] ts = refl
inside (b ∷ bs) ts = ground (arith, inside bs ts)

-- The part after the last newline.
pub last_line :
    (xs ys xs' ys' : Bytes)
    → has_newline ys ≡ false
    → has_newline ys' ≡ false
    → (xs ++ 10 ∷ ys) ≡ (xs' ++ 10 ∷ ys')
    → (xs ≡ xs') × (ys ≡ ys')
last_line [] ys [] ys' p q e = (refl, tails 10 10 ys ys' e)
last_line [] ys (b ∷ bs) ys' p q e =
    absurd (contrary _ (ap has_newline (tails 10 b ys _ e) ∙ inside bs ys') p)
last_line (a ∷ cs) ys [] ys' p q e =
    absurd (contrary _ (ap has_newline (sym (tails a 10 _ ys' e)) ∙ inside cs ys) q)
last_line (a ∷ cs) ys (b ∷ bs) ys' p q e =
    let (same, rest) = last_line cs ys bs ys' p q (tails a b _ _ e) in
    (rw (heads a b _ _ e, same) refl, rest)

pub plain_name : (m : Method) → has_newline (method_name m) ≡ false
plain_name get = refl
plain_name post = refl
plain_name other = refl

other_letter : ◌≡◌ {A = ℕ} 71 80 → ⊥
other_letter e = omega arith

pub same_method :
    (m m' : Method) (text text' body body' : Bytes) (q q' : Option Bytes)
    → covered m q body ≡ some text
    → covered m' q' body' ≡ some text'
    → method_name m ≡ method_name m'
    → m ≡ m'
same_method get get text text' body body' q q' h h' e = refl
same_method post post text text' body body' q q' h h' e = refl
same_method get post text text' body body' q q' h h' e = absurd (other_letter (heads 71 80 _ _ e))
same_method post get text text' body body' q q' h h' e =
    absurd (other_letter (sym (heads 80 71 _ _ e)))
same_method other m' text text' body body' q q' h h' e = absurd (none-some h)
same_method get other text text' body body' q q' h h' e = absurd (none-some h')
same_method post other text text' body body' q q' h h' e = absurd (none-some h')

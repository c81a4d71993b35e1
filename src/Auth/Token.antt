-- ===== src/Auth/Token.antt =====
-- Tokens: daemon/src/auth/token.rs and the errors of daemon/src/auth/errors.rs. The verification of
-- a signature with the validation of the issuer and the audience, and the reading of a time, are
-- calls of libraries, which are parameters. A time is a number of nanoseconds; sums that the
-- library's times cannot hold are left out. A token is its bytes.
use kalatori.Common.{
  ℕ, ◌+◌, ◌-◌, ◌*◌, ◌/◌, String, Bool, Option, none, some, List, [], ◌∷◌, Result, ok, err, panic,
  true, false, ltb, leb, if◌then◌else◌, str_eq,
}

abbrev pub Text : Type 0
Text = List ℕ

pub data TokenError : Type 0 where
  invalid_signature issuer_mismatch audience_mismatch : TokenError
  invalid_claims : String → TokenError

pub data Role : Type 0 where
  owner operator viewer support : Role

pub record TokenClaims : Type 0 where
  pub iss : String
  pub sub : String
  pub email : String
  pub picture : Option String
  pub aud : String
  pub role : Role
  pub iat : ℕ
  pub exp : ℕ
  pub raw_token : Text

-- `as_str` of the claim of that name.
abbrev pub Payload : Type 0
Payload = String → Option String

-- The answer of `public::verify`: the payload of a trusted token, if it has one; or an error of the
-- claims, with its text and whether the text has `Iss` and `Aud`; or another error.
pub data Verification : Type 0 where
  trusted : Option Payload → Verification
  claim_validation : Bool → Bool → String → Verification
  other_error : Verification

-- The library's calls; a key is a number.
pub record Paseto : Type 0 where
  pub is_token : Text → Bool
  pub verify : ℕ → Text → String → String → Verification
  pub parse_from_rfc3339 : String → Option ℕ

abbrev pub get_string_claim : Payload → String → Result TokenError String
get_string_claim payload name = elim (payload name) [
  | some value ↦ ok value
  | none ↦ err (invalid_claims "missing or non-string claim")
]

-- The names of the roles, in lower case.
abbrev pub parse_role : String → Option Role
parse_role text =
    if str_eq text "owner"
    then some owner
    else if str_eq text "operator"
    then some operator
    else if str_eq text "viewer"
    then some viewer
    else if str_eq text "support"
    then some support
    else none

infixl 1 ◌>>=◌
abbrev ◌>>=◌ :
    {A B : Type 0} → Result TokenError A → (A → Result TokenError B) → Result TokenError B
ok a >>= f = f a
err e >>= f = err e
panic >>= f = panic

abbrev pub or_invalid : {A : Type 0} → String → Option A → Result TokenError A
or_invalid reason (some a) = ok a
or_invalid reason none = err (invalid_claims reason)

unfoldable pub extract_claims : Paseto → Option Payload → Text → Result TokenError TokenClaims
extract_claims p none raw = err (invalid_claims "no claims in token payload")
extract_claims p (some payload) raw = do
  iss ← get_string_claim payload "iss"
  sub ← get_string_claim payload "sub"
  email ← get_string_claim payload "email"
  aud ← get_string_claim payload "aud"
  role_str ← get_string_claim payload "role"
  iat_str ← get_string_claim payload "iat"
  exp_str ← get_string_claim payload "exp"
  role ← or_invalid "invalid role value" (parse_role role_str)
  iat ← or_invalid "iat is not valid RFC 3339" (p.parse_from_rfc3339 iat_str)
  exp ← or_invalid "exp is not valid RFC 3339" (p.parse_from_rfc3339 exp_str)
  ok (record {
    iss = iss;
    sub = sub;
    email = email;
    picture = payload "picture";
    aud = aud;
    role = role;
    iat = iat;
    exp = exp;
    raw_token = raw;
  })

-- No key has verified the token.
abbrev pub no_key : Verification → Result TokenError TokenClaims
no_key (claim_validation true aud desc) = err issuer_mismatch
no_key (claim_validation false true desc) = err audience_mismatch
no_key (claim_validation false false desc) = err (invalid_claims desc)
no_key other_error = err invalid_signature
no_key (trusted payload) = err invalid_signature

-- Each key in order, with the last error.
unfoldable pub try_keys :
    Paseto → Text → String → String → List ℕ → Verification → Result TokenError TokenClaims
try_keys p token issuer audience [] last_err = no_key last_err
try_keys p token issuer audience (key ∷ keys) last_err =
    let rest = try_keys p token issuer audience keys in
    elim (p.verify key token issuer audience) [
      | trusted payload ↦ extract_claims p payload token
      | claim_validation iss aud desc ↦ rest (claim_validation iss aud desc)
      | other_error ↦ rest other_error
    ]

unfoldable pub verify_token :
    Paseto → Text → List ℕ → String → String → Result TokenError TokenClaims
verify_token p token keys issuer audience =
    if p.is_token token
    then try_keys p token issuer audience keys other_error
    else err invalid_signature

abbrev pub nanos_per_second : ℕ
nanos_per_second = 1000000000

unfoldable pub is_expired : ℕ → TokenClaims → ℕ → Bool
is_expired now claims clock_tolerance_secs =
    ltb (claims.exp + clock_tolerance_secs * nanos_per_second) now

-- The lifetime is negative when the token expires before it is issued; its half is rounded to zero.
unfoldable pub is_past_midpoint : ℕ → TokenClaims → Bool
is_past_midpoint now claims =
    if leb claims.iat claims.exp
    then ltb (claims.iat + (claims.exp - claims.iat) / 2) now
    else ltb (claims.iat - (claims.iat - claims.exp) / 2) now

unfoldable pub is_within_refresh_grace : ℕ → TokenClaims → Bool
is_within_refresh_grace now claims = leb now (claims.exp + 5 * 60 * nanos_per_second)

-- ===== src/Auth/Session.antt =====
-- The session of a request: daemon/src/auth/session.rs, with the refresh of
-- daemon/src/auth/oauth_client.rs. A header is its bytes, which are visible ASCII and tabs. The
-- answers of the authorization server are parameters. The shape of a response is left out.
use kalatori.Auth.Token.{
  Text, TokenError, TokenClaims, Paseto, verify_token, is_expired, is_past_midpoint,
  is_within_refresh_grace,
}
use kalatori.Common.{
  not, ℕ, zero, suc, ◌-◌, String, Bool, true, false, ◌||◌, ◌&&◌, Option, none, some, List, [], ◌∷◌,
  Result, ok, err, panic, ltb, if◌then◌else◌, str_eq, ◌==◌, length,
}

pub data RefreshError : Type 0 where
  access_denied token_too_old support_session_expired config_error : RefreshError
  auth_server_unreachable invalid_response : RefreshError
  token_verification_failed : TokenError → RefreshError

abbrev pub is_access_denied : RefreshError → Bool
is_access_denied access_denied = true
is_access_denied token_too_old = true
is_access_denied support_session_expired = true
is_access_denied config_error = true
is_access_denied (token_verification_failed _) = true
is_access_denied auth_server_unreachable = false
is_access_denied invalid_response = false

pub data SessionError : Type 0 where
  no_session : SessionError
  invalid_token : TokenError → SessionError
  refresh_denied service_unavailable csrf_missing duplicate_cookie insufficient_role : SessionError

-- The check of the CSRF header, from whether the method is GET and whether the header is there.
abbrev csrf_middleware : Bool → Bool → Option SessionError
csrf_middleware is_get has_header = if not is_get && not has_header then some csrf_missing else none

-- What the authorization server answers: nothing, a status of an error with its code, a body that
-- is no token response, or a token.
pub data Answer : Type 0 where
  unreachable : Answer
  refused : ℕ → String → Answer
  unreadable : Answer
  granted : Text → Answer

pub record AuthState : Type 0 where
  pub paseto : Paseto
  pub public_keys : List ℕ
  pub auth_server_url : String
  pub client_id : String
  pub clock_tolerance : ℕ

abbrev pub handle_refresh_error : ℕ → String → RefreshError
handle_refresh_error status code =
    if (status == 401) && str_eq code "invalid_client"
    then config_error
    else if (status == 403) && str_eq code "access_denied"
    then access_denied
    else if (status == 403) && str_eq code "token_expired"
    then token_too_old
    else if (status == 403) && str_eq code "support_session_expired"
    then support_session_expired
    else invalid_response

abbrev pub verified : {A : Type 0} → Result TokenError A → Result RefreshError A
verified (ok a) = ok a
verified (err e) = err (token_verification_failed e)
verified panic = panic

unfoldable pub refresh_token : AuthState → Answer → Result RefreshError TokenClaims
refresh_token auth unreachable = err auth_server_unreachable
refresh_token auth (refused status code) = err (handle_refresh_error status code)
refresh_token auth unreadable = err invalid_response
refresh_token auth (granted token) =
    verified (verify_token auth.paseto token auth.public_keys auth.auth_server_url auth.client_id)

-- `__Host-kalatori_session=`, in bytes.
abbrev pub cookie_needle : Text
cookie_needle =
    95 ∷ 95 ∷ 72 ∷ 111 ∷ 115 ∷ 116 ∷ 45 ∷ 107 ∷ 97 ∷ 108 ∷ 97 ∷ 116 ∷ 111 ∷ 114 ∷ 105 ∷ 95 ∷ 115
    ∷ 101 ∷ 115 ∷ 115 ∷ 105 ∷ 111 ∷ 110 ∷ 61 ∷ []

-- `strip_prefix`
unfoldable pub strip_prefix : Text → Text → Option Text
strip_prefix [] text = some text
strip_prefix (n ∷ needle) [] = none
strip_prefix (n ∷ needle) (b ∷ text) =
    let rest = strip_prefix needle text in if n == b then rest else none

-- `matches(needle).count()`, with the number of bytes left of the last match.
unfoldable pub count_matches : Text → ℕ → Text → ℕ
count_matches needle skip [] = zero
count_matches needle (suc skip) (b ∷ text) = count_matches needle skip text
count_matches needle zero (b ∷ text) =
    let found = suc (count_matches needle (length needle - 1) text) in
    let rest = count_matches needle zero text in
    elim (strip_prefix needle (b ∷ text)) [ some _ ↦ found | none ↦ rest ]

-- `split(';')`
abbrev pub first_part : ℕ → List Text → List Text
first_part b [] = (b ∷ []) ∷ []
first_part b (part ∷ parts) = (b ∷ part) ∷ parts

unfoldable pub split_parts : Text → List Text
split_parts [] = [] ∷ []
split_parts (b ∷ text) =
    let rest = split_parts text in if b == 59 then [] ∷ rest else first_part b rest

abbrev is_space : ℕ → Bool
is_space b = (b == 32) || (b == 9)

abbrev drop_spaces : Text → Text
drop_spaces [] = []
drop_spaces (b ∷ text) = let rest = drop_spaces text in if is_space b then rest else b ∷ text

abbrev keep_end : ℕ → Text → Text
keep_end b [] = if is_space b then [] else b ∷ []
keep_end b (c ∷ rest) = b ∷ c ∷ rest

abbrev trim_end : Text → Text
trim_end [] = []
trim_end (b ∷ text) = keep_end b (trim_end text)

unfoldable pub trim : Text → Text
trim text = trim_end (drop_spaces text)

-- The value of the first session cookie that is not empty.
unfoldable pub first_session : List Text → Option Text
first_session [] = none
first_session (part ∷ parts) =
    let rest = first_session parts in
    elim (strip_prefix cookie_needle (trim part)) [
      | some [] ↦ rest
      | some (b ∷ value) ↦ some (b ∷ value)
      | none ↦ rest
    ]

-- The `Cookie` header is missing when it cannot be read.
unfoldable pub extract_session_cookie : Option Text → Option Text
extract_session_cookie none = none
extract_session_cookie (some header) = first_session (split_parts header)

unfoldable pub check_duplicate_cookies : Option Text → Option SessionError
check_duplicate_cookies none = none
check_duplicate_cookies (some header) =
    if ltb 1 (count_matches cookie_needle zero header) then some duplicate_cookie else none

-- The handler has run for the claims, with a new session cookie or none; or the request is refused,
-- and the cookie cleared or not; or the task panics.
pub data Outcome : Type 0 where
  ran : TokenClaims → Option Text → Outcome
  denied : SessionError → Bool → Outcome
  panicked : Outcome

abbrev pub after_refresh : Result RefreshError TokenClaims → Outcome
after_refresh (ok claims) = ran claims (some claims.raw_token)
after_refresh (err e) =
    if is_access_denied e then denied refresh_denied true else denied service_unavailable false
after_refresh panic = panicked

-- A refresh that fails does not fail the request.
abbrev pub refreshed_too : TokenClaims → Result RefreshError TokenClaims → Outcome
refreshed_too claims (ok new) = ran claims (some new.raw_token)
refreshed_too claims (err e) = ran claims none
refreshed_too claims panic = panicked

-- `clock` gives the readings of the time, one after the other.
unfoldable pub with_claims : AuthState → (ℕ → ℕ) → Answer → TokenClaims → Outcome
with_claims auth clock answer claims =
    if is_expired (clock 0) claims auth.clock_tolerance
    then if is_within_refresh_grace (clock 1) claims
      then after_refresh (refresh_token auth answer)
      else denied refresh_denied true
    else if is_past_midpoint (clock 1) claims
    then refreshed_too claims (refresh_token auth answer)
    else ran claims none

abbrev pub with_verified : AuthState → (ℕ → ℕ) → Answer → Result TokenError TokenClaims → Outcome
with_verified auth clock answer (ok claims) = with_claims auth clock answer claims
with_verified auth clock answer (err e) = denied (invalid_token e) true
with_verified auth clock answer panic = panicked

abbrev pub with_cookie : AuthState → (ℕ → ℕ) → Answer → Option Text → Outcome
with_cookie auth clock answer none = denied no_session false
with_cookie auth clock answer (some raw) =
    with_verified auth clock answer
      (verify_token auth.paseto raw auth.public_keys auth.auth_server_url auth.client_id)

unfoldable pub session_middleware : AuthState → (ℕ → ℕ) → Answer → Option Text → Outcome
session_middleware auth clock answer header = elim (check_duplicate_cookies header) [
  | some e ↦ denied e true
  | none ↦ with_cookie auth clock answer (extract_session_cookie header)
]

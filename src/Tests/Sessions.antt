-- ===== src/Tests/Sessions.antt =====
-- A request with an expired session, which the authorization server renews.
use kalatori.Auth.Authorized.{Allowed, GenuineFor, session_middleware-Allowed}
use kalatori.Auth.Token.{
  Text, TokenClaims, Payload, Paseto, Role, trusted, other_error, verify_token, try_keys,
  extract_claims, is_expired, is_within_refresh_grace, nanos_per_second,
}
use kalatori.Auth.Session.{
  AuthState, session_middleware, granted, cookie_needle, extract_session_cookie,
  check_duplicate_cookies, count_matches, strip_prefix, split_parts, trim, first_session,
  refresh_token, with_claims,
}
use kalatori.Common.{
  ◌*◌, String, Option, none, some, [], ◌∷◌, ◌++◌, ◌≡◌, refl, str_eq, if◌then◌else◌, true,
}

-- The first token expires at 1000 seconds, and the second, which has the byte 50, at 3000.
abbrev payload_of : String → Payload
payload_of exp name =
    if str_eq name "role" then some "owner" else if str_eq name "exp" then some exp else some "text"

abbrev paseto : Paseto
paseto = record {
  is_token = λ _. true;
  verify = λ key token _ _. elim token [
    | [] ↦ other_error
    | b ∷ bytes ↦ elim bytes [
      | [] ↦ trusted (some (payload_of "1000"))
      | c ∷ more ↦ trusted (some (payload_of "3000"))
    ]
  ];
  parse_from_rfc3339 = λ text.
      if str_eq text "1000"
      then some (1000 * nanos_per_second)
      else if str_eq text "3000"
      then some (3000 * nanos_per_second)
      else some 0;
}

abbrev pub auth : AuthState
auth = record {
  paseto = paseto;
  public_keys = 5 ∷ [];
  auth_server_url = "https://auth/";
  client_id = "shop";
  clock_tolerance = 30;
}

-- Another cookie, `a=b`, comes before that of the session.
abbrev header : Option Text
header = some (97 ∷ 61 ∷ 98 ∷ 59 ∷ 32 ∷ cookie_needle ++ 49 ∷ [])

abbrev pub renewed : TokenClaims
renewed = record {
  iss = "text";
  sub = "text";
  email = "text";
  picture = some "text";
  aud = "text";
  role = Role.owner;
  iat = 0;
  exp = 3000 * nanos_per_second;
  raw_token = 49 ∷ 50 ∷ [];
}

session_middleware-Allowed_example :
    (check_duplicate_cookies header ≡ none)
    × ((raw : Text) × (extract_session_cookie header ≡ some raw)
        × ((session : TokenClaims) × GenuineFor auth raw session
            × Allowed auth (λ _. 1200 * nanos_per_second) (granted (49 ∷ 50 ∷ [])) session renewed))
unfolding session_middleware check_duplicate_cookies count_matches strip_prefix
    extract_session_cookie split_parts trim first_session verify_token try_keys extract_claims
    with_claims is_expired is_within_refresh_grace refresh_token
session_middleware-Allowed_example =
    session_middleware-Allowed auth (λ _. 1200 * nanos_per_second) (granted (49 ∷ 50 ∷ [])) header
      renewed (some (49 ∷ 50 ∷ [])) refl

-- ===== src/Auth/Login.antt =====
-- The login of the administration: daemon/src/api/auth_endpoints.rs, with the exchange of a code of
-- daemon/src/auth/oauth_client.rs. The parser of URLs and the authorization server's answers are
-- parameters. The pages and the JSON of the responses are left out.
use kalatori.Auth.State.{
  Cipher, OAuthError, invalid_origin, auth_server_unreachable, code_exchange_failed,
  token_verification_failed, encrypt_state, decrypt_state_with_fallback,
}
use kalatori.Auth.Token.{TokenClaims, TokenError, Role, verify_token}
use kalatori.Auth.Session.{AuthState, extract_session_cookie}
use kalatori.Common.Bytes.{Bytes, eq_bytes, to_decimal}
use kalatori.Common.{
  ℕ, String, Option, none, some, [], ◌∷◌, ◌++◌, Result, ok, err, panic, ◌==◌, if◌then◌else◌,
  unwrap_or,
}

-- What the client keeps beside the keys of tokens.
pub record OAuthClient : Type 0 where
  pub auth : AuthState
  pub cipher : Cipher
  pub state_key : Bytes
  pub previous_state_key : Option Bytes

-- The parts of a URL that the code reads; the port is missing when it is the scheme's own.
pub record Url : Type 0 where
  pub scheme : Bytes
  pub host : Option Bytes
  pub port : Option ℕ

-- `url::Url::parse`, and the URL of the authorization server in bytes.
pub record Urls : Type 0 where
  pub parse : Bytes → Option Url
  pub auth_server_url : Bytes

-- What the authorization server answers to a code.
pub data Exchange : Type 0 where
  unreachable : Exchange
  refused : ℕ → String → String → Exchange
  unreadable : Exchange
  granted : Bytes → Exchange

abbrev pub verified : Result TokenError TokenClaims → Result OAuthError TokenClaims
verified (ok claims) = ok claims
verified (err e) = err (token_verification_failed e)
verified panic = panic

-- The answer to the code and the verifier that are posted.
unfoldable pub exchanged : OAuthClient → Exchange → Result OAuthError TokenClaims
exchanged client unreachable = err auth_server_unreachable
exchanged client (refused status code description) =
    err (code_exchange_failed code description status)
exchanged client unreadable =
    err (code_exchange_failed "invalid_response" "Failed to parse token response" 0)
exchanged client (granted token) = verified (
    verify_token client.auth.paseto token client.auth.public_keys client.auth.auth_server_url
      client.auth.client_id)

-- The server answers to the posted code and verifier.
unfoldable pub exchange_code :
    OAuthClient → (Bytes → Bytes → Exchange) → Bytes → Bytes → Result OAuthError TokenClaims
exchange_code client server code state =
    elim (decrypt_state_with_fallback client.cipher state client.state_key
      client.previous_state_key) [
        | ok code_verifier ↦ exchanged client (server code code_verifier)
        | err e ↦ err e
        | panic ↦ panic
      ]

abbrev host_and_port : Bytes → Bytes → Option ℕ → Bytes
host_and_port scheme host (some port) = scheme ++ 58 ∷ 47 ∷ 47 ∷ (host ++ 58 ∷ to_decimal port)
host_and_port scheme host none = scheme ++ 58 ∷ 47 ∷ 47 ∷ host

unfoldable pub extract_origin : Urls → Bytes → Bytes
extract_origin urls url = elim (urls.parse url) [
  | some u ↦ host_and_port u.scheme (unwrap_or u.host []) u.port
  | none ↦ []
]

unfoldable pub extract_origin_from_url : Urls → Bytes → Option Bytes
extract_origin_from_url urls url = elim (urls.parse url) [
  | some u ↦ elim u.host [ some host ↦ some (host_and_port u.scheme host u.port) | none ↦ none ]
  | none ↦ none
]

-- `trim_end_matches('/')`
abbrev keep_slash : ℕ → Bytes → Bytes
keep_slash b [] = if b == 47 then [] else b ∷ []
keep_slash b (c ∷ rest) = b ∷ c ∷ rest

abbrev trim_slashes : Bytes → Bytes
trim_slashes [] = []
trim_slashes (b ∷ bs) = keep_slash b (trim_slashes bs)

-- The headers of a request; one is missing when it cannot be read.
pub record CallbackHeaders : Type 0 where
  pub origin : Option Bytes
  pub referer : Option Bytes

abbrev pub actual_origin : Urls → CallbackHeaders → Option Bytes
actual_origin urls headers = elim headers.origin [
  | some origin ↦ some (trim_slashes origin)
  | none ↦ elim headers.referer [
    | some referer ↦ extract_origin_from_url urls referer
    | none ↦ none
  ]
]

unfoldable pub validate_callback_origin : Urls → CallbackHeaders → Result OAuthError (Unit {0})
validate_callback_origin urls headers = elim (actual_origin urls headers) [
  | some origin ↦
      if eq_bytes origin (extract_origin urls urls.auth_server_url)
      then ok tt
      else err invalid_origin
  | none ↦ err invalid_origin
]

pub record CallbackForm : Type 0 where
  pub code : Bytes
  pub state : Bytes

-- The claims whose token becomes the session's cookie, or the error that is shown.
unfoldable pub callback_handler :
    OAuthClient
    → Urls
    → (Bytes → Bytes → Exchange)
    → CallbackHeaders
    → CallbackForm
    → Result OAuthError TokenClaims
callback_handler client urls server headers form = elim (validate_callback_origin urls headers) [
  | ok _ ↦ exchange_code client server form.code form.state
  | err e ↦ err e
  | panic ↦ panic
]

-- The state of the redirection to the authorization server; the verifier and the nonce are drawn.
abbrev pub start_auth_flow : OAuthClient → Bytes → Bytes → Bytes
start_auth_flow client nonce code_verifier =
    encrypt_state client.cipher nonce code_verifier client.state_key

pub record SessionInfo : Type 0 where
  pub email : String
  pub role : Role
  pub exp : ℕ

-- The session's cookie with a valid token, which may have expired; or 401.
unfoldable pub session_handler : AuthState → Option Bytes → Option SessionInfo
session_handler auth header = elim (extract_session_cookie header) [
  | none ↦ none
  | some token ↦
      elim (verify_token auth.paseto token auth.public_keys auth.auth_server_url auth.client_id) [
        | ok claims ↦ some (record { email = claims.email; role = claims.role; exp = claims.exp })
        | err e ↦ none
        | panic ↦ none
      ]
]

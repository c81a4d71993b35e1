-- ===== src/Auth/Granted.antt =====
-- Whom daemon/src/api/auth_endpoints.rs logs in.
use kalatori.Auth.Authorized.{GenuineFor, verify_token-Genuine}
use kalatori.Auth.State.{OAuthError, decrypt_state_with_fallback}
use kalatori.Auth.Token.{TokenClaims, TokenError}
use kalatori.Auth.Login.{
  OAuthClient, Urls, Exchange, unreachable, refused, unreadable, granted, verified, exchanged,
  exchange_code, actual_origin, extract_origin, CallbackHeaders, CallbackForm,
  validate_callback_origin, callback_handler,
}
use kalatori.Common.Bytes.{Bytes, eq_bytes, eq_bytes-same}
use kalatori.Common.{
  ◌≡◌, refl, ap, ◌∙◌, inl, inr, some, Option-cases, Bool-cases, Result, ok, err, panic, ok_inj,
  err_ok, panic_ok,
}

-- The request comes from the authorization server's pages.
abbrev pub FromServer : Urls → CallbackHeaders → Type 0
FromServer urls headers =
    actual_origin urls headers ≡ some (extract_origin urls urls.auth_server_url)

validate_callback_origin-FromServer :
    (urls : Urls) (headers : CallbackHeaders)
    → validate_callback_origin urls headers ≡ ok tt
    → FromServer urls headers
unfolding validate_callback_origin
validate_callback_origin-FromServer urls headers e =
    elim (Option-cases (actual_origin urls headers)) [
      | inl f ↦ absurd (err_ok (rw (f, validate_callback_origin) at e))
      | inr (origin, f) ↦
          elim (Bool-cases (eq_bytes origin (extract_origin urls urls.auth_server_url))) [
            | inl same ↦ f ∙ ap some (eq_bytes-same origin _ same)
            | inr differ ↦ absurd (err_ok (rw (f, differ, validate_callback_origin) at e))
          ]
    ]

-- The server has answered with a genuine token.
abbrev pub Grants : OAuthClient → Exchange → TokenClaims → Type 0
Grants client answer claims =
    (token : Bytes) × (answer ≡ granted token) × GenuineFor client.auth token claims

exchanged-Grants :
    (client : OAuthClient) (answer : Exchange) (claims : TokenClaims)
    → exchanged client answer ≡ ok claims
    → Grants client answer claims
unfolding exchanged
exchanged-Grants client unreachable claims e = absurd (err_ok e)
exchanged-Grants client (refused status code description) claims e = absurd (err_ok e)
exchanged-Grants client unreadable claims e = absurd (err_ok e)
exchanged-Grants client (granted token) claims e =
    (token, refl, verify_token-Genuine client.auth token claims (unverified _ e))
  where
    unverified : (r : Result TokenError TokenClaims) → verified r ≡ ok claims → r ≡ ok claims
    unverified (ok c) f = ap ok (ok_inj OAuthError f)
    unverified (err x) f = absurd (err_ok f)
    unverified panic f = absurd (panic_ok f)

-- The state holds a verifier, and the server grants a genuine token for it.
abbrev pub Exchanges :
    OAuthClient → (Bytes → Bytes → Exchange) → CallbackForm → TokenClaims → Type 0
Exchanges client server form claims =
    (verifier : Bytes) × (decrypt_state_with_fallback client.cipher form.state client.state_key
        client.previous_state_key
      ≡ ok verifier)
    × Grants client (server form.code verifier) claims

exchange_code-Exchanges :
    (client : OAuthClient) (server : Bytes → Bytes → Exchange) (form : CallbackForm)
    (claims : TokenClaims)
    → exchange_code client server form.code form.state ≡ ok claims
    → Exchanges client server form claims
unfolding exchange_code
exchange_code-Exchanges client server form claims e =
    by_state
      (decrypt_state_with_fallback client.cipher form.state client.state_key
        client.previous_state_key)
      refl e
  where
    by_state :
        (r : Result OAuthError Bytes)
        → decrypt_state_with_fallback client.cipher form.state client.state_key
            client.previous_state_key
          ≡ r
        → elim r [
          | ok code_verifier ↦ exchanged client (server form.code code_verifier)
          | err x ↦ err x
          | panic ↦ panic
        ]
          ≡ ok claims
        → Exchanges client server form claims
    by_state (ok verifier) is f =
        (verifier, is, exchanged-Grants client (server form.code verifier) claims f)
    by_state (err x) is f = absurd (err_ok f)
    by_state panic is f = absurd (panic_ok f)

-- When `callback_handler` logs a user in, the request comes from the authorization server's origin,
-- the state opens with the present or the previous key, and for the posted code and the verifier in
-- the state the server has granted a token that one of the configured keys verifies for the issuer
-- and the audience, with the claims of the user.
pub callback_handler-Exchanges :
    (client : OAuthClient) (urls : Urls) (server : Bytes → Bytes → Exchange)
    (headers : CallbackHeaders) (form : CallbackForm) (claims : TokenClaims)
    → callback_handler client urls server headers form ≡ ok claims
    → FromServer urls headers × Exchanges client server form claims
unfolding callback_handler
callback_handler-Exchanges client urls server headers form claims e =
    by_origin (validate_callback_origin urls headers) refl e
  where
    by_origin :
        (r : Result OAuthError (Unit {0}))
        → validate_callback_origin urls headers ≡ r
        → elim r [
          | ok _ ↦ exchange_code client server form.code form.state
          | err x ↦ err x
          | panic ↦ panic
        ]
          ≡ ok claims
        → FromServer urls headers × Exchanges client server form claims
    by_origin (ok u) is f = (
      validate_callback_origin-FromServer urls headers is,
      exchange_code-Exchanges client server form claims f,
    )
    by_origin (err x) is f = absurd (err_ok f)
    by_origin panic is f = absurd (panic_ok f)

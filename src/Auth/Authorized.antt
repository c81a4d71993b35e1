-- ===== src/Auth/Authorized.antt =====
-- Whom daemon/src/auth/session.rs lets through.
use kalatori.Auth.Token.{
  Text, TokenError, TokenClaims, Payload, Paseto, Verification, trusted, claim_validation,
  other_error, verify_token, try_keys, extract_claims, no_key, is_expired, is_past_midpoint,
  is_within_refresh_grace,
}
use kalatori.Auth.Session.{
  AuthState, Answer, unreachable, refused, unreadable, granted, RefreshError, SessionError, Outcome,
  ran, denied, panicked, refresh_token, verified, with_claims, after_refresh, refreshed_too,
  is_access_denied, with_cookie, with_verified, session_middleware, extract_session_cookie,
  check_duplicate_cookies,
}
use kalatori.Common.{
  ℕ, String, ◌≡◌, refl, sym, ap, inl, inr, ◌⊎◌, Bool-cases, Option-cases, Bool, true, false, Option,
  arith, none, some, List, Memᴰ, [], ◌∷◌, Result, ok, err, panic, ok_inj, err_ok, panic_ok,
}

-- One of the keys verifies the token for the issuer and the audience, and the claims are those of
-- its payload.
abbrev pub Genuine : Paseto → List ℕ → String → String → Text → TokenClaims → Type 0
Genuine p keys issuer audience token claims =
    (key : ℕ) × Memᴰ key keys
    × ((payload : Option Payload) × (p.verify key token issuer audience ≡ trusted payload)
        × (extract_claims p payload token ≡ ok claims))

none_verified :
    (v : Verification) (claims : TokenClaims)
    → ◌≡◌ {A = Result TokenError TokenClaims} (no_key v) (ok claims)
    → ⊥
none_verified (claim_validation true aud desc) claims e = err_ok e
none_verified (claim_validation false true desc) claims e = err_ok e
none_verified (claim_validation false false desc) claims e = err_ok e
none_verified other_error claims e = err_ok e
none_verified (trusted payload) claims e = err_ok e

try_keys-Genuine :
    (p : Paseto) (token : Text) (issuer audience : String) (keys : List ℕ) (last_err : Verification)
    (claims : TokenClaims)
    → try_keys p token issuer audience keys last_err ≡ ok claims
    → Genuine p keys issuer audience token claims
unfolding try_keys
try_keys-Genuine p token issuer audience [] last_err claims e =
    absurd (none_verified last_err claims e)
try_keys-Genuine p token issuer audience (key ∷ keys) last_err claims e =
    by_answer (p.verify key token issuer audience) refl e
      λ v rest. try_keys-Genuine p token issuer audience keys v claims rest
  where
    by_answer :
        (v : Verification)
        → p.verify key token issuer audience ≡ v
        → (elim v [
          | trusted payload ↦ extract_claims p payload token
          | claim_validation iss aud desc ↦
              try_keys p token issuer audience keys (claim_validation iss aud desc)
          | other_error ↦ try_keys p token issuer audience keys other_error
        ])
          ≡ ok claims
        → ((v : Verification)
            → try_keys p token issuer audience keys v ≡ ok claims
            → Genuine p keys issuer audience token claims)
        → Genuine p (key ∷ keys) issuer audience token claims
    by_answer (trusted payload) is e later = (key, Memᴰ.head refl, (payload, is, e))
    by_answer (claim_validation iss aud desc) is e later =
        let (k, there, rest) = later (claim_validation iss aud desc) e in (k, Memᴰ.tail there, rest)
    by_answer other_error is e later =
        let (k, there, rest) = later other_error e in (k, Memᴰ.tail there, rest)

abbrev pub GenuineFor : AuthState → Text → TokenClaims → Type 0
GenuineFor auth token claims =
    Genuine auth.paseto auth.public_keys auth.auth_server_url auth.client_id token claims

pub verify_token-Genuine :
    (auth : AuthState) (token : Text) (claims : TokenClaims)
    → verify_token auth.paseto token auth.public_keys auth.auth_server_url auth.client_id
      ≡ ok claims
    → GenuineFor auth token claims
unfolding verify_token
verify_token-Genuine auth token claims e = elim (Bool-cases (auth.paseto.is_token token)) [
  | inl f ↦ try_keys-Genuine auth.paseto token _ _ auth.public_keys other_error claims (rw f at e)
  | inr f ↦ absurd (err_ok (rw f at e))
]

-- The server has granted a token that is genuine.
refresh_token-Genuine :
    (auth : AuthState) (answer : Answer) (claims : TokenClaims)
    → refresh_token auth answer ≡ ok claims
    → (token : Text) × (answer ≡ granted token) × GenuineFor auth token claims
unfolding refresh_token
refresh_token-Genuine auth unreachable claims e = absurd (err_ok e)
refresh_token-Genuine auth (refused status code) claims e = absurd (err_ok e)
refresh_token-Genuine auth unreadable claims e = absurd (err_ok e)
refresh_token-Genuine auth (granted token) claims e =
    (token, refl, verify_token-Genuine auth token claims (unverified _ e))
  where
    unverified : (r : Result TokenError TokenClaims) → verified r ≡ ok claims → r ≡ ok claims
    unverified (ok c) f = ap ok (ok_inj RefreshError f)
    unverified (err x) f = absurd (err_ok f)
    unverified panic f = absurd (panic_ok f)

-- The claims are those of the session, which has not expired; or it has expired within the grace,
-- and they are those of a genuine token that the server has granted.
abbrev pub Allowed : AuthState → (ℕ → ℕ) → Answer → TokenClaims → TokenClaims → Type 0
Allowed auth clock answer session claims =
    ((is_expired (clock 0) session auth.clock_tolerance ≡ false) × (claims ≡ session))
    ⊎ ((is_within_refresh_grace (clock 1) session ≡ true)
        × ((token : Text) × (answer ≡ granted token) × GenuineFor auth token claims))

ran_claims : TokenClaims → Outcome → TokenClaims
ran_claims c (ran claims cookie) = claims
ran_claims c (denied e clear) = c
ran_claims c panicked = c

same_claims :
    (a b : TokenClaims) (x y : Option Text) → ◌≡◌ {A = Outcome} (ran a x) (ran b y) → a ≡ b
unfolding ran_claims
same_claims a b x y e = ap (ran_claims a) e

denied-ran :
    (x : SessionError) (b : Bool) (c : TokenClaims) (y : Option Text) → denied x b ≡ ran c y → ⊥
denied-ran x b c y e = grind arith

panicked-ran : (c : TokenClaims) (y : Option Text) → panicked ≡ ran c y → ⊥
panicked-ran c y e = grind arith

after_refresh-granted :
    (r : Result RefreshError TokenClaims) (claims : TokenClaims) (cookie : Option Text)
    → after_refresh r ≡ ran claims cookie
    → r ≡ ok claims
after_refresh-granted (ok new) claims cookie e = ap ok (same_claims new claims _ cookie e)
after_refresh-granted (err x) claims cookie e = elim (Bool-cases (is_access_denied x)) [
  | inl f ↦ absurd (denied-ran _ _ claims cookie (rw f at e))
  | inr f ↦ absurd (denied-ran _ _ claims cookie (rw f at e))
]
after_refresh-granted panic claims cookie e = absurd (panicked-ran claims cookie e)

refreshed_too-same :
    (session claims : TokenClaims) (r : Result RefreshError TokenClaims) (cookie : Option Text)
    → refreshed_too session r ≡ ran claims cookie
    → claims ≡ session
refreshed_too-same session claims (ok new) cookie e = sym (same_claims session claims _ cookie e)
refreshed_too-same session claims (err x) cookie e = sym (same_claims session claims none cookie e)
refreshed_too-same session claims panic cookie e = absurd (panicked-ran claims cookie e)

with_claims-Allowed :
    (auth : AuthState) (clock : ℕ → ℕ) (answer : Answer) (session claims : TokenClaims)
    (cookie : Option Text)
    → with_claims auth clock answer session ≡ ran claims cookie
    → Allowed auth clock answer session claims
unfolding with_claims
with_claims-Allowed auth clock answer session claims cookie e =
    elim (Bool-cases (is_expired (clock 0) session auth.clock_tolerance)) [
      | inl old ↦ elim (Bool-cases (is_within_refresh_grace (clock 1) session)) [
        | inl grace ↦ inr (
          grace,
          refresh_token-Genuine auth answer claims (
              after_refresh-granted (refresh_token auth answer) claims cookie
                (rw (old, grace) at e)),
        )
        | inr over ↦ absurd (denied-ran _ _ claims cookie (rw (old, over) at e))
      ]
      | inr fresh ↦ inl (
        fresh,
        elim (Bool-cases (is_past_midpoint (clock 1) session)) [
          | inl late ↦
              refreshed_too-same session claims (refresh_token auth answer) cookie
                (rw (fresh, late) at e)
          | inr early ↦ sym (same_claims session claims none cookie (rw (fresh, early) at e))
        ],
      )
    ]

with_verified-Allowed :
    (auth : AuthState) (clock : ℕ → ℕ) (answer : Answer) (r : Result TokenError TokenClaims)
    (claims : TokenClaims) (cookie : Option Text)
    → with_verified auth clock answer r ≡ ran claims cookie
    → (session : TokenClaims) × (r ≡ ok session) × Allowed auth clock answer session claims
with_verified-Allowed auth clock answer (ok session) claims cookie e =
    (session, refl, with_claims-Allowed auth clock answer session claims cookie e)
with_verified-Allowed auth clock answer (err x) claims cookie e =
    absurd (denied-ran _ _ claims cookie e)
with_verified-Allowed auth clock answer panic claims cookie e =
    absurd (panicked-ran claims cookie e)

with_cookie-Allowed :
    (auth : AuthState) (clock : ℕ → ℕ) (answer : Answer) (found : Option Text)
    (claims : TokenClaims) (cookie : Option Text)
    → with_cookie auth clock answer found ≡ ran claims cookie
    → (raw : Text) × (found ≡ some raw)
      × ((session : TokenClaims) × GenuineFor auth raw session
          × Allowed auth clock answer session claims)
with_cookie-Allowed auth clock answer none claims cookie e = absurd (denied-ran _ _ claims cookie e)
with_cookie-Allowed auth clock answer (some raw) claims cookie e =
    let (session, is, allowed) =
      with_verified-Allowed auth clock answer
        (verify_token auth.paseto raw auth.public_keys auth.auth_server_url auth.client_id) claims
        cookie e in
    (raw, refl, (session, verify_token-Genuine auth raw session is, allowed))

-- When `session_middleware` runs the handler for some claims, no second session cookie is in the
-- header, and its session cookie is a token that one of the configured keys verifies for the issuer
-- and the audience. Either that token has not expired and the claims are its own, or it has expired
-- within the grace and the claims are those of another such token, which the authorization server
-- has granted.
pub session_middleware-Allowed :
    (auth : AuthState) (clock : ℕ → ℕ) (answer : Answer) (header : Option Text)
    (claims : TokenClaims) (cookie : Option Text)
    → session_middleware auth clock answer header ≡ ran claims cookie
    → (check_duplicate_cookies header ≡ none)
      × ((raw : Text) × (extract_session_cookie header ≡ some raw)
          × ((session : TokenClaims) × GenuineFor auth raw session
              × Allowed auth clock answer session claims))
unfolding session_middleware
session_middleware-Allowed auth clock answer header claims cookie e =
    elim (Option-cases (check_duplicate_cookies header)) [
      | inl single ↦ (
        single,
        with_cookie-Allowed auth clock answer (extract_session_cookie header) claims cookie
            (rw (single, session_middleware) at e),
      )
      | inr (x, twice) ↦ absurd (denied-ran _ _ claims cookie (rw (twice, session_middleware) at e))
    ]

-- ===== src/Auth/State.antt =====
-- The state of a login: daemon/src/auth/state_encryption.rs. The cipher and the code are calls of
-- libraries, which are parameters; a key and a nonce are bytes.
use kalatori.Auth.Token.{TokenError}
use kalatori.Common.Bytes.{Bytes}
use kalatori.Common.{
  ℕ, zero, suc, String, Bool, true, false, ◌&&◌, Option, none, some, [], ◌∷◌, ◌++◌, Result, ok, err,
  panic, leb, ltb, if◌then◌else◌, length, take, ◌==◌,
}

pub data OAuthError : Type 0 where
  state_decryption_failed invalid_origin auth_server_unreachable : OAuthError
  code_exchange_failed : String → String → ℕ → OAuthError
  token_verification_failed : TokenError → OAuthError

-- The derivation of a key, the cipher, which may refuse what it did not seal, and the code of text.
pub record Cipher : Type 0 where
  pub derive : Bytes → Bytes → Bytes
  pub seal : Bytes → Bytes → Bytes → Bytes
  pub open_sealed : Bytes → Bytes → Bytes → Option Bytes
  pub encode : Bytes → Bytes
  pub decode : Bytes → Option Bytes

abbrev pub nonce_len : ℕ
nonce_len = 24

abbrev within_bytes : ℕ → ℕ → ℕ → Bool
within_bytes lo hi b = leb lo b && leb b hi

-- What follows the first byte of a character: how many bytes, and the bounds of the next one.
abbrev pub follow : ℕ → Option (ℕ × ℕ × ℕ)
follow b =
    if ltb b 128
    then some (0, 0, 0)
    else if within_bytes 194 223 b
    then some (1, 128, 191)
    else if b == 224
    then some (2, 160, 191)
    else if b == 237
    then some (2, 128, 159)
    else if within_bytes 225 239 b
    then some (2, 128, 191)
    else if b == 240
    then some (3, 144, 191)
    else if within_bytes 241 243 b
    then some (3, 128, 191)
    else if b == 244
    then some (3, 128, 143)
    else none

-- `from_utf8`
unfoldable pub is_utf8_from : ℕ → ℕ → ℕ → Bytes → Bool
is_utf8_from zero lo hi [] = true
is_utf8_from (suc k) lo hi [] = false
is_utf8_from (suc k) lo hi (b ∷ bs) =
    let rest = is_utf8_from k 128 191 bs in within_bytes lo hi b && rest
is_utf8_from zero lo hi (b ∷ bs) = elim (follow b) [
  | some (k, next_lo, next_hi) ↦ is_utf8_from k next_lo next_hi bs
  | none ↦ false
]

abbrev pub is_utf8 : Bytes → Bool
is_utf8 = is_utf8_from 0 0 0

-- The salt is the client's id.
abbrev pub derive_state_key : Cipher → Bytes → Bytes → Bytes
derive_state_key c client_secret client_id = c.derive client_id client_secret

-- The nonce is drawn.
unfoldable pub encrypt_state : Cipher → Bytes → Bytes → Bytes → Bytes
encrypt_state c nonce code_verifier key = c.encode (nonce ++ c.seal key nonce code_verifier)

abbrev pub skip : ℕ → Bytes → Bytes
skip zero bs = bs
skip (suc n) [] = []
skip (suc n) (b ∷ bs) = skip n bs

abbrev pub as_text : Option Bytes → Result OAuthError Bytes
as_text none = err state_decryption_failed
as_text (some plaintext) = if is_utf8 plaintext then ok plaintext else err state_decryption_failed

unfoldable pub decrypt_state : Cipher → Bytes → Bytes → Result OAuthError Bytes
decrypt_state c encoded key = elim (c.decode encoded) [
  | none ↦ err state_decryption_failed
  | some data' ↦
      if leb (length data') nonce_len
      then err state_decryption_failed
      else as_text (c.open_sealed key (take nonce_len data') (skip nonce_len data'))
]

unfoldable pub decrypt_state_with_fallback :
    Cipher → Bytes → Bytes → Option Bytes → Result OAuthError Bytes
decrypt_state_with_fallback c encoded current_key previous_key =
    elim (decrypt_state c encoded current_key) [
      | ok verifier ↦ ok verifier
      | err e ↦ elim previous_key [
        | some prev ↦ decrypt_state c encoded prev
        | none ↦ err state_decryption_failed
      ]
      | panic ↦ panic
    ]

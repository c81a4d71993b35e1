-- ===== src/Tests/Logins.antt =====
-- A login while the client's secret changes.
use kalatori.Auth.Rotation.{Opens, decrypt_state_with_fallback-encrypt_state}
use kalatori.Auth.Granted.{FromServer, Exchanges, callback_handler-Exchanges}
use kalatori.Auth.State.{
  Cipher, encrypt_state, decrypt_state, decrypt_state_with_fallback, is_utf8_from,
}
use kalatori.Auth.Login.{
  OAuthClient, Urls, Exchange, granted, CallbackHeaders, CallbackForm, callback_handler,
  exchange_code, exchanged, extract_origin, validate_callback_origin,
}
use kalatori.Auth.Token.{verify_token, try_keys, extract_claims}
use kalatori.Common.Bytes.{Bytes}
use kalatori.Common.{
  [], ◌∷◌, ◌++◌, ◌≡◌, refl, none, some, ok, inr, length, ◌==◌, ==_iff, if◌then◌else◌, arith,
}
use kalatori.Tests.Sessions.{auth, renewed}

-- The seal is a byte for the length of the key.
abbrev cipher : Cipher
cipher = record {
  derive = λ salt secret. salt ++ secret;
  seal = λ key nonce text. length key ∷ text;
  open_sealed = λ key nonce sealed. elim sealed [
    | [] ↦ none
    | b ∷ text ↦ if length key == b then some text else none
  ];
  encode = λ bytes. bytes;
  decode = some;
}

opens : Opens cipher
opens = record {
  reads_back = λ bytes. refl;
  opens = λ key nonce text. rw ((==_iff (length key) (length key)).1 refl) refl;
  has_tag = λ key nonce text. omega arith;
}

abbrev nonce : Bytes
nonce =
    0 ∷ 1 ∷ 2 ∷ 3 ∷ 4 ∷ 5 ∷ 6 ∷ 7 ∷ 8 ∷ 9 ∷ 10 ∷ 11 ∷ 12 ∷ 13 ∷ 14 ∷ 15 ∷ 16 ∷ 17 ∷ 18 ∷ 19 ∷ 20
    ∷ 21 ∷ 22 ∷ 23 ∷ []

abbrev verifier : Bytes
verifier = 97 ∷ 98 ∷ []

-- The present key has one byte, and the previous one two.
decrypt_state_with_fallback-encrypt_state_example :
    decrypt_state_with_fallback cipher
      (encrypt_state cipher nonce verifier (5 ∷ 6 ∷ []))
      (7 ∷ [])
      (some (5 ∷ 6 ∷ []))
    ≡ ok verifier
unfolding encrypt_state decrypt_state is_utf8_from
decrypt_state_with_fallback-encrypt_state_example =
    decrypt_state_with_fallback-encrypt_state cipher opens nonce verifier refl refl (5 ∷ 6 ∷ [])
      (7 ∷ []) (some (5 ∷ 6 ∷ [])) (inr (refl, refl))

abbrev client : OAuthClient
client = record { auth = auth; cipher = cipher; state_key = 7 ∷ []; previous_state_key = none }

-- A URL is its host.
abbrev urls : Urls
urls = record {
  parse = λ url. some (record { scheme = 104 ∷ []; host = some url; port = none });
  auth_server_url = 97 ∷ [];
}

abbrev server : Bytes → Bytes → Exchange
server code code_verifier = granted (49 ∷ 50 ∷ [])

abbrev from_server : CallbackHeaders
from_server = record { origin = some (104 ∷ 58 ∷ 47 ∷ 47 ∷ 97 ∷ []); referer = none }

abbrev form : CallbackForm
form = record { code = 3 ∷ []; state = nonce ++ 1 ∷ verifier }

callback_handler-Exchanges_example :
    FromServer urls from_server × Exchanges client server form renewed
unfolding callback_handler validate_callback_origin extract_origin exchange_code exchanged
    decrypt_state_with_fallback decrypt_state is_utf8_from verify_token try_keys extract_claims
callback_handler-Exchanges_example =
    callback_handler-Exchanges client urls server from_server form renewed refl

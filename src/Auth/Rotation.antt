-- ===== src/Auth/Rotation.antt =====
-- A state comes back, also while the client's secret changes: daemon/src/auth/state_encryption.rs.
use kalatori.Auth.State.{
  Cipher, nonce_len, skip, is_utf8, encrypt_state, decrypt_state, decrypt_state_with_fallback,
  state_decryption_failed,
}
use kalatori.Common.Bytes.{Bytes}
use kalatori.Common.{
  ℕ, zero, suc, ◌+◌, ◌≤◌, ◌≡◌, refl, ap, ◌∙◌, inl, inr, ◌⊎◌, true, false, Option, some, [], ◌∷◌,
  ◌++◌, ok, err, leb, length, length-append, take, arith,
}

take-append : (n : ℕ) (xs ys : Bytes) → length xs ≡ n → take n (xs ++ ys) ≡ xs
take-append zero [] ys e = refl
take-append zero (x ∷ xs) ys e = absurd (omega arith)
take-append (suc n) [] ys e = absurd (omega arith)
take-append (suc n) (x ∷ xs) ys e = ap (λ rest. x ∷ rest) (take-append n xs ys (omega arith))

skip-append : (n : ℕ) (xs ys : Bytes) → length xs ≡ n → skip n (xs ++ ys) ≡ ys
skip-append zero [] ys e = refl
skip-append zero (x ∷ xs) ys e = absurd (omega arith)
skip-append (suc n) [] ys e = absurd (omega arith)
skip-append (suc n) (x ∷ xs) ys e = skip-append n xs ys (omega arith)

-- What the libraries do with what they have made themselves: the code is read back, and the cipher
-- opens what it has sealed, which has a tag.
pub record Opens (c : Cipher) : Type 0 where
  pub reads_back : (bytes : Bytes) → c.decode (c.encode bytes) ≡ some bytes
  pub opens : (key nonce text : Bytes) → c.open_sealed key nonce (c.seal key nonce text) ≡ some text
  pub has_tag : (key nonce text : Bytes) → 1 ≤ length (c.seal key nonce text)

module _ (c : Cipher) (made : Opens c) (nonce code_verifier : Bytes)
    (whole : length nonce ≡ nonce_len) (is_text : is_utf8 code_verifier ≡ true) where
  own_key :
      (key : Bytes)
      → decrypt_state c (encrypt_state c nonce code_verifier key) key ≡ ok code_verifier
  unfolding decrypt_state encrypt_state
  own_key key =
      let text = c.seal key nonce code_verifier in
      rw
        (
          made.reads_back (nonce ++ text),
          long (length (nonce ++ text)) (length text)
              (length-append nonce text ∙ ap (λ n. n + length text) whole)
              (made.has_tag key nonce code_verifier),
          take-append nonce_len nonce text whole,
          skip-append nonce_len nonce text whole,
          made.opens key nonce code_verifier,
          is_text,
          decrypt_state,
        )
        refl
    where
      long : (n k : ℕ) → n ≡ 24 + k → 1 ≤ k → leb n 24 ≡ false
      long n k e h = ground arith

  -- A state that was sealed with the key of the present secret, or with that of the previous one
  -- and is refused with the present one, gives the verifier back.
  pub decrypt_state_with_fallback-encrypt_state :
      (key current_key : Bytes) (previous_key : Option Bytes)
      → (current_key ≡ key)
        ⊎ ((previous_key ≡ some key)
            × (decrypt_state c (encrypt_state c nonce code_verifier key) current_key
                ≡ err state_decryption_failed))
      → decrypt_state_with_fallback c
          (encrypt_state c nonce code_verifier key)
          current_key
          previous_key
        ≡ ok code_verifier
  unfolding decrypt_state_with_fallback
  decrypt_state_with_fallback-encrypt_state key current_key previous_key (inl same) =
      rw
        (
          ap (decrypt_state c (encrypt_state c nonce code_verifier key)) same ∙ own_key key,
          decrypt_state_with_fallback,
        )
        refl
  decrypt_state_with_fallback-encrypt_state key current_key previous_key
        (inr (is_previous, refused)) =
      rw (refused, is_previous, decrypt_state_with_fallback) (own_key key)

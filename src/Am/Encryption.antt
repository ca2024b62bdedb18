-- ===== src/Am/Encryption.antt =====
-- am/encryption.go. The random salt and nonce are arguments; Argon2 and XChaCha20-Poly1305 are fields of
-- `Cipher`.
pub mod RoundTrip
use agents_go.Prelude.{
  ℕ, ◌+◌, Bool, Option, none, some, List, [], ◌∷◌, ◌++◌, Text, ltb, if◌then◌else◌, length, take,
  drop, is_empty, Result, ok, err,
}

-- argon2.Key with the parameters of `deriveKey`, the error of chacha20poly1305.NewX, and the `Seal` and `Open` of
-- what it returns: key, nonce, data.
pub record Cipher (E : Type 0) : Type 0 where
  pub derive_key : Text → Text → Text
  pub new_x : Text → Option E
  pub seal : Text → Text → Text → Text
  pub unseal : Text → Text → Text → Result E Text
  pub invalid_data : E

abbrev pub salt_size : ℕ
salt_size = 16

abbrev pub nonce_size : ℕ
nonce_size = 24

module _ {E : Type 0} (cipher : Cipher E) where
  -- `Chacha20poly1305Encryption`.
  unfoldable pub chacha_encrypt : Text → Text → Text → Text → Result E Text
  chacha_encrypt key salt nonce plain =
      let actual_key = cipher.derive_key key salt in
      elim (cipher.new_x actual_key) [
        | some e ↦ err e
        | none ↦ ok (salt ++ (nonce ++ cipher.seal actual_key nonce plain))
      ]

  unfoldable pub chacha_decrypt : Text → Text → Result E Text
  chacha_decrypt key sealed =
      let salt = take salt_size sealed in
      let nonce = take nonce_size (drop salt_size sealed) in
      let actual_key = cipher.derive_key key salt in
      if ltb (length sealed) (salt_size + nonce_size + 1)
      then err cipher.invalid_data
      else elim (cipher.new_x actual_key) [
        | some e ↦ err e
        | none ↦ cipher.unseal actual_key nonce (drop (nonce_size + salt_size) sealed)
      ]

  -- `GetEncryption` with `Encrypt` and `Decrypt`: an empty key means no encryption.
  unfoldable pub encrypt : Text → Text → Text → Text → Result E Text
  unfolding chacha_encrypt
  encrypt key salt nonce plain =
      if is_empty key then ok plain else chacha_encrypt key salt nonce plain

  unfoldable pub decrypt : Text → Text → Result E Text
  unfolding chacha_decrypt
  decrypt key sealed = if is_empty key then ok sealed else chacha_decrypt key sealed

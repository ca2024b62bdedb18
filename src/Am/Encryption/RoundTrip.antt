-- ===== src/Am/Encryption/RoundTrip.antt =====
-- What am/encryption.go encrypts is decrypted again.
use agents_go.Prelude.{
  ℕ, ◌+◌, ◌≡◌, ap, ◌∙◌, false, none, ◌++◌, Text, ltb, length, take, drop, is_empty, arith,
  take-append, drop-append, length-append, append_assoc, Bool-cases, inl, inr,
}
use agents_go.Am.Encryption.{ok, Cipher, chacha_encrypt, chacha_decrypt, encrypt, decrypt}

-- The documented behaviour of the cipher: the derived key has the length that it accepts, the sealed text is 16 bytes
-- longer than the data, and it is opened again with the same key and nonce.
pub record IsCipher {E : Type 0} (cipher : Cipher E) : Type 0 where
  pub accepts : (key salt : Text) → cipher.new_x (cipher.derive_key key salt) ≡ none
  pub overhead : (key nonce plain : Text) → length (cipher.seal key nonce plain) ≡ length plain + 16
  pub opens :
      (key nonce plain : Text) → cipher.unseal key nonce (cipher.seal key nonce plain) ≡ ok plain

take_front : (k : ℕ) (xs ys : Text) → length xs ≡ k → take k (xs ++ ys) ≡ xs
take_front k xs ys e = rw (← e) (take-append xs ys)

drop_front : (k : ℕ) (xs ys : Text) → length xs ≡ k → drop k (xs ++ ys) ≡ ys
drop_front k xs ys e = rw (← e) (drop-append xs ys)

module _ {E : Type 0} (cipher : Cipher E) where
  parts :
      (salt nonce sealed : Text)
      → length salt ≡ 16
      → length nonce ≡ 24
      → (take 16 (salt ++ (nonce ++ sealed)) ≡ salt)
        × (take 24 (drop 16 (salt ++ (nonce ++ sealed))) ≡ nonce)
        × (drop 40 (salt ++ (nonce ++ sealed)) ≡ sealed)
        × (length (salt ++ (nonce ++ sealed)) ≡ 40 + length sealed)
  parts salt nonce sealed hs hn = (
    take_front 16 salt (nonce ++ sealed) hs,
    ap (take 24) (drop_front 16 salt (nonce ++ sealed) hs) ∙ take_front 24 nonce sealed hn,
    rw (← append_assoc)
        (drop_front 40 (salt ++ nonce) sealed (omega (arith, length-append salt nonce))),
    omega (arith, length-append salt (nonce ++ sealed), length-append nonce sealed),
  )

  chacha-round :
      (key salt nonce plain : Text)
      → IsCipher cipher
      → length salt ≡ 16
      → length nonce ≡ 24
      → (sealed : Text) × (chacha_encrypt cipher key salt nonce plain ≡ ok sealed)
        × (chacha_decrypt cipher key sealed ≡ ok plain)
  unfolding chacha_encrypt chacha_decrypt
  chacha-round key salt nonce plain laws hs hn =
      let sealed = cipher.seal (cipher.derive_key key salt) nonce plain in
      let (front, middle, back, len) = parts salt nonce sealed hs hn in
      let long : ltb (length (salt ++ (nonce ++ sealed))) 41 ≡ false =
        ground (arith, len, laws.overhead (cipher.derive_key key salt) nonce plain) in
      (
        salt ++ (nonce ++ sealed),
        rw (laws.accepts key salt, chacha_encrypt),
        rw (long, front, laws.accepts key salt, front, middle, back) (laws.opens _ nonce plain),
      )

  -- For every key, empty or not, and every salt of 16 and nonce of 24 bytes, `Encrypt` succeeds, and `Decrypt` with
  -- the same key gives the data back.
  pub decrypt-encrypt :
      (key salt nonce plain : Text)
      → IsCipher cipher
      → length salt ≡ 16
      → length nonce ≡ 24
      → (sealed : Text) × (encrypt cipher key salt nonce plain ≡ ok sealed)
        × (decrypt cipher key sealed ≡ ok plain)
  unfolding encrypt decrypt
  decrypt-encrypt key salt nonce plain laws hs hn = elim (Bool-cases (is_empty key)) [
    | inl e ↦ (plain, rw e, rw e)
    | inr e ↦
        let (sealed, made, read) = chacha-round key salt nonce plain laws hs hn in
        (sealed, rw e made, rw e read)
  ]

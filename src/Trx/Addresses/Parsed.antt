-- ===== src/Trx/Addresses/Parsed.antt =====
-- Tron's addresses parsed by agents/trx/server.go, and those that blockchain/trx/trx.go makes of keys.
use agents_go.Prelude.{
  ℕ, ◌≡◌, refl, subst, ◌∷◌, ◌++◌, Text, length, take, take-append, length-append, arith, ok,
}
use agents_go.Chain.{Curve}
use agents_go.Trx.Addresses.{
  Base58, tron_byte_prefix, checksum, address_string, address_to_string, without_checksum, last_20,
  address_from_string,
}
use agents_go.Trx.Addresses.Checked.{length-checksum}

module _ {E K R : Type 0} (curve : Curve E K R) (lib : Base58 E)
    (keeps : (b : Text) → length b ≡ 20 → curve.bytes_to_address b ≡ b) where
  -- `AddressFromString` takes the 20 bytes between the first byte and the last four of what base58 decodes, whatever
  -- those five bytes are: it looks neither at the prefix nor at the checksum.
  pub address_from_string_any :
      (s a check : Text) (p : ℕ)
      → lib.decode s ≡ ok (p ∷ (a ++ check))
      → length a ≡ 20
      → length check ≡ 4
      → address_from_string curve lib s ≡ ok a
  unfolding address_from_string without_checksum last_20
  address_from_string_any s a check p decoded len four =
      let long : length (a ++ check) ≡ 24 = omega (arith, length-append a check) in
      let front : take 20 (a ++ check) ≡ a =
        subst (λ n. take n (a ++ check) ≡ a) len (take-append a check) in
      rw (decoded, long, front, len, keeps a len) refl

  module _ (hash_length : (t : Text) → length (lib.sha256 t) ≡ 32)
      (decode-encode : (b : Text) → lib.decode (lib.encode b) ≡ ok b) where
    -- `AddressFromString` gives the 20 bytes back of which `AddressToString` made the text.
    pub address_from_string-to_string :
        (a : Text) → length a ≡ 20 → address_from_string curve lib (address_to_string lib a) ≡ ok a
    unfolding address_to_string address_string
    address_from_string-to_string a len =
        let c = checksum lib (tron_byte_prefix ∷ a) in
        address_from_string_any (lib.encode (tron_byte_prefix ∷ (a ++ c))) a c tron_byte_prefix
          (decode-encode (tron_byte_prefix ∷ (a ++ c))) len
          (length-checksum lib hash_length (tron_byte_prefix ∷ a))

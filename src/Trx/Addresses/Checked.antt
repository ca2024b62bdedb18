-- ===== src/Trx/Addresses/Checked.antt =====
-- What the checksum of Tron's addresses, in blockchain/trx/trx.go, promises, and what agents/trx/server.go makes of it.
use agents_go.Prelude.{
  suc, if◌then◌else◌, ◌≡◌, ◌↔◌, refl, sym, ap, ◌∙◌, subst, Bool, true, false, ◌&&◌, [], ◌∷◌, ◌++◌,
  Text, text_eq, text_eq_iff, ◌==◌, ==_iff, length, take, drop, take-drop, take-append, drop-append,
  length-append, length-take, arith, Result, ok, err,
}
use agents_go.Trx.Addresses.{
  Base58, tron_byte_prefix, checksum, address_string, address_to_string, has_tron_prefix,
  check_decoded, check_decoding, validate_address,
}

-- A test of two conditions under a third.
all_three :
    (c d e : Bool) → (if c then d && e else false) ≡ true → (c ≡ true) × (d ≡ true) × (e ≡ true)
all_three true true true h = (refl, refl, refl)
all_three true true false h = cc
all_three true false e h = cc
all_three false d e h = cc

module _ {E : Type 0} (lib : Base58 E) (hash_length : (t : Text) → length (lib.sha256 t) ≡ 32) where
  pub length-checksum : (t : Text) → length (checksum lib t) ≡ 4
  length-checksum t =
      length-take 4 (lib.sha256 (lib.sha256 t)) (omega (arith, hash_length (lib.sha256 t)))

  -- What an accepted text decodes to.
  check_decoded-true :
      (b : Text)
      → check_decoded lib b ≡ true
      → (a : Text) × (length a ≡ 20)
        × ((tron_byte_prefix ∷ a) ++ checksum lib (tron_byte_prefix ∷ a) ≡ b)
  unfolding check_decoded has_tron_prefix
  check_decoded-true [] h = cc
  check_decoded-true (p ∷ rest) h =
      let (len, prefixed, same) =
        all_three (suc (length rest) == 25) (p == tron_byte_prefix)
          (text_eq (checksum lib (p ∷ take 20 rest)) (drop 20 rest)) h in
      let q : p ≡ tron_byte_prefix = (==_iff p tron_byte_prefix).0 prefixed in
      let c : checksum lib (p ∷ take 20 rest) ≡ drop 20 rest = (text_eq_iff _ _).0 same in
      (take 20 rest, length-take 20 rest (ground arith), rw (sym q, c, take-drop 20 rest) refl)

  check_decoded_printed :
      (a : Text)
      → length a ≡ 20
      → check_decoded lib ((tron_byte_prefix ∷ a) ++ checksum lib (tron_byte_prefix ∷ a)) ≡ true
  unfolding check_decoded has_tron_prefix
  check_decoded_printed a len =
      let c = checksum lib (tron_byte_prefix ∷ a) in
      let front : take 20 (a ++ c) ≡ a = subst (λ n. take n (a ++ c) ≡ a) len (take-append a c) in
      let back : drop 20 (a ++ c) ≡ c = subst (λ n. drop n (a ++ c) ≡ c) len (drop-append a c) in
      let long : length (a ++ c) ≡ 24 =
        omega (arith, length-append a c, length-checksum (tron_byte_prefix ∷ a)) in
      rw (front, back, long) ((text_eq_iff c c).1 refl)

  module _ (decode-encode : (b : Text) → lib.decode (lib.encode b) ≡ ok b)
      (encode-decode : (s b : Text) → lib.decode s ≡ ok b → lib.encode b ≡ s) where
    accepted :
        (s : Text) (d : Result E Text)
        → lib.decode s ≡ d
        → check_decoding lib d ≡ true
        → (a : Text) × (length a ≡ 20) × (address_to_string lib a ≡ s)
    unfolding check_decoding address_to_string address_string
    accepted s (err e) g h = cc
    accepted s (ok b) g h =
        let (a, len, same) = check_decoded-true b h in
        (a, len, ap lib.encode same ∙ encode-decode s b g)

    -- The texts that `ValidateAddress` accepts are exactly those that `AddressToString` makes of 20 bytes, if base58
    -- decodes what it encodes and conversely, and SHA-256 has 32 bytes.
    pub validate_address_iff :
        (s : Text)
        → (validate_address lib s ≡ true)
          ↔ ((a : Text) × (length a ≡ 20) × (address_to_string lib a ≡ s))
    unfolding validate_address address_to_string address_string
    validate_address_iff s = (
      accepted s (lib.decode s) refl,
      λ (a, len, printed).
          subst (λ t. validate_address lib t ≡ true) printed
            (ap (check_decoding lib)
                (decode-encode ((tron_byte_prefix ∷ a) ++ checksum lib (tron_byte_prefix ∷ a)))
              ∙ check_decoded_printed a len),
    )

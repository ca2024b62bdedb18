-- ===== src/Trx/Addresses/Keys.antt =====
-- Addresses that blockchain/trx/trx.go makes of keys.
use agents_go.Prelude.{
  ◌≡◌, refl, sym, ap, ◌∙◌, subst, true, Option, none, some, [], ◌∷◌, Text, length, length-drop,
  arith, Result, ok, ◌>>=◌, >>=-eq-ok, ok_path, Fault,
}
use agents_go.Chain.{
  Curve, KeyPair, key_hash, random_key, known_public_key, public_key_from_private_key,
}
use agents_go.Chain.Keys.{random_key_lem}
use agents_go.Trx.Addresses.{
  Base58, tron_byte_prefix, address_string, address_to_string, with_address, validate_address,
  address_from_public_key, recover_address, tron_random_key,
}
use agents_go.Trx.Addresses.Checked.{validate_address_iff}

-- The pair is one of the curve with its own address.
tron_random_key-ok :
    {E K R : Type 0} (curve : Curve E K R) (lib : Base58 E) (rnd : Option R) (kp : KeyPair)
    → tron_random_key curve lib rnd ≡ ok kp
    → (q : KeyPair) × (a : Text) × (random_key curve rnd ≡ ok q)
      × (address_from_public_key curve lib q.public_key ≡ ok a)
      × (with_address lib q a ≡ kp)
unfolding tron_random_key
tron_random_key-ok {E} curve lib rnd kp h =
    let step : KeyPair → Result (Fault E) KeyPair =
      λ q. address_from_public_key curve lib q.public_key >>= (λ a. ok (with_address lib q a)) in
    let (q, made, h1) = >>=-eq-ok (random_key curve rnd) step kp h in
    let finish : Text → Result (Fault E) KeyPair = λ a. ok (with_address lib q a) in
    let (a, ha, h2) = >>=-eq-ok (address_from_public_key curve lib q.public_key) finish kp h1 in
    (q, a, made, ha, ok_path h2)

-- The public key of a generated pair is that of its private key.
pub tron_random_key-public :
    {E K R : Type 0} (curve : Curve E K R) (lib : Base58 E)
    → ((k : K) → curve.to_ecdsa (curve.from_ecdsa k) ≡ ok k)
    → (rnd : Option R) (kp : KeyPair) → tron_random_key curve lib rnd ≡ ok kp
    → public_key_from_private_key curve kp.private_key ≡ ok kp.public_key
unfolding with_address
tron_random_key-public curve lib reads_back rnd kp h =
    let (q, a, made, _, same) = tron_random_key-ok curve lib rnd kp h in
    subst (λ (p : KeyPair). public_key_from_private_key curve p.private_key ≡ ok p.public_key) same
      (random_key_lem curve reads_back rnd q made).0

module _ {E K R : Type 0} (curve : Curve E K R) (lib : Base58 E)
    (keccak_length : (t : Text) → length (curve.keccak256 t) ≡ 32) where
  key_hash-length : (key hash : Text) → key_hash curve key ≡ ok hash → length hash ≡ 20
  unfolding key_hash
  key_hash-length [] hash h = cc
  key_hash-length (kind ∷ point) hash h =
      ap length (sym (ok_path h))
      ∙ omega (arith, length-drop 12 (curve.keccak256 point), keccak_length point)

  -- An address of a public key is the prefix and 20 bytes.
  address_from_public_key_form :
      (key address : Text)
      → address_from_public_key curve lib key ≡ ok address
      → (a : Text) × (length a ≡ 20) × (tron_byte_prefix ∷ a ≡ address)
  unfolding address_from_public_key
  address_from_public_key_form key address h =
      let finish : Text → Result (Fault E) Text = λ a. ok (tron_byte_prefix ∷ a) in
      let (a, hashed, same) = >>=-eq-ok (key_hash curve key) finish address h in
      (a, key_hash-length key a hashed, ok_path same)

  module _ (reads_back : (k : K) → curve.to_ecdsa (curve.from_ecdsa k) ≡ ok k)
      (hash_length : (t : Text) → length (lib.sha256 t) ≡ 32)
      (decode-encode : (b : Text) → lib.decode (lib.encode b) ≡ ok b)
      (encode-decode : (s b : Text) → lib.decode s ≡ ok b → lib.encode b ≡ s) where
    -- A key that reads back.
    abbrev HasValidAddress : KeyPair → Type 0
    HasValidAddress kp =
        (validate_address lib kp.address ≡ true)
        × (recover_address curve lib none (some kp.private_key) ≡ ok kp.address)

    with_address-HasValidAddress :
        (rnd : Option R) (kp : KeyPair) (address : Text)
        → random_key curve rnd ≡ ok kp
        → address_from_public_key curve lib kp.public_key ≡ ok address
        → HasValidAddress (with_address lib kp address)
    unfolding with_address recover_address address_to_string known_public_key
    with_address-HasValidAddress rnd kp address made h =
        let (a, len, same) = address_from_public_key_form kp.public_key address h in
        let (known, _, _) = random_key_lem curve reads_back rnd kp made in
        (
          (validate_address_iff lib hash_length decode-encode encode-decode
                (address_string lib address)).1
              (a, len, ap (address_string lib) same),
          rw (known, h) refl,
        )

    -- The address of a pair of keys that `TronRandomKey` generates is one that `ValidateAddress` accepts and that
    -- `RecoverAddress` gives for its private key, if go-ethereum reads back the keys that it writes, base58 decodes what
    -- it encodes and conversely, and the hashes have 32 bytes.
    pub tron_random_key_lem :
        (rnd : Option R) (kp : KeyPair)
        → tron_random_key curve lib rnd ≡ ok kp
        → (validate_address lib kp.address ≡ true)
          × (recover_address curve lib none (some kp.private_key) ≡ ok kp.address)
    tron_random_key_lem rnd kp h =
        let (q, a, made, ha, same) = tron_random_key-ok curve lib rnd kp h in
        subst HasValidAddress same (with_address-HasValidAddress rnd q a made ha)

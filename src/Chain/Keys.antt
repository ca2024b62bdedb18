-- ===== src/Chain/Keys.antt =====
-- Keys that blockchain/eth/eth.go generates, read back, and signatures that it makes, verified.
use agents_go.Prelude.{
  ◌≡◌, refl, sym, ap, ◌∙◌, true, Option, none, some, Text, length, take, subst, Result, ok, ◌>>=◌,
  map_err, >>=-eq-ok, ok_path, Fault, failed,
}
use agents_go.Chain.{
  Curve, KeyPair, address_from_public_key, public_key_from_private_key, known_public_key,
  recover_address, random_key, key_pair, sign_data, verify_data, reader,
}

module _ {E K R : Type 0} (curve : Curve E K R)
    (reads_back : (k : K) → curve.to_ecdsa (curve.from_ecdsa k) ≡ ok k) where
  -- What is read back of a pair of keys.
  abbrev RecoversKeys : KeyPair → Type 0
  RecoversKeys kp =
      (public_key_from_private_key curve kp.private_key ≡ ok kp.public_key)
      × (recover_address curve none (some kp.private_key) ≡ ok kp.address)
      × (recover_address curve (some kp.public_key) none ≡ ok kp.address)

  public_key_from_private_key-pair :
      (k : K) → public_key_from_private_key curve (curve.from_ecdsa k) ≡ ok (curve.from_ecdsa_pub k)
  unfolding public_key_from_private_key
  public_key_from_private_key-pair k = rw (reads_back k) refl

  key_pair-RecoversKeys :
      (k : K) (a : Text)
      → address_from_public_key curve (curve.from_ecdsa_pub k) ≡ ok a
      → RecoversKeys (key_pair curve k a)
  unfolding recover_address known_public_key key_pair
  key_pair-RecoversKeys k a ha =
      let same = public_key_from_private_key-pair k in (same, rw (same, ha) refl, rw ha refl)

  -- Of the private key of a pair that `RandomKey` generates, the public key and the address are those of the pair, if
  -- go-ethereum reads back the keys that it writes.
  pub random_key_lem :
      (rnd : Option R) (kp : KeyPair)
      → random_key curve rnd ≡ ok kp
      → (public_key_from_private_key curve kp.private_key ≡ ok kp.public_key)
        × (recover_address curve none (some kp.private_key) ≡ ok kp.address)
        × (recover_address curve (some kp.public_key) none ≡ ok kp.address)
  unfolding random_key
  random_key_lem rnd kp h =
      let step : K → Result (Fault E) KeyPair = λ k.
        address_from_public_key curve (curve.from_ecdsa_pub k) >>= (λ a. ok (key_pair curve k a)) in
      let (k, made, h1) =
        >>=-eq-ok (map_err failed (curve.generate_key (reader curve rnd))) step kp h in
      let finish : Text → Result (Fault E) KeyPair = λ a. ok (key_pair curve k a) in
      let (a, ha, h2) =
        >>=-eq-ok (address_from_public_key curve (curve.from_ecdsa_pub k)) finish kp h1 in
      subst RecoversKeys (ok_path h2) (key_pair-RecoversKeys k a ha)

module _ {E K R : Type 0} (curve : Curve E K R)
    (verifies : (k : K) (payload sig : Text)
      → curve.sign payload k ≡ ok sig
      → (length sig ≡ 65)
        × (curve.verify_signature (curve.from_ecdsa_pub k) payload (take 64 sig) ≡ true)) where
  -- A signature that `SignData` makes is one that `VerifyData` accepts, without a panic, with the public key that
  -- `PublicKeyFromPrivateKey` gives, if signatures have 65 bytes and go-ethereum verifies the first 64.
  pub sign_data-verify_data :
      (payload pk public_key sig : Text)
      → sign_data curve payload pk ≡ ok sig
      → public_key_from_private_key curve pk ≡ ok public_key
      → verify_data curve payload sig public_key ≡ ok true
  unfolding sign_data public_key_from_private_key verify_data
  sign_data-verify_data payload pk public_key sig signed known =
      let signing : K → Result E Text = λ k. curve.sign payload k in
      let reading : K → Result E Text = λ k. ok (curve.from_ecdsa_pub k) in
      let (k, parsed, made) = >>=-eq-ok (curve.to_ecdsa pk) signing sig signed in
      let (j, parsed', public) = >>=-eq-ok (curve.to_ecdsa pk) reading public_key known in
      let same : k ≡ j = ok_path (sym parsed ∙ parsed') in
      let (long, good) = verifies k payload sig made in
      let owner : curve.from_ecdsa_pub k ≡ public_key =
        ap curve.from_ecdsa_pub same ∙ ok_path public in
      rw (long, sym owner, good) refl

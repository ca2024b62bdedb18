-- ===== src/Chain/Tests.antt =====
-- A curve whose keys are texts, for blockchain/eth/eth.go.
use agents_go.Prelude.{
  ◌≡◌, refl, true, none, some, [], ◌∷◌, Text, text_eq, length, replicate, take, subst, ok, ok_path,
}
use agents_go.Chain.{
  Curve, KeyPair, key_hash, address_from_public_key, public_key_from_private_key, known_public_key,
  recover_address, reader, key_pair, random_key, verify_data,
}

abbrev pub curve : Curve Text Text Text
curve = record {
  to_ecdsa = ok;
  from_ecdsa_pub = λ k. 4 ∷ k;
  from_ecdsa = λ k. k;
  sign = λ payload k. ok (replicate 65 7);
  verify_signature = λ pk payload sig. text_eq sig (replicate 64 7);
  keccak256 = λ t. replicate 32 (length t);
  generate_key = ok;
  rand_reader = 9 ∷ [];
  bytes_to_address = λ b. b;
  address_hex = λ a. a;
  no_keys = [];
}

abbrev pair : KeyPair
pair = record { address = replicate 20 1; public_key = 4 ∷ 9 ∷ []; private_key = 9 ∷ [] }

pair_generated : random_key curve none ≡ ok pair
unfolding random_key key_pair reader address_from_public_key key_hash
pair_generated = refl

pair_recovered : recover_address curve none (some (9 ∷ [])) ≡ ok (replicate 20 1)
unfolding recover_address known_public_key public_key_from_private_key address_from_public_key
    key_hash
pair_recovered = refl

signature_verified : verify_data curve (1 ∷ []) (replicate 65 7) (4 ∷ 3 ∷ []) ≡ ok true
unfolding verify_data
signature_verified = refl

pub curve_verifies :
    (k payload sig : Text)
    → curve.sign payload k ≡ ok sig
    → (length sig ≡ 65)
      × (curve.verify_signature (curve.from_ecdsa_pub k) payload (take 64 sig) ≡ true)
curve_verifies k payload sig h =
    subst (λ s. (length s ≡ 65) × (text_eq (take 64 s) (replicate 64 7) ≡ true)) (ok_path h)
      (refl, refl)

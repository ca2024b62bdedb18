-- ===== src/Chain.antt =====
-- blockchain/eth/eth.go: keys, addresses and signatures. go-ethereum's functions on the curve, of keys of the type `K`
-- and sources of random bytes of the type `R`, are fields of `Curve`; a nil byte slice is `none`.
pub mod Keys
pub mod Tests
use agents_go.Prelude.{
  ℕ, Bool, Option, none, some, List, [], ◌∷◌, Text, ltb, if◌then◌else◌, length, take, drop, Result,
  ok, err, ◌>>=◌, map_err, Fault, panics, failed,
}

-- crypto.ToECDSA, FromECDSAPub of the public key, FromECDSA, Sign, VerifySignature and Keccak256, ecdsa.GenerateKey and
-- rand.Reader, common.BytesToAddress and the address's `String`.
pub record Curve (E K R : Type 0) : Type 0 where
  pub to_ecdsa : Text → Result E K
  pub from_ecdsa_pub : K → Text
  pub from_ecdsa : K → Text
  pub sign : Text → K → Result E Text
  pub verify_signature : Text → Text → Text → Bool
  pub keccak256 : Text → Text
  pub generate_key : R → Result E K
  pub rand_reader : R
  pub bytes_to_address : Text → Text
  pub address_hex : Text → Text
  pub no_keys : E

-- `KeyPair` of blockchain/common.go.
pub record KeyPair : Type 0 where
  pub address : Text
  pub public_key : Text
  pub private_key : Text

module _ {E K R : Type 0} (curve : Curve E K R) where
  -- `crypto.Keccak256(publicKey[1:])[12:]`, where the hash has 32 bytes.
  unfoldable pub key_hash : Text → Result (Fault E) Text
  key_hash [] = err panics
  key_hash (kind ∷ point) = ok (drop 12 (curve.keccak256 point))

  unfoldable pub address_from_public_key : Text → Result (Fault E) Text
  unfolding key_hash
  address_from_public_key public_key = do
    hash ← key_hash public_key
    ok (curve.bytes_to_address hash)

  unfoldable pub public_key_from_private_key : Text → Result E Text
  public_key_from_private_key private_key = do
    parsed_pk ← curve.to_ecdsa private_key
    ok (curve.from_ecdsa_pub parsed_pk)

  -- The public key that `RecoverAddress` starts from.
  unfoldable pub known_public_key : Option Text → Option Text → Result E Text
  unfolding public_key_from_private_key
  known_public_key (some public_key) private_key = ok public_key
  known_public_key none (some private_key) = public_key_from_private_key private_key
  known_public_key none none = err curve.no_keys

  unfoldable pub recover_address : Option Text → Option Text → Result (Fault E) Text
  unfolding known_public_key address_from_public_key
  recover_address public_key private_key = do
    known ← map_err failed (known_public_key public_key private_key)
    address ← address_from_public_key known
    ok (curve.address_hex address)

  -- The reader of random bytes, which may be nil.
  unfoldable pub reader : Option R → R
  reader none = curve.rand_reader
  reader (some rnd) = rnd

  unfoldable pub key_pair : K → Text → KeyPair
  key_pair k address = record {
    address = curve.address_hex address;
    public_key = curve.from_ecdsa_pub k;
    private_key = curve.from_ecdsa k;
  }

  unfoldable pub random_key : Option R → Result (Fault E) KeyPair
  unfolding reader key_pair address_from_public_key
  random_key rnd = do
    k ← map_err failed (curve.generate_key (reader rnd))
    address ← address_from_public_key (curve.from_ecdsa_pub k)
    ok (key_pair k address)

  unfoldable pub sign_data : Text → Text → Result E Text
  sign_data payload pk = do parsed_pk ← curve.to_ecdsa pk; curve.sign payload parsed_pk

  -- `sig[:64]` of a slice with no spare capacity.
  unfoldable pub verify_data : Text → Text → Text → Result (Fault E) Bool
  verify_data payload sig pk =
      if ltb (length sig) 64
      then err panics
      else ok (curve.verify_signature pk payload (take 64 sig))

-- ===== src/Trx/Addresses.antt =====
-- Tron's addresses: blockchain/trx/trx.go, and `TrxExtensions` of agents/trx/server.go. The package base58 with Bitcoin's
-- alphabet and SHA-256 are fields of `Base58`; an address of Ethereum's has 20 bytes.
pub mod Checked
pub mod Parsed
pub mod Keys
use agents_go.Prelude.{
  ℕ, ◌+◌, ◌-◌, ◌*◌, ◌%◌, ◌^◌, Bool, true, false, ◌&&◌, Option, none, some, List, [], ◌∷◌, ◌++◌,
  Text, text_eq, ltb, ◌==◌, if◌then◌else◌, length, take, drop, Result, ok, err, ◌>>=◌, map_err,
  Fault, panics, failed,
}
use agents_go.Chain.{Curve, KeyPair, key_hash, known_public_key, random_key}
use agents_go.Eth.Blocks.{FinalityStatus, u64}

pub record Base58 (E : Type 0) : Type 0 where
  pub encode : Text → Text
  pub decode : Text → Result E Text
  pub sha256 : Text → Text

abbrev pub tron_byte_prefix : ℕ
tron_byte_prefix = 65

module _ {E : Type 0} (lib : Base58 E) where
  -- The first four bytes of `h1`, which has 32.
  abbrev pub checksum : Text → Text
  checksum a = take 4 (lib.sha256 (lib.sha256 a))

  -- `Address.String`.
  unfoldable pub address_string : Text → Text
  address_string a = lib.encode (a ++ checksum a)

  unfoldable pub with_address : KeyPair → Text → KeyPair
  unfolding address_string
  with_address kp address = record kp { address = address_string address }

  -- `AddressToString`.
  unfoldable pub address_to_string : Text → Text
  unfolding address_string
  address_to_string address = address_string (tron_byte_prefix ∷ address)

  -- `binAddr[0]`, of an address that is not empty.
  has_tron_prefix : Text → Bool
  has_tron_prefix [] = false
  has_tron_prefix (p ∷ rest) = p == tron_byte_prefix

  -- `ValidateAddress` from the length on; the four comparisons are one of texts of four bytes.
  check_decoded : Text → Bool
  unfolding has_tron_prefix
  check_decoded bin_addr =
      if length bin_addr == 25
      then has_tron_prefix bin_addr && text_eq (checksum (take 21 bin_addr)) (drop 21 bin_addr)
      else false

  check_decoding : Result E Text → Bool
  unfolding check_decoded
  check_decoding (err e) = false
  check_decoding (ok bin_addr) = check_decoded bin_addr

  unfoldable pub validate_address : Text → Bool
  unfolding check_decoding
  validate_address address = check_decoding (lib.decode address)

  -- `addrB58[:len(addrB58)-4]`, and the last 20 bytes of that.
  without_checksum : Text → Result (Fault E) Text
  without_checksum b = if ltb (length b) 4 then err panics else ok (take (length b - 4) b)

  last_20 : Text → Result (Fault E) Text
  last_20 b = if ltb (length b) 20 then err panics else ok (drop (length b - 20) b)

module _ {E K R : Type 0} (curve : Curve E K R) (lib : Base58 E) where
  -- `AddressFromString`.
  unfoldable pub address_from_string : Text → Result (Fault E) Text
  unfolding without_checksum last_20
  address_from_string address = do
    decoded ← map_err failed (lib.decode address)
    addr_b58 ← without_checksum lib decoded
    bytes ← last_20 lib addr_b58
    ok (curve.bytes_to_address bytes)

  -- `AddressFromPublicKey` of Tron.
  unfoldable pub address_from_public_key : Text → Result (Fault E) Text
  unfolding key_hash
  address_from_public_key public_key = do
    address ← key_hash curve public_key
    ok (tron_byte_prefix ∷ address)

  -- `RecoverAddress` of Tron.
  unfoldable pub recover_address : Option Text → Option Text → Result (Fault E) Text
  unfolding known_public_key address_from_public_key address_string
  recover_address public_key private_key = do
    known ← map_err failed (known_public_key curve public_key private_key)
    address ← address_from_public_key known
    ok (address_string lib address)

  -- `TronRandomKey`.
  unfoldable pub tron_random_key : Option R → Result (Fault E) KeyPair
  unfolding random_key address_from_public_key with_address
  tron_random_key rnd = do
    kp ← random_key curve rnd
    address ← address_from_public_key kp.public_key
    ok (with_address lib kp address)

-- `BlockFinalityStatus` of Tron, in uint64: `now` is the Unix time.
unfoldable pub tron_finality_status : FinalityStatus → ℕ → ℕ → ℕ
tron_finality_status fs now timestamp =
    if ltb timestamp ((now + u64 - 27 * 3) % u64)
    then fs.finalized
    else if ltb timestamp ((now + u64 - 19 * 3) % u64)
    then fs.safe
    else fs.unsafe

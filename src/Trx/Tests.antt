-- ===== src/Trx/Tests.antt =====
-- A concrete curve, base58, node and cache, for agents/trx and blockchain/trx.
use agents_go.Prelude.{
  ◌+◌, ◌*◌, ◌≡◌, ◌↔◌, ◌⊎◌, ◌<◌, refl, sym, true, none, some, List, [], ◌∷◌, ◌++◌, Text, codes, Has,
  length, replicate, arith, Result, ok, err, ok_path,
}
use mathlib.Core.List.{reverse}
use agents_go.Conv.Uint256.Laws.{natural}
use agents_go.Cache.{SimpleExpirationCache, new_cache}
use agents_go.Chain.{Curve, KeyPair, random_key, key_hash, reader, key_pair}
use agents_go.Trx.Fees.{FeePrices, get_fee_prices, estimate_fee}
use agents_go.Trx.Fees.Exact.{estimate_fee_lem}
use agents_go.Trx.Fees.Fresh.{Reading, after, fee_prices_fresh}
use agents_go.Trx.Addresses.{
  Base58, address_string, address_to_string, validate_address, address_from_string,
  address_from_public_key, recover_address, with_address, tron_random_key,
}
use agents_go.Trx.Addresses.Checked.{validate_address_iff}
use agents_go.Trx.Addresses.Parsed.{address_from_string_any}
use agents_go.Trx.Addresses.Keys.{tron_random_key_lem}
use agents_go.Trx.Api.{ParameterKeyValue, transaction_fee, energy_fee, chain_parameters}
use agents_go.Trx.Api.Parameters.{first_value, chain_parameters_lem}

abbrev lib : Base58 Text
lib = record { encode = λ b. b; decode = ok; sha256 = λ t. replicate 32 (length t) }

abbrev curve : Curve Text Text Text
curve = record {
  to_ecdsa = ok;
  from_ecdsa_pub = λ k. 4 ∷ k;
  from_ecdsa = λ k. k;
  sign = λ payload k. ok payload;
  verify_signature = λ pk payload sig. true;
  keccak256 = λ t. replicate 32 (length t);
  generate_key = ok;
  rand_reader = 9 ∷ [];
  bytes_to_address = λ b. b;
  address_hex = λ a. a;
  no_keys = [];
}

hash_length : (t : Text) → length (lib.sha256 t) ≡ 32
hash_length t = refl

keccak_length : (t : Text) → length (curve.keccak256 t) ≡ 32
keccak_length t = refl

encode-decode : (s b : Text) → lib.decode s ≡ ok b → lib.encode b ≡ s
encode-decode s b h = sym (ok_path h)

abbrev tron : Text
tron = 65 ∷ (replicate 20 1 ++ replicate 4 32)

validate_address_iff_example :
    (validate_address lib tron ≡ true)
    ↔ ((a : Text) × (length a ≡ 20) × (address_to_string lib a ≡ tron))
validate_address_iff_example = validate_address_iff lib hash_length (λ b. refl) encode-decode tron

-- Neither the prefix nor the checksum is right here.
address_from_string_any_example :
    address_from_string curve lib (1 ∷ (replicate 20 7 ++ replicate 4 0)) ≡ ok (replicate 20 7)
address_from_string_any_example =
    address_from_string_any curve lib (λ b h. refl) (1 ∷ (replicate 20 7 ++ replicate 4 0))
      (replicate 20 7) (replicate 4 0) 1 refl refl refl

abbrev pair : KeyPair
pair = record { address = tron; public_key = 4 ∷ 9 ∷ []; private_key = 9 ∷ [] }

tron_random_key_lem_example :
    (validate_address lib tron ≡ true) × (recover_address curve lib none (some (9 ∷ [])) ≡ ok tron)
unfolding tron_random_key with_address address_string address_from_public_key random_key key_hash
    reader key_pair
tron_random_key_lem_example =
    tron_random_key_lem curve lib keccak_length (λ k. refl) hash_length (λ b. refl) encode-decode
      none pair refl

abbrev parameters : List ParameterKeyValue
parameters =
    record { key = energy_fee; value = natural 100 }
    ∷ record { key = transaction_fee; value = natural 1000 }
    ∷ record { key = energy_fee; value = natural 210 }
    ∷ []

chain_parameters_lem_example : chain_parameters parameters ≡ record {
  energy_price = first_value energy_fee (reverse parameters);
  bandwidth_price = first_value transaction_fee (reverse parameters);
}
chain_parameters_lem_example = chain_parameters_lem parameters

abbrev prices : FeePrices
prices = record { energy_price = some (natural 210); bandwidth_price = some (natural 1000) }

abbrev nothing : FeePrices
nothing = record { energy_price = none; bandwidth_price = none }

abbrev empty_cache : SimpleExpirationCache FeePrices
empty_cache = new_cache nothing 10

abbrev known : Result Text FeePrices
known = ok prices

estimate_fee_lem_example :
    (estimate_fee 50 51 known 300 7 empty_cache).0 ≡ ok (natural (300 * 1000 + 7 * 210))
unfolding get_fee_prices new_cache
estimate_fee_lem_example =
    estimate_fee_lem 50 51 known 300 7 1000 210 empty_cache (omega arith) (omega arith) refl

-- The second call, 5 later, has an answer of the first.
abbrev first : Reading Text
first = record { asked = 50; now = 51; answer = known }

abbrev retry : Reading Text
retry = record { asked = 56; now = 57; answer = err (codes "down") }

fee_prices_fresh_example :
    (retry.answer ≡ ok prices)
    ⊎ ((q : Reading Text) × Has q (first ∷ []) × (q.answer ≡ ok prices) × (56 < q.now + 10))
unfolding get_fee_prices after new_cache
fee_prices_fresh_example = fee_prices_fresh nothing 10 (first ∷ []) retry prices (omega arith) refl

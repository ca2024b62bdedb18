-- ===== src/Am/Chains.antt =====
-- The entries ETH and TRX of the table of blockchains, from blockchain/eth/eth.go and blockchain/trx/trx.go, as
-- am/server.go uses them: `rand.Reader` is the source of random bytes. BNB is a copy of ETH with another type.
pub mod Verified
pub mod Tests
use agents_go.Prelude.{Option, none, some, Text, Result, map_err, Fault, failed}
use agents_go.Chain.{Curve, public_key_from_private_key, recover_address, random_key, sign_data}
use agents_go.Trx.Addresses.{Base58, tron_random_key}
use agents_go.Trx.Addresses as Trx
use agents_go.Am.Server.{Chain}

unfoldable pub eth_chain : {E K R : Type 0} → Curve E K R → Chain (Fault E)
eth_chain curve = record {
  recover_address = λ pk. recover_address curve none (some pk);
  public_from_private_key = λ pk. map_err failed (public_key_from_private_key curve pk);
  generated = random_key curve (some curve.rand_reader);
  sign = λ payload pk. map_err failed (sign_data curve payload pk);
}

unfoldable pub trx_chain : {E K R : Type 0} → Curve E K R → Base58 E → Chain (Fault E)
trx_chain curve base58 = record {
  recover_address = λ pk. Trx.recover_address curve base58 none (some pk);
  public_from_private_key = λ pk. map_err failed (public_key_from_private_key curve pk);
  generated = tron_random_key curve base58 (some curve.rand_reader);
  sign = λ payload pk. map_err failed (sign_data curve payload pk);
}

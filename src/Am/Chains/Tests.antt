-- ===== src/Am/Chains/Tests.antt =====
-- An account of a concrete chain, for am/server.go with blockchain/eth/eth.go: the private key is generated.
use agents_go.Prelude.{
  ◌≡◌, refl, true, Option, none, some, [], ◌∷◌, ◌++◌, Text, codes, replicate, subst, inl, ok,
  ok_path, Fault, panics,
}
use agents_go.Chain.{verify_data, random_key, sign_data}
use agents_go.Chain.Tests.{curve, curve_verifies}
use agents_go.Trx.Addresses.{Base58}
use agents_go.Am.Server.{
  Account, Chain, found, not_found, Db, AccountResponse, create_account, sign_payload,
}
use agents_go.Am.Server.Signing.{Stores}
use agents_go.Am.Tests.{cipher_of, cipher_of-IsCipher, tag}
use agents_go.Am.Chains.{eth_chain}
use agents_go.Am.Chains.Verified.{verify_data-sign_payload}

abbrev db : Db (Fault Text) (Option Account)
db = record {
  save = λ d a. ok (some a);
  first_by_name = λ d name. not_found;
  first_by_address = λ d address. elim d [ none ↦ not_found | some a ↦ found a ];
  record_not_found = panics;
  invalid_chain_id = panics;
}

db-Stores : Stores db
db-Stores d d' a h = subst (λ o. db.first_by_address o a.address ≡ found a) (ok_path h) refl

abbrev base58 : Base58 Text
base58 = record { encode = λ b. b; decode = ok; sha256 = λ t. replicate 32 1 }

abbrev chains : Text → Option (Chain (Fault Text))
chains t = some (eth_chain curve)

abbrev stored : Account
stored = record {
  name = some (codes "n");
  network_type = codes "ETH";
  address = replicate 20 1;
  private_key = replicate 16 1 ++ (replicate 24 2 ++ (9 ∷ tag));
  public_key = 4 ∷ 9 ∷ [];
}

abbrev reply : AccountResponse
reply = record { address = replicate 20 1; name = codes "n"; public_key = 4 ∷ 9 ∷ [] }

created :
    create_account
      (cipher_of panics)
      db
      chains
      (codes "k")
      (replicate 16 1)
      (replicate 24 2)
      (codes "ETH")
      (codes "n")
      none
      none
    ≡ ok (some stored, reply)
unfolding create_account eth_chain random_key
created = refl

signed :
    sign_payload
      (cipher_of panics)
      db
      chains
      (codes "k")
      (codes "ETH")
      []
      (replicate 20 1)
      (codes "data")
      (some stored)
    ≡ ok (replicate 65 7)
unfolding sign_payload eth_chain sign_data
signed = refl

verify_data-sign_payload_example :
    verify_data curve (codes "data") (replicate 65 7) (4 ∷ 9 ∷ []) ≡ ok true
verify_data-sign_payload_example =
    verify_data-sign_payload curve (cipher_of panics) db chains (codes "k") (λ k. refl)
      curve_verifies base58 (replicate 16 1) (replicate 24 2) (codes "ETH") (codes "n") none
      (codes "data") (replicate 65 7) none (some stored) reply (cipher_of-IsCipher panics) db-Stores
      refl refl (inl refl) created signed

-- ===== src/Pkcs/Tests.antt =====
-- A token that holds the identifiers of its key pairs, for pkcs/server.go.
use agents_go.Prelude.{
  ℕ, ◌≡◌, ◌≢◌, refl, sym, ap, ◌∙◌, inl, inr, true, Bool-cases, Option, none, some, List, [], ◌∷◌,
  Text, codes, text_eq, text_eq_iff, if◌then◌else◌, length, replicate, arith, Result, ok, err,
  ok_path, Fault,
}
use agents_go.Chain.{Curve, address_from_public_key, key_hash}
use agents_go.Pkcs.{
  Token, not_found, unimplemented, to_key_id, address_of, create_account, get_account,
  account_of_pair,
}
use agents_go.Pkcs.Lost.{get_account-create_account}

abbrev find_id : Text → List Text → Option Text
find_id id [] = none
find_id id (k ∷ ks) = if text_eq id k then some k else find_id id ks

-- A key pair is its identifier.
abbrev token : Token Text (List Text) Text
token = record {
  generate = λ id d. ok (id, id ∷ d);
  find = λ id d. ok (find_id id d);
  find_all = λ d. ok d;
  random_reader = λ d. none;
  x_bytes = λ k. k;
  curve_name = λ k. codes "secp256k1";
}

abbrev curve : Curve Text Text Text
curve = record {
  to_ecdsa = ok;
  from_ecdsa_pub = λ k. 4 ∷ k;
  from_ecdsa = λ k. k;
  sign = λ payload k. ok payload;
  verify_signature = λ pk payload sig. true;
  keccak256 = λ t. replicate 32 (length t);
  generate_key = ok;
  rand_reader = [];
  bytes_to_address = λ b. b;
  address_hex = λ a. a;
  no_keys = [];
}

abbrev chains : Text → Option (Option Text → Option Text → Result (Fault Text) Text)
chains t = none

keeps :
    (id other : Text) (d d' : List Text) (signer : Text)
    → token.generate id d ≡ ok (signer, d')
    → id ≢ other
    → token.find other d' ≡ token.find other d
keeps id other d d' signer made apart =
    let stored : id ∷ d ≡ d' = ap (λ (r : Text × List Text). r.1) (ok_path made) in
    ap (λ t. ok (find_id other t)) (sym stored)
    ∙ ap ok (elim (Bool-cases (text_eq other id)) [
      | inl same ↦ absurd (apart (sym ((text_eq_iff other id).0 same)))
      | inr differs ↦ rw differs refl
    ])

abbrev head : Text → ℕ
head [] = 0
head (c ∷ s) = c

eth_tbd : codes "ETH" ≢ codes "TBD"
eth_tbd e = omega (arith, ap head e)

abbrev created : List Text
created = codes "ETH:a" ∷ []

get_account-create_account_example :
    get_account token chains (codes "a") created ≡ get_account token chains (codes "a") []
unfolding create_account to_key_id address_of address_from_public_key key_hash
get_account-create_account_example =
    get_account-create_account token curve chains keeps (codes "ETH") (codes "a") (codes "a") []
      created (replicate 20 4) unimplemented (ground arith, (ground arith, (ground arith, tt)))
      eth_tbd refl

lost : get_account token chains (codes "a") created ≡ err not_found
unfolding get_account to_key_id account_of_pair
lost = refl

-- ===== src/Pkcs.antt =====
-- pkcs/server.go: `AMPKCSServer`, over a token that crypto11 opens. The token's state is of the type `D`, a key pair on it
-- of the type `S`; what crypto11 does with them is `Token`, and the table of blockchains gives `RecoverAddress`.
pub mod Lost
pub mod Tests
use agents_go.Prelude.{
  Option, none, some, List, [], ◌∷◌, ◌++◌, Text, codes, Result, ok, err, ◌>>=◌, map_err, Fault,
  panics, failed,
}
use agents_go.Chain.{Curve, address_from_public_key}

-- `GenerateECDSAKeyPair`, `FindKeyPair`, where nil is `none`, `FindAllKeyPairs`, `NewRandomReader`, the bytes of the public
-- key's X, and the name of its curve.
pub record Token (E D S : Type 0) : Type 0 where
  pub generate : Text → D → Result E (S × D)
  pub find : Text → D → Result E (Option S)
  pub find_all : D → Result E (List S)
  pub random_reader : D → Option E
  pub x_bytes : S → Text
  pub curve_name : S → Text

-- The errors; `unsupported` names the chain.
pub data PkcsError (E : Type 0) : Type 0 where
  fault : Fault E → PkcsError E
  unsupported : Text → PkcsError E
  not_found unimplemented : PkcsError E

-- `toKeyId`.
unfoldable pub to_key_id : Text → Text → Text
to_key_id network_type name = network_type ++ b':' ∷ name

module _ {E D S K R : Type 0} (token : Token E D S) (curve : Curve E K R) where
  -- The address of a key pair: the bytes of X take the place of a public key.
  unfoldable pub address_of : S → Result (PkcsError E) Text
  unfolding address_from_public_key
  address_of signer = do
    addr ← map_err fault (address_from_public_key curve (token.x_bytes signer))
    ok (curve.address_hex addr)

  -- `CreateAccount` with what `GenerateECDSAKeyPair` gives: an error of it is a panic, and the response comes
  -- with the error `Unimplemented` in any case.
  unfoldable pub create_account : Text → Text → D → Result (PkcsError E) (D × Text × PkcsError E)
  unfolding to_key_id address_of
  create_account chain_type name d = do
    (signer, d') ← map_err (λ e. fault panics) (token.generate (to_key_id chain_type name) d)
    addr ← address_of signer
    ok (d', addr, unimplemented)

  -- The loop of `ListAccounts`: name and address.
  listed : List S → Result (PkcsError E) (List (Text × Text))
  unfolding address_of
  listed [] = ok []
  listed (signer ∷ signers) = do
    addr ← address_of signer
    rest ← listed signers
    ok ((token.curve_name signer, addr) ∷ rest)

  unfoldable pub list_accounts : D → Result (PkcsError E) (List (Text × Text))
  unfolding listed
  list_accounts d = map_err (λ e. fault (failed e)) (token.find_all d) >>= listed

module _ {E D S : Type 0} (token : Token E D S)
    (chains : Text → Option (Option Text → Option Text → Result (Fault E) Text)) where
  -- With the table's entry for the chain.
  recovered :
      S → Option (Option Text → Option Text → Result (Fault E) Text) → Result (PkcsError E) Text
  recovered signer none = err (unsupported (codes "ETH"))
  recovered signer (some recover_address) =
      map_err fault (recover_address (some (token.x_bytes signer)) none)

  account_of_pair : Option S → Result (PkcsError E) Text
  unfolding recovered
  account_of_pair none = err not_found
  account_of_pair (some signer) = recovered signer (chains (codes "ETH"))

  -- `GetAccount`: the address.
  unfoldable pub get_account : Text → D → Result (PkcsError E) Text
  unfolding to_key_id account_of_pair
  get_account name d = do
    pair ← map_err (λ e. fault (failed e)) (token.find (to_key_id (codes "TBD") name) d)
    account_of_pair pair

module _ {E D S : Type 0} (token : Token E D S) where
  -- From the random reader on: a nil signer panics, and the signature that another makes is dropped.
  sign_with : Option S → Option E → PkcsError E
  sign_with signer (some e) = fault (failed e)
  sign_with none none = fault panics
  sign_with (some signer) none = unimplemented

  sign_found : Result E (Option S) → Option E → PkcsError E
  unfolding sign_with
  sign_found (err e) reader = fault (failed e)
  sign_found (ok signer) reader = sign_with signer reader

  -- `SignPayload`: the error that it ends with.
  unfoldable pub sign_payload : Text → D → PkcsError E
  unfolding to_key_id sign_found
  sign_payload name d =
      sign_found (token.find (to_key_id (codes "TBD") name) d) (token.random_reader d)

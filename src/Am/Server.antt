-- ===== src/Am/Server.antt =====
-- am/server.go: `CreateAccount`, `GetAccount` and `SignPayload`. The table of chains is a function, the database is of
-- the type `D` with its queries in `Db`; the random bytes are arguments, and Go's nil and the empty name are `none`
-- and `[]`.
pub mod Signing
use agents_go.Prelude.{
  Bool, Option, none, some, List, [], ◌∷◌, Text, if◌then◌else◌, is_empty, Result, ok, err, ◌>>=◌,
}
use agents_go.Chain.{KeyPair}
use agents_go.Am.Encryption.{Cipher, encrypt, decrypt}

pub record Account : Type 0 where
  pub name : Option Text
  pub network_type : Text
  pub address : Text
  pub private_key : Text
  pub public_key : Text

-- What the server calls of `Blockchain`; `generated` is what `GenerateAccount` answers.
pub record Chain (E : Type 0) : Type 0 where
  pub recover_address : Text → Result E Text
  pub public_from_private_key : Text → Result E Text
  pub generated : Result E KeyPair
  pub sign : Text → Text → Result E Text

-- gorm's `First`; a missing record is an error of its own there.
pub data First (E : Type 0) : Type 0 where
  found : Account → First E
  not_found : First E
  failed : E → First E

pub record Db (E D : Type 0) : Type 0 where
  pub save : D → Account → Result E D
  pub first_by_name : D → Text → First E
  pub first_by_address : D → Text → First E
  pub record_not_found : E
  pub invalid_chain_id : E

pub record AccountResponse : Type 0 where
  pub address : Text
  pub name : Text
  pub public_key : Text

module _ {E D : Type 0} (cipher : Cipher E) (db : Db E D) (chains : Text → Option (Chain E))
    (encryption_key : Text) where
  -- The two branches of `CreateAccount`: the pair of keys, with the private key encrypted.
  unfoldable pub encrypted_keys : Chain E → Text → Text → Option Text → Result E KeyPair
  unfolding encrypt
  encrypted_keys bc salt nonce (some private_key) = do
    encrypted_key ← encrypt cipher encryption_key salt nonce private_key
    address ← bc.recover_address private_key
    public_key ← bc.public_from_private_key private_key
    ok (record { address = address; private_key = encrypted_key; public_key = public_key })
  encrypted_keys bc salt nonce none = do
    kp ← bc.generated
    encrypted_key ← encrypt cipher encryption_key salt nonce kp.private_key
    ok (record { address = kp.address; private_key = encrypted_key; public_key = kp.public_key })

  -- What is saved; an empty name is stored as nil.
  unfoldable pub account_of : Text → Text → KeyPair → Account
  account_of chain_type name keys = record {
    name = if is_empty name then none else some name;
    network_type = chain_type;
    address = keys.address;
    private_key = keys.private_key;
    public_key = keys.public_key;
  }

  unfoldable pub create_with :
      Chain E → Text → Text → Text → Text → Option Text → D → Result E (D × AccountResponse)
  unfolding encrypted_keys account_of
  create_with bc salt nonce chain_type name private_key d = do
    keys ← encrypted_keys bc salt nonce private_key
    d' ← db.save d (account_of chain_type name keys)
    ok (d', record { address = keys.address; name = name; public_key = keys.public_key })

  unfoldable pub create_account :
      Text → Text → Text → Text → Option Text → D → Result E (D × AccountResponse)
  unfolding create_with
  create_account salt nonce chain_type name private_key d = elim (chains chain_type) [
    | none ↦ err db.invalid_chain_id
    | some bc ↦ create_with bc salt nonce chain_type name private_key d
  ]

  -- The query of `GetAccount` and `SignPayload`: by name if there is one, else by address.
  pub find_account : Text → Text → D → First E
  find_account name address d =
      if is_empty name then db.first_by_address d address else db.first_by_name d name

  name_text : Option Text → Text
  name_text none = []
  name_text (some name) = name

  account_reply : First E → Result E AccountResponse
  unfolding name_text
  account_reply (found acc) =
      ok (record { address = acc.address; name = name_text acc.name; public_key = acc.public_key })
  account_reply not_found = ok (record { address = []; name = []; public_key = [] })
  account_reply (failed e) = err e

  pub get_account : Text → Text → D → Result E AccountResponse
  unfolding account_reply find_account
  get_account name address d = account_reply (find_account name address d)

  sign_found : Chain E → Text → First E → Result E Text
  unfolding decrypt
  sign_found bc payload (found account) =
      decrypt cipher encryption_key account.private_key >>= bc.sign payload
  sign_found bc payload not_found = err db.record_not_found
  sign_found bc payload (failed e) = err e

  unfoldable pub sign_payload : Text → Text → Text → Text → D → Result E Text
  unfolding sign_found find_account
  sign_payload chain_type name address payload d = elim (chains chain_type) [
    | none ↦ err db.invalid_chain_id
    | some bc ↦ sign_found bc payload (find_account name address d)
  ]

-- ===== src/Am/Server/Signing.antt =====
-- What am/server.go signs with an account that it has created.
use agents_go.Prelude.{
  ◌≡◌, refl, sym, ap, ◌∙◌, subst, Option, none, some, [], ◌∷◌, Text, is_empty, length, true,
  if◌then◌else◌, Result, ok, ◌>>=◌, >>=-eq-ok, ok_path,
}
use agents_go.Am.Encryption.{Cipher, encrypt, decrypt}
use agents_go.Am.Encryption.RoundTrip.{IsCipher, decrypt-encrypt}
use agents_go.Chain.{KeyPair}
use agents_go.Am.Server.{
  Account, Chain, First, found, Db, AccountResponse, encrypted_keys, account_of, create_with,
  create_account, find_account, name_text, account_reply, get_account, sign_found, sign_payload,
}

-- A saved account is found under its address.
abbrev pub Stores : {E D : Type 0} → Db E D → Type 0
Stores {E} {D} db =
    (d d' : D) (a : Account) → db.save d a ≡ ok d' → db.first_by_address d' a.address ≡ found a

empty_nil : (t : Text) → is_empty t ≡ true → [] ≡ t
empty_nil [] h = refl
empty_nil (x ∷ t) h = cc

module _ {E D : Type 0} (cipher : Cipher E) (db : Db E D) (chains : Text → Option (Chain E))
    (encryption_key : Text) where
  -- The private key that is stored is decrypted to the one that was given.
  pub keys-decrypt :
      (bc : Chain E) (salt nonce private_key : Text) (keys : KeyPair)
      → IsCipher cipher
      → length salt ≡ 16
      → length nonce ≡ 24
      → encrypted_keys cipher db chains encryption_key bc salt nonce (some private_key) ≡ ok keys
      → decrypt cipher encryption_key keys.private_key ≡ ok private_key
  unfolding encrypted_keys
  keys-decrypt bc salt nonce private_key keys laws hs hn h =
      let last : Text → Text → Text → Result E KeyPair =
        λ k a p. ok (record { address = a; private_key = k; public_key = p }) in
      let recovered : Text → Text → Result E KeyPair =
        λ k a. bc.public_from_private_key private_key >>= (last k a) in
      let sealed_with : Text → Result E KeyPair =
        λ k. bc.recover_address private_key >>= (recovered k) in
      let (sealed, made, opened) =
        decrypt-encrypt cipher encryption_key salt nonce private_key laws hs hn in
      let (k, is_k, h1) =
        >>=-eq-ok (encrypt cipher encryption_key salt nonce private_key) sealed_with keys h in
      let (a, is_a, h2) = >>=-eq-ok (bc.recover_address private_key) (recovered k) keys h1 in
      let (p, is_p, h3) = >>=-eq-ok (bc.public_from_private_key private_key) (last k a) keys h2 in
      let same : k ≡ keys.private_key = ap (λ (r : KeyPair). r.private_key) (ok_path h3) in
      ap (decrypt cipher encryption_key) (sym (ok_path (sym made ∙ is_k) ∙ same)) ∙ opened

  create_known :
      (bc : Chain E) (salt nonce chain_type name : Text) (private_key : Option Text) (d : D)
      → chains chain_type ≡ some bc
      → create_account cipher db chains encryption_key salt nonce chain_type name private_key d
        ≡ create_with cipher db chains encryption_key bc salt nonce chain_type name private_key d
  unfolding create_account create_with
  create_known bc salt nonce chain_type name private_key d e = rw (e, create_account)

  sign_known :
      (bc : Chain E) (chain_type address payload : Text) (d : D)
      → chains chain_type ≡ some bc
      → sign_payload cipher db chains encryption_key chain_type [] address payload d
        ≡ sign_found cipher db chains encryption_key bc payload (db.first_by_address d address)
  unfolding find_account sign_payload sign_found
  sign_known bc chain_type address payload d e = rw (e, sign_payload)

  reply-name :
      (name : Text)
      → name_text cipher db chains encryption_key (if is_empty name then none else some name) ≡ name
  unfolding name_text
  reply-name [] = refl
  reply-name (x ∷ name) = refl

  signs_stored :
      (bc : Chain E) (private_key payload : Text) (account : Account) (o : First E)
      → o ≡ found account
      → decrypt cipher encryption_key account.private_key ≡ ok private_key
      → sign_found cipher db chains encryption_key bc payload o ≡ bc.sign payload private_key
  unfolding sign_found
  signs_stored bc private_key payload account o e opened = rw (e, sign_found) (rw opened)

  -- `SignPayload` signs with the private key of the account that is found under the address.
  pub sign_payload-found :
      (bc : Chain E) (chain_type address private_key payload : Text) (d : D) (account : Account)
      → chains chain_type ≡ some bc
      → db.first_by_address d address ≡ found account
      → decrypt cipher encryption_key account.private_key ≡ ok private_key
      → sign_payload cipher db chains encryption_key chain_type [] address payload d
        ≡ bc.sign payload private_key
  sign_payload-found bc chain_type address private_key payload d account hc there opened =
      sign_known bc chain_type address payload d hc
      ∙ signs_stored bc private_key payload account (db.first_by_address d address) there opened

  replies_stored :
      (chain_type name : Text) (keys : KeyPair) (o : First E)
      → o ≡ found (account_of cipher db chains encryption_key chain_type name keys)
      → account_reply cipher db chains encryption_key o
        ≡ ok (record { address = keys.address; name = name; public_key = keys.public_key })
  unfolding account_reply account_of
  replies_stored chain_type name keys o e =
      ap (account_reply cipher db chains encryption_key) e
      ∙ ap (λ n. ok (record { address = keys.address; name = n; public_key = keys.public_key }))
          (reply-name name)

  -- What a `CreateAccount` that succeeds has saved and answered.
  pub create_account-saved :
      (bc : Chain E) (salt nonce chain_type name : Text) (private_key : Option Text) (d d' : D)
      (reply : AccountResponse)
      → chains chain_type ≡ some bc
      → create_account cipher db chains encryption_key salt nonce chain_type name private_key d
        ≡ ok (d', reply)
      → (keys : KeyPair) × (encrypted_keys cipher db chains encryption_key bc salt nonce private_key
          ≡ ok keys)
        × (db.save d (account_of cipher db chains encryption_key chain_type name keys) ≡ ok d')
        × (record { address = keys.address; name = name; public_key = keys.public_key } ≡ reply)
  unfolding create_with
  create_account-saved bc salt nonce chain_type name private_key d d' reply hc h =
      let answer : KeyPair → D → Result E (D × AccountResponse) = λ keys e.
        ok (e, record { address = keys.address; name = name; public_key = keys.public_key }) in
      let saved : KeyPair → Result E (D × AccountResponse) = λ keys.
        db.save d (account_of cipher db chains encryption_key chain_type name keys)
        >>= (answer keys) in
      let (keys, is_keys, h1) =
        >>=-eq-ok (encrypted_keys cipher db chains encryption_key bc salt nonce private_key) saved
          (d', reply) (sym (create_known bc salt nonce chain_type name private_key d hc) ∙ h) in
      let account = account_of cipher db chains encryption_key chain_type name keys in
      let (e, is_saved, h2) = >>=-eq-ok (db.save d account) (answer keys) (d', reply) h1 in
      let same = ok_path h2 in
      (
        keys,
        is_keys,
        is_saved ∙ ap (λ (r : D × AccountResponse). ok r.0) same,
        ap (λ (r : D × AccountResponse). r.1) same,
      )

  -- If `CreateAccount` succeeds with a private key, then `SignPayload` for the address that it returned gives the
  -- signature by that private key, and `GetAccount` for it gives the same answer again, with an encryption key or
  -- without.
  pub sign_payload-create_account :
      (bc : Chain E) (salt nonce chain_type name private_key payload : Text) (d d' : D)
      (reply : AccountResponse)
      → IsCipher cipher
      → Stores db
      → length salt ≡ 16
      → length nonce ≡ 24
      → chains chain_type ≡ some bc
      → create_account cipher db chains encryption_key salt nonce chain_type name
          (some private_key)
          d
        ≡ ok (d', reply)
      → (sign_payload cipher db chains encryption_key chain_type [] reply.address payload d'
          ≡ bc.sign payload private_key)
        × (get_account cipher db chains encryption_key [] reply.address d' ≡ ok reply)
  unfolding get_account find_account account_of
  sign_payload-create_account bc salt nonce chain_type name private_key payload d d' reply laws
        stores hs hn hc h =
      let (keys, is_keys, is_saved, answered) =
        create_account-saved bc salt nonce chain_type name (some private_key) d d' reply hc h in
      let account = account_of cipher db chains encryption_key chain_type name keys in
      let there = stores d d' account is_saved in
      let opened = keys-decrypt bc salt nonce private_key keys laws hs hn is_keys in
      subst
        (λ (r : AccountResponse).
          (sign_payload cipher db chains encryption_key chain_type [] r.address payload d'
            ≡ bc.sign payload private_key)
          × (get_account cipher db chains encryption_key [] r.address d' ≡ ok r))
        answered
        (
          sign_payload-found bc chain_type keys.address private_key payload d' account hc there
              opened,
          replies_stored chain_type name keys _ there,
        )

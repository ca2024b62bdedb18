-- ===== src/Am/Chains/Verified.antt =====
-- Signatures of the account manager, verified by blockchain/eth/eth.go, which Tron's entry names too.
use agents_go.Prelude.{
  ◌≡◌, refl, sym, ap, ◌∙◌, ◌⊎◌, inl, inr, subst, true, Option, none, some, [], Text, length, take,
  Result, ok, ◌>>=◌, >>=-eq-ok, ok_path, map_err, map_err-ok, Fault, failed,
}
use agents_go.Chain.{Curve, KeyPair, verify_data, sign_data, public_key_from_private_key}
use agents_go.Chain.Keys.{random_key_lem, sign_data-verify_data}
use agents_go.Am.Encryption.{Cipher, encrypt, decrypt}
use agents_go.Am.Encryption.RoundTrip.{IsCipher, decrypt-encrypt}
use agents_go.Am.Server.{
  Chain, Db, AccountResponse, encrypted_keys, account_of, create_account, sign_payload,
}
use agents_go.Am.Server.Signing.{Stores, sign_payload-found, keys-decrypt, create_account-saved}
use agents_go.Trx.Addresses.{Base58}
use agents_go.Trx.Addresses.Keys.{tron_random_key-public}
use agents_go.Am.Chains.{eth_chain, trx_chain}

module _ {E D : Type 0} (cipher : Cipher E) (db : Db E D) (chains : Text → Option (Chain E))
    (encryption_key : Text) where
  -- The private key behind the stored one, and its public key.
  abbrev pub Holds : Chain E → KeyPair → Type 0
  Holds bc keys =
      (pk : Text) × (decrypt cipher encryption_key keys.private_key ≡ ok pk)
      × (bc.public_from_private_key pk ≡ ok keys.public_key)

  keys-Holds :
      (bc : Chain E) (salt nonce : Text) (private_key : Option Text) (keys : KeyPair)
      → IsCipher cipher
      → length salt ≡ 16
      → length nonce ≡ 24
      → ((kp : KeyPair)
          → bc.generated ≡ ok kp
          → bc.public_from_private_key kp.private_key ≡ ok kp.public_key)
      → encrypted_keys cipher db chains encryption_key bc salt nonce private_key ≡ ok keys
      → Holds bc keys
  unfolding encrypted_keys
  keys-Holds bc salt nonce (some private_key) keys laws hs hn pairs h =
      let last : Text → Text → Text → Result E KeyPair =
        λ k a p. ok (record { address = a; private_key = k; public_key = p }) in
      let recovered : Text → Text → Result E KeyPair =
        λ k a. bc.public_from_private_key private_key >>= (last k a) in
      let sealed_with : Text → Result E KeyPair =
        λ k. bc.recover_address private_key >>= (recovered k) in
      let (k, is_k, h1) =
        >>=-eq-ok (encrypt cipher encryption_key salt nonce private_key) sealed_with keys h in
      let (a, is_a, h2) = >>=-eq-ok (bc.recover_address private_key) (recovered k) keys h1 in
      let (p, is_p, h3) = >>=-eq-ok (bc.public_from_private_key private_key) (last k a) keys h2 in
      (
        private_key,
        keys-decrypt cipher db chains encryption_key bc salt nonce private_key keys laws hs hn h,
        is_p ∙ ap (λ (r : KeyPair). ok r.public_key) (ok_path h3),
      )
  keys-Holds bc salt nonce none keys laws hs hn pairs h =
      let last : KeyPair → Text → Result E KeyPair =
        λ kp k. ok (record { address = kp.address; private_key = k; public_key = kp.public_key }) in
      let sealed_with : KeyPair → Result E KeyPair =
        λ kp. encrypt cipher encryption_key salt nonce kp.private_key >>= last kp in
      let (kp, is_kp, h1) = >>=-eq-ok bc.generated sealed_with keys h in
      let (k, is_k, h2) =
        >>=-eq-ok (encrypt cipher encryption_key salt nonce kp.private_key) (last kp) keys h1 in
      let (sealed, made, opened) =
        decrypt-encrypt cipher encryption_key salt nonce kp.private_key laws hs hn in
      subst (Holds bc) (ok_path h2) (
        kp.private_key,
        ap (decrypt cipher encryption_key) (ok_path (sym is_k ∙ made)) ∙ opened,
        pairs kp is_kp,
      )

module _ {F K R D : Type 0} (curve : Curve F K R) (cipher : Cipher (Fault F)) (db : Db (Fault F) D)
    (chains : Text → Option (Chain (Fault F))) (encryption_key : Text)
    (reads_back : (k : K) → curve.to_ecdsa (curve.from_ecdsa k) ≡ ok k)
    (verifies : (k : K) (payload sig : Text)
      → curve.sign payload k ≡ ok sig
      → (length sig ≡ 65)
        × (curve.verify_signature (curve.from_ecdsa_pub k) payload (take 64 sig) ≡ true)) where
  -- A chain signs with the curve, and the public key of a generated pair is that of its private key.
  abbrev SignsWith : Chain (Fault F) → Type 0
  SignsWith bc =
      ((pk : Text)
        → bc.public_from_private_key pk ≡ map_err failed (public_key_from_private_key curve pk))
      × ((payload pk : Text) → bc.sign payload pk ≡ map_err failed (sign_data curve payload pk))
      × ((kp : KeyPair)
          → bc.generated ≡ ok kp
          → bc.public_from_private_key kp.private_key ≡ ok kp.public_key)

  eth_chain-SignsWith : SignsWith (eth_chain curve)
  unfolding eth_chain
  eth_chain-SignsWith = (
    (λ pk. refl),
    (λ payload pk. refl),
    (λ kp h. ap (map_err failed) (random_key_lem curve reads_back (some curve.rand_reader) kp h).0),
  )

  trx_chain-SignsWith : (base58 : Base58 F) → SignsWith (trx_chain curve base58)
  unfolding trx_chain
  trx_chain-SignsWith base58 = (
    (λ pk. refl),
    (λ payload pk. refl),
    (λ kp h.
        ap (map_err failed)
          (tron_random_key-public curve base58 reads_back (some curve.rand_reader) kp h)),
  )

  -- The same for any chain that signs with the curve.
  verify_data-signed :
      (bc : Chain (Fault F)) (salt nonce chain_type name : Text) (private_key : Option Text)
      (payload sig : Text) (d d' : D) (reply : AccountResponse)
      → SignsWith bc
      → IsCipher cipher
      → Stores db
      → length salt ≡ 16
      → length nonce ≡ 24
      → chains chain_type ≡ some bc
      → create_account cipher db chains encryption_key salt nonce chain_type name private_key d
        ≡ ok (d', reply)
      → sign_payload cipher db chains encryption_key chain_type [] reply.address payload d' ≡ ok sig
      → verify_data curve payload sig reply.public_key ≡ ok true
  unfolding account_of
  verify_data-signed bc salt nonce chain_type name private_key payload sig d d' reply
        (publics, signs, generates) laws stores hs hn hc h signed =
      let (keys, is_keys, is_saved, answered) =
        create_account-saved cipher db chains encryption_key bc salt nonce chain_type name
          private_key d d' reply hc h in
      let (pk, opened, public) =
        keys-Holds cipher db chains encryption_key bc salt nonce private_key keys laws hs hn
          generates is_keys in
      let account = account_of cipher db chains encryption_key chain_type name keys in
      let there = stores d d' account is_saved in
      let at_address : sign_payload cipher db chains encryption_key chain_type [] keys.address
            payload d'
          ≡ ok sig =
        ap
          (λ (r : AccountResponse).
            sign_payload cipher db chains encryption_key chain_type [] r.address payload d')
          answered
        ∙ signed in
      let made : map_err failed (sign_data curve payload pk) ≡ ok sig =
        sym (signs payload pk)
        ∙ sym (
            sign_payload-found cipher db chains encryption_key bc chain_type keys.address pk payload
              d' account hc there opened)
        ∙ at_address in
      sign_data-verify_data curve verifies payload pk reply.public_key sig
        (map_err-ok failed (sign_data curve payload pk) sig made)
        (map_err-ok failed (public_key_from_private_key curve pk) reply.public_key
          (sym (publics pk) ∙ public ∙ ap (λ (r : AccountResponse). ok r.public_key) answered))

  -- A signature that `SignPayload` gives for the address of an account that `CreateAccount` made, of a private key
  -- or of a new one, on the Ethereum chain or on Tron, is one that `VerifyData` accepts with the public key that
  -- `CreateAccount` answered, without a panic. The cipher opens what it seals, the database finds what it saved, and
  -- go-ethereum reads back the keys that it writes and verifies the first 64 of the 65 bytes of its signatures.
  pub verify_data-sign_payload :
      (base58 : Base58 F) (salt nonce chain_type name : Text) (private_key : Option Text)
      (payload sig : Text) (d d' : D) (reply : AccountResponse)
      → IsCipher cipher
      → Stores db
      → length salt ≡ 16
      → length nonce ≡ 24
      → (chains chain_type ≡ some (eth_chain curve))
        ⊎ (chains chain_type ≡ some (trx_chain curve base58))
      → create_account cipher db chains encryption_key salt nonce chain_type name private_key d
        ≡ ok (d', reply)
      → sign_payload cipher db chains encryption_key chain_type [] reply.address payload d' ≡ ok sig
      → verify_data curve payload sig reply.public_key ≡ ok true
  verify_data-sign_payload base58 salt nonce chain_type name private_key payload sig d d' reply laws
        stores hs hn (inl hc) =
      verify_data-signed (eth_chain curve) salt nonce chain_type name private_key payload sig d d'
        reply eth_chain-SignsWith laws stores hs hn hc
  verify_data-sign_payload base58 salt nonce chain_type name private_key payload sig d d' reply laws
        stores hs hn (inr hc) =
      verify_data-signed (trx_chain curve base58) salt nonce chain_type name private_key payload sig
        d d' reply (trx_chain-SignsWith base58) laws stores hs hn hc

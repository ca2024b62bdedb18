-- ===== src/Trx/Transfers/Delivery.antt =====
-- A transfer of Tron from the request to the node: `CreateTransfer` and `Send` of agents/trx/server.go, with
-- `SignTransaction` of the Ethereum server between them.
use agents_go.Prelude.{
  ℕ, ◌≡◌, refl, sym, ap, ◌∙◌, true, some, some_path, List, [], ◌∷◌, map, Text, length, take, Result,
  ok, err, ok_path, err-ok,
}
use agents_go.Cache.{SimpleExpirationCache}
use agents_go.Currency.{ChainCurrencyId, chain_currency_from_string}
use agents_go.Chain.{Curve, sign_data, public_key_from_private_key, verify_data}
use agents_go.Chain.Keys.{sign_data-verify_data}
use agents_go.Eth.Construct.{Intent, TransferRequest}
use agents_go.Eth.Send.{SignedTransaction, sign_transaction}
use agents_go.Trx.Fees.{FeePrices}
use agents_go.Trx.Api.{CallResult}
use agents_go.Trx.Transfers.{TrxApiClient, TrxLib, create_transfer, send}
use agents_go.Trx.Transfers.Intents.{IsIntentOf, create_transfer-IsIntentOf}
use agents_go.Trx.Transfers.Sending.{send_lem}

-- A signed intent has the one signature that was made of its payload.
sign_transaction-ok :
    {F : Type 0} (sign : Text → Text → Result F Text) (intent : Intent) (private_key : Text)
    (signed : SignedTransaction)
    → sign_transaction sign intent private_key ≡ ok signed
    → (signature : Text) × (sign intent.payload_to_sign private_key ≡ ok signature)
      × (record { intent = intent; signatures = signature ∷ [] } ≡ signed)
unfolding sign_transaction
sign_transaction-ok {F} sign intent private_key signed h =
    signed_with (sign intent.payload_to_sign private_key) h
  where
    signed_with :
        (r : Result F Text)
        → ◌≡◌ {A = Result F SignedTransaction}
            (elim r [
              | ok signature ↦ ok (record { intent = intent; signatures = signature ∷ [] })
              | err e ↦ err e
            ])
            (ok signed)
        → (signature : Text) × (r ≡ ok signature)
          × (record { intent = intent; signatures = signature ∷ [] } ≡ signed)
    signed_with (ok signature) e = (signature, refl, ok_path e)
    signed_with (err e) h = absurd (err-ok h)

-- A list that is mapped to one element has one element.
single :
    (f : Text → Text) (ts : List Text) (t : Text)
    → map f ts ≡ t ∷ []
    → (s : Text) × (ts ≡ s ∷ []) × (f s ≡ t)
single f [] t h = cc
single f (s ∷ []) t h = (s, refl, cc)
single f (s ∷ r ∷ ts) t h = cc

module _ {E A F K R : Type 0} (lib : TrxLib E A) (curve : Curve F K R)
    (codec : (t : Text) → lib.hex2bytes (lib.bytes2hex t) ≡ t)
    (verifies : (k : K) (payload sig : Text)
      → curve.sign payload k ≡ ok sig
      → (length sig ≡ 65)
        × (curve.verify_signature (curve.from_ecdsa_pub k) payload (take 64 sig) ≡ true)) where
  -- From a request to the node: if `CreateTransfer` gives an intent, `SignTransaction` signs it with a private key, and
  -- `Send` succeeds with that, then the node has accepted the raw data of the transaction that it made of the request,
  -- with one text, which is a signature in hexadecimal that `VerifyData` accepts for the transaction with the public key of
  -- the private one. go-ethereum reads back the hexadecimal text that it writes, and verifies the first 64 of the 65
  -- bytes of its signatures.
  pub send-sign_transaction :
      (asked now : ℕ) (client : TrxApiClient E) (req : TransferRequest)
      (cache u : SimpleExpirationCache FeePrices) (intent : Intent) (private_key public_key : Text)
      (signed : SignedTransaction) (id : Text)
      → create_transfer lib asked now (some client) req cache ≡ (ok intent, u)
      → public_key_from_private_key curve private_key ≡ ok public_key
      → sign_transaction (sign_data curve) intent private_key ≡ ok signed
      → send lib (some client) signed.intent signed.signatures ≡ ok id
      → (cur_id : ChainCurrencyId) × (text : Text) × (res : CallResult)
        × (chain_currency_from_string req.currency_id ≡ some cur_id)
        × IsIntentOf lib asked now client req cur_id cache intent
        × (client.broadcast
              (record { visible = true; raw_data = intent.raw_data; signature = text ∷ [] })
            ≡ ok res)
        × (res.result ≡ true)
        × (verify_data curve intent.payload_to_sign (lib.hex2bytes text) public_key ≡ ok true)
        × (intent.id ≡ id)
  send-sign_transaction asked now client req cache u intent private_key public_key signed id made
        known signing h =
      let (cur_id, parsed, is_intent) =
        create_transfer-IsIntentOf lib asked now client req cache u intent made in
      let (signature, good, same) =
        sign_transaction-ok (sign_data curve) intent private_key signed signing in
      let sent : send lib (some client) intent (signature ∷ []) ≡ ok id =
        ap (λ (x : SignedTransaction). send lib (some client) x.intent x.signatures) same ∙ h in
      let (c, texts, res, is_client, read, answered, fine, named) =
        send_lem lib codec (some client) intent (signature ∷ []) id sent in
      let (text, one, is_signature) = single lib.hex2bytes texts signature read in
      let same_client : c ≡ client = some_path (sym is_client) in
      (
        cur_id,
        text,
        res,
        parsed,
        is_intent,
        sym (
              ap
                (λ (x : TrxApiClient E).
                  x.broadcast
                    (record { visible = true; raw_data = intent.raw_data; signature = text ∷ [] }))
                same_client)
            ∙ ap
                (λ ts.
                  c.broadcast
                    (record { visible = true; raw_data = intent.raw_data; signature = ts }))
                (sym one)
            ∙ answered,
        fine,
        ap (λ t. verify_data curve intent.payload_to_sign t public_key) is_signature
            ∙ sign_data-verify_data curve verifies intent.payload_to_sign private_key public_key
                signature good known,
        named,
      )

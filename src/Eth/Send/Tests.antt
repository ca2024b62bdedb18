-- ===== src/Eth/Send/Tests.antt =====
-- Concrete transfers, for the code of agents/eth/server/construct.go. Addresses of 20 bytes are their own
-- text, and a transaction is written as the list of its numbers, then the length of its receiver, the
-- receiver and the payload.
use agents_go.Prelude.{
  ℕ, ◌≡◌, refl, none, [], ◌∷◌, ◌++◌, Text, codes, length, take, drop, replicate, take-append,
  drop-append, subst, Result, ok, err, ok_path,
}
use agents_go.Conv.Hex.{left_pad_bytes}
use agents_go.Conv.Hex.Pads.{set_bytes}
use agents_go.Currency.{ChainCurrencyId, chain_currency_from_string, is_native}
use agents_go.Eth.Construct.{
  Tx, Node, TxLib, TransferRequest, Intent, address_from_string, parsed_currency, create_transfer,
  native_tx, intent_with,
}
use agents_go.Eth.Construct.Intents.{
  LeftPads, Moves, Signs, create_transfer_lem, create_transfer_native,
}
use agents_go.Eth.Send.{Wire, combine_transaction, send, attach, transmit, answered}
use agents_go.Eth.Send.Laws.{Unmarshals, send-create_transfer}

abbrev encode : Tx → Text
encode tx = tx.nonce ∷ tx.value ∷ tx.gas ∷ tx.gas_price ∷ length tx.to ∷ tx.to ++ tx.payload

abbrev unmarshal : Text → Result ℕ Tx
unmarshal (nonce ∷ value ∷ gas ∷ gas_price ∷ len ∷ rest) = ok (record {
  nonce = nonce;
  to = take len rest;
  value = value;
  gas = gas;
  gas_price = gas_price;
  payload = drop len rest;
})
unmarshal _ = err 1

abbrev lib : TxLib ℕ
lib = record {
  hex_to_address = λ s. s;
  decode = λ s. ok s;
  bytes_to_address = λ s. s;
  left_pad = left_pad_bytes;
  keccak256 = λ s. s;
  sign_hash = encode;
  marshal = λ tx. ok (encode tx);
}

abbrev node : Node ℕ
node = record {
  pending_nonce_at = λ a. ok 6;
  suggest_gas_price = ok 10;
  estimate_gas = λ a b c. ok 50_000;
}

abbrev wire : Wire ℕ (Tx × Text)
wire = record {
  unmarshal = unmarshal;
  with_signature = λ tx signature. ok (tx, signature);
  hash = λ w. encode w.0;
  send_transaction = λ w. none;
}

abbrev alice : Text
alice = replicate 20 1

abbrev bob : Text
bob = replicate 20 2

-- 258 units of the native currency.
abbrev req : TransferRequest
req = record { from = alice; to = bob; currency_id = []; amount = 1 ∷ 2 ∷ [] }

abbrev native : ChainCurrencyId
native = record { address = []; token = [] }

abbrev intent : Intent
intent =
    intent_with lib (native_tx 6 10 bob (1 ∷ 2 ∷ [])) (encode (native_tx 6 10 bob (1 ∷ 2 ∷ [])))

lib-LeftPads : LeftPads lib
lib-LeftPads s l = refl

encode_lem : (tx : Tx) → unmarshal (encode tx) ≡ ok tx
encode_lem tx = rw (take-append tx.to tx.payload, drop-append tx.to tx.payload)

wire-Unmarshals : Unmarshals lib wire
wire-Unmarshals tx raw h = subst (λ r. unmarshal r ≡ ok tx) (ok_path h) (encode_lem tx)

created : create_transfer lib node none req ≡ ok intent
unfolding parsed_currency address_from_string chain_currency_from_string is_native
created =
    create_transfer_native lib node none req 6 10 native bob alice
      (encode (native_tx 6 10 bob (1 ∷ 2 ∷ []))) refl refl refl refl refl refl refl

create_transfer_lem_example :
    (tx : Tx) × (currency : ChainCurrencyId) × (to_address : Text) × (parsed_currency {E = ℕ} []
      ≡ ok currency)
    × (address_from_string lib none bob ≡ ok to_address)
    × Moves lib none tx currency to_address (set_bytes (1 ∷ 2 ∷ []))
    × Signs lib tx intent
create_transfer_lem_example = create_transfer_lem lib node none req intent lib-LeftPads created

send-create_transfer_example :
    (tx : Tx) × (currency : ChainCurrencyId) × (to_address : Text) × (parsed_currency {E = ℕ} []
      ≡ ok currency)
    × (address_from_string lib none bob ≡ ok to_address)
    × Moves lib none tx currency to_address (set_bytes (1 ∷ 2 ∷ []))
    × (wire.with_signature tx (codes "s") ≡ ok (native_tx 6 10 bob (1 ∷ 2 ∷ []), codes "s"))
    × (encode (native_tx 6 10 bob (1 ∷ 2 ∷ []))
        ≡ wire.hash (native_tx 6 10 bob (1 ∷ 2 ∷ []), codes "s"))
unfolding intent_with native_tx send attach transmit answered combine_transaction
send-create_transfer_example =
    send-create_transfer lib node none wire req intent (codes "s") []
      (native_tx 6 10 bob (1 ∷ 2 ∷ []), codes "s") (encode (native_tx 6 10 bob (1 ∷ 2 ∷ [])))
      lib-LeftPads wire-Unmarshals created refl

-- ===== src/Eth/Send/Laws.antt =====
-- What `Send` of agents/eth/server/construct.go gives the node, for an intent of `CreateTransfer`.
use agents_go.Prelude.{◌≡◌, sym, ap, ◌∙◌, Option, none, some, List, ◌∷◌, Text, Result, ok, err}
use agents_go.Conv.Hex.Pads.{set_bytes}
use agents_go.Currency.{ChainCurrencyId}
use agents_go.Eth.Construct.{
  Tx, Node, TxLib, TransferRequest, Intent, address_from_string, parsed_currency, create_transfer,
}
use agents_go.Eth.Construct.Intents.{LeftPads, Moves, create_transfer_lem}
use agents_go.Eth.Send.{Wire, sent, combine_transaction, answered, transmit, attach, send}

-- go-ethereum's `UnmarshalBinary` reads what `MarshalBinary` has written.
abbrev pub Unmarshals : {E W : Type 0} → TxLib E → Wire E W → Type 0
Unmarshals {E} {W} lib wire =
    (tx : Tx) (raw : Text) → lib.marshal tx ≡ ok raw → wire.unmarshal raw ≡ ok tx

module _ {E W : Type 0} (wire : Wire E W) where
  answered-sent :
      (v w : W) (id : Text) (o : Option E)
      → answered wire v o ≡ sent w id
      → (v ≡ w) × (id ≡ wire.hash v)
  unfolding answered
  answered-sent v w id none h = (cc, cc)
  answered-sent v w id (some e) h = cc

  transmit-sent :
      (r : Result E W) (w : W) (id : Text)
      → transmit wire r ≡ sent w id
      → (r ≡ ok w) × (id ≡ wire.hash w)
  unfolding transmit
  transmit-sent (ok v) w id h =
      let (same, named) = answered-sent v w id (wire.send_transaction v) h in
      (ap ok same, named ∙ ap wire.hash same)
  transmit-sent (err e) w id h = cc

  send_unmarshalled :
      (tx : Tx) (intent : Intent) (signature : Text) (rest : List Text)
      → wire.unmarshal intent.raw_data ≡ ok tx
      → send wire (combine_transaction intent (signature ∷ rest))
        ≡ transmit wire (wire.with_signature tx signature)
  unfolding send combine_transaction attach
  send_unmarshalled tx intent signature rest e = ap (attach wire (signature ∷ rest)) e

module _ {E W : Type 0} (lib : TxLib E) (node : Node E) (extension : Option (Text → Result E Text))
    (wire : Wire E W) where
  -- From a request to the node: if `CreateTransfer` succeeds, its intent is combined with a list of
  -- signatures, and `Send` succeeds with that, then what the node was given is the transaction with the first
  -- signature, it moves the amount of the request, in its currency, to its receiver, and the answer is its hash.
  pub send-create_transfer :
      (req : TransferRequest) (intent : Intent) (signature : Text) (rest : List Text) (w : W)
      (id : Text)
      → LeftPads lib
      → Unmarshals lib wire
      → create_transfer lib node extension req ≡ ok intent
      → send wire (combine_transaction intent (signature ∷ rest)) ≡ sent w id
      → (tx : Tx) × (currency : ChainCurrencyId) × (to_address : Text) × (parsed_currency {E = E}
            req.currency_id
          ≡ ok currency)
        × (address_from_string lib extension req.to ≡ ok to_address)
        × Moves lib extension tx currency to_address (set_bytes req.amount)
        × (wire.with_signature tx signature ≡ ok w)
        × (id ≡ wire.hash w)
  send-create_transfer req intent signature rest w id pads reads made h =
      let (tx, currency, to_address, named, receiver, moves, (hashed, payload, marshalled, fee)) =
        create_transfer_lem lib node extension req intent pads made in
      let read = reads tx intent.raw_data marshalled in
      let (signed, answer) =
        transmit-sent wire (wire.with_signature tx signature) w id
          (sym (send_unmarshalled wire tx intent signature rest read) ∙ h) in
      (tx, currency, to_address, named, receiver, moves, signed, answer)

-- ===== src/Eth/Send.antt =====
-- agents/eth/server/construct.go: `CombineTransaction`, `SignTransaction` and `Send`. go-ethereum's
-- functions on signed transactions, of the type `W`, and the node are fields of `Wire`; `sign_data` is
-- `SignData` of blockchain/eth/eth.go.
pub mod Laws
pub mod Tests
use agents_go.Prelude.{Option, none, some, List, [], ◌∷◌, Text, Result, ok, err}
use agents_go.Eth.Construct.{Tx, Intent}

-- `UnmarshalBinary`, `WithSignature`, `Hash`, and the node's `SendTransaction`.
pub record Wire (E W : Type 0) : Type 0 where
  pub unmarshal : Text → Result E Tx
  pub with_signature : Tx → Text → Result E W
  pub hash : W → Text
  pub send_transaction : W → Option E

-- `SignedTransaction`.
pub record SignedTransaction : Type 0 where
  pub intent : Intent
  pub signatures : List Text

-- How `Send` ends: the index of a signature that is not there, an error before the node is asked, the
-- node's error, or the answer, with the transaction that the node was given.
pub data Sending (E W : Type 0) : Type 0 where
  panics : Sending E W
  not_unmarshalled not_signed : E → Sending E W
  rejected : W → E → Sending E W
  sent : W → Text → Sending E W

-- `CombineTransaction`.
pub combine_transaction : Intent → List Text → SignedTransaction
combine_transaction intent signatures = record { intent = intent; signatures = signatures }

-- `SignTransaction`.
unfoldable pub sign_transaction :
    {E : Type 0} → (Text → Text → Result E Text) → Intent → Text → Result E SignedTransaction
sign_transaction sign_data intent private_key =
    elim (sign_data intent.payload_to_sign private_key) [
      | ok signature ↦ ok (record { intent = intent; signatures = signature ∷ [] })
      | err e ↦ err e
    ]

module _ {E W : Type 0} (wire : Wire E W) where
  -- With what the node answers.
  answered : W → Option E → Sending E W
  answered w none = sent w (wire.hash w)
  answered w (some e) = rejected w e

  -- With what `WithSignature` gives.
  transmit : Result E W → Sending E W
  unfolding answered
  transmit (ok w) = answered w (wire.send_transaction w)
  transmit (err e) = not_signed e

  -- With what `UnmarshalBinary` gives; the first signature is taken, whether there is one or not.
  attach : List Text → Result E Tx → Sending E W
  unfolding transmit
  attach signatures (err e) = not_unmarshalled e
  attach [] (ok tx) = panics
  attach (signature ∷ rest) (ok tx) = transmit (wire.with_signature tx signature)

  pub send : SignedTransaction → Sending E W
  unfolding attach
  send signed = attach signed.signatures (wire.unmarshal signed.intent.raw_data)

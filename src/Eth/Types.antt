-- ===== src/Eth/Types.antt =====
-- agents/eth/types/block.go: the JSON of a transaction and of a block, with `FixJsonFields` of commons/fixer.go around
-- the fixes. encoding/json and go-ethereum's decoders are fields of `Decoders`; hashes, transactions, headers and the
-- extra fields are of any types. What a call that fails leaves in its receiver is left out.
pub mod Blocks
pub mod Stripped
pub mod Tests
use agents_go.Prelude.{
  Bool, true, Option, none, some, List, [], ◌∷◌, Text, codes, Result, ok, err, ◌>>=◌, map_err,
}
use agents_go.Fixer.{
  Fields, FixError, fixes_of, fix_json_fields, fixer_zero_hash, fixer_hex_strip_leading_zeros,
}
use agents_go.Fixer as Fixer

-- `json.Unmarshal` into a map and `json.Marshal` of it, the decoding of `hash`, of a transaction and of its extra fields,
-- of a header, and the elements of `transactions`, where null is `none`.
pub record Decoders (E H T X B : Type 0) : Type 0 where
  pub unmarshal : Text → Result E Fields
  pub marshal : Fields → Result E Text
  pub hash_of : Text → Result E H
  pub tx_of : Text → Result E T
  pub extra_of : Text → Result E X
  pub header_of : Text → Result E B
  pub elements_of : Text → Result E (List (Option Text))

pub record RpcTx (H T X : Type 0) : Type 0 where
  pub tx_hash : H
  pub tx : T
  pub extra : X

-- `HeaderWithBody`, with the transactions of its `RpcBody`; a null among them is a nil pointer.
pub record HeaderWithBody (H T X B : Type 0) : Type 0 where
  pub block_hash : H
  pub header : B
  pub transactions : List (Option (RpcTx H T X))

pub data TypesError (E : Type 0) : Type 0 where
  json : E → TypesError E
  fixing : FixError E → TypesError E

module _ {E : Type 0} where
  unfoldable pub fixed : Fixer.Result E Fields → Result (TypesError E) Fields
  fixed (Fixer.ok raw) = ok raw
  fixed (Fixer.err e) = err (fixing e)

-- The fields that the two methods fix.
abbrev pub tx_fields : List (Text × (Text → Text))
tx_fields =
    (codes "nonce", fixer_hex_strip_leading_zeros)
    ∷ (codes "r", fixer_hex_strip_leading_zeros)
    ∷ (codes "s", fixer_hex_strip_leading_zeros)
    ∷ (codes "v", fixer_hex_strip_leading_zeros)
    ∷ []

abbrev pub block_fields : List (Text × (Text → Text))
block_fields = (codes "stateRoot", fixer_zero_hash) ∷ []

module _ {E H T X B : Type 0} (decoders : Decoders E H T X B) where
  -- `FixJsonFields` with its conversions, for missing fields that are ignored.
  unfoldable pub fixed_input : List (Text × (Text → Text)) → Text → Result (TypesError E) Text
  unfolding fixed
  fixed_input fields input = do
    raw ← map_err json (decoders.unmarshal input)
    raw' ← fixed (fix_json_fields true (fixes_of fields) raw)
    map_err json (decoders.marshal raw')

  -- `RpcTx.UnmarshalJSON` behind the fixes.
  unfoldable pub decoded_tx : Text → Result E (RpcTx H T X)
  decoded_tx input = do
    hash ← decoders.hash_of input
    tx ← decoders.tx_of input
    extra ← decoders.extra_of input
    ok (record { tx_hash = hash; tx = tx; extra = extra })

  unfoldable pub unmarshal_tx : Text → Result (TypesError E) (RpcTx H T X)
  unfolding fixed_input decoded_tx
  unmarshal_tx input = do input' ← fixed_input tx_fields input; map_err json (decoded_tx input')

  unmarshal_element : Option Text → Result (TypesError E) (Option (RpcTx H T X))
  unfolding unmarshal_tx
  unmarshal_element none = ok none
  unmarshal_element (some input) = do tx ← unmarshal_tx input; ok (some tx)

  unfoldable pub unmarshal_elements :
      List (Option Text) → Result (TypesError E) (List (Option (RpcTx H T X)))
  unfolding unmarshal_element
  unmarshal_elements [] = ok []
  unmarshal_elements (element ∷ elements) = do
    tx ← unmarshal_element element
    txs ← unmarshal_elements elements
    ok (tx ∷ txs)

  -- `HeaderWithBody.UnmarshalJSON`.
  unfoldable pub unmarshal_block : Text → Result (TypesError E) (HeaderWithBody H T X B)
  unfolding fixed_input unmarshal_elements
  unmarshal_block input = do
    input' ← fixed_input block_fields input
    hash ← map_err json (decoders.hash_of input')
    header ← map_err json (decoders.header_of input')
    elements ← map_err json (decoders.elements_of input')
    txs ← unmarshal_elements elements
    ok (record { block_hash = hash; header = header; transactions = txs })

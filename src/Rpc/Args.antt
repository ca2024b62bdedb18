-- ===== src/Rpc/Args.antt =====
-- agents/eth/rpc/backend.go: `toBlockNumArg`, `toCallArg` and `toFilterArg`. A Go map from strings is the list of its
-- entries, each key once. Texts of numbers are made by the fields of `Print`.
pub mod Keys
use agents_go.Prelude.{
  ℕ, Bool, true, false, not, ◌||◌, Option, none, some, List, [], ◌∷◌, ◌++◌, Text, codes, text_eq,
  is_empty, leb, ltb, ◌^◌, ◌==◌, if◌then◌else◌, Result, ok, err,
}
use agents_go.Conv.Uint256.{BigInt}

-- hexutil.EncodeBig, the `String` of rpc.BlockNumber, and the verb `%d`.
pub record Print : Type 0 where
  pub encode_big : BigInt → Text
  pub block_number : BigInt → Text
  pub decimal : BigInt → Text

-- The values that an argument is made of: common.Address, common.Hash, hexutil.Bytes, Big, Uint64 and Uint, texts, flags,
-- fractions (of the type `F`), and lists.
pub data Value (F : Type 0) : Type 0 where
  address hash bytes text : Text → Value F
  no_address : Value F
  big : BigInt → Value F
  uint64 uint : ℕ → Value F
  flag : Bool → Value F
  addresses : List Text → Value F
  topics : List (List Text) → Value F
  fractions : List F → Value F
  block_hash : Text → Bool → Value F

abbrev pub Fields : Type 0 → Type 0
Fields F = List (Text × Value F)

pub data Arg (F : Type 0) : Type 0 where
  value : Value F → Arg F
  object : Fields F → Arg F

-- An int64 can hold the number.
is_int64 : BigInt → Bool
is_int64 n = if n.negative then leb n.abs (2 ^ 63) else ltb n.abs (2 ^ 63)

-- `toBlockNumArg`.
unfoldable pub to_block_num_arg : Print → Option BigInt → Text
unfolding is_int64
to_block_num_arg print none = codes "latest"
to_block_num_arg print (some number) =
    if not number.negative || (number.abs == 0)
    then print.encode_big number
    else if is_int64 number
    then print.block_number number
    else codes "<invalid " ++ (print.decimal number ++ codes ">")

-- ethereum.CallMsg; the other fields of it are not read.
pub record CallMsg : Type 0 where
  pub from : Text
  pub to : Option Text
  pub call_data : Text
  pub value : Option BigInt
  pub gas : ℕ
  pub gas_price : Option BigInt

-- ethereum.FilterQuery.
pub record FilterQuery : Type 0 where
  pub block_hash : Option Text
  pub from_block : Option BigInt
  pub to_block : Option BigInt
  pub addresses : List Text
  pub topics : List (List Text)

-- The text of `fromBlock`.
from_block_arg : Print → Option BigInt → Text
unfolding to_block_num_arg
from_block_arg print none = codes "0x0"
from_block_arg print (some n) = to_block_num_arg print (some n)

module _ {F : Type 0} where
  -- An entry of the map, if its condition holds.
  abbrev pub entry_if : Bool → Text → Value F → Fields F
  entry_if c key v = if c then (key, v) ∷ [] else []

  abbrev pub big_entry : Text → Option BigInt → Fields F
  big_entry key none = []
  big_entry key (some n) = (key, big n) ∷ []

  to_value : Option Text → Value F
  to_value none = no_address
  to_value (some a) = address a

  -- `toCallArg`.
  unfoldable pub to_call_arg : CallMsg → Fields F
  unfolding to_value
  to_call_arg msg =
      (codes "from", address msg.from)
      ∷ (codes "to", to_value msg.to)
      ∷ (entry_if (not (is_empty msg.call_data)) (codes "data") (bytes msg.call_data)
          ++ (big_entry (codes "value") msg.value
              ++ (entry_if (not (msg.gas == 0)) (codes "gas") (uint64 msg.gas)
                  ++ big_entry (codes "gasPrice") msg.gas_price)))

  -- The two blocks of a query without a block hash.
  unfoldable pub range_fields : Print → FilterQuery → Fields F
  unfolding from_block_arg to_block_num_arg
  range_fields print q =
      (codes "fromBlock", text (from_block_arg print q.from_block))
      ∷ (codes "toBlock", text (to_block_num_arg print q.to_block))
      ∷ []

  -- A query with a block hash has neither block.
  unfoldable pub hash_fields : Text → Option BigInt → Option BigInt → Option (Fields F)
  hash_fields h none none = some ((codes "blockHash", hash h) ∷ [])
  hash_fields h (some n) to_block = none
  hash_fields h none (some n) = none

  selection : Print → FilterQuery → Option (Fields F)
  unfolding range_fields hash_fields
  selection print q = elim q.block_hash [
    | none ↦ some (range_fields print q)
    | some h ↦ hash_fields h q.from_block q.to_block
  ]

  -- `toFilterArg`; its only error is `none`.
  unfoldable pub to_filter_arg : Print → FilterQuery → Option (Fields F)
  unfolding selection
  to_filter_arg print q = elim (selection print q) [
    | none ↦ none
    | some fields ↦
        some ((codes "address", addresses q.addresses) ∷ (codes "topics", topics q.topics) ∷ fields)
  ]

-- ===== src/Rpc/Args/Keys.antt =====
-- Which keys the arguments of agents/eth/rpc/backend.go have.
use agents_go.Prelude.{
  ◌≡◌, refl, Bool, true, false, not, ◌&&◌, ◌||◌, Option, none, some, List, [], ◌∷◌, ◌++◌, Text,
  codes, text_eq, is_empty, ◌==◌, if◌then◌else◌, arith,
}
use agents_go.Conv.Uint256.{BigInt}
use agents_go.Rpc.Args.{
  Print, Fields, Value, bytes, uint64, CallMsg, FilterQuery, entry_if, big_entry, selection,
  range_fields, hash_fields, to_filter_arg, to_call_arg,
}

abbrev pub is_set {ℓ} : {A : Type ℓ} → Option A → Bool
is_set none = false
is_set (some a) = true

module _ {F : Type 0} where
  -- The map has the key.
  abbrev pub has_key : Text → Fields F → Bool
  has_key key [] = false
  has_key key ((k, v) ∷ rest) = if text_eq k key then true else has_key key rest

  -- The argument is there, and has the key.
  abbrev pub has : Text → Option (Fields F) → Bool
  has key none = false
  has key (some fields) = has_key key fields

module _ (F : Type 0) (print : Print) where
  -- The argument of a query.
  abbrev arg :
      Option Text → Option BigInt → Option BigInt → List Text → List (List Text) → Option (Fields F)
  arg h from to addresses topics = to_filter_arg print (record {
    block_hash = h;
    from_block = from;
    to_block = to;
    addresses = addresses;
    topics = topics;
  })

  filter_keys :
      (h : Option Text) (from to : Option BigInt) (addresses : List Text)
      (topics : List (List Text))
      → (is_set (arg h from to addresses topics) ≡ not (is_set h && (is_set from || is_set to)))
        × (has (codes "blockHash") (arg h from to addresses topics)
            ≡ (is_set h && not (is_set from || is_set to)))
        × (has (codes "fromBlock") (arg h from to addresses topics) ≡ not (is_set h))
        × (has (codes "toBlock") (arg h from to addresses topics) ≡ not (is_set h))
  unfolding to_filter_arg selection hash_fields range_fields
  filter_keys none none none a s = (refl, refl, refl, refl)
  filter_keys none none (some t) a s = (refl, refl, refl, refl)
  filter_keys none (some f) none a s = (refl, refl, refl, refl)
  filter_keys none (some f) (some t) a s = (refl, refl, refl, refl)
  filter_keys (some h) none none a s = (refl, refl, refl, refl)
  filter_keys (some h) none (some t) a s = (refl, refl, refl, refl)
  filter_keys (some h) (some f) none a s = (refl, refl, refl, refl)
  filter_keys (some h) (some f) (some t) a s = (refl, refl, refl, refl)

  -- `toFilterArg` refuses a query exactly if it has a block hash and a block, and else the argument has the block hash
  -- or both blocks, and not the other.
  pub to_filter_arg_lem :
      (q : FilterQuery)
      → (is_set (to_filter_arg {F = F} print q)
          ≡ not (is_set q.block_hash && (is_set q.from_block || is_set q.to_block)))
        × (has {F = F} (codes "blockHash") (to_filter_arg print q)
            ≡ (is_set q.block_hash && not (is_set q.from_block || is_set q.to_block)))
        × (has {F = F} (codes "fromBlock") (to_filter_arg print q) ≡ not (is_set q.block_hash))
        × (has {F = F} (codes "toBlock") (to_filter_arg print q) ≡ not (is_set q.block_hash))
  to_filter_arg_lem q = filter_keys q.block_hash q.from_block q.to_block q.addresses q.topics

module _ (F : Type 0) where
  -- The optional entries of a call.
  abbrev optional : Bool → Value F → Option BigInt → Bool → Value F → Option BigInt → Fields F
  optional d v n g w p =
      entry_if d (codes "data") v
      ++ (big_entry (codes "value") n
          ++ (entry_if g (codes "gas") w ++ big_entry (codes "gasPrice") p))

  optional_keys :
      (d : Bool) (v : Value F) (n : Option BigInt) (g : Bool) (w : Value F) (p : Option BigInt)
      → (has_key (codes "data") (optional d v n g w p) ≡ d)
        × (has_key (codes "value") (optional d v n g w p) ≡ is_set n)
        × (has_key (codes "gas") (optional d v n g w p) ≡ g)
        × (has_key (codes "gasPrice") (optional d v n g w p) ≡ is_set p)
  optional_keys d v none g w none = (ground arith, ground arith, ground arith, ground arith)
  optional_keys d v none g w (some p) = (ground arith, ground arith, ground arith, ground arith)
  optional_keys d v (some n) g w none = (ground arith, ground arith, ground arith, ground arith)
  optional_keys d v (some n) g w (some p) = (ground arith, ground arith, ground arith, ground arith)

  -- The argument of a call has its data, value, gas and gas price exactly if they are not empty, not nil, not 0 and not
  -- nil.
  pub to_call_arg_lem :
      (msg : CallMsg)
      → (has_key {F = F} (codes "data") (to_call_arg msg) ≡ not (is_empty msg.call_data))
        × (has_key {F = F} (codes "value") (to_call_arg msg) ≡ is_set msg.value)
        × (has_key {F = F} (codes "gas") (to_call_arg msg) ≡ not (msg.gas == 0))
        × (has_key {F = F} (codes "gasPrice") (to_call_arg msg) ≡ is_set msg.gas_price)
  unfolding to_call_arg
  to_call_arg_lem msg =
      optional_keys (not (is_empty msg.call_data)) (bytes msg.call_data) msg.value
        (not (msg.gas == 0)) (uint64 msg.gas) msg.gas_price

-- ===== src/Eth/Transfers.antt =====
-- agents/eth/server/transaction.go: the transfers of a transaction, and `AddressToString` of
-- server.go. Hashes, addresses and amounts are byte slices. go-ethereum's functions are fields of
-- `EthLib`; `Value()` is never nil there, and a mined transaction has a block hash. None of the
-- functions here returns an error.
pub mod Contents
pub mod Laws
use agents_go.Prelude.{
  ℕ, ◌+◌, ◌-◌, ◌%◌, ◌^◌, Bool, true, false, ◌&&◌, Option, none, some, List, [], ◌∷◌, ◌++◌, Text,
  codes, text_eq, leb, ltb, if◌then◌else◌, length, drop,
}
use agents_go.Conv.Uint256.{bytes}

-- Of `types.Log`; `tx_index` is below 2 ^ 63.
pub record Log : Type 0 where
  pub address : Text
  pub topics : List Text
  pub payload : Text
  pub tx_index : ℕ

-- Of `ethtypes.RpcTx`, with the transaction inside it.
pub record RpcTx : Type 0 where
  pub tx_hash : Text
  pub value : ℕ
  pub to : Option Text
  pub tx_type : ℕ
  pub from : Option Text
  pub block_hash : Text
  pub transaction_index : ℕ

-- `proto.Transfer`, with its currency amount.
pub record Transfer : Type 0 where
  pub id : Text
  pub tx_id : Text
  pub op_id : Text
  pub from : Text
  pub to : Text
  pub status : ℕ
  pub currency_id : Text
  pub value : Text

-- `proto.Transaction`.
pub record Transaction : Type 0 where
  pub id : Text
  pub from : Text
  pub to : Text
  pub block_id : Text
  pub tx_type : ℕ
  pub fee : Text
  pub amount : Text
  pub idx : ℕ
  pub transfers : List Transfer

-- common.Hash's `Hex`, common.Address's `Hex` and common.BytesToAddress.
pub record EthLib : Type 0 where
  pub hash_hex : Text → Text
  pub address_hex : Text → Text
  pub bytes_to_address : Text → Text

abbrev pub erc20_transfer : Text
erc20_transfer = codes "ddf252ad1be2c89b69c2b068fc378daa952ba7f163c4a11628f55a4df523b3ef"

-- `strings.HasSuffix`.
abbrev pub has_suffix : Text → Text → Bool
has_suffix s suffix =
    leb (length suffix) (length s) && text_eq (drop (length s - length suffix) s) suffix

-- A slice and one more index: `Topics[i]`, which the callers test to be there.
abbrev pub topic : ℕ → List Text → Text
topic i [] = []
topic Prim.Native.Nat.zero (t ∷ ts) = t
topic (Prim.Native.Nat.suc i) (t ∷ ts) = topic i ts

-- The test of `ConvertERC20Transfer`.
unfoldable pub is_erc20_transfer : EthLib → Log → Bool
is_erc20_transfer lib log =
    ltb 2 (length log.topics) && has_suffix (lib.hash_hex (topic 0 log.topics)) erc20_transfer

-- `extension` is the chain's `AddressToString` hook, nil or not.
module _ (lib : EthLib) (extension : Option (Text → Text)) where
  pub address_to_string : Option Text → Text
  address_to_string none = []
  address_to_string (some address) = elim extension [
    | some render ↦ render address
    | none ↦ lib.address_hex address
  ]

  pub convert_native_transfer : RpcTx → Transfer
  unfolding address_to_string bytes
  convert_native_transfer tx =
      let trf_id = tx.tx_hash ++ 0 ∷ [] in
      record {
        id = trf_id;
        tx_id = tx.tx_hash;
        op_id = trf_id;
        from = address_to_string tx.from;
        to = address_to_string tx.to;
        status = 1;
        currency_id = [];
        value = bytes tx.value;
      }

  pub decode_log_as_transfer : RpcTx → Log → Transfer
  unfolding address_to_string bytes
  decode_log_as_transfer tx log =
      let trf_id = tx.tx_hash ++ bytes log.tx_index in
      record {
        id = trf_id;
        tx_id = tx.tx_hash;
        op_id = trf_id;
        from = address_to_string (some (lib.bytes_to_address (topic 1 log.topics)));
        to = address_to_string (some (lib.bytes_to_address (topic 2 log.topics)));
        status = 0;
        currency_id = address_to_string (some log.address);
        value = log.payload;
      }

  pub convert_erc20_transfer : RpcTx → List Log → List Transfer
  unfolding decode_log_as_transfer is_erc20_transfer
  convert_erc20_transfer tx [] = []
  convert_erc20_transfer tx (log ∷ logs) =
      let rest = convert_erc20_transfer tx logs in
      if is_erc20_transfer lib log then decode_log_as_transfer tx log ∷ rest else rest

  -- `TxConverter.Convert`.
  pub convert : RpcTx → List Log → Transaction
  unfolding address_to_string convert_native_transfer convert_erc20_transfer bytes
  convert tx logs =
      let native = if ltb 0 tx.value then convert_native_transfer tx ∷ [] else [] in
      let tokens = if ltb 0 (length logs) then convert_erc20_transfer tx logs else [] in
      record {
        id = tx.tx_hash;
        from = address_to_string tx.from;
        to = address_to_string tx.to;
        block_id = tx.block_hash;
        tx_type = tx.tx_type;
        fee = 0 ∷ [];
        amount = if ltb 0 tx.value then bytes tx.value else 0 ∷ [];
        idx = tx.transaction_index % 2 ^ 32;
        transfers = native ++ tokens;
      }

-- ===== src/Eth/Converter.antt =====
-- agents/eth/server/block.go: `EthBlockToProto` with its finality hook, and `GetBlock` of server.go. The
-- node's answers about logs and blocks are arguments, and `now` is the Unix time.
pub mod Laws
use agents_go.Prelude.{ℕ, ◌%◌, ◌^◌, Option, none, some, List, [], ◌∷◌, Text, Result, ok, err}
use agents_go.Eth.Transfers.{Log, RpcTx, Transaction, EthLib}
use agents_go.Eth.Blocks.{FinalityStatus, block_finality_status, convert_transactions}

-- `ethtypes.HeaderWithBody`.
pub record HeaderWithBody : Type 0 where
  pub block_hash : Text
  pub number : ℕ
  pub parent_hash : Text
  pub time : ℕ
  pub transactions : List RpcTx

-- `proto.Block`, with its header.
pub record Block : Type 0 where
  pub id : Text
  pub number : ℕ
  pub parent_id : Text
  pub timestamp : ℕ
  pub finality_status : ℕ
  pub transactions : List Transaction

-- `ret` as it is first built: the status is the zero value. `big.Int`'s `Uint64` keeps 64 bits.
pub header_of : HeaderWithBody → Block
header_of block = record {
  id = block.block_hash;
  number = block.number % 2 ^ 64;
  parent_id = block.parent_hash;
  timestamp = block.time;
  finality_status = 0;
  transactions = [];
}

-- `getBlockFinalityStatus`: the hook of the chain is asked if there is one.
unfoldable pub finality_status_of : Option (Block → ℕ) → FinalityStatus → ℕ → Block → ℕ
finality_status_of none fs now block = block_finality_status fs now block.timestamp
finality_status_of (some hook) fs now block = hook block

module _ {E : Type 0} (lib : EthLib) (extension : Option (Text → Text)) (hook : Option (Block → ℕ))
    (fs : FinalityStatus) (filter_logs : Text → Result E (List Log)) where
  -- From the logs on.
  with_logs : Block → List RpcTx → Result E (List Log) → Result E Block
  with_logs ret txs (err e) = err e
  with_logs ret txs (ok logs) =
      ok (record ret { transactions = convert_transactions lib extension logs txs })

  pub eth_block_to_proto : ℕ → HeaderWithBody → Result E Block
  unfolding with_logs header_of finality_status_of
  eth_block_to_proto now block =
      let ret = header_of block in
      with_logs (record ret { finality_status = finality_status_of hook fs now ret })
        block.transactions (filter_logs block.block_hash)

  -- The transactions are converted, and then left out of the answer.
  without_transactions : Result E Block → Result E Block
  without_transactions (ok b) = ok (record b { transactions = [] })
  without_transactions (err e) = err e

  -- With the node's answer about the block.
  answered : ℕ → Result E HeaderWithBody → Result E Block
  unfolding eth_block_to_proto without_transactions
  answered now (err e) = err e
  answered now (ok block) = without_transactions (eth_block_to_proto now block)

  pub get_block : (Text → Result E HeaderWithBody) → ℕ → Text → Result E Block
  unfolding answered
  get_block block_by_hash now id = answered now (block_by_hash id)

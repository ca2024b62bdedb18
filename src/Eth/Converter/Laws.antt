-- ===== src/Eth/Converter/Laws.antt =====
-- What `EthBlockToProto` of agents/eth/server/block.go makes of a block.
use agents_go.Prelude.{ℕ, ◌≡◌, ap, ◌∙◌, Option, List, [], Text, map, Result, ok}
use agents_go.Eth.Transfers.{Log, RpcTx, EthLib, convert}
use agents_go.Eth.Blocks.{FinalityStatus}
use agents_go.Eth.Blocks.Grouping.{logs_of, convert_transactions_lem}
use agents_go.Eth.Converter.{
  HeaderWithBody, Block, header_of, finality_status_of, with_logs, eth_block_to_proto,
  without_transactions, answered, get_block,
}

module _ {E : Type 0} (lib : EthLib) (extension : Option (Text → Text)) (hook : Option (Block → ℕ))
    (fs : FinalityStatus) (filter_logs : Text → Result E (List Log)) where
  -- `EthBlockToProto` converts each transaction with exactly the logs of the block that carry its index, in their
  -- order, and gives the block the finality that its header has without the transactions; `GetBlock` gives the
  -- same block without transactions. The node answers with the block and its logs.
  pub eth_block_to_proto_lem :
      (block_by_hash : Text → Result E HeaderWithBody) (now : ℕ) (id : Text)
      (block : HeaderWithBody) (logs : List Log)
      → block_by_hash id ≡ ok block
      → filter_logs block.block_hash ≡ ok logs
      → let status = finality_status_of hook fs now (header_of block) in
        (eth_block_to_proto lib extension hook fs filter_logs now block
          ≡ ok (record (header_of block) {
            finality_status = status;
            transactions =
                map
                  (λ (tx : RpcTx). convert lib extension tx (logs_of tx.transaction_index logs))
                  block.transactions;
          }))
        × (get_block lib extension hook fs filter_logs block_by_hash now id
            ≡ ok (record (header_of block) { finality_status = status; transactions = [] }))
  unfolding eth_block_to_proto with_logs answered get_block without_transactions header_of
  eth_block_to_proto_lem block_by_hash now id block logs hb hl =
      let status = finality_status_of hook fs now (header_of block) in
      let ret : Block = record (header_of block) { finality_status = status } in
      let grouped = convert_transactions_lem lib extension logs block.transactions in
      let read = ap (with_logs lib extension hook fs filter_logs ret block.transactions) hl in
      (
        read ∙ ap (λ txs. ok (record ret { transactions = txs })) grouped,
        ap (answered lib extension hook fs filter_logs now) hb
            ∙ ap (without_transactions lib extension hook fs filter_logs) read,
      )

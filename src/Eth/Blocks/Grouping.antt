-- ===== src/Eth/Blocks/Grouping.antt =====
-- The logs of a block, grouped by transaction, in agents/eth/server/block.go.
use agents_go.Prelude.{
  ℕ, ◌≡◌, refl, sym, ap, List, [], ◌∷◌, ◌++◌, ◌==◌, if◌then◌else◌, arith, append-nil, append_assoc,
  map, Text, Option,
}
use mathlib.Core.Path.{ap₂}
use agents_go.Eth.Transfers.{Log, RpcTx, EthLib, convert}
use agents_go.Eth.Blocks.{group_from, group_logs, convert_transactions}

-- The logs of transaction `i`, in the order of the block.
abbrev pub logs_of : ℕ → List Log → List Log
logs_of i [] = []
logs_of i (log ∷ logs) = if i == log.tx_index then log ∷ logs_of i logs else logs_of i logs

group_from-logs_of :
    (res : ℕ → List Log) (logs : List Log) (i : ℕ) → group_from res logs i ≡ res i ++ logs_of i logs
unfolding group_from
group_from-logs_of res [] i = sym (append-nil (res i))
group_from-logs_of res (log ∷ logs) i = ground (
  arith,
  group_from-logs_of (λ j. if j == log.tx_index then res j ++ log ∷ [] else res j) logs i,
  append_assoc (res i) (log ∷ []) (logs_of i logs),
)

-- Each transaction of a block is converted with exactly the logs that carry its index, in the order
-- in which the node gives them.
pub convert_transactions_lem :
    (lib : EthLib) (extension : Option (Text → Text)) (logs : List Log) (txs : List RpcTx)
    → convert_transactions lib extension logs txs
      ≡ map (λ (tx : RpcTx). convert lib extension tx (logs_of tx.transaction_index logs)) txs
unfolding convert_transactions group_logs
convert_transactions_lem lib extension logs [] = refl
convert_transactions_lem lib extension logs (tx ∷ txs) =
    ap₂ ◌∷◌ (ap (convert lib extension tx) (group_from-logs_of (λ i. []) logs tx.transaction_index))
      (convert_transactions_lem lib extension logs txs)

-- ===== src/Eth/Blocks.antt =====
-- agents/eth/server: block.go, and `ListBlocks` of server.go. The calls to the node, the conversion of
-- one block and the stream are arguments; numbers are uint64 and wrap around.
pub mod Grouping
pub mod Finality
pub mod Listing
use agents_go.Prelude.{
  ℕ, zero, suc, ◌+◌, ◌-◌, ◌*◌, ◌%◌, ◌^◌, Bool, true, false, Option, none, some, List, [], ◌∷◌, ◌++◌,
  map, leb, ltb, ◌==◌, if◌then◌else◌, Result, ok, err, map_err,
}
use Prim.Native.Nat.{min}
use agents_go.Eth.Transfers.{Log, RpcTx, Transaction, EthLib, convert}
use agents_go.Prelude.{Text}
use agents_go.Conv.Uint256.{BigInt}

abbrev pub u64 : ℕ
u64 = 2 ^ 64

abbrev pub slot_time_sec : ℕ
slot_time_sec = 12

-- The numbers that the `proto.FinalityStatus` constants have.
pub record FinalityStatus : Type 0 where
  pub unsafe : ℕ
  pub safe : ℕ
  pub finalized : ℕ

-- `getBlockFinalityStatus` with no extension: `now` is the Unix time and `timestamp` the block's.
pub block_finality_status : FinalityStatus → ℕ → ℕ → ℕ
block_finality_status fs now timestamp =
    if ltb timestamp ((now + u64 - 54 * slot_time_sec) % u64)
    then fs.finalized
    else if ltb timestamp ((now + u64 - 32 * slot_time_sec) % u64)
    then fs.safe
    else fs.unsafe

-- The loop of `loadAndGroupLogs`. The map is a function: a missing key gives the nil slice.
group_from : (ℕ → List Log) → List Log → ℕ → List Log
group_from res [] = res
group_from res (log ∷ logs) =
    group_from (λ i. if i == log.tx_index then res i ++ log ∷ [] else res i) logs

pub group_logs : List Log → ℕ → List Log
unfolding group_from
group_logs logs = group_from (λ i. []) logs

-- The transactions of `EthBlockToProto`, each with the logs of its index.
pub convert_transactions : EthLib → Option (Text → Text) → List Log → List RpcTx → List Transaction
unfolding group_logs
convert_transactions lib extension logs txs =
    map (λ (tx : RpcTx). convert lib extension tx (group_logs logs tx.transaction_index)) txs

-- Why `ListBlocks` ends: `ErrBlockOutOfRange`, or an error of the node or of the stream.
pub data ListError (E : Type 0) : Type 0 where
  out_of_range : ListError E
  failed : E → ListError E

-- `big.NewInt(int64(i))` for a uint64.
unfoldable pub asked_number : ℕ → BigInt
asked_number n =
    if ltb n (2 ^ 63)
    then record { negative = false; abs = n }
    else record { negative = true; abs = 2 ^ 64 - n }

-- `endNumber`.
pub end_number : ℕ → Option ℕ → ℕ → ℕ
end_number start none top = min ((start + 10) % u64) ((top + 1) % u64)
end_number start (some count) top =
    min (if count == 0 then (start + 10) % u64 else (start + count) % u64) ((top + 1) % u64)

-- `for i := start; i < end; i++`, with `rounds` rounds.
pub numbers_from : ℕ → ℕ → List ℕ
numbers_from start zero = []
numbers_from start (suc rounds) = start ∷ numbers_from (start + 1) rounds

module _ {E B : Type 0} where
  -- `res.Send(block)` and what follows; `rest` is what the later rounds give.
  deliver : Option E → B → List B × Option (ListError E) → List B × Option (ListError E)
  deliver (some e) block rest = ([], some (failed e))
  deliver none block rest = (block ∷ rest.0, rest.1)

module _ {E H B : Type 0} (convert_block : H → Result E B) (finality : B → ℕ)
    (stream : B → Option E) where
  -- A round from the conversion on.
  send_block : ℕ → ℕ → Result E B → List B × Option (ListError E) → List B × Option (ListError E)
  unfolding deliver
  send_block min_status idx (err e) rest = ([], some (failed e))
  send_block min_status idx (ok block) rest =
      if ltb (finality block) min_status
      then ([], if ltb 0 idx then none else some out_of_range)
      else deliver (stream block) block rest

  send_response : ℕ → ℕ → Result E H → List B × Option (ListError E) → List B × Option (ListError E)
  unfolding send_block
  send_response min_status idx (err e) rest = ([], some (failed e))
  send_response min_status idx (ok h) rest = send_block min_status idx (convert_block h) rest

  -- The second loop: the blocks that are sent, and the error.
  pub send_blocks : ℕ → ℕ → List (Result E H) → List B × Option (ListError E)
  unfolding send_response
  send_blocks min_status idx [] = ([], none)
  send_blocks min_status idx (response ∷ responses) =
      send_response min_status idx response (send_blocks min_status (suc idx) responses)

  -- From the batch call on, for the numbers of `rounds` blocks from `start` on. The node is asked for each number as
  -- an int64: from 2 ^ 63 on for a negative one.
  run_batch : Option E → (BigInt → Result E H) → ℕ → ℕ → ℕ → List B × Option (ListError E)
  unfolding send_blocks numbers_from asked_number
  run_batch (some e) fetch start rounds min_status = ([], some (failed e))
  run_batch none fetch start rounds min_status =
      send_blocks min_status 0 (map (λ n. fetch (asked_number n)) (numbers_from start rounds))

  -- `ListBlocks`: `top` is the answer about the highest block, `batch` the error of the batch call and
  -- `fetch` what `ProcessRes` gives for the block of a number.
  pub list_blocks :
      Result E ℕ
      → Option E
      → (BigInt → Result E H)
      → ℕ
      → Option ℕ
      → ℕ
      → List B × Option (ListError E)
  unfolding run_batch end_number
  list_blocks (err e) batch fetch start count min_status = ([], some (failed e))
  list_blocks (ok top) batch fetch start count min_status =
      let last = end_number start count top in
      if leb last start
      then ([], some out_of_range)
      else run_batch batch fetch start (last - start) min_status

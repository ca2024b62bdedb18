-- ===== src/Rpc/Tests.antt =====
-- A concrete node, for agents/eth/rpc and commons/jsonrpc.
use agents_go.Prelude.{
  ℕ, ◌≡◌, refl, true, false, not, ◌&&◌, ◌||◌, none, some, List, [], ◌∷◌, map, Text, codes, text_eq,
  if◌then◌else◌, Result, ok, err,
}
use agents_go.Conv.Uint256.Laws.{natural}
use agents_go.Rpc.Args.{Print, CallMsg, FilterQuery, Arg, to_filter_arg}
use agents_go.Rpc.Args.Keys.{is_set, has, to_filter_arg_lem}
use agents_go.Rpc.Calls.{
  RawCall, RpcCall, Client, CallReads, call_typed, batch_call, process_res, get_block_number,
}

abbrev print : Print
print = record {
  encode_big = λ n. codes "0x1";
  block_number = λ n. codes "pending";
  decimal = λ n. codes "-1";
}

-- A block hash and a block: the query is refused.
abbrev query : FilterQuery
query = record {
  block_hash = some (codes "h");
  from_block = none;
  to_block = some (natural 1);
  addresses = [];
  topics = [];
}

to_filter_arg_lem_example :
    (is_set (to_filter_arg {F = ℕ} print query) ≡ not (true && (false || true)))
    × (has {F = ℕ} (codes "blockHash") (to_filter_arg print query) ≡ (true && not (false || true)))
    × (has {F = ℕ} (codes "fromBlock") (to_filter_arg print query) ≡ not true)
    × (has {F = ℕ} (codes "toBlock") (to_filter_arg print query) ≡ not true)
to_filter_arg_lem_example = to_filter_arg_lem ℕ print query

abbrev msg : CallMsg
msg = record {
  from = codes "a";
  to = some (codes "b");
  call_data = 1 ∷ [];
  value = none;
  gas = 0;
  gas_price = some (natural 3);
}

-- A node that knows one method; its results are texts.
abbrev node_call : Text → List (Arg ℕ) → Result Text Text
node_call method params =
    if text_eq method (codes "eth_blockNumber") then ok (codes "0x7") else err (codes "unknown")

abbrev node : Client Text ℕ Text
node = record {
  call_context = node_call;
  batch_call_context = λ raws. ok (map (λ (r : RawCall ℕ). node_call r.method r.params) raws);
}

abbrev reads : CallReads Text Text Text
reads = record { string = ok; block = ok; big = λ t. ok (natural 1); decode_uint64 = λ t. ok 7 }

abbrev number_call : RpcCall Text ℕ Text Text ℕ
number_call = get_block_number reads

abbrev wrong_call : RpcCall Text ℕ Text Text ℕ
wrong_call = record number_call { raw = record { method = codes "eth_x"; params = [] } }

-- What a batch leaves, and its second element processed.
batched :
    batch_call node (number_call ∷ wrong_call ∷ [])
    ≡ ok (ok (codes "0x7") ∷ err (codes "unknown") ∷ [])
unfolding batch_call get_block_number
batched = refl

processed : process_res wrong_call (err (codes "unknown")) ≡ err (codes "unknown")
unfolding process_res
processed = refl

responses :
    map (call_typed node) (number_call ∷ wrong_call ∷ []) ≡ ok 7 ∷ err (codes "unknown") ∷ []
unfolding call_typed get_block_number
responses = refl

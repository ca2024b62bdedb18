-- ===== src/Rpc/Calls.antt =====
-- commons/jsonrpc/jsonrpc.go, the batches of commons/jsonrpc/client/ethrpcclient.go, and the calls of
-- agents/eth/rpc/calls.go. What a call leaves behind `Result`, of the type `S`, and `Response`, of the type `R`, is what
-- it gives; the arguments have fractions of the type `F`, and raw results the type `J`.
use agents_go.Prelude.{
  ℕ, Bool, Option, none, some, List, [], ◌∷◌, ◌++◌, Text, codes, Result, ok, ◌>>=◌,
}
use agents_go.Conv.Uint256.{BigInt}
use agents_go.Rpc.Args.{Print, hash, text, flag, Arg, value, to_block_num_arg}

-- `RawCall` as it is sent.
pub record RawCall (F : Type 0) : Type 0 where
  pub method : Text
  pub params : List (Arg F)

-- `RpcCall`: json.Unmarshal into `Result`, what `Response` points to then, and `resConvert`, which sets it.
pub record RpcCall (E F J S R : Type 0) : Type 0 where
  pub raw : RawCall F
  pub unmarshal : J → Result E S
  pub response : S → R
  pub res_convert : Option (S → Result E R)

-- go-ethereum's rpc.Client: the raw result of a call, and those of the elements of a batch, in order, each of which may
-- have an error of its own.
pub record Client (E F J : Type 0) : Type 0 where
  pub call_context : Text → List (Arg F) → Result E J
  pub batch_call_context : List (RawCall F) → Result E (List (Result E J))

-- `RpcBatch.Add`.
unfoldable pub add_raw : {F : Type 0} → RawCall F → List (RawCall F) → List (RawCall F)
add_raw raw batch = batch ++ raw ∷ []

module _ {E F J S R : Type 0} where
  -- `NewRpcCall`.
  abbrev pub new_rpc_call :
      Text → List (Arg F) → (J → Result E S) → (S → R) → Option (S → Result E R) → RpcCall E F J S R
  new_rpc_call method params unmarshal response res_convert = record {
    raw = record { method = method; params = params };
    unmarshal = unmarshal;
    response = response;
    res_convert = res_convert;
  }

  -- The conversion, if there is one.
  converted : RpcCall E F J S R → S → Result E R
  converted c res = elim c.res_convert [ none ↦ ok (c.response res) | some convert ↦ convert res ]

  -- `RpcCall.Call`, on a client that decodes the result.
  unfoldable pub call_typed : Client E F J → RpcCall E F J S R → Result E R
  unfolding converted
  call_typed client c = do
    raw_result ← client.call_context c.raw.method c.raw.params
    res ← c.unmarshal raw_result
    converted c res

  -- `AddToBatch`.
  unfoldable pub add_to_batch : RpcCall E F J S R → List (RawCall F) → List (RawCall F)
  unfolding add_raw
  add_to_batch c batch = add_raw c.raw batch

  -- A loop that adds calls to a batch.
  unfoldable pub add_all : List (RpcCall E F J S R) → List (RawCall F) → List (RawCall F)
  unfolding add_to_batch
  add_all [] batch = batch
  add_all (c ∷ cs) batch = add_all cs (add_to_batch c batch)

  -- `ProcessRes`, with what the batch stored for the call, and the response.
  unfoldable pub process_res : RpcCall E F J S R → Result E S → Result E R
  unfolding converted
  process_res c stored = stored >>= converted c

  -- `BatchCallContext` of `EthRpcClient`: the elements are the calls', and each call gets the answer of its index.
  unfoldable pub stored : List (RpcCall E F J S R) → List (Result E J) → List (Result E S)
  stored [] answers = []
  stored (c ∷ cs) [] = []
  stored (c ∷ cs) (a ∷ answers) = (a >>= c.unmarshal) ∷ stored cs answers

  -- `RpcBatch.Call` of the batch of the calls: what it leaves for each call. It processes no result.
  unfoldable pub batch_call : Client E F J → List (RpcCall E F J S R) → Result E (List (Result E S))
  unfolding add_all stored
  batch_call client cs = do
    answers ← client.batch_call_context (add_all cs [])
    ok (stored cs answers)

-- json.Unmarshal into the variables of the calls, with blocks of the type `B`, and hexutil.DecodeUint64.
pub record CallReads (E J B : Type 0) : Type 0 where
  pub string : J → Result E Text
  pub block : J → Result E B
  pub big : J → Result E BigInt
  pub decode_uint64 : Text → Result E ℕ

module _ {E F J B : Type 0} (reads : CallReads E J B) where
  -- `GetBlockNumber`; the response is 0 before the conversion.
  unfoldable pub get_block_number : RpcCall E F J Text ℕ
  get_block_number =
      new_rpc_call (codes "eth_blockNumber") [] reads.string (λ res. 0) (some reads.decode_uint64)

  unfoldable pub get_block_by_hash : Text → Bool → RpcCall E F J B B
  get_block_by_hash h tx_details =
      new_rpc_call (codes "eth_getBlockByHash") (value (hash h) ∷ value (flag tx_details) ∷ [])
        reads.block (λ res. res) none

  unfoldable pub get_block_by_number : Print → Option BigInt → Bool → RpcCall E F J B B
  get_block_by_number print number tx_details =
      new_rpc_call (codes "eth_getBlockByNumber")
        (value (text (to_block_num_arg print number)) ∷ value (flag tx_details) ∷ []) reads.block
        (λ res. res) none

  unfoldable pub chain_id : RpcCall E F J BigInt BigInt
  chain_id = new_rpc_call (codes "eth_chainId") [] reads.big (λ res. res) none

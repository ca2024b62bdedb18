-- ===== src/Rpc/Backend.antt =====
-- agents/eth/rpc/backend.go: the methods of `EthRpcBackend`. `call_context` is the client's call of a method with its
-- arguments, with a raw result of the type `J`; go-ethereum's reading of it into a variable is a field of `Reads`. The
-- zero value that comes with an error is left out.
use agents_go.Prelude.{
  ℕ, false, Option, none, some, List, [], ◌∷◌, map, Text, codes, Result, ok, err, ◌>>=◌,
}
use agents_go.Conv.Uint256.{BigInt}
use agents_go.Rpc.Args.{
  Print, hash, address, text, flag, uint, fractions, block_hash, Arg, value, object, CallMsg,
  FilterQuery, to_block_num_arg, to_call_arg, to_filter_arg,
}

-- `feeHistoryResultMarshaling`, and ethereum.FeeHistory, whose fields are the same; a nil number is `none`.
pub record FeeHistory (F : Type 0) : Type 0 where
  pub oldest_block : Option BigInt
  pub reward : List (List (Option BigInt))
  pub base_fee : List (Option BigInt)
  pub gas_used_ratio : List F

-- With headers of the type `H` and logs of the type `L`: a JSON null is `none` for a header. `set_string` is big.Int's
-- with base 10, and the errors are ethereum.NotFound, those that the code makes, and errors.ErrUnsupported.
pub record Reads (E F J H L : Type 0) : Type 0 where
  pub header : J → Result E (Option H)
  pub string : J → Result E Text
  pub big : J → Result E BigInt
  pub hex : J → Result E Text
  pub number : J → Result E ℕ
  pub logs : J → Result E (List L)
  pub fee_history : J → Result E (FeeHistory F)
  pub set_string : Text → Option BigInt
  pub not_found : E
  pub invalid_version : Text → E
  pub two_selections : E
  pub unsupported : E

module _ {E F J H L : Type 0} (reads : Reads E F J H L) (print : Print)
    (call_context : Text → List (Arg F) → Result E J) where
  -- `simpleCallCtx`, with the reading of the result.
  unfoldable pub simple_call_ctx :
      {A : Type 0} → (J → Result E A) → Text → List (Arg F) → Result E A
  simple_call_ctx read method args = call_context method args >>= read

  abbrev block_arg : Option BigInt → Arg F
  block_arg number = value (text (to_block_num_arg print number))

  abbrev pending : Arg F
  pending = value (text (codes "pending"))

  -- The test for a null header.
  found : Option H → Result E H
  found none = err reads.not_found
  found (some head) = ok head

  unfoldable pub header_by_hash : Text → Result E H
  unfolding simple_call_ctx found
  header_by_hash h = do
    head ←
        simple_call_ctx reads.header (codes "eth_getBlockByHash")
          (value (hash h) ∷ value (flag false) ∷ [])
    found head

  unfoldable pub header_by_number : Option BigInt → Result E H
  unfolding simple_call_ctx found
  header_by_number number = do
    head ←
        simple_call_ctx reads.header (codes "eth_getBlockByNumber")
          (block_arg number ∷ value (flag false) ∷ [])
    found head

  version_of : Text → Option BigInt → Result E BigInt
  version_of ver none = err (reads.invalid_version ver)
  version_of ver (some version) = ok version

  unfoldable pub network_id : Result E BigInt
  unfolding simple_call_ctx version_of
  network_id = do
    ver ← simple_call_ctx reads.string (codes "net_version") []
    version_of ver (reads.set_string ver)

  unfoldable pub balance_at : Text → Option BigInt → Result E BigInt
  unfolding simple_call_ctx
  balance_at account number =
      simple_call_ctx reads.big (codes "eth_getBalance")
        (value (address account) ∷ block_arg number ∷ [])

  unfoldable pub storage_at : Text → Text → Option BigInt → Result E Text
  unfolding simple_call_ctx
  storage_at account key number =
      simple_call_ctx reads.hex (codes "eth_getStorageAt")
        (value (address account) ∷ value (hash key) ∷ block_arg number ∷ [])

  unfoldable pub code_at : Text → Option BigInt → Result E Text
  unfolding simple_call_ctx
  code_at account number =
      simple_call_ctx reads.hex (codes "eth_getCode")
        (value (address account) ∷ block_arg number ∷ [])

  unfoldable pub nonce_at : Text → Option BigInt → Result E ℕ
  unfolding simple_call_ctx
  nonce_at account number =
      simple_call_ctx reads.number (codes "eth_getTransactionCount")
        (value (address account) ∷ block_arg number ∷ [])

  unfoldable pub filter_logs : FilterQuery → Result E (List L)
  unfolding simple_call_ctx
  filter_logs q = elim (to_filter_arg print q) [
    | none ↦ err reads.two_selections
    | some arg ↦ simple_call_ctx reads.logs (codes "eth_getLogs") (object arg ∷ [])
  ]

  unfoldable pub subscribe_filter_logs : {A : Type 0} → FilterQuery → Result E A
  subscribe_filter_logs q = err reads.unsupported

  unfoldable pub pending_balance_at : Text → Result E BigInt
  unfolding simple_call_ctx
  pending_balance_at account =
      simple_call_ctx reads.big (codes "eth_getBalance") (value (address account) ∷ pending ∷ [])

  unfoldable pub pending_storage_at : Text → Text → Result E Text
  unfolding simple_call_ctx
  pending_storage_at account key =
      simple_call_ctx reads.hex (codes "eth_getStorageAt")
        (value (address account) ∷ value (hash key) ∷ pending ∷ [])

  unfoldable pub pending_code_at : Text → Result E Text
  unfolding simple_call_ctx
  pending_code_at account =
      simple_call_ctx reads.hex (codes "eth_getCode") (value (address account) ∷ pending ∷ [])

  unfoldable pub pending_nonce_at : Text → Result E ℕ
  unfolding simple_call_ctx
  pending_nonce_at account =
      simple_call_ctx reads.number (codes "eth_getTransactionCount")
        (value (address account) ∷ pending ∷ [])

  unfoldable pub pending_transaction_count : Result E ℕ
  unfolding simple_call_ctx
  pending_transaction_count =
      simple_call_ctx reads.number (codes "eth_getBlockTransactionCountByNumber") (pending ∷ [])

  unfoldable pub call_contract : CallMsg → Option BigInt → Result E Text
  unfolding simple_call_ctx
  call_contract msg number =
      simple_call_ctx reads.hex (codes "eth_call")
        (object (to_call_arg msg) ∷ block_arg number ∷ [])

  unfoldable pub call_contract_at_hash : CallMsg → Text → Result E Text
  unfolding simple_call_ctx
  call_contract_at_hash msg h =
      simple_call_ctx reads.hex (codes "eth_call")
        (object (to_call_arg msg) ∷ value (block_hash h false) ∷ [])

  unfoldable pub pending_call_contract : CallMsg → Result E Text
  unfolding simple_call_ctx
  pending_call_contract msg =
      simple_call_ctx reads.hex (codes "eth_call") (object (to_call_arg msg) ∷ pending ∷ [])

  unfoldable pub suggest_gas_price : Result E BigInt
  unfolding simple_call_ctx
  suggest_gas_price = simple_call_ctx reads.big (codes "eth_gasPrice") []

  unfoldable pub suggest_gas_tip_cap : Result E BigInt
  unfolding simple_call_ctx
  suggest_gas_tip_cap = simple_call_ctx reads.big (codes "eth_maxPriorityFeePerGas") []

  unfoldable pub estimate_gas : CallMsg → Result E ℕ
  unfolding simple_call_ctx
  estimate_gas msg =
      simple_call_ctx reads.number (codes "eth_estimateGas") (object (to_call_arg msg) ∷ [])

  -- The loops that copy the numbers.
  copied : FeeHistory F → FeeHistory F
  copied res = record {
    oldest_block = res.oldest_block;
    reward = map (λ row. map (λ n. n) row) res.reward;
    base_fee = map (λ n. n) res.base_fee;
    gas_used_ratio = res.gas_used_ratio;
  }

  unfoldable pub fee_history : ℕ → Option BigInt → List F → Result E (FeeHistory F)
  unfolding simple_call_ctx copied
  fee_history block_count last_block reward_percentiles = do
    res ← simple_call_ctx reads.fee_history (codes "eth_feeHistory") (
        value (uint block_count) ∷ block_arg last_block ∷ value (fractions reward_percentiles) ∷ [])
    ok (copied res)

  -- `marshalled` is what the transaction's `MarshalBinary` gives, `encode` is hexutil.Encode.
  unfoldable pub send_transaction : (Text → Text) → Result E Text → Result E (Unit {0})
  unfolding simple_call_ctx
  send_transaction encode marshalled = do
    raw ← marshalled
    simple_call_ctx (λ res. ok tt) (codes "eth_sendRawTransaction") (value (text (encode raw)) ∷ [])

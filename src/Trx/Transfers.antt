-- ===== src/Trx/Transfers.antt =====
-- agents/trx/server.go: `CreateTransfer`, `Send`, and the client of `InitServer`. The state is the cache of the prices.
-- The request's amount is not nil; big.Int's `Uint64` gives the low 64 bits. go-ethereum is `TrxLib`.
pub mod Intents
pub mod Sending
pub mod Delivery
pub mod Tests
use agents_go.Prelude.{
  ℕ, ◌+◌, ◌*◌, ◌%◌, ◌^◌, Bool, true, false, Option, none, some, List, [], ◌∷◌, ◌++◌, map, Text,
  codes, if◌then◌else◌, is_empty, length, Result, ok, err, map_err, Fault,
}
use agents_go.Prelude.Runs.{Run, lift, call, or_fail, ◌>>=◌, ◌>>◌, ensure}
use agents_go.Conv.Hex.Pads.{set_bytes}
use agents_go.Conv.Uint256.{BigInt, Outcome, panics, returns, from_big_int}
use agents_go.Currency.{ChainCurrencyId, chain_currency_from_string, is_native, is_erc20}
use agents_go.Cache.{SimpleExpirationCache}
use agents_go.Eth.Construct.{Intent, TransferRequest}
use agents_go.Trx.Fees.{FeePrices, FeeError, estimate_bandwidth, estimate_fee}
use agents_go.Trx.Api.{
  Http, Json, CreateTransactionRequest, CreateTransactionResponse, TriggerContractRequest,
  CallResult, TriggerSmartContractResponse, TriggerConstantContractResponse,
  BroadcastTransactionRequest, create_transaction, trigger_constant_contract,
  trigger_smart_contract, broadcast_transaction, get_chain_parameters,
}

-- The methods of `TrxApiClient`.
pub record TrxApiClient (E : Type 0) : Type 0 where
  pub create : CreateTransactionRequest → Result E CreateTransactionResponse
  pub trigger_constant : TriggerContractRequest → Result E TriggerConstantContractResponse
  pub trigger_smart : TriggerContractRequest → Result E TriggerSmartContractResponse
  pub broadcast : BroadcastTransactionRequest → Result E CallResult
  pub parameters : Result E FeePrices

-- What the agent calls of go-ethereum, with ABIs of the type `A`: `Erc20MetaData.GetAbi` and the `Pack` of what it gives
-- (method, address, amount), common.Bytes2Hex and common.Hex2Bytes; and the hook `AddressFromString`.
pub record TrxLib (E A : Type 0) : Type 0 where
  pub get_abi : Result E A
  pub pack : A → Text → Text → ℕ → Result E Text
  pub bytes2hex : Text → Text
  pub hex2bytes : Text → Text
  pub parse_address : Text → Result (Fault E) Text

-- `NewTrxApiClient`.
unfoldable pub new_trx_api_client : {E H B : Type 0} → Http E H B → Text → Json E → TrxApiClient E
unfolding create_transaction trigger_constant_contract trigger_smart_contract broadcast_transaction
    get_chain_parameters
new_trx_api_client http base_url json = record {
  create = create_transaction http base_url json;
  trigger_constant = trigger_constant_contract http base_url json;
  trigger_smart = trigger_smart_contract http base_url json;
  broadcast = broadcast_transaction http base_url json;
  parameters = get_chain_parameters http base_url json;
}

-- The client that `InitServer` makes of the HTTP URLs of the configuration.
unfoldable pub client_of :
    {E H B : Type 0} → Http E H B → Json E → List Text → Option (TrxApiClient E)
unfolding new_trx_api_client
client_of http json [] = none
client_of http json (url ∷ rest) =
    if is_empty url then none else some (new_trx_api_client http url json)

-- The errors of `CreateTransfer` and `Send`, in the order of the code.
pub data TransferError (E : Type 0) : Type 0 where
  unsupported : TransferError E
  bad_currency invalid_currency : Text → TransferError E
  node_failed : E → TransferError E
  refused : Text → TransferError E
  fee_failed : FeeError E → TransferError E
  fee_panics : TransferError E
  no_abi : E → TransferError E
  bad_address : Fault E → TransferError E
  not_packed : E → TransferError E
  not_created : Text → Text → TransferError E
  not_broadcast : E → TransferError E
  rejected : Text → Text → TransferError E

abbrev pub erc20_fee_limit : ℕ
erc20_fee_limit = 20_000_000

-- The request of a native transfer.
unfoldable pub create_request : TransferRequest → CreateTransactionRequest
create_request req = record {
  owner_address = req.from;
  to_address = req.to;
  amount = set_bytes req.amount % 2 ^ 64;
  visible = true;
}

module _ {E A : Type 0} (lib : TrxLib E A) where
  -- The request of a token transfer, for both triggers.
  unfoldable pub trigger_request : TransferRequest → ChainCurrencyId → Text → TriggerContractRequest
  trigger_request req cur_id call_data = record {
    owner_address = req.from;
    contract_address = cur_id.address;
    fee_limit = erc20_fee_limit;
    call_value = 0;
    call_data = lib.bytes2hex call_data;
    visible = true;
  }

  -- `TransactionIntent`, with the bytes of the fee.
  unfoldable pub intent_with : Text → Text → Text → Intent
  intent_with tx_id raw_data fee = record {
    id = lib.hex2bytes tx_id;
    payload_to_sign = lib.hex2bytes tx_id;
    signature_type = codes "secp256k1";
    raw_data = raw_data;
    estimated_fee = fee;
  }

module _ {E : Type 0} where
  -- What `FromBigInt` gives for the fee, which is not nil, and neither is the answer then.
  unfoldable pub fee_bytes : Outcome → Result (TransferError E) Text
  fee_bytes panics = err fee_panics
  fee_bytes (returns none) = err fee_panics
  fee_bytes (returns (some fee)) = ok fee

  -- The test of the result of a trigger.
  abbrev pub created : CallResult → Run (SimpleExpirationCache FeePrices) (TransferError E) Unit
  created res = ensure res.result (not_created res.code res.message)

module _ {E A : Type 0} (lib : TrxLib E A) where
  signing : Text → Text → Result (TransferError E) Text → Result (TransferError E) Intent
  unfolding intent_with
  signing tx_id raw_data (ok fee) = ok (intent_with lib tx_id raw_data fee)
  signing tx_id raw_data (err e) = err e

  unfoldable pub intent_of : Text → Text → BigInt → Result (TransferError E) Intent
  unfolding signing
  intent_of tx_id raw_data fee = signing tx_id raw_data (fee_bytes (from_big_int (some fee)))

module _ {E A : Type 0} (lib : TrxLib E A) (asked now : ℕ) (client : TrxApiClient E) where
  abbrev pub Cached : Type 0 → Type 0
  Cached = Run (SimpleExpirationCache FeePrices) (TransferError E)

  -- `estimateFee`; `asked` and `now` are the times of the cache's `Get` and `Set`.
  unfoldable pub fee_of_transfer : ℕ → ℕ → Cached BigInt
  unfolding estimate_fee
  fee_of_transfer bandwidth energy cache =
      let (fee, cache') = estimate_fee asked now client.parameters bandwidth energy cache in
      (map_err fee_failed fee, cache')

  unfoldable pub native_transfer : TransferRequest → Cached Intent
  unfolding create_request estimate_bandwidth fee_of_transfer intent_of
  native_transfer req = do
    res ← call node_failed (client.create (create_request req))
    ensure (is_empty res.error) (refused res.error)
    fee ← fee_of_transfer (estimate_bandwidth (length res.raw_data_hex) 0) 0
    lift (intent_of lib res.tx_id res.raw_data fee)

  unfoldable pub token_transfer : TransferRequest → ChainCurrencyId → Cached Intent
  unfolding trigger_request estimate_bandwidth fee_of_transfer intent_of
  token_transfer req cur_id = do
    abi ← call no_abi lib.get_abi
    addr ← call bad_address (lib.parse_address req.to)
    call_data ← call not_packed (lib.pack abi (codes "transfer") addr (set_bytes req.amount))
    estimate_res ←
        call node_failed (client.trigger_constant (trigger_request lib req cur_id call_data))
    created estimate_res.result
    fee ←
        fee_of_transfer (estimate_bandwidth (length estimate_res.raw_data_hex) 6)
          estimate_res.energy_used
    trigger_res ← call node_failed (client.trigger_smart (trigger_request lib req cur_id call_data))
    created trigger_res.result
    lift (intent_of lib trigger_res.transaction.tx_id trigger_res.transaction.raw_data fee)

  -- From the currency on.
  unfoldable pub transfer_of : TransferRequest → ChainCurrencyId → Cached Intent
  transfer_of req cur_id =
      if is_native cur_id
      then native_transfer req
      else if is_erc20 cur_id
      then token_transfer req cur_id
      else lift (err (invalid_currency req.currency_id))

module _ {E A : Type 0} (lib : TrxLib E A) (asked now : ℕ) where
  unfoldable pub create_transfer :
      Option (TrxApiClient E)
      → TransferRequest
      → Run (SimpleExpirationCache FeePrices) (TransferError E) Intent
  create_transfer none req = lift (err unsupported)
  create_transfer (some client) req = do
    cur_id ← or_fail (bad_currency req.currency_id) (chain_currency_from_string req.currency_id)
    transfer_of lib asked now client req cur_id

module _ {E A : Type 0} (lib : TrxLib E A) where
  -- The request of `Send`.
  unfoldable pub broadcast_request : Intent → List Text → BroadcastTransactionRequest
  broadcast_request intent signatures = record {
    visible = true;
    raw_data = intent.raw_data;
    signature = map lib.bytes2hex signatures;
  }

  -- With what the node answers.
  broadcasted : Intent → Result E CallResult → Result (TransferError E) Text
  broadcasted intent (err e) = err (not_broadcast e)
  broadcasted intent (ok res) =
      if res.result then ok intent.id else err (rejected res.code res.message)

  unfoldable pub send : Option (TrxApiClient E) → Intent → List Text → Result (TransferError E) Text
  unfolding broadcast_request broadcasted
  send none intent signatures = err unsupported
  send (some client) intent signatures =
      broadcasted intent (client.broadcast (broadcast_request intent signatures))

-- ===== src/Trx/Api.antt =====
-- agents/trx/api.go: the HTTP interface of a Tron node. Go's net/http and encoding/json are fields of `Http` and `Json`,
-- whose codecs belong to the structs; a response that comes with an error is not looked at by any caller, and is left
-- out. `FeePrices` of the module of fees also stands for `ChainParameters`.
pub mod Parameters
use agents_go.Prelude.{
  ℕ, Bool, Option, none, some, List, [], ◌∷◌, ◌++◌, Text, codes, text_eq, if◌then◌else◌, Result, ok,
  err, ◌>>=◌,
}
use agents_go.Conv.Uint256.{BigInt}
use agents_go.Trx.Fees.{FeePrices}

-- http.NewRequestWithContext, `Header.Add`, `Client.Do` and io.ReadAll of the body, with requests of the type `H` and
-- responses of the type `B`.
pub record Http (E H B : Type 0) : Type 0 where
  pub new_request : Text → Text → Text → Result E H
  pub add_header : Text → Text → H → H
  pub perform : H → Result E B
  pub read_all : B → Result E Text

pub record CreateTransactionRequest : Type 0 where
  pub owner_address : Text
  pub to_address : Text
  pub amount : ℕ
  pub visible : Bool

pub record CreateTransactionResponse : Type 0 where
  pub tx_id : Text
  pub raw_data : Text
  pub raw_data_hex : Text
  pub error : Text

pub record TriggerContractRequest : Type 0 where
  pub owner_address : Text
  pub contract_address : Text
  pub fee_limit : ℕ
  pub call_value : ℕ
  pub call_data : Text
  pub visible : Bool

-- The `Result` of the responses to a trigger, and of a broadcast.
pub record CallResult : Type 0 where
  pub result : Bool
  pub code : Text
  pub message : Text

-- The raw data is JSON text.
pub record CallTransaction : Type 0 where
  pub tx_id : Text
  pub raw_data : Text
  pub raw_data_hex : Text

pub record TriggerSmartContractResponse : Type 0 where
  pub result : CallResult
  pub transaction : CallTransaction

-- The struct `RawTxData` of the transaction is never read, and is left out.
pub record TriggerConstantContractResponse : Type 0 where
  pub result : CallResult
  pub energy_used : ℕ
  pub tx_id : Text
  pub raw_data_hex : Text

pub record BroadcastTransactionRequest : Type 0 where
  pub visible : Bool
  pub raw_data : Text
  pub signature : List Text

pub record ParameterKeyValue : Type 0 where
  pub key : Text
  pub value : BigInt

-- json.Marshal of the requests and json.Unmarshal of the responses.
pub record Json (E : Type 0) : Type 0 where
  pub write_create : CreateTransactionRequest → Result E Text
  pub write_trigger : TriggerContractRequest → Result E Text
  pub write_broadcast : BroadcastTransactionRequest → Result E Text
  pub read_create : Text → Result E CreateTransactionResponse
  pub read_constant : Text → Result E TriggerConstantContractResponse
  pub read_smart : Text → Result E TriggerSmartContractResponse
  pub read_broadcast : Text → Result E CallResult
  pub read_parameters : Text → Result E (List ParameterKeyValue)

abbrev pub transaction_fee : Text
transaction_fee = codes "getTransactionFee"

abbrev pub energy_fee : Text
energy_fee = codes "getEnergyFee"

-- The switch of `GetChainParameters`.
set_parameter : ParameterKeyValue → FeePrices → FeePrices
set_parameter kv res =
    if text_eq kv.key transaction_fee
    then record res { bandwidth_price = some kv.value }
    else if text_eq kv.key energy_fee
    then record res { energy_price = some kv.value }
    else res

-- Its loop.
set_parameters : List ParameterKeyValue → FeePrices → FeePrices
unfolding set_parameter
set_parameters [] res = res
set_parameters (kv ∷ rest) res = set_parameters rest (set_parameter kv res)

unfoldable pub chain_parameters : List ParameterKeyValue → FeePrices
unfolding set_parameters
chain_parameters result =
    set_parameters result (record { energy_price = none; bandwidth_price = none })

module _ {E H B : Type 0} (http : Http E H B) (base_url : Text) where
  -- From the marshalled request on.
  post : Text → Text → Result E Text
  post path req_body = do
    http_req ← http.new_request (codes "POST") (base_url ++ path) req_body
    http_res ← http.perform (
        http.add_header (codes "content-type") (codes "application/json")
          (http.add_header (codes "accept") (codes "application/json") http_req))
    http.read_all http_res

  -- `DoPost`.
  unfoldable pub do_post :
      {A C : Type 0} → (A → Result E Text) → (Text → Result E C) → Text → A → Result E C
  unfolding post
  do_post marshal unmarshal path req = do
    req_body ← marshal req
    body ← post path req_body
    unmarshal body

  module _ (json : Json E) where
    unfoldable pub create_transaction :
        CreateTransactionRequest → Result E CreateTransactionResponse
    unfolding do_post
    create_transaction =
        do_post json.write_create json.read_create (codes "/wallet/createtransaction")

    unfoldable pub trigger_constant_contract :
        TriggerContractRequest → Result E TriggerConstantContractResponse
    unfolding do_post
    trigger_constant_contract =
        do_post json.write_trigger json.read_constant (codes "/wallet/triggerconstantcontract")

    unfoldable pub trigger_smart_contract :
        TriggerContractRequest → Result E TriggerSmartContractResponse
    unfolding do_post
    trigger_smart_contract =
        do_post json.write_trigger json.read_smart (codes "/wallet/triggersmartcontract")

    unfoldable pub broadcast_transaction : BroadcastTransactionRequest → Result E CallResult
    unfolding do_post
    broadcast_transaction =
        do_post json.write_broadcast json.read_broadcast (codes "/wallet/broadcasttransaction")

    -- The request is nil, which is marshalled as `null`.
    unfoldable pub get_chain_parameters : Result E FeePrices
    unfolding do_post chain_parameters
    get_chain_parameters = do
      result ← do_post ok json.read_parameters (codes "/wallet/getchainparameters") (codes "null")
      ok (chain_parameters result)

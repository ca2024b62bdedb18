-- ===== src/Eth/Construct.antt =====
-- agents/eth/server/construct.go: `CreateTransfer`, and `AddressFromString` of server.go. The request's
-- amount is not nil. The node's answers, and go-ethereum's functions on transactions, addresses and
-- hashes, are fields of `Node` and `TxLib`.
pub mod Intents
use agents_go.Prelude.{
  ℕ, ◌*◌, Bool, true, false, Option, none, some, List, [], ◌∷◌, ◌++◌, Text, codes, ◌==◌,
  if◌then◌else◌, length, take, Result, ok, err, ◌>>=◌, map_err,
}
use agents_go.Conv.Hex.Pads.{set_bytes}
use agents_go.Conv.Uint256.{bytes}
use agents_go.Currency.{ChainCurrencyId, chain_currency_from_string, is_native, is_erc20}

-- What `types.NewTransaction` is given.
pub record Tx : Type 0 where
  pub nonce : ℕ
  pub to : Text
  pub value : ℕ
  pub gas : ℕ
  pub gas_price : ℕ
  pub payload : Text

pub record Node (E : Type 0) : Type 0 where
  pub pending_nonce_at : Text → Result E ℕ
  pub suggest_gas_price : Result E ℕ
  pub estimate_gas : Text → Text → Text → Result E ℕ

-- common.HexToAddress, hexutil.Decode, common.BytesToAddress, common.LeftPadBytes, the Keccak-256 hash,
-- the EIP-155 signer's `Hash` and the transaction's `MarshalBinary`.
pub record TxLib (E : Type 0) : Type 0 where
  pub hex_to_address : Text → Text
  pub decode : Text → Result E Text
  pub bytes_to_address : Text → Text
  pub left_pad : Text → ℕ → Text
  pub keccak256 : Text → Text
  pub sign_hash : Tx → Text
  pub marshal : Tx → Result E Text

-- Of `CreateTransferRequest`.
pub record TransferRequest : Type 0 where
  pub from : Text
  pub to : Text
  pub currency_id : Text
  pub amount : Text

-- `TransactionIntent`.
pub record Intent : Type 0 where
  pub id : Text
  pub payload_to_sign : Text
  pub signature_type : Text
  pub raw_data : Text
  pub estimated_fee : Text

-- The errors, in the order of the code; `bad_address` is one of the `AddressFromString` hook.
pub data Failure (E : Type 0) : Type 0 where
  no_nonce no_gas_price no_estimate not_marshalled bad_address not_hex : E → Failure E
  invalid_currency : Text → Failure E
  bad_length : ℕ → Failure E

abbrev pub address_length : ℕ
address_length = 20

-- The transaction of a native transfer.
unfoldable pub native_tx : ℕ → ℕ → Text → Text → Tx
native_tx nonce gas_price to_address amount = record {
  nonce = nonce;
  to = to_address;
  value = set_bytes amount;
  gas = 21000;
  gas_price = gas_price;
  payload = [];
}

-- The transaction of a token transfer.
pub token_tx : ℕ → ℕ → Text → Text → ℕ → Tx
token_tx nonce gas_price token_address payload gas_limit = record {
  nonce = nonce;
  to = token_address;
  value = 0;
  gas = gas_limit;
  gas_price = gas_price;
  payload = payload;
}

module _ {E : Type 0} where
  unfoldable pub parsed_currency : Text → Result (Failure E) ChainCurrencyId
  unfolding chain_currency_from_string
  parsed_currency s = elim (chain_currency_from_string s) [
    | some c ↦ ok c
    | none ↦ err (invalid_currency s)
  ]

module _ {E : Type 0} (lib : TxLib E) where
  -- The end of `AddressFromString`.
  checked : Text → Result (Failure E) Text
  checked addr_bytes =
      if length addr_bytes == address_length
      then ok (lib.bytes_to_address addr_bytes)
      else err (bad_length (length addr_bytes))

  -- The call data of the token's `transfer`.
  pub erc20_payload : Text → Text → Text
  unfolding bytes
  erc20_payload to_address amount =
      take 4 (lib.keccak256 (codes "transfer(address,uint256)"))
      ++ (lib.left_pad to_address 32 ++ lib.left_pad (bytes (set_bytes amount)) 32)

  -- `intent`; `gasEstimate` is the transaction's gas in both cases.
  unfoldable pub intent_with : Tx → Text → Intent
  unfolding bytes
  intent_with tx raw = record {
    id = lib.sign_hash tx;
    payload_to_sign = lib.sign_hash tx;
    signature_type = codes "secp256k1";
    raw_data = raw;
    estimated_fee = bytes (tx.gas * tx.gas_price);
  }

  -- From the signer on.
  pub intent_of : Tx → Result (Failure E) Intent
  unfolding intent_with
  intent_of tx = map_err not_marshalled (lib.marshal tx) >>= (λ raw. ok (intent_with tx raw))

module _ {E : Type 0} (lib : TxLib E) (extension : Option (Text → Result E Text)) where
  unfoldable pub address_from_string : Text → Result (Failure E) Text
  unfolding checked
  address_from_string address = elim extension [
    | some parse ↦ map_err bad_address (parse address)
    | none ↦ map_err not_hex (lib.decode address) >>= checked lib
  ]

module _ {E : Type 0} (lib : TxLib E) (node : Node E) where
  -- The transaction of a token transfer, with the gas that the node estimates.
  pub erc20_tx : ℕ → ℕ → Text → Text → Text → Text → Result (Failure E) Tx
  unfolding erc20_payload token_tx
  erc20_tx nonce gas_price from_address to_address amount token_address =
      let payload = erc20_payload lib to_address amount in
      map_err no_estimate (node.estimate_gas from_address token_address payload)
      >>= (λ gas_limit. ok (token_tx nonce gas_price token_address payload gas_limit))

module _ {E : Type 0} (lib : TxLib E) (node : Node E)
    (extension : Option (Text → Result E Text)) where
  pub transfer_tx : TransferRequest → ℕ → ℕ → ChainCurrencyId → Text → Text → Result (Failure E) Tx
  unfolding address_from_string native_tx erc20_tx is_native is_erc20
  transfer_tx req nonce gas_price currency to_address from_address =
      if is_native currency
      then ok (native_tx nonce gas_price to_address req.amount)
      else if is_erc20 currency
      then address_from_string lib extension currency.address
        >>= (erc20_tx lib node nonce gas_price from_address to_address req.amount)
      else err (invalid_currency req.currency_id)

  pub create_transfer : TransferRequest → Result (Failure E) Intent
  unfolding parsed_currency address_from_string transfer_tx intent_of
  create_transfer req = do
    nonce ← map_err no_nonce (node.pending_nonce_at (lib.hex_to_address req.from))
    gas_price ← map_err no_gas_price node.suggest_gas_price
    currency ← parsed_currency req.currency_id
    to_address ← address_from_string lib extension req.to
    from_address ← address_from_string lib extension req.from
    tx ← transfer_tx req nonce gas_price currency to_address from_address
    intent_of lib tx

-- ===== src/Trx/Transfers/Tests.antt =====
-- A node that answers every request, for the transfers of agents/trx/server.go.
use agents_go.Prelude.{◌≡◌, refl, true, none, some, [], ◌∷◌, Text, codes, replicate, ok, err}
use agents_go.Conv.Hex.{hex2bytes, decode_string, has_0x_prefix, decode_pair, hex_value}
use agents_go.Conv.Uint256.{from_big_int}
use agents_go.Conv.Uint256.Laws.{natural}
use agents_go.Currency.{ChainCurrencyId, chain_currency_from_string, is_native, is_erc20}
use agents_go.Cache.{SimpleExpirationCache, new_cache, get, set}
use agents_go.Chain.{sign_data, public_key_from_private_key, verify_data}
use agents_go.Chain.Tests.{curve, curve_verifies}
use agents_go.Eth.Construct.{Intent, TransferRequest}
use agents_go.Eth.Send.{SignedTransaction, sign_transaction}
use agents_go.Trx.Fees.{
  FeePrices, estimate_fee, estimate_bandwidth, get_fee_prices, mul, add, from_uint64, fee_of,
}
use agents_go.Trx.Api.{CallResult}
use agents_go.Trx.Transfers.{
  TrxApiClient, TrxLib, intent_of, fee_bytes, create_transfer, token_transfer, transfer_of,
  fee_of_transfer, send, unsupported,
}
use agents_go.Trx.Transfers.Intents.{IsIntentOf, create_transfer-IsIntentOf}
use agents_go.Trx.Transfers.Delivery.{send-sign_transaction}

abbrev accepted : CallResult
accepted = record { result = true; code = []; message = [] }

abbrev client : TrxApiClient Text
client = record {
  create = λ req. ok (record {
    tx_id = codes "ab";
    raw_data = codes "{}";
    raw_data_hex = codes "00ff";
    error = [];
  });
  trigger_constant = λ req. ok (record {
    result = accepted;
    energy_used = 7;
    tx_id = codes "ab";
    raw_data_hex = codes "00ff";
  });
  trigger_smart = λ req. ok (record {
    result = accepted;
    transaction = record { tx_id = codes "ab"; raw_data = codes "{}"; raw_data_hex = codes "00ff" };
  });
  broadcast = λ req. ok accepted;
  parameters =
      ok (record { energy_price = some (natural 210); bandwidth_price = some (natural 1000) });
}

-- Hexadecimal text is left as it is.
abbrev lib : TrxLib Text Unit
lib = record {
  get_abi = ok tt;
  pack = λ abi method addr amount. ok addr;
  bytes2hex = λ t. t;
  hex2bytes = λ t. t;
  parse_address = ok;
}

abbrev empty_cache : SimpleExpirationCache FeePrices
empty_cache = new_cache (record { energy_price = none; bandwidth_price = none }) 10

abbrev filled_cache : SimpleExpirationCache FeePrices
filled_cache = record {
  expiration = 10;
  last_updated = 51;
  val = record { energy_price = some (natural 210); bandwidth_price = some (natural 1000) };
}

abbrev req : TransferRequest
req = record { from = codes "a"; to = codes "b"; currency_id = codes "c"; amount = 1 ∷ 2 ∷ [] }

-- The fee is 142 bytes of bandwidth at 1000, and 7 units of energy at 210.
abbrev intent : Intent
intent = record {
  id = codes "ab";
  payload_to_sign = codes "ab";
  signature_type = codes "secp256k1";
  raw_data = codes "{}";
  estimated_fee = 2 ∷ 48 ∷ 110 ∷ [];
}

made : create_transfer lib 50 51 (some client) req empty_cache ≡ (ok intent, filled_cache)
unfolding create_transfer chain_currency_from_string transfer_of is_native is_erc20 token_transfer
    intent_of fee_bytes from_big_int fee_of_transfer estimate_fee get_fee_prices get set
    estimate_bandwidth new_cache add mul from_uint64 fee_of hex2bytes decode_string has_0x_prefix
    decode_pair hex_value
made = refl

create_transfer-IsIntentOf_example :
    (cur_id : ChainCurrencyId) × (chain_currency_from_string (codes "c") ≡ some cur_id)
    × IsIntentOf lib 50 51 client req cur_id empty_cache intent
create_transfer-IsIntentOf_example =
    create_transfer-IsIntentOf lib 50 51 client req empty_cache filled_cache intent made

abbrev signed : SignedTransaction
signed = record { intent = intent; signatures = replicate 65 7 ∷ [] }

signing : sign_transaction (sign_data curve) intent (9 ∷ []) ≡ ok signed
unfolding sign_transaction sign_data
signing = refl

accepted_once : send lib (some client) intent (replicate 65 7 ∷ []) ≡ ok (codes "ab")
unfolding send
accepted_once = refl

without_client : send lib none intent [] ≡ err unsupported
unfolding send
without_client = refl

known_key : public_key_from_private_key curve (9 ∷ []) ≡ ok (4 ∷ 9 ∷ [])
unfolding public_key_from_private_key
known_key = refl

send-sign_transaction_example :
    (cur_id : ChainCurrencyId) × (text : Text) × (res : CallResult) × (chain_currency_from_string
        (codes "c")
      ≡ some cur_id)
    × IsIntentOf lib 50 51 client req cur_id empty_cache intent
    × (client.broadcast (record { visible = true; raw_data = codes "{}"; signature = text ∷ [] })
        ≡ ok res)
    × (res.result ≡ true)
    × (verify_data curve (codes "ab") (lib.hex2bytes text) (4 ∷ 9 ∷ []) ≡ ok true)
    × (intent.id ≡ codes "ab")
send-sign_transaction_example =
    send-sign_transaction lib curve (λ t. refl) curve_verifies 50 51 client req empty_cache
      filled_cache intent (9 ∷ []) (4 ∷ 9 ∷ []) signed (codes "ab") made known_key signing
      accepted_once

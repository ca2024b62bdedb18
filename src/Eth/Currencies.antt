-- ===== src/Eth/Currencies.antt =====
-- agents/eth/server/currency.go: `GetCurrency`. The cache and the token contract are fields of `Tokens`; an
-- error of the contract is replaced by `ErrInvalidCurrency`, so only whether there is one is kept.
pub mod Answers
pub mod Tests
use agents_go.Prelude.{
  Bool, true, false, ℕ, ◌%◌, ◌^◌, Option, none, some, List, Text, if◌then◌else◌, is_empty, ◌∷◌, [],
  Result, ok, err,
}
use agents_go.Currency.{ChainCurrencyId, chain_currency_from_string}
use agents_go.Eth.Construct.{TxLib, Failure, address_from_string}

-- `proto.Currency`.
pub record Currency : Type 0 where
  pub id : Text
  pub symbol : Text
  pub decimals : ℕ

-- The cache `C` with its `Get` and `Set`, and `NewErc20`, `Symbol` and `Decimals` at an address.
pub record Tokens (C : Type 0) : Type 0 where
  pub get : C → Text → Option Currency
  pub set : C → Text → Currency → C
  pub instance_exists : Text → Bool
  pub symbol : Text → Option Text
  pub decimals : Text → Option ℕ

pub data CurrencyError (E : Type 0) : Type 0 where
  invalid_id invalid_currency unimplemented : CurrencyError E
  bad_address : Failure E → CurrencyError E

-- What `GetCurrency` makes of the answers of the contract: does it exist, its symbol and its decimals.
token_answer :
    {E : Type 0} → Text → Bool → Option Text → Option ℕ → Result (CurrencyError E) Currency
token_answer id true (some symbol) (some decimals) =
    ok (record { id = id; symbol = symbol; decimals = decimals })
token_answer id _ _ _ = err invalid_currency

module _ {E C : Type 0} (lib : TxLib E) (extension : Option (Text → Result E Text))
    (tokens : Tokens C) (chain_type : Text) (decimals : ℕ) where
  -- Only an answer without an error is stored.
  store_answer :
      Text → C → Result (CurrencyError E) Currency → Result (CurrencyError E) Currency × C
  store_answer id cache (ok ret) = (ok ret, tokens.set cache id ret)
  store_answer id cache (err e) = (err e, cache)

  ask_contract : Text → C → Result (Failure E) Text → Result (CurrencyError E) Currency × C
  unfolding store_answer token_answer
  ask_contract id cache (err e) = (err (bad_address e), cache)
  ask_contract id cache (ok address) = store_answer id cache (
      token_answer id (tokens.instance_exists address) (tokens.symbol address)
        (tokens.decimals address))

  -- With what the cache answers.
  look_up : Text → Text → C → Option Currency → Result (CurrencyError E) Currency × C
  unfolding ask_contract address_from_string
  look_up id address cache (some cached) = (ok cached, cache)
  look_up id address cache none = ask_contract id cache (address_from_string lib extension address)

  -- The three kinds, by whether the address and the token are empty.
  by_kind : Text → Text → C → Bool → Bool → Result (CurrencyError E) Currency × C
  unfolding look_up
  by_kind id address cache true no_token =
      (ok (record { id = id; symbol = chain_type; decimals = decimals % 2 ^ 32 }), cache)
  by_kind id address cache false true = look_up id address cache (tokens.get cache id)
  by_kind id address cache false false = (err unimplemented, cache)

  currency_of : Text → C → Option ChainCurrencyId → Result (CurrencyError E) Currency × C
  unfolding by_kind
  currency_of id cache none = (err invalid_id, cache)
  currency_of id cache (some c) = by_kind id c.address cache (is_empty c.address) (is_empty c.token)

  pub get_currency : Text → C → Result (CurrencyError E) Currency × C
  unfolding currency_of chain_currency_from_string
  get_currency id cache = currency_of id cache (chain_currency_from_string id)

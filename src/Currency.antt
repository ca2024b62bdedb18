-- ===== src/Currency.antt =====
-- blockchain/currency.go: chain and currency identifiers. Texts are lists of bytes, and
-- `strings.ToUpper` is written out for ASCII letters: identifiers are taken to be ASCII. A gRPC error
-- is `none`: the only one says that the identifier is invalid.
pub mod Kinds
pub mod Normal
pub mod RoundTrip
pub mod Tests
use agents_go.Prelude.{
  ℕ, Bool, true, false, ◌&&◌, not, Option, none, some, List, [], ◌∷◌, ◌++◌, Text, codes, text_eq,
  is_empty, to_upper, split, if◌then◌else◌,
}

-- `UChainId`.
pub record ChainId : Type 0 where
  pub chain_type : Text
  pub network : Text

-- `UChainCurrencyId`.
pub record ChainCurrencyId : Type 0 where
  pub address : Text
  pub token : Text

-- `UCurrencyId`.
pub record CurrencyId : Type 0 where
  pub chain : ChainId
  pub currency_id : ChainCurrencyId

abbrev pub mainnet : Text
mainnet = codes "MAINNET"

-- An uppercased network, with the main network normalised to the empty text.
abbrev pub normal_network : Text → Text
normal_network net = if text_eq net mainnet then [] else net

pub chain_string : ChainId → Text
chain_string c = if is_empty c.network then c.chain_type else c.chain_type ++ b':' ∷ c.network

pub chain_normalize : ChainId → ChainId
chain_normalize c = record {
  chain_type = to_upper c.chain_type;
  network = normal_network (to_upper c.network);
}

-- The currency that `UCurrencyIdFromString` builds from its four parts.
abbrev pub built : Text → Text → Text → Text → CurrencyId
built t n a k = record {
  chain = record { chain_type = to_upper t; network = normal_network (to_upper n) };
  currency_id = record { address = a; token = k };
}

-- `UCurrencyIdFromString` on the parts of the text; a missing part is empty.
from_parts : List Text → Option CurrencyId
from_parts [] = none
from_parts (t ∷ []) = some (built t [] [] [])
from_parts (t ∷ n ∷ []) = some (built t n [] [])
from_parts (t ∷ n ∷ a ∷ []) = some (built t n a [])
from_parts (t ∷ n ∷ a ∷ k ∷ []) = some (built t n a k)
from_parts (t ∷ n ∷ a ∷ k ∷ x ∷ rest) = none

pub currency_from_string : Text → Option CurrencyId
unfolding from_parts
currency_from_string s = from_parts (split b':' s)

-- `UChainCurrencyIdromString` on the parts of the text.
chain_currency_parts : List Text → Option ChainCurrencyId
chain_currency_parts [] = some (record { address = []; token = [] })
chain_currency_parts (a ∷ []) = some (record { address = a; token = [] })
chain_currency_parts (a ∷ k ∷ []) = some (record { address = a; token = k })
chain_currency_parts (a ∷ k ∷ x ∷ rest) = none

unfoldable pub chain_currency_from_string : Text → Option ChainCurrencyId
unfolding chain_currency_parts
chain_currency_from_string s = chain_currency_parts (split b':' s)

unfoldable pub chain_currency_string : ChainCurrencyId → Text
chain_currency_string c = if is_empty c.token then c.address else c.address ++ b':' ∷ c.token

unfoldable pub is_native : ChainCurrencyId → Bool
is_native c = is_empty c.address

-- `IsErc20` of a chain currency, and `IsERC20` of a currency.
unfoldable pub is_erc20 : ChainCurrencyId → Bool
is_erc20 c = not (is_empty c.address) && is_empty c.token

unfoldable pub is_erc1155 : ChainCurrencyId → Bool
is_erc1155 c = not (is_empty c.address) && not (is_empty c.token)

pub currency_normalize : CurrencyId → CurrencyId
unfolding chain_normalize
currency_normalize c = record { chain = chain_normalize c.chain; currency_id = c.currency_id }

pub currency_string : CurrencyId → Text
unfolding chain_currency_string
currency_string c =
    let chain =
      if is_empty c.chain.network
      then c.chain.chain_type
      else c.chain.chain_type ++ b':' ∷ c.chain.network in
    let cur_id = chain_currency_string c.currency_id in
    if is_empty cur_id then chain else chain ++ b':' ∷ cur_id

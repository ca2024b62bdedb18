-- ===== src/Eth/Currencies/Tests.antt =====
-- A concrete token and a cache of one entry, for the code of agents/eth/server/currency.go.
use agents_go.Prelude.{
  ℕ, ◌≡◌, refl, sym, true, Option, none, some, [], ◌∷◌, map, Text, codes, text_eq, text_eq_iff,
  Result, ok, if◌then◌else◌, Bool, false, some_path, ◌⊎◌, inl,
}
use agents_go.Currency.{chain_currency_from_string}
use agents_go.Eth.Construct.{TxLib, address_from_string}
use agents_go.Eth.Currencies.{
  Currency, Tokens, get_currency, currency_of, by_kind, look_up, ask_contract, store_answer,
  token_answer,
}
use agents_go.Eth.Currencies.Answers.{IsSound, fresh, get_currency-uncached}

abbrev lib : TxLib ℕ
lib = record {
  hex_to_address = λ s. s;
  decode = λ s. ok s;
  bytes_to_address = λ s. s;
  left_pad = λ s l. s;
  keccak256 = λ s. s;
  sign_hash = λ tx. [];
  marshal = λ tx. ok [];
}

abbrev parse : Text → Result ℕ Text
parse s = ok s

-- The cache of the last entry that was set.
abbrev find : Option (Text × Currency) → Text → Option Currency
find none id = none
find (some (key, v)) id = if text_eq key id then some v else none

abbrev tokens : Tokens (Option (Text × Currency))
tokens = record {
  get = find;
  set = λ c id v. some (id, v);
  instance_exists = λ a. true;
  symbol = λ a. some (codes "USDT");
  decimals = λ a. some 6;
}

abbrev usdt : Text → Currency
usdt id = record { id = id; symbol = codes "USDT"; decimals = 6 }

abbrev Holds : Option (Text × Currency) → Text → Currency → Type 0
Holds c id w = find c id ≡ some w

tokens-IsSound : IsSound Holds tokens
tokens-IsSound =
    ((λ c id w h. h), λ c id other v w h. by_key c id other v w (text_eq id other) refl h)
  where
    by_key :
        (c : Option (Text × Currency)) (id other : Text) (v w : Currency) (same : Bool)
        → text_eq id other ≡ same
        → (if same then some v else none) ≡ some w
        → ((other ≡ id) × (w ≡ v)) ⊎ Holds c other w
    by_key c id other v w true e h = inl (sym ((text_eq_iff id other).0 e), sym (some_path h))
    by_key c id other v w false e h = cc

-- The second token replaces the first in the cache, and the third request finds the second.
get_currency-uncached_example :
    ok (usdt (codes "0a")) ∷ ok (usdt (codes "0b")) ∷ ok (usdt (codes "0b")) ∷ []
    ≡ map
        (fresh lib (some parse) Holds tokens (codes "ETH") 18)
        (codes "0a" ∷ codes "0b" ∷ codes "0b" ∷ [])
unfolding get_currency currency_of by_kind look_up ask_contract store_answer token_answer
    address_from_string chain_currency_from_string
get_currency-uncached_example =
    get_currency-uncached lib (some parse) Holds tokens (codes "ETH") 18
      (codes "0a" ∷ codes "0b" ∷ codes "0b" ∷ []) none
      (ok (usdt (codes "0a")) ∷ ok (usdt (codes "0b")) ∷ ok (usdt (codes "0b")) ∷ []) tokens-IsSound
      (λ id w h. cc)
      (
        none,
        ok (usdt (codes "0b")) ∷ ok (usdt (codes "0b")) ∷ [],
        (λ id w h. h),
        refl,
        (
          some (codes "0a", usdt (codes "0a")),
          ok (usdt (codes "0b")) ∷ [],
          (λ id w h. h),
          refl,
          (some (codes "0b", usdt (codes "0b")), [], (λ id w h. h), refl, refl),
        ),
      )

-- ===== src/Eth/Currencies/Answers.antt =====
-- The answers of `GetCurrency` of agents/eth/server/currency.go with its cache, which may drop what is
-- set, and lose what it has at any time. The answers of the token contracts do not change.
use agents_go.Prelude.{
  ℕ, Bool, true, false, ◌≡◌, refl, sym, ap, ◌∙◌, Option, none, some, List, [], ◌∷◌, map, Text,
  is_empty, Result, ok, err, ◌⊎◌, inl, inr,
}
use agents_go.Currency.{ChainCurrencyId, chain_currency_from_string}
use agents_go.Eth.Construct.{TxLib, Failure, address_from_string}
use agents_go.Eth.Currencies.{
  Currency, Tokens, CurrencyError, store_answer, ask_contract, look_up, by_kind, currency_of,
  get_currency,
}

-- What a cache `Holds` under a name is what it may give, at once or, where a `Set` waits in a buffer, later: it gives
-- nothing else, and after a `Set` it holds what was set then, or what it held before.
abbrev pub IsSound : {C : Type 0} → (C → Text → Currency → Type 0) → Tokens C → Type 0
IsSound {C} Holds tokens =
    ((c : C) (id : Text) (w : Currency) → tokens.get c id ≡ some w → Holds c id w)
    × ((c : C) (id other : Text) (v w : Currency)
        → Holds (tokens.set c id v) other w
        → ((other ≡ id) × (w ≡ v)) ⊎ Holds c other w)

-- The contracts of `tokens`, with a cache that never has anything.
abbrev pub uncached : {C : Type 0} → Tokens C → Tokens Unit
uncached tokens = record {
  get = λ c id. none;
  set = λ c id v. c;
  instance_exists = tokens.instance_exists;
  symbol = tokens.symbol;
  decimals = tokens.decimals;
}

module _ {E C : Type 0} (lib : TxLib E) (extension : Option (Text → Result E Text))
    (Holds : C → Text → Currency → Type 0) (tokens : Tokens C) (chain_type : Text)
    (decimals : ℕ) where
  -- The answer that is not from a cache.
  abbrev pub fresh : Text → Result (CurrencyError E) Currency
  fresh id = (get_currency lib extension (uncached tokens) chain_type decimals id tt).0

  -- Everything that the cache holds is the answer without it.
  abbrev IsFaithful : C → Type 0
  IsFaithful c = (id : Text) (w : Currency) → Holds c id w → fresh id ≡ ok w

  -- The cache has become one that holds nothing else.
  abbrev pub HasLost : C → C → Type 0
  HasLost c c' = (id : Text) (w : Currency) → Holds c' id w → Holds c id w

  -- The answers to requests in turn, from a cache that may lose entries before each.
  abbrev pub AreAnswers : C → List Text → List (Result (CurrencyError E) Currency) → Type 0
  AreAnswers c [] answers = answers ≡ []
  AreAnswers c (id ∷ ids) answers =
      (c' : C) × (later : List (Result (CurrencyError E) Currency)) × HasLost c c'
      × (answers ≡ (get_currency lib extension tokens chain_type decimals id c').0 ∷ later)
      × AreAnswers (get_currency lib extension tokens chain_type decimals id c').1 ids later

  -- The call answers what it would without the cache, which stays faithful.
  abbrev IsFresh : Text → Result (CurrencyError E) Currency × C → Type 0
  IsFresh id (answer, after) = (answer ≡ fresh id) × IsFaithful after

  store_answer-same :
      (id : Text) (r : Result (CurrencyError E) Currency)
      → (store_answer lib extension (uncached tokens) chain_type decimals id tt r).0 ≡ r
  unfolding store_answer
  store_answer-same id (ok v) = refl
  store_answer-same id (err e) = refl

  store_answer-IsFresh :
      (id : Text) (c : C) (r : Result (CurrencyError E) Currency)
      → IsSound Holds tokens
      → IsFaithful c
      → fresh id ≡ r
      → IsFresh id (store_answer lib extension tokens chain_type decimals id c r)
  unfolding store_answer
  store_answer-IsFresh id c (ok v) sound faithful h = (
    sym h,
    λ other w held. elim (sound.1 c id other v w held) [
      | inl (same, set) ↦ ap fresh same ∙ h ∙ ap ok (sym set)
      | inr before ↦ faithful other w before
    ],
  )
  store_answer-IsFresh id c (err e) sound faithful h = (sym h, faithful)

  ask_contract-IsFresh :
      (id : Text) (c : C) (r : Result (Failure E) Text)
      → IsSound Holds tokens
      → IsFaithful c
      → fresh id ≡ (ask_contract lib extension (uncached tokens) chain_type decimals id tt r).0
      → IsFresh id (ask_contract lib extension tokens chain_type decimals id c r)
  unfolding ask_contract
  ask_contract-IsFresh id c (ok address) sound faithful h =
      store_answer-IsFresh id c _ sound faithful (h ∙ store_answer-same id _)
  ask_contract-IsFresh id c (err e) sound faithful h = (sym h, faithful)

  look_up-IsFresh :
      (id address : Text) (c : C) (o : Option Currency)
      → IsSound Holds tokens
      → IsFaithful c
      → tokens.get c id ≡ o
      → fresh id
        ≡ (look_up lib extension (uncached tokens) chain_type decimals id address tt none).0
      → IsFresh id (look_up lib extension tokens chain_type decimals id address c o)
  unfolding look_up
  look_up-IsFresh id address c (some w) sound faithful found h =
      (sym (faithful id w (sound.0 c id w found)), faithful)
  look_up-IsFresh id address c none sound faithful found h =
      ask_contract-IsFresh id c (address_from_string lib extension address) sound faithful h

  by_kind-IsFresh :
      (id address : Text) (c : C) (no_address no_token : Bool)
      → IsSound Holds tokens
      → IsFaithful c
      → fresh id
        ≡ (by_kind lib extension
            (uncached tokens)
            chain_type
            decimals
            id
            address
            tt
            no_address
            no_token).0
      → IsFresh id
          (by_kind lib extension tokens chain_type decimals id address c no_address no_token)
  unfolding by_kind
  by_kind-IsFresh id address c true no_token sound faithful h = (sym h, faithful)
  by_kind-IsFresh id address c false true sound faithful h =
      look_up-IsFresh id address c (tokens.get c id) sound faithful refl h
  by_kind-IsFresh id address c false false sound faithful h = (sym h, faithful)

  currency_of-IsFresh :
      (id : Text) (c : C) (o : Option ChainCurrencyId)
      → IsSound Holds tokens
      → IsFaithful c
      → fresh id ≡ (currency_of lib extension (uncached tokens) chain_type decimals id tt o).0
      → IsFresh id (currency_of lib extension tokens chain_type decimals id c o)
  unfolding currency_of
  currency_of-IsFresh id c none sound faithful h = (sym h, faithful)
  currency_of-IsFresh id c (some parts) sound faithful h =
      by_kind-IsFresh id parts.address c (is_empty parts.address) (is_empty parts.token) sound
        faithful h

  get_currency-IsFresh :
      (id : Text) (c : C)
      → IsSound Holds tokens
      → IsFaithful c
      → IsFresh id (get_currency lib extension tokens chain_type decimals id c)
  unfolding get_currency
  get_currency-IsFresh id c sound faithful =
      currency_of-IsFresh id c (chain_currency_from_string id) sound faithful refl

  answers_fresh :
      (ids : List Text) (c : C) (answers : List (Result (CurrencyError E) Currency))
      → IsSound Holds tokens
      → IsFaithful c
      → AreAnswers c ids answers
      → answers ≡ map fresh ids
  answers_fresh [] c answers sound faithful h = h
  answers_fresh (id ∷ ids) c answers sound faithful (c', later, lost, first, rest) =
      let (here, still) =
        get_currency-IsFresh id c' sound (λ other w h. faithful other w (lost other w h)) in
      first
      ∙ ap (λ r. r ∷ later) here
      ∙ ap (λ rs. fresh id ∷ rs) (answers_fresh ids _ later sound still rest)

  -- With a cache that starts empty, gives under a name only what was set under it, at once or later, and drops and loses
  -- entries as it likes, every `GetCurrency` of any sequence of requests answers what it would without the cache, where
  -- the answers of the token contracts do not change.
  pub get_currency-uncached :
      (ids : List Text) (c : C) (answers : List (Result (CurrencyError E) Currency))
      → IsSound Holds tokens
      → ((id : Text) (w : Currency) → ¬ Holds c id w)
      → AreAnswers c ids answers
      → answers ≡ map fresh ids
  get_currency-uncached ids c answers sound empty =
      answers_fresh ids c answers sound (λ id w h. absurd (empty id w h))

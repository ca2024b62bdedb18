-- ===== src/Currency/Normal.antt =====
-- `Normalize` of blockchain/currency.go, and what `UCurrencyIdFromString` accepts.
use agents_go.Prelude.{
  ◌≡◌, subst, some, some_path, List, [], ◌∷◌, Text, text_eq, to_upper, split, to_upper_twice, inl,
  inr, Bool-cases,
}
use agents_go.Currency.{
  CurrencyId, built, mainnet, normal_network, chain_normalize, from_parts, currency_from_string,
  currency_normalize,
}

normalize_twice :
    (n : Text)
    → normal_network (to_upper (normal_network (to_upper n))) ≡ normal_network (to_upper n)
normalize_twice n = elim (Bool-cases (text_eq (to_upper n) mainnet)) [
  | inl e ↦ rw e
  | inr e ↦ rw (e, to_upper_twice n, e)
]

-- `Normalize` is idempotent.
pub currency_normalize_twice :
    (c : CurrencyId) → currency_normalize (currency_normalize c) ≡ currency_normalize c
unfolding currency_normalize chain_normalize
currency_normalize_twice c = rw (to_upper_twice c.chain.chain_type, normalize_twice c.chain.network)

built-normal : (t n a k : Text) → currency_normalize (built t n a k) ≡ built t n a k
unfolding currency_normalize chain_normalize
built-normal t n a k = rw (to_upper_twice t, normalize_twice n)

normal_of_built :
    (c : CurrencyId) (t n a k : Text) → some (built t n a k) ≡ some c → currency_normalize c ≡ c
normal_of_built c t n a k h =
    subst (λ d. currency_normalize d ≡ d) (some_path h) (built-normal t n a k)

parts-normal : (ps : List Text) (c : CurrencyId) → from_parts ps ≡ some c → currency_normalize c ≡ c
unfolding from_parts
parts-normal [] c h = cc
parts-normal (t ∷ []) c h = normal_of_built c t [] [] [] h
parts-normal (t ∷ n ∷ []) c h = normal_of_built c t n [] [] h
parts-normal (t ∷ n ∷ a ∷ []) c h = normal_of_built c t n a [] h
parts-normal (t ∷ n ∷ a ∷ k ∷ []) c h = normal_of_built c t n a k h
parts-normal (t ∷ n ∷ a ∷ k ∷ x ∷ rest) c h = cc

-- What `UCurrencyIdFromString` accepts is normalised: `Normalize` does not change it.
pub currency_from_string-normal :
    (s : Text) (c : CurrencyId) → currency_from_string s ≡ some c → currency_normalize c ≡ c
unfolding currency_from_string
currency_from_string-normal s c h = parts-normal (split b':' s) c h

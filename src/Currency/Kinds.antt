-- ===== src/Currency/Kinds.antt =====
-- The kinds of the currencies of a chain in blockchain/currency.go, and their texts.
use agents_go.Prelude.{
  ◌≡◌, refl, true, false, ◌&&◌, ◌||◌, some, [], ◌∷◌, Text, is_empty, Lacks, split_from-Lacks,
  split_from-append, arith, inl, inr, Bool-cases,
}
use agents_go.Currency.{
  ChainCurrencyId, chain_currency_from_string, chain_currency_string, is_native, is_erc20,
  is_erc1155,
}

pub empty_nil : (t : Text) → is_empty t ≡ true → t ≡ []
empty_nil [] h = refl
empty_nil (x ∷ t) h = cc

-- Every currency is exactly one of native, ERC-20 and ERC-1155.
pub kinds_exclusive :
    (c : ChainCurrencyId)
    → ((is_native c || (is_erc20 c || is_erc1155 c)) ≡ true)
      × ((is_native c && is_erc20 c) ≡ false)
      × ((is_native c && is_erc1155 c) ≡ false)
      × ((is_erc20 c && is_erc1155 c) ≡ false)
unfolding is_native is_erc20 is_erc1155
kinds_exclusive c = (ground arith, ground arith, ground arith, ground arith)

-- A currency of a chain is read back from its print if its two parts hold no
-- separator.
pub chain_currency_from_string-string :
    (c : ChainCurrencyId)
    → Lacks b':' c.address
    → Lacks b':' c.token
    → chain_currency_from_string (chain_currency_string c) ≡ some c
unfolding chain_currency_from_string chain_currency_string
chain_currency_from_string-string c ha hk = elim (Bool-cases (is_empty c.token)) [
  | inl e ↦ rw (e, split_from-Lacks b':' [] c.address ha) (ground (arith, empty_nil c.token e))
  | inr e ↦
      rw (e, split_from-append b':' [] c.address c.token ha, split_from-Lacks b':' [] c.token hk)
]

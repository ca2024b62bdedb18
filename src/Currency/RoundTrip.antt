-- ===== src/Currency/RoundTrip.antt =====
-- Printing and parsing the identifiers of blockchain/currency.go.
use agents_go.Prelude.{
  ℕ, ◌≡◌, ◌≢◌, refl, sym, ap, ◌∙◌, Bool, true, false, some, some_path, List, [], ◌∷◌, ◌++◌, Text,
  is_empty, split, if◌then◌else◌, Lacks, split_from-Lacks, split_from-append, append_assoc, ◌⊎◌,
  inl, inr, Bool-cases,
}
use agents_go.Currency.Kinds.{empty_nil}
use agents_go.Currency.{
  CurrencyId, built, chain_normalize, from_parts, currency_from_string, chain_currency_string,
  currency_normalize, currency_string,
}

-- No part of the identifier holds the separator.
pub record IsPlain (c : CurrencyId) : Type 0 where
  pub plain_type : Lacks b':' c.chain.chain_type
  pub plain_network : Lacks b':' c.chain.network
  pub plain_address : Lacks b':' c.currency_id.address
  pub plain_token : Lacks b':' c.currency_id.token

empty-append : (s t : Text) (x : ℕ) → is_empty (s ++ x ∷ t) ≡ false
empty-append [] t x = refl
empty-append (y ∷ s) t x = refl

module _ (c : CurrencyId) (plain : IsPlain c) where
  open c use {chain, currency_id}

  parts_type :
      (rest : Text)
      → split b':' (chain.chain_type ++ b':' ∷ rest) ≡ chain.chain_type ∷ split b':' rest
  parts_type rest = split_from-append b':' [] chain.chain_type rest plain.plain_type

  parts_network :
      (rest : Text) → split b':' (chain.network ++ b':' ∷ rest) ≡ chain.network ∷ split b':' rest
  parts_network rest = split_from-append b':' [] chain.network rest plain.plain_network

  -- The parts of the last section of the print.
  parts_currency : split b':' (chain_currency_string currency_id) ≡ (
      if is_empty currency_id.token
      then currency_id.address ∷ []
      else currency_id.address ∷ currency_id.token ∷ [])
  unfolding chain_currency_string
  parts_currency = elim (Bool-cases (is_empty currency_id.token)) [
    | inl e ↦ rw (e, split_from-Lacks b':' [] currency_id.address plain.plain_address)
    | inr e ↦ rw (
      e,
      split_from-append b':' [] currency_id.address currency_id.token plain.plain_address,
      split_from-Lacks b':' [] currency_id.token plain.plain_token,
    )
  ]

  empty_currency :
      is_empty (chain_currency_string currency_id) ≡ true
      → (currency_id.address ≡ []) × (currency_id.token ≡ [])
  unfolding chain_currency_string
  empty_currency h = elim (Bool-cases (is_empty currency_id.token)) [
    | inl e ↦ (empty_nil _ (rw e at h), empty_nil _ e)
    | inr e ↦
        let h' : is_empty (currency_id.address ++ b':' ∷ currency_id.token) ≡ true = rw e at h in
        cc (empty-append currency_id.address currency_id.token b':')
  ]

  empty_print :
      currency_id.address ≡ []
      → is_empty currency_id.token ≡ true
      → is_empty (chain_currency_string currency_id) ≡ true
  unfolding chain_currency_string
  empty_print a e = rw (e, a)

  print_unnamed :
      chain.network ≡ []
      → is_empty (chain_currency_string currency_id) ≡ false
      → currency_string c ≡ chain.chain_type ++ b':' ∷ chain_currency_string currency_id
  unfolding currency_string
  print_unnamed unnamed named = rw (named, unnamed)

  print_named :
      is_empty chain.network ≡ false
      → is_empty (chain_currency_string currency_id) ≡ false
      → currency_string c
        ≡ chain.chain_type ++ b':' ∷ (chain.network ++ b':' ∷ chain_currency_string currency_id)
  unfolding currency_string
  print_named net named = rw (named, net) (append_assoc chain.chain_type (b':' ∷ chain.network) _)

  -- The last parts, by whether there is a token.
  abbrev tail_parts : Bool → List Text
  tail_parts no_token =
      if no_token then currency_id.address ∷ [] else currency_id.address ∷ currency_id.token ∷ []

  parse_unnamed :
      chain.network ≡ []
      → is_empty (chain_currency_string currency_id) ≡ false
      → (no_token : Bool) → is_empty currency_id.token ≡ no_token
      → currency_from_string (currency_string c)
        ≡ from_parts (chain.chain_type ∷ tail_parts no_token)
  unfolding currency_from_string
  parse_unnamed unnamed named b e =
      ap (λ s. from_parts (split b':' s)) (print_unnamed unnamed named)
      ∙ ap from_parts (parts_type _ ∙ ap (◌∷◌ chain.chain_type) (parts_currency ∙ ap tail_parts e))

  parse_named :
      is_empty chain.network ≡ false
      → is_empty (chain_currency_string currency_id) ≡ false
      → (no_token : Bool) → is_empty currency_id.token ≡ no_token
      → currency_from_string (currency_string c)
        ≡ from_parts (chain.chain_type ∷ chain.network ∷ tail_parts no_token)
  unfolding currency_from_string
  parse_named net named b e =
      ap (λ s. from_parts (split b':' s)) (print_named net named)
      ∙ ap from_parts (
          parts_type _
          ∙ ap (◌∷◌ chain.chain_type)
              (parts_network _ ∙ ap (◌∷◌ chain.network) (parts_currency ∙ ap tail_parts e)))

  -- A currency without a network whose print names an address or a token is printed as the text
  -- `type:address`, or `type:address:token`, and these are not read back as the currency.
  pub currency_string_lost :
      chain.network ≡ []
      → is_empty (chain_currency_string currency_id) ≡ false
      → currency_from_string (currency_string c) ≢ some c
  unfolding from_parts
  currency_string_lost unnamed named h = elim (Bool-cases (is_empty currency_id.token)) [
    | inl e ↦
        let gone : [] ≡ currency_id.address =
          ap (λ (d : CurrencyId). d.currency_id.address)
            (some_path (sym (parse_unnamed unnamed named true e) ∙ h)) in
        cc (empty_print (sym gone) e)
    | inr e ↦
        let gone : [] ≡ currency_id.token =
          ap (λ (d : CurrencyId). d.currency_id.token)
            (some_path (sym (parse_unnamed unnamed named false e) ∙ h)) in
        cc (ap is_empty gone)
  ]

  of_built :
      (n a k : Text)
      → currency_normalize c ≡ c
      → chain.network ≡ n
      → currency_id.address ≡ a
      → currency_id.token ≡ k
      → some (built chain.chain_type n a k) ≡ some c
  unfolding currency_normalize chain_normalize
  of_built n a k normal en ea ek =
      (λ i. some (built chain.chain_type (sym en i) (sym ea i) (sym ek i))) ∙ ap some normal

  native_round :
      currency_normalize c ≡ c
      → is_empty (chain_currency_string currency_id) ≡ true
      → currency_from_string (currency_string c) ≡ some c
  unfolding currency_from_string currency_string from_parts
  native_round normal e =
      let (ea, ek) = empty_currency e in
      elim (Bool-cases (is_empty chain.network)) [
        | inl f ↦
            rw (e, f, split_from-Lacks b':' [] chain.chain_type plain.plain_type)
              (of_built [] [] [] normal (empty_nil _ f) ea ek)
        | inr f ↦
            rw
              (
                e,
                f,
                parts_type chain.network,
                split_from-Lacks b':' [] chain.network plain.plain_network,
              )
              (of_built chain.network [] [] normal refl ea ek)
      ]

  named_round :
      currency_normalize c ≡ c
      → is_empty (chain_currency_string currency_id) ≡ false
      → is_empty chain.network ≡ false
      → currency_from_string (currency_string c) ≡ some c
  unfolding from_parts
  named_round normal e f = elim (Bool-cases (is_empty currency_id.token)) [
    | inl k ↦
        parse_named f e true k
        ∙ of_built chain.network currency_id.address [] normal refl refl (empty_nil _ k)
    | inr k ↦
        parse_named f e false k
        ∙ of_built chain.network currency_id.address currency_id.token normal refl refl refl
  ]

  has_network :
      (chain.network ≢ []) ⊎ (is_empty (chain_currency_string currency_id) ≡ true)
      → is_empty (chain_currency_string currency_id) ≡ false
      → is_empty chain.network ≡ false
  has_network (inl net) e = elim (Bool-cases (is_empty chain.network)) [
    | inl f ↦ absurd (net (empty_nil _ f))
    | inr f ↦ f
  ]
  has_network (inr native) e = cc

  -- A normalised currency whose parts hold no separator is read back from its print, if it has a
  -- network or is the native currency of its chain.
  pub currency_from_string-string :
      currency_normalize c ≡ c
      → (chain.network ≢ []) ⊎ (is_empty (chain_currency_string currency_id) ≡ true)
      → currency_from_string (currency_string c) ≡ some c
  currency_from_string-string normal shape =
      elim (Bool-cases (is_empty (chain_currency_string currency_id))) [
        | inl e ↦ native_round normal e
        | inr e ↦ named_round normal e (has_network shape e)
      ]

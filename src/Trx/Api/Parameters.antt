-- ===== src/Trx/Api/Parameters.antt =====
-- Which of a node's chain parameters become the prices, in agents/trx/api.go.
use agents_go.Prelude.{
  if◌then◌else◌, ◌≡◌, refl, sym, ap, ◌∙◌, inl, inr, Option, none, some, List, [], ◌∷◌, ◌++◌, Text,
  text_eq, text_eq_iff, Bool-cases,
}
use mathlib.Core.List.{reverse, reverse-cons}
use agents_go.Conv.Uint256.{BigInt}
use agents_go.Trx.Fees.{FeePrices}
use agents_go.Trx.Api.{
  ParameterKeyValue, transaction_fee, energy_fee, set_parameter, set_parameters, chain_parameters,
}

-- The value of the first entry with a key.
abbrev pub first_value : Text → List ParameterKeyValue → Option BigInt
first_value key [] = none
first_value key (kv ∷ rest) = if text_eq kv.key key then some kv.value else first_value key rest

-- What a list gives where it gives something, else what was there.
abbrev over : Option BigInt → Option BigInt → Option BigInt
over none old = old
over (some new) old = some new

first_value-append :
    (key : Text) (xs : List ParameterKeyValue) (kv : ParameterKeyValue) (old : Option BigInt)
    → over (first_value key (xs ++ kv ∷ [])) old
      ≡ over (first_value key xs) (if text_eq kv.key key then some kv.value else old)
first_value-append key [] kv old = elim (Bool-cases (text_eq kv.key key)) [
  | inl e ↦ rw e refl
  | inr e ↦ rw e refl
]
first_value-append key (x ∷ xs) kv old = elim (Bool-cases (text_eq x.key key)) [
  | inl e ↦ rw e refl
  | inr e ↦ rw e (first_value-append key xs kv old)
]

-- The switch, one price at a time.
set_parameter_lem :
    (kv : ParameterKeyValue) (res : FeePrices)
    → set_parameter kv res ≡ record {
      energy_price = if text_eq kv.key energy_fee then some kv.value else res.energy_price;
      bandwidth_price =
          if text_eq kv.key transaction_fee then some kv.value else res.bandwidth_price;
    }
unfolding set_parameter
set_parameter_lem kv res = elim (Bool-cases (text_eq kv.key transaction_fee)) [
  | inl e ↦ rw ((text_eq_iff kv.key transaction_fee).0 e) refl
  | inr e ↦ elim (Bool-cases (text_eq kv.key energy_fee)) [
    | inl f ↦ rw (e, f) refl
    | inr f ↦ rw (e, f) refl
  ]
]

first_value-reverse :
    (key : Text) (kv : ParameterKeyValue) (rest : List ParameterKeyValue) (old : Option BigInt)
    → over (first_value key (reverse rest)) (if text_eq kv.key key then some kv.value else old)
      ≡ over (first_value key (reverse (kv ∷ rest))) old
first_value-reverse key kv rest old =
    sym (first_value-append key (reverse rest) kv old)
    ∙ ap (λ l. over (first_value key l) old) (sym (reverse-cons kv rest))

prices_path :
    {e e' b b' : Option BigInt}
    → e ≡ e'
    → b ≡ b'
    → ◌≡◌ {A = FeePrices}
        (record { energy_price = e; bandwidth_price = b })
        (record { energy_price = e'; bandwidth_price = b' })
prices_path he hb = cc

over-none : (o : Option BigInt) → over o none ≡ o
over-none none = refl
over-none (some x) = refl

set_parameters_lem :
    (kvs : List ParameterKeyValue) (res : FeePrices)
    → set_parameters kvs res ≡ record {
      energy_price = over (first_value energy_fee (reverse kvs)) res.energy_price;
      bandwidth_price = over (first_value transaction_fee (reverse kvs)) res.bandwidth_price;
    }
unfolding set_parameters
set_parameters_lem [] res = refl
set_parameters_lem (kv ∷ rest) res =
    ap (set_parameters rest) (set_parameter_lem kv res)
    ∙ set_parameters_lem rest _
    ∙ prices_path (first_value-reverse energy_fee kv rest res.energy_price)
        (first_value-reverse transaction_fee kv rest res.bandwidth_price)

-- The prices are the values of the last entries with the two keys, and nil where there is none.
pub chain_parameters_lem :
    (kvs : List ParameterKeyValue)
    → chain_parameters kvs ≡ record {
      energy_price = first_value energy_fee (reverse kvs);
      bandwidth_price = first_value transaction_fee (reverse kvs);
    }
unfolding chain_parameters
chain_parameters_lem kvs =
    set_parameters_lem kvs _
    ∙ prices_path (over-none (first_value energy_fee (reverse kvs)))
        (over-none (first_value transaction_fee (reverse kvs)))

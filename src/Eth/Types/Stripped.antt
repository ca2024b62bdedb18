-- ===== src/Eth/Types/Stripped.antt =====
-- What the decoders of agents/eth/types/block.go are given in place of a transaction.
use agents_go.Prelude.{
  ◌≡◌, refl, sym, ap, ◌⊎◌, ◌∙◌, subst, Bool, true, false, ◌||◌, Option, Text, codes, text_eq,
  text_eq_iff, All, Has, if◌then◌else◌, inl, inr, ok, err, ◌>>=◌, map_err,
}
use agents_go.Fixer.{
  Json, Fields, lookup, fix_json_fields, fixes_of, invalid_type, fixer_hex_strip_leading_zeros,
}
use agents_go.Fixer as Fixer
use agents_go.Fixer.Textual.{IsTextual, IsRefused, fixed_value, value_after, IsTextual-cases}
use agents_go.Fixer.Series.{fix_json_fields-lookup, fix_json_fields_refused}
use agents_go.Eth.Types.{
  Decoders, json, fixing, fixed, tx_fields, fixed_input, decoded_tx, unmarshal_tx,
}

-- The numbers of a transaction that some nodes write with leading zeros.
abbrev pub is_padded : Text → Bool
is_padded key =
    text_eq (codes "nonce") key
    || text_eq (codes "r") key
    || text_eq (codes "s") key
    || text_eq (codes "v") key

abbrev pub stripped : Text → Option Json → Option Json
stripped key o = if is_padded key then fixed_value fixer_hex_strip_leading_zeros o else o

-- What is claimed of a key: it is a padded number if it has a fix, and its value is fixed once.
abbrev Fixed : Text → Type 0
Fixed key =
    ((fix : Text → Text) × Has (key, fix) tx_fields → is_padded key ≡ true)
    × ((o : Option Json) → value_after tx_fields key o ≡ stripped key o)

Fixed-name : (name key : Text) → text_eq name key ≡ true → Fixed name → Fixed key
Fixed-name name key e = subst Fixed ((text_eq_iff name key).0 e)

Fixed-keys :
    (a b c d : Bool) (key : Text)
    → text_eq (codes "nonce") key ≡ a
    → text_eq (codes "r") key ≡ b
    → text_eq (codes "s") key ≡ c
    → text_eq (codes "v") key ≡ d
    → Fixed key
Fixed-keys true b c d key ha hb hc hd = Fixed-name (codes "nonce") key ha ((λ _. refl), (λ o. refl))
Fixed-keys false true c d key ha hb hc hd = Fixed-name (codes "r") key hb ((λ _. refl), (λ o. refl))
Fixed-keys false false true d key ha hb hc hd =
    Fixed-name (codes "s") key hc ((λ _. refl), (λ o. refl))
Fixed-keys false false false true key ha hb hc hd =
    Fixed-name (codes "v") key hd ((λ _. refl), (λ o. refl))
Fixed-keys false false false false key ha hb hc hd =
    ((λ (fix, has). absurd (no_name fix has)), (λ o. rw (ha, hb, hc, hd) refl))
  where
    Entry : Type 0
    Entry = Text × (Text → Text)

    differs : (name : Text) → text_eq name key ≡ false → name ≡ key → ⊥
    differs name e same = let yes = (text_eq_iff name key).1 same in cc

    no_name : (fix : Text → Text) → Has (key, fix) tx_fields → ⊥
    no_name fix (inl h) = differs (codes "nonce") ha (sym (ap (λ (f : Entry). f.0) h))
    no_name fix (inr (inl h)) = differs (codes "r") hb (sym (ap (λ (f : Entry). f.0) h))
    no_name fix (inr (inr (inl h))) = differs (codes "s") hc (sym (ap (λ (f : Entry). f.0) h))
    no_name fix (inr (inr (inr (inl h)))) = differs (codes "v") hd (sym (ap (λ (f : Entry). f.0) h))
    no_name fix (inr (inr (inr (inr h)))) = elim h [ ]

all_keys : (key : Text) → Fixed key
all_keys key = Fixed-keys _ _ _ _ key refl refl refl refl

module _ {E H T X B : Type 0} (decoders : Decoders E H T X B) where
  unmarshal_tx-fixed :
      (input : Text) (m m' : Fields)
      → decoders.unmarshal input ≡ ok m
      → fix_json_fields {E = E} true (fixes_of tx_fields) m ≡ Fixer.ok m'
      → unmarshal_tx decoders input ≡ (
          map_err json (decoders.marshal m') >>= λ input'.
          map_err json (decoded_tx decoders input'))
  unfolding unmarshal_tx fixed_input fixed
  unmarshal_tx-fixed input m m' e h = rw e (rw h refl)

  unmarshal_tx_refused :
      (input : Text) (m : Fields)
      → decoders.unmarshal input ≡ ok m
      → fix_json_fields {E = E} true (fixes_of tx_fields) m ≡ Fixer.err invalid_type
      → unmarshal_tx decoders input ≡ err (fixing invalid_type)
  unfolding unmarshal_tx fixed_input fixed
  unmarshal_tx_refused input m e h = rw e (rw h refl)

  -- `UnmarshalJSON` of a transaction: either the fields `nonce`, `r`, `s` and `v` are texts or missing, and what is decoded
  -- is an object in which these four are without leading zeros and every other field is as it was; or one of the four is
  -- there and is no text, and it is refused before anything is decoded.
  pub unmarshal_tx_lem :
      (input : Text) (m : Fields)
      → decoders.unmarshal input ≡ ok m
      → (All (λ f. IsTextual (lookup f.0 m)) tx_fields
          × ((m' : Fields) × (unmarshal_tx decoders input ≡ (
                map_err json (decoders.marshal m') >>= λ input'.
                map_err json (decoded_tx decoders input')))
              × ((key : Text) → lookup key m' ≡ stripped key (lookup key m))))
        ⊎ ((name : Text) × (is_padded name ≡ true)
            × IsRefused (lookup name m)
            × (unmarshal_tx decoders input ≡ err (fixing invalid_type)))
  unmarshal_tx_lem input m e = elim (IsTextual-cases tx_fields m) [
    | inl all ↦
        let (m', fixes, at_keys) = fix_json_fields-lookup {E = E} tx_fields m all in
        inl (
          all,
          (
            m',
            unmarshal_tx-fixed input m m' e fixes,
            (λ key. at_keys key ∙ (all_keys key).1 (lookup key m)),
          ),
        )
    | inr (name, fix, has, refused) ↦ inr (
      name,
      (all_keys name).0 (fix, has),
      refused,
      unmarshal_tx_refused input m e (fix_json_fields_refused tx_fields m name fix has refused),
    )
  ]

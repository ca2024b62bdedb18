-- ===== src/Fixer/Series.antt =====
-- What `FixJsonFields` of commons/fixer.go makes of the fields of the object itself.
use agents_go.Prelude.{
  Has, ◌≡◌, refl, sym, ap, ◌∙◌, inl, inr, true, none, some, List, [], ◌∷◌, Text, text_eq, ◌==◌, ◌%◌,
  length, subst, All, if◌then◌else◌, arith,
}
use agents_go.Fixer.{
  Fields, Result, ok, err, str, lookup, set, fix_field, skip_missing, and_then, fix_pairs,
  fix_json_fields, fixes_of, walk, descend, fix_value, invalid_type,
}
use agents_go.Fixer.Paths.{lookup-set}
use agents_go.Fixer.Textual.{
  IsTextual, IsRefused, IsTextual-or, refused_textual, fixed_value, value_after, at, same_key,
  if_key, IsTextual-still, IsRefused-still,
}

even_fixes :
    (E : Type 0) (fields : List (Text × (Text → Text)))
    → (length (fixes_of {E = E} fields) % 2 == 0) ≡ true
even_fixes E [] = refl
even_fixes E (f ∷ fields) = ground (arith, even_fixes E fields)

module _ {E : Type 0} where
  -- One round of `FixJsonFields` for a field of the object itself.
  abbrev round : Text → (Text → Text) → Fields → Result E Fields
  round name fix m = skip_missing true m (fix_field (λ s. ok (fix s)) (name ∷ []) m)

  round_missing :
      (name : Text) (fix : Text → Text) (m : Fields)
      → lookup name m ≡ none
      → round name fix m ≡ ok m
  unfolding fix_field walk skip_missing
  round_missing name fix m e = ground (arith, e)

  round_text :
      (name : Text) (fix : Text → Text) (m : Fields) (s : Text)
      → lookup name m ≡ some (str s)
      → round name fix m ≡ ok (set name (str (fix s)) m)
  unfolding fix_field walk skip_missing descend fix_value
  round_text name fix m s e = ground (arith, e)

  round-lookup :
      (name : Text) (fix : Text → Text) (m : Fields)
      → IsTextual (lookup name m)
      → (m' : Fields) × (round name fix m ≡ ok m')
        × ((key : Text)
            → lookup key m'
              ≡ (if text_eq name key then fixed_value fix (lookup key m) else lookup key m))
  round-lookup name fix m (inl e) = (
    m,
    round_missing name fix m e,
    (λ key. if_key name key (lookup key m) (fixed_value fix (lookup key m)) (λ same.
        sym (ap (fixed_value fix) (at name key m none same e) ∙ sym (at name key m none same e)))),
  )
  round-lookup name fix m (inr (s, e)) = (
    set name (str (fix s)) m,
    round_text name fix m s e,
    (λ key.
        lookup-set name key (str (fix s)) m
        ∙ same_key name key (some (str (fix s))) (fixed_value fix (lookup key m)) (lookup key m)
            (λ same. sym (ap (fixed_value fix) (at name key m (some (str s)) same e)))),
  )

  fix_pairs-lookup :
      (fields : List (Text × (Text → Text))) (m : Fields)
      → All (λ f. IsTextual (lookup f.0 m)) fields
      → (m' : Fields) × (fix_pairs {E = E} true (fixes_of fields) m ≡ ok m')
        × ((key : Text) → lookup key m' ≡ value_after fields key (lookup key m))
  unfolding fix_pairs and_then
  fix_pairs-lookup [] m all = (m, refl, (λ key. refl))
  fix_pairs-lookup ((name, fix) ∷ fields) m (textual, all) =
      let (m1, first, h1) = round-lookup name fix m textual in
      let (m2, rest, h2) =
        fix_pairs-lookup fields m1 (IsTextual-still name fix m m1 h1 fields all) in
      (
        m2,
        ap (λ r. and_then r (fix_pairs true (fixes_of fields))) first ∙ rest,
        (λ key. h2 key ∙ ap (value_after fields key) (h1 key)),
      )

  round_refused :
      (name : Text) (fix : Text → Text) (m : Fields)
      → IsRefused (lookup name m)
      → round name fix m ≡ err invalid_type
  unfolding fix_field walk skip_missing descend fix_value
  round_refused name fix m (inl (inner, e)) = ground (arith, e)
  round_refused name fix m (inr (n, e)) = ground (arith, e)

  fix_pairs_refused :
      (fields : List (Text × (Text → Text))) (m : Fields) (name : Text) (fix : Text → Text)
      → Has (name, fix) fields
      → IsRefused (lookup name m)
      → fix_pairs {E = E} true (fixes_of fields) m ≡ err invalid_type
  unfolding fix_pairs and_then
  fix_pairs_refused [] m name fix has refused = elim has [ ]
  fix_pairs_refused ((first, g) ∷ fields) m name fix has refused =
      elim (IsTextual-or (lookup first m)) [
        | inr bad ↦
            ap (λ r. and_then r (fix_pairs true (fixes_of fields))) (round_refused first g m bad)
        | inl textual ↦ elim has [
          | inl same ↦ absurd (
              refused_textual (lookup first m) textual
                (subst (λ (f : Text × (Text → Text)). IsRefused (lookup f.0 m)) same refused))
          | inr later ↦
              let (m1, done, h1) = round-lookup first g m textual in
              ap (λ r. and_then r (fix_pairs true (fixes_of fields))) done
              ∙ fix_pairs_refused fields m1 name fix later
                  (IsRefused-still first name g m m1 textual h1 refused)
        ]
      ]

  -- A field that is there and is no text is refused, wherever its fix stands.
  pub fix_json_fields_refused :
      (fields : List (Text × (Text → Text))) (m : Fields) (name : Text) (fix : Text → Text)
      → Has (name, fix) fields
      → IsRefused (lookup name m)
      → fix_json_fields {E = E} true (fixes_of fields) m ≡ err invalid_type
  unfolding fix_json_fields
  fix_json_fields_refused fields m name fix has refused =
      rw (even_fixes E fields) (fix_pairs_refused fields m name fix has refused)

  -- For fields that are texts or missing, with fixes that do not fail, `FixJsonFields` gives an object in which each key
  -- has the value that the fixes of that name make of its own, in order, and no other key has another value.
  pub fix_json_fields-lookup :
      (fields : List (Text × (Text → Text))) (m : Fields)
      → All (λ f. IsTextual (lookup f.0 m)) fields
      → (m' : Fields) × (fix_json_fields {E = E} true (fixes_of fields) m ≡ ok m')
        × ((key : Text) → lookup key m' ≡ value_after fields key (lookup key m))
  unfolding fix_json_fields
  fix_json_fields-lookup fields m all =
      let (m', h, at_keys) = fix_pairs-lookup fields m all in
      (m', rw (even_fixes E fields) h, at_keys)

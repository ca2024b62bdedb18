-- ===== src/Fixer/Tests.antt =====
-- Concrete JSON objects, for the code of commons/fixer.go.
use agents_go.Prelude.{ℕ, ◌≡◌, ◌≢◌, ◌⊎◌, ◌++◌, refl, [], ◌∷◌, Text, codes, ◌-◌, true, false}
use agents_go.Fixer.{
  str, obj, other, Fields, nil, field, Result, ok, err, field_not_exist, lookup, fix_field,
  fixer_zero_uint64, fixer_hex_strip_leading_zeros, fix_json_fields, fix_pairs, skip_missing,
  and_then, path_arg, fix_arg, walk, has_0x_prefix,
}
use agents_go.Fixer.Paths.{get_path, Fixes, fix_field-Fixes}
use agents_go.Fixer.Zeros.{value_of, fixer_hex_strip_leading_zeros-value}

abbrev fix_zero : Text → Result ℕ Text
fix_zero s = ok (fixer_zero_uint64 s)

-- {"n": "0x", "b": {"n": "0x", "k": 7}}
abbrev block_json : Fields
block_json = field (codes "n") (str (codes "0x")) (
    field (codes "b") (obj (field (codes "n") (str (codes "0x")) (field (codes "k") (other 7) nil)))
      nil)

-- A missing field is passed over if the flag says so, and ends the work if not.
fix_json_fields_missing :
    (fix_json_fields {E = ℕ} true (path_arg (codes "x" ∷ []) ∷ fix_arg fix_zero ∷ []) block_json
      ≡ ok block_json)
    × (fix_json_fields {E = ℕ} false (path_arg (codes "x" ∷ []) ∷ fix_arg fix_zero ∷ []) block_json
        ≡ err (field_not_exist (codes "x" ∷ [])))
unfolding fix_json_fields fix_pairs skip_missing and_then fix_field walk lookup
fix_json_fields_missing = (refl, refl)

fix_field-Fixes_example :
    Fixes fix_zero
      (codes "b" ∷ codes "n" ∷ [])
      (codes "0x0")
      block_json
      (fix_field fix_zero (codes "b" ∷ codes "n" ∷ []) block_json)
unfolding get_path lookup fixer_zero_uint64
fix_field-Fixes_example =
    fix_field-Fixes fix_zero (codes "b" ∷ codes "n" ∷ []) (codes "0x") (codes "0x0") block_json refl
      refl

abbrev digit : ℕ → ℕ
digit c = c - b'0'

fixer_hex_strip_leading_zeros-value_example :
    (c : ℕ) × (t : Text) × (fixer_hex_strip_leading_zeros (codes "0x007") ≡ codes "0x" ++ c ∷ t)
    × (value_of digit 0 (c ∷ t) ≡ value_of digit 0 (codes "007"))
    × ((c ≢ b'0') ⊎ (t ≡ []))
unfolding has_0x_prefix
fixer_hex_strip_leading_zeros-value_example =
    fixer_hex_strip_leading_zeros-value digit b'x' (codes "007") refl refl

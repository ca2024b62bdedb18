-- ===== src/Fixer/Zeros.antt =====
-- What `FixerHexStripLeadingZeros` of commons/fixer.go makes of a number in hexadecimal.
use agents_go.Prelude.{
  ℕ, ◌+◌, ◌*◌, ◌≡◌, ◌≢◌, refl, sym, ap, ◌⊎◌, ◌∙◌, true, [], ◌∷◌, ◌++◌, Text, codes, ◌==◌,
  Bool-cases, inl, inr, arith,
}
use agents_go.Fixer.{
  trim_left_str_zeros, has_0x_prefix, fixer_zero_uint64, fixer_hex_strip_leading_zeros,
}

-- The number that digits stand for, in base 16, after `acc`; `value` reads one digit.
pub value_of : (ℕ → ℕ) → ℕ → Text → ℕ
value_of value acc [] = acc
value_of value acc (c ∷ s) = value_of value (acc * 16 + value c) s

-- The digits that are left after the prefix, and the one digit that stands for none.
value_of-trim :
    (value : ℕ → ℕ) (s : Text)
    → value b'0' ≡ 0
    → value_of value 0 (trim_left_str_zeros s) ≡ value_of value 0 s
unfolding value_of trim_left_str_zeros
value_of-trim value [] h = refl
value_of-trim value (c ∷ s) h = ground (arith, value_of-trim value s h, h)

value_of-zero :
    (value : ℕ → ℕ) → value b'0' ≡ 0 → value_of value 0 (b'0' ∷ []) ≡ value_of value 0 []
unfolding value_of
value_of-zero value h = omega (arith, h)

trim-cases :
    (s : Text)
    → (trim_left_str_zeros s ≡ [])
      ⊎ ((c : ℕ) × (t : Text) × (trim_left_str_zeros s ≡ c ∷ t) × (c ≢ b'0'))
unfolding trim_left_str_zeros
trim-cases [] = inl refl
trim-cases (c ∷ s) = elim (Bool-cases (c == b'0')) [
  | inl e ↦ elim (trim-cases s) [
    | inl none_left ↦ inl (ground (arith, e, none_left))
    | inr (d, t, left, first) ↦ inr (d, t, ground (arith, e, left), first)
  ]
  | inr e ↦ inr (c, s, ground (arith, e), ground (arith, e))
]

-- A text with the prefix `0x` or `0X` and any digits becomes `0x` and digits of the same value, whatever the
-- digits are worth, so long as `0` is worth nothing: there is one digit at least, and the first
-- is `0` only where it is the only one.
pub fixer_hex_strip_leading_zeros-value :
    (value : ℕ → ℕ) (x : ℕ) (s : Text)
    → value b'0' ≡ 0
    → has_0x_prefix (b'0' ∷ x ∷ s) ≡ true
    → (c : ℕ) × (t : Text) × (fixer_hex_strip_leading_zeros (b'0' ∷ x ∷ s) ≡ codes "0x" ++ c ∷ t)
      × (value_of value 0 (c ∷ t) ≡ value_of value 0 s)
      × ((c ≢ b'0') ⊎ (t ≡ []))
unfolding fixer_hex_strip_leading_zeros fixer_zero_uint64
fixer_hex_strip_leading_zeros-value value x s h prefixed =
    let same = value_of-trim value s h in
    elim (trim-cases s) [
      | inl left ↦ (
        b'0',
        [],
        ground (arith, prefixed, left),
        value_of-zero value h ∙ ap (value_of value 0) (sym left) ∙ same,
        inr refl,
      )
      | inr (c, t, left, first) ↦
          (c, t, ground (arith, prefixed, left), ap (value_of value 0) (sym left) ∙ same, inl first)
    ]

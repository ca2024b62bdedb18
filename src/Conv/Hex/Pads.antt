-- ===== src/Conv/Hex/Pads.antt =====
-- Padding and trimming, in commons/conv/hexconv/hexconv.go, against the number that bytes spell.
use agents_go.Prelude.{
  ℕ, zero, suc, ◌+◌, ◌-◌, ◌*◌, ◌≡◌, refl, sym, ◌∙◌, ap, [], ◌∷◌, ◌++◌, inl, inr, ◌≢◌, Text, leb,
  ◌==◌, length, arith, ==_iff, length-append, length-replicate, replicate, Bool-cases,
}
use Prim.Native.Nat.{max}
use mathlib.Core.Path.{ap₂}
use mathlib.Core.List.{foldl, foldl-append, reverse, reverse-reverse, reverse-append, reverse-cons}
use agents_go.Conv.Hex.{left_pad_bytes, trim_left_zeroes, trim_right_zeroes}

-- The number that bytes spell behind `n`, the most significant first, as big.Int's SetBytes reads.
abbrev pub value_from : ℕ → Text → ℕ
value_from = foldl (λ n c. n * 256 + c)

abbrev pub set_bytes : Text → ℕ
set_bytes = value_from 0

value-zeroes : (k : ℕ) → value_from 0 (replicate k 0) ≡ 0
value-zeroes zero = refl
value-zeroes (suc k) = value-zeroes k

-- `LeftPadBytes` gives the longer of the two lengths and keeps the number that the bytes spell.
pub left_pad_bytes_lem :
    (slice : Text) (l : ℕ)
    → (length (left_pad_bytes slice l) ≡ max l (length slice))
      × (set_bytes (left_pad_bytes slice l) ≡ set_bytes slice)
unfolding left_pad_bytes
left_pad_bytes_lem slice l =
    let pad : Text = replicate (l - length slice) 0 in
    elim (Bool-cases (leb l (length slice))) [
      | inl e ↦ rw e (ground arith, refl)
      | inr e ↦ rw e (
        ground (arith, length-append pad slice, length-replicate (l - length slice) (zero)),
        foldl-append _ 0 pad slice ∙ ap (λ n. value_from n slice) (value-zeroes (l - length slice)),
      )
    ]

-- The text is empty or its first byte is not 0.
abbrev pub NoLeadingZero : Text → Type 0
NoLeadingZero [] = Unit
NoLeadingZero (c ∷ s) = c ≢ 0

-- `TrimLeftZeroes` takes off leading zeros, all of them, and nothing else.
pub trim_left_zeroes_lem :
    (s : Text)
    → NoLeadingZero (trim_left_zeroes s) × ((k : ℕ) × (s ≡ replicate k 0 ++ trim_left_zeroes s))
unfolding trim_left_zeroes
trim_left_zeroes_lem [] = (tt, (0, refl))
trim_left_zeroes_lem (c ∷ s) = elim (Bool-cases (c == 0)) [
  | inl e ↦
      let (top, (k, split)) = trim_left_zeroes_lem s in
      rw e (top, (suc k, ap₂ ◌∷◌ ((==_iff c 0).0 e) split))
  | inr e ↦ rw e (λ z. ground arith, (0, refl))
]

-- A trimmed text spells the same number.
pub set_bytes-trim_left_zeroes : (s : Text) → set_bytes (trim_left_zeroes s) ≡ set_bytes s
set_bytes-trim_left_zeroes s =
    let (top, (k, split)) = trim_left_zeroes_lem s in
    sym (
      ap set_bytes split
      ∙ foldl-append _ 0 (replicate k 0) (trim_left_zeroes s)
      ∙ ap (λ n. value_from n (trim_left_zeroes s)) (value-zeroes k))

reverse-zeroes : (k : ℕ) → reverse (replicate k zero) ≡ replicate k zero
reverse-zeroes zero = refl
reverse-zeroes (suc k) =
    reverse-cons zero (replicate k zero)
    ∙ ap (λ r. r ++ zero ∷ []) (reverse-zeroes k)
    ∙ zeroes-last k
  where
    zeroes-last : (k : ℕ) → replicate k zero ++ zero ∷ [] ≡ zero ∷ replicate k zero
    zeroes-last zero = refl
    zeroes-last (suc k) = ap (◌∷◌ zero) (zeroes-last k)

-- `TrimRightZeroes` takes off zeros at the end, all of them, and nothing else.
pub trim_right_zeroes_lem :
    (s : Text)
    → NoLeadingZero (reverse (trim_right_zeroes s))
      × ((k : ℕ) × (s ≡ trim_right_zeroes s ++ replicate k 0))
unfolding trim_right_zeroes
trim_right_zeroes_lem s =
    let (top, (k, split)) = trim_left_zeroes_lem (reverse s) in
    (
      rw reverse-reverse top,
      (
        k,
        sym (reverse-reverse s)
            ∙ ap reverse split
            ∙ reverse-append (replicate k 0) (trim_left_zeroes (reverse s))
            ∙ ap (◌++◌ _) (reverse-zeroes k),
      ),
    )

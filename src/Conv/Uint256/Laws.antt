-- ===== src/Conv/Uint256/Laws.antt =====
-- Numbers and their bytes, in commons/conv/uint256conv/uint256conv.go.
use agents_go.Prelude.{
  ℕ, zero, suc, ◌+◌, ◌-◌, ◌*◌, ◌/◌, ◌%◌, ◌^◌, ◌≤◌, ◌<◌, ◌≡◌, refl, sym, ap, ◌∙◌, true, false, some,
  [], ◌∷◌, Text, ◌==◌, arith, length, Bool-cases, ==_iff, ◌↔◌, inl, inr,
}
use native.Mathlib.Nat.{pow-suc}
use agents_go.Conv.Hex.Pads.{set_bytes, value_from, NoLeadingZero}
use agents_go.Conv.Hex.{from_hex, hex2bytes, decode_string, decode_pair, hex_value, has_0x_prefix}
use agents_go.Conv.Uint256.{
  BigInt, emit, bytes, max_uint256, to_big_int, panics, returns, above_max, from_big_int,
}

max_uint256_lem : max_uint256 ≡ 2 ^ 256 - 1
unfolding max_uint256 from_hex hex2bytes decode_string decode_pair hex_value has_0x_prefix
max_uint256_lem = refl

-- What is emitted spells the number, and then what stood behind it.
value-emit :
    (fuel n : ℕ) (out : Text) → n ≤ fuel → value_from 0 (emit fuel n out) ≡ value_from n out
unfolding emit
value-emit zero n out h = ap (λ m. value_from m out) (omega arith)
value-emit (suc fuel) n out h = elim (Bool-cases (n == 0)) [
  | inl e ↦ rw e (ap (λ m. value_from m out) (sym ((==_iff n 0).0 e)))
  | inr e ↦
      let whole : n / 256 * 256 + n % 256 ≡ n = omega arith in
      rw e (
        value-emit fuel (n / 256) ((n % 256) ∷ out) (ground arith)
        ∙ ap (λ m. value_from m out) whole)
]

length-emit : (k fuel n : ℕ) (out : Text) → n < 256 ^ k → length (emit fuel n out) ≤ k + length out
unfolding emit
length-emit k zero n out h = omega arith
length-emit zero (suc fuel) n out h = ground arith
length-emit (suc k) (suc fuel) n out h =
    ground (arith, pow-suc 256 k, length-emit k fuel (n / 256) ((n % 256) ∷ out))

NoLeadingZero-emit :
    (fuel n : ℕ) (out : Text)
    → n ≤ fuel
    → (n ≡ 0 → NoLeadingZero out)
    → NoLeadingZero (emit fuel n out)
unfolding emit
NoLeadingZero-emit zero n out h top = top (omega arith)
NoLeadingZero-emit (suc fuel) n out h top = elim (Bool-cases (n == 0)) [
  | inl e ↦ rw e (top ((==_iff n 0).0 e))
  | inr e ↦ rw e (NoLeadingZero-emit fuel (n / 256) _ (ground arith) (λ z. ground arith))
]

abbrev pub natural : ℕ → BigInt
natural n = record { negative = false; abs = n }

-- A number up to 2 ^ 256 - 1 is stored as at most 32 bytes with no leading zero, and these are read
-- back as the number.
pub from_big_int_fits :
    (n : ℕ)
    → n < 2 ^ 256
    → (from_big_int (some (natural n)) ≡ returns (some (bytes n)))
      × (to_big_int (some (bytes n)) ≡ some (natural n))
      × (length (bytes n) ≤ 32)
      × NoLeadingZero (bytes n)
unfolding from_big_int to_big_int above_max bytes
from_big_int_fits n h = (
  ground (arith, max_uint256_lem),
  ap (λ m. some (natural m)) (value-emit n n [] (omega arith)),
  length-emit 32 n n [] h,
  NoLeadingZero-emit n n [] (omega arith) (λ _. tt),
)

-- `FromBigInt` panics on a number that is not negative exactly if it needs more than 256 bits.
pub from_big_int_panics : (n : ℕ) → (from_big_int (some (natural n)) ≡ panics) ↔ (2 ^ 256 ≤ n)
unfolding from_big_int above_max
from_big_int_panics n = ground (arith, max_uint256_lem)

-- A negative number loses its sign: it is stored as its absolute value, however large that is.
pub from_big_int_negative :
    (n : ℕ)
    → (from_big_int (some (record { negative = true; abs = n })) ≡ returns (some (bytes n)))
      × (to_big_int (some (bytes n)) ≡ some (natural n))
unfolding from_big_int to_big_int above_max bytes
from_big_int_negative n = (refl, ap (λ m. some (natural m)) (value-emit n n [] (omega arith)))

-- `Bytes` and `SetBytes`.
pub set_bytes-bytes : (n : ℕ) → set_bytes (bytes n) ≡ n
unfolding bytes
set_bytes-bytes n = value-emit n n [] (omega arith)

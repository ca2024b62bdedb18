-- ===== src/Conv/Hex/Laws.antt =====
-- Hexadecimal text and bytes, in commons/conv/hexconv/hexconv.go.
use agents_go.Prelude.{
  ℕ, suc, ◌+◌, ◌-◌, ◌*◌, ◌/◌, ◌%◌, ◌≡◌, refl, ◌<◌, ap, Bool, true, false, not, ◌&&◌, Option, none,
  some, [], ◌∷◌, ◌++◌, Text, codes, ◌==◌, length, All, arith, length-drop, length-append,
  length-replicate, replicate,
}
use agents_go.Conv.Hex.{
  hex_value, decode_pair, decode_string, hex_digit, encode_to_string, has_0x_prefix, bytes2hex,
  hex2bytes, from_hex, is_hex_character, all_hex, is_hex, hex2bytes_fixed,
}

abbrev pub AreBytes : Text → Type 0
AreBytes = All λ c. c < 256

digit_value : (n : ℕ) → n < 16 → hex_value (hex_digit n) ≡ some n
unfolding hex_value hex_digit
digit_value n h = ground arith

decode-encode : (d : Text) → AreBytes d → decode_string (encode_to_string d) ≡ (d, false)
unfolding decode_string encode_to_string
decode-encode [] h = refl
decode-encode (c ∷ d) (hc, hd) =
    rw (digit_value (c / 16) (omega arith), digit_value (c % 16) (omega arith), decode-encode d hd)
      (unfold decode_pair in ap (λ b. (b ∷ d, false)) whole)
  where
    whole : c / 16 * 16 + c % 16 ≡ c
    whole = omega arith

length-encode : (d : Text) → length (encode_to_string d) ≡ 2 * length d
unfolding encode_to_string
length-encode [] = refl
length-encode (c ∷ d) = omega (arith, length-encode d)

-- Hexadecimal digits are not the letter of a prefix.
encode_no_prefix : (d : Text) → AreBytes d → has_0x_prefix (encode_to_string d) ≡ false
unfolding has_0x_prefix encode_to_string hex_digit
encode_no_prefix [] h = refl
encode_no_prefix (c ∷ d) (hc, hd) = ground arith

encode_even : (d : Text) → (length (encode_to_string d) % 2 == 1) ≡ false
encode_even d = ground (arith, length-encode d)

bytes2hex-encode : (d : Text) → bytes2hex d ≡ encode_to_string d
unfolding bytes2hex
bytes2hex-encode d = refl

-- Bytes printed by `Bytes2Hex` are read back by `FromHex`, with the prefix `0x` or without it.
pub from_hex-bytes2hex :
    (d : Text)
    → AreBytes d
    → (from_hex (bytes2hex d) ≡ d) × (from_hex (codes "0x" ++ bytes2hex d) ≡ d)
unfolding from_hex hex2bytes
from_hex-bytes2hex d h =
    let read = ap (λ (r : Text × Bool). r.0) (decode-encode d h) in
    (
      rw (bytes2hex-encode d, encode_no_prefix d h, encode_even d) read,
      rw (bytes2hex-encode d) (unfold has_0x_prefix in rw (encode_even d) read),
    )

hex_value-lt : (c v : ℕ) → hex_value c ≡ some v → v < 16
unfolding hex_value
hex_value-lt c v h = ground arith

pair-AreBytes :
    (p q : ℕ) (a b : Option ℕ) (rest : Text × Bool)
    → hex_value p ≡ a
    → hex_value q ≡ b
    → AreBytes rest.0
    → AreBytes (decode_pair a b rest).0
unfolding decode_pair
pair-AreBytes p q none b rest hp hq h = tt
pair-AreBytes p q (some a) none rest hp hq h = tt
pair-AreBytes p q (some a) (some b) rest hp hq h =
    (omega (arith, hex_value-lt p a hp, hex_value-lt q b hq), h)

decode_string-AreBytes : (s : Text) → AreBytes (decode_string s).0
unfolding decode_string
decode_string-AreBytes [] = tt
decode_string-AreBytes (p ∷ []) = tt
decode_string-AreBytes (p ∷ q ∷ s) =
    pair-AreBytes p q (hex_value p) (hex_value q) (decode_string s) refl refl
      (decode_string-AreBytes s)

-- What `FromHex` gives are bytes, whatever the text is.
pub from_hex-AreBytes : (s : Text) → AreBytes (from_hex s)
unfolding from_hex hex2bytes
from_hex-AreBytes s = decode_string-AreBytes _

is_some : Option ℕ → Bool
is_some none = false
is_some (some v) = true

is_hex-value : (c : ℕ) → is_hex_character c ≡ is_some (hex_value c)
unfolding is_hex_character hex_value is_some
is_hex-value c = ground arith

pair-flag :
    (a b : Option ℕ) (even digits : Bool) (rest : Text × Bool)
    → (even && digits) ≡ not rest.1
    → (even && (is_some a && (is_some b && digits))) ≡ not (decode_pair a b rest).1
unfolding decode_pair is_some
pair-flag none b even digits rest h = ground arith
pair-flag (some x) none even digits rest h = ground arith
pair-flag (some x) (some y) even digits rest h = h

even-step : (n : ℕ) → (suc (suc n) % 2 == 0) ≡ (n % 2 == 0)
even-step n = ground arith

is_hex-decode : (s : Text) → ((length s % 2 == 0) && all_hex s) ≡ not (decode_string s).1
unfolding all_hex decode_string
is_hex-decode [] = refl
is_hex-decode (p ∷ []) = refl
is_hex-decode (p ∷ q ∷ s) =
    rw (even-step (length s), is_hex-value p, is_hex-value q)
      (pair-flag (hex_value p) (hex_value q) _ _ (decode_string s) (is_hex-decode s))

-- `IsHex` accepts exactly the texts that Go's hex.DecodeString decodes without an error.
pub is_hex_lem : (s : Text) → is_hex s ≡ not (decode_string s).1
unfolding is_hex
is_hex_lem s = ground (arith, is_hex-decode s)

-- `Hex2BytesFixed` always gives the length that it is asked for.
pub length-hex2bytes_fixed : (str : Text) (flen : ℕ) → length (hex2bytes_fixed str flen) ≡ flen
unfolding hex2bytes_fixed
length-hex2bytes_fixed str flen =
    let h = (decode_string str).0 in
    ground (
      arith,
      length-drop (length h - flen) h,
      length-append (replicate (flen - length h) 0) h,
      length-replicate (flen - length h) (let z : ℕ = 0 in z),
    )

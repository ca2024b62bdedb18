-- ===== src/Commons.antt =====
-- commons/commons.go: hexadecimal numbers of JSON-RPC, chain identifiers and defaults. `HexNumber` is
-- `Hex2Int` with its use in `UInt64HexString`; a Go error is `none`. The JSON quoting around the text
-- of a `UInt64HexString` is left out.
pub mod HexNumber
pub mod Labels
pub mod ChainText
pub mod Tests
use agents_go.Prelude.{
  ℕ, zero, suc, ◌+◌, ◌-◌, ◌*◌, ◌/◌, ◌%◌, ◌^◌, Bool, true, false, ◌&&◌, Option, none, some, List, [],
  ◌∷◌, ◌++◌, Text, codes, text_eq, ◌==◌, leb, ltb, is_empty, split, if◌then◌else◌, length,
}
use agents_go.Conv.Hex.{hex_value, hex_digit}

-- `strings.Replace(s, "0x", "", -1)`.
pub remove_0x : Text → Text
remove_0x [] = []
remove_0x (a ∷ []) = a ∷ []
remove_0x (a ∷ b ∷ s) =
    let kept = a ∷ remove_0x (b ∷ s) in
    let removed = remove_0x s in if (a == b'0') && (b == b'x') then removed else kept

-- The loop of `strconv.ParseUint(s, 16, 64)` with its test of the cutoff 2 ^ 60.
pub parse_digits : ℕ → Text → Option ℕ
parse_digits n [] = some n
parse_digits n (c ∷ s) = elim (hex_value c) [
  | none ↦ none
  | some d ↦ elim (leb (2 ^ 60) n) [ true ↦ none | false ↦ parse_digits (n * 16 + d) s ]
]

-- `strconv.ParseUint(s, 16, 64)`.
pub parse_uint16 : Text → Option ℕ
unfolding parse_digits
parse_uint16 [] = none
parse_uint16 (c ∷ s) = parse_digits 0 (c ∷ s)

-- `Hex2Int`.
unfoldable pub hex2int : Text → Option ℕ
unfolding remove_0x parse_uint16
hex2int hex_str = parse_uint16 (remove_0x hex_str)

-- `Hex2Uint64OrZero`.
unfoldable pub hex2uint64_or_zero : Text → ℕ
unfolding hex2int
hex2uint64_or_zero hex_str = elim (hex2int hex_str) [ none ↦ 0 | some n ↦ n ]

-- Digits of `n` in front of `out`; `fuel` is at least `n`.
pub emit_hex : ℕ → ℕ → Text → Text
emit_hex zero n out = out
emit_hex (suc fuel) n out =
    let rest = emit_hex fuel (n / 16) (hex_digit (n % 16) ∷ out) in if n == 0 then out else rest

-- `fmt.Sprintf("%x", v)`.
pub format_hex : ℕ → Text
unfolding emit_hex
format_hex v = if v == 0 then b'0' ∷ [] else emit_hex v v []

-- The text that `UInt64HexString`'s `MarshalJSON` quotes, and what `UnmarshalJSON` reads in a text.
unfoldable pub marshal_hex : ℕ → Text
unfolding format_hex
marshal_hex v = codes "0x" ++ format_hex v

unfoldable pub unmarshal_hex : Text → Option ℕ
unfolding hex2int
unmarshal_hex hex_str = hex2int hex_str

-- `proto.ChainId`.
pub record ChainId : Type 0 where
  pub chain_type : Text
  pub network : Text

unfoldable pub chain_id_to_string : ChainId → Text
chain_id_to_string c = c.chain_type ++ b':' ∷ c.network

abbrev pub mainnet : Text
mainnet = codes "MAINNET"

-- `StringToChainId` on the parts of the text. `strings.Split` gives at least one part.
chain_id_parts : List Text → ChainId
chain_id_parts [] = record { chain_type = []; network = mainnet }
chain_id_parts (t ∷ []) = record { chain_type = t; network = mainnet }
chain_id_parts (t ∷ n ∷ rest) = record { chain_type = t; network = n }

unfoldable pub string_to_chain_id : Text → ChainId
unfolding chain_id_parts
string_to_chain_id s = chain_id_parts (split b':' s)

-- `EitherStr` and `EitherSlice`.
unfoldable pub either_str : Text → Text → Text
either_str a b = if is_empty a then b else a

unfoldable pub either_slice {ℓ} : {A : Type ℓ} → List A → List A → List A
either_slice a b = if ltb 0 (length a) then a else b

-- `m[k] = a`.
unfoldable pub put {ℓ} : {A : Type ℓ} → Text → A → List (Text × A) → List (Text × A)
put k a [] = (k, a) ∷ []
put k a ((j, b) ∷ rest) = if text_eq j k then (j, a) ∷ rest else (j, b) ∷ put k a rest

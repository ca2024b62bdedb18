-- ===== src/Conv/Hex.antt =====
-- commons/conv/hexconv/hexconv.go. A string or byte slice is the list of its bytes. Of Go's
-- encoding/hex, `DecodeString` and `EncodeToString` are written out as they behave; the error of
-- `DecodeString` is a flag beside the bytes that it decoded before the error.
pub mod Laws
pub mod Pads
use agents_go.Prelude.{
  ℕ, zero, suc, ◌+◌, ◌-◌, ◌*◌, ◌/◌, ◌%◌, Bool, true, false, ◌&&◌, ◌||◌, Option, none, some, List,
  [], ◌∷◌, ◌++◌, Text, leb, ltb, ◌==◌, if◌then◌else◌, length, drop, replicate,
}
use mathlib.Core.List.{reverse}

-- The value of a hexadecimal digit of either case.
unfoldable pub hex_value : ℕ → Option ℕ
hex_value c =
    if leb b'0' c && leb c b'9'
    then some (c - b'0')
    else if leb b'a' c && leb c b'f'
    then some (c - b'a' + 10)
    else if leb b'A' c && leb c b'F'
    then some (c - b'A' + 10)
    else none

-- What two digits give, with what the rest gives.
unfoldable pub decode_pair : Option ℕ → Option ℕ → Text × Bool → Text × Bool
decode_pair none b rest = ([], true)
decode_pair (some a) none rest = ([], true)
decode_pair (some a) (some b) (bytes, err) = ((a * 16 + b) ∷ bytes, err)

-- Go's hex.DecodeString: two digits a round; an odd digit at the end is an error.
unfoldable pub decode_string : Text → Text × Bool
decode_string [] = ([], false)
decode_string (p ∷ []) = ([], true)
decode_string (p ∷ q ∷ s) = decode_pair (hex_value p) (hex_value q) (decode_string s)

unfoldable pub hex_digit : ℕ → ℕ
hex_digit n = if ltb n 10 then b'0' + n else b'a' + (n - 10)

-- Go's hex.EncodeToString.
unfoldable pub encode_to_string : Text → Text
encode_to_string [] = []
encode_to_string (c ∷ s) = hex_digit (c / 16) ∷ hex_digit (c % 16) ∷ encode_to_string s

-- `Has0xPrefix`.
unfoldable pub has_0x_prefix : Text → Bool
has_0x_prefix [] = false
has_0x_prefix (a ∷ []) = false
has_0x_prefix (a ∷ b ∷ s) = (a == b'0') && ((b == b'x') || (b == b'X'))

unfoldable pub bytes2hex : Text → Text
bytes2hex d = encode_to_string d

unfoldable pub hex2bytes : Text → Text
hex2bytes str = (decode_string str).0

unfoldable pub from_hex : Text → Text
from_hex s =
    let digits = if has_0x_prefix s then drop 2 s else s in
    hex2bytes (if length digits % 2 == 1 then b'0' ∷ digits else digits)

-- `IsHexCharacter`.
unfoldable pub is_hex_character : ℕ → Bool
is_hex_character c =
    (leb b'0' c && leb c b'9') || (leb b'a' c && leb c b'f') || (leb b'A' c && leb c b'F')

unfoldable pub all_hex : Text → Bool
all_hex [] = true
all_hex (c ∷ s) = is_hex_character c && all_hex s

-- `IsHex`.
unfoldable pub is_hex : Text → Bool
is_hex str = if length str % 2 == 0 then all_hex str else false

-- `Hex2BytesFixed`.
unfoldable pub hex2bytes_fixed : Text → ℕ → Text
hex2bytes_fixed str flen =
    let h = (decode_string str).0 in
    if length h == flen
    then h
    else if ltb flen (length h)
    then drop (length h - flen) h
    else replicate (flen - length h) 0 ++ h

-- `ParseHexOrString`; its error is always nil.
unfoldable pub parse_hex_or_string : Text → Text
parse_hex_or_string str = if has_0x_prefix str then from_hex str else str

unfoldable pub right_pad_bytes : Text → ℕ → Text
right_pad_bytes slice l =
    if leb l (length slice) then slice else slice ++ replicate (l - length slice) 0

unfoldable pub left_pad_bytes : Text → ℕ → Text
left_pad_bytes slice l =
    if leb l (length slice) then slice else replicate (l - length slice) 0 ++ slice

unfoldable pub trim_left_zeroes : Text → Text
trim_left_zeroes [] = []
trim_left_zeroes (c ∷ s) = if c == 0 then trim_left_zeroes s else c ∷ s

-- `TrimRightZeroes` walks from the end.
unfoldable pub trim_right_zeroes : Text → Text
unfolding trim_left_zeroes
trim_right_zeroes s = reverse (trim_left_zeroes (reverse s))

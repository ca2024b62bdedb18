-- ===== src/Conv/Tests.antt =====
-- Concrete texts and numbers, for the code of commons/conv.
use agents_go.Prelude.{◌≡◌, refl, [], ◌∷◌, Text, codes}
use agents_go.Conv.Hex.{
  from_hex, bytes2hex, decode_string, decode_pair, hex_value, hex2bytes, encode_to_string,
  hex_digit, has_0x_prefix,
}

abbrev data_bytes : Text
data_bytes = 0 ∷ 171 ∷ 16 ∷ []

-- An odd digit at the front, and a prefix in capitals.
from_hex_odd : from_hex (codes "0XabC") ≡ 10 ∷ 188 ∷ []
unfolding from_hex has_0x_prefix hex2bytes decode_string decode_pair hex_value
from_hex_odd = refl

bytes2hex_data : bytes2hex data_bytes ≡ codes "00ab10"
unfolding bytes2hex encode_to_string hex_digit
bytes2hex_data = refl

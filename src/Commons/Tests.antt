-- ===== src/Commons/Tests.antt =====
-- Concrete texts, for the code of commons/commons.go.
use agents_go.Prelude.{◌≡◌, ◌-◌, ◌^◌, refl, none, some, codes}
use agents_go.Conv.Hex.{hex_value, hex_digit}
use agents_go.Commons.{
  ChainId, hex2int, remove_0x, parse_uint16, parse_digits, marshal_hex, format_hex, emit_hex,
}

-- The largest uint64 is read, the next number is an error, and so is the empty text.
hex2int_limits :
    (hex2int (codes "0xffffffffffffffff") ≡ some (2 ^ 64 - 1))
    × (hex2int (codes "0x10000000000000000") ≡ none)
    × (hex2int (codes "0x") ≡ none)
unfolding hex2int remove_0x parse_uint16 parse_digits hex_value
hex2int_limits = (refl, refl, refl)

marshal_hex_text : marshal_hex 48879 ≡ codes "0xbeef"
unfolding marshal_hex format_hex emit_hex hex_digit
marshal_hex_text = refl

abbrev eth_main : ChainId
eth_main = record { chain_type = codes "ET"; network = codes "M" }

-- ===== src/Conv/Uint256.antt =====
-- commons/conv/uint256conv/uint256conv.go. A `*big.Int` that is not nil is its sign and absolute
-- value, and a `*proto.Uint256` its bytes; nil is `none`. Of Go's math/big, `SetBytes`, `Bytes` and
-- `Cmp` are written out.
pub mod Laws
use agents_go.Prelude.{
  ℕ, zero, suc, ◌+◌, ◌-◌, ◌*◌, ◌/◌, ◌%◌, Bool, true, false, ◌&&◌, not, Option, none, some, List, [],
  ◌∷◌, ◌++◌, Text, codes, leb, ltb, ◌==◌, if◌then◌else◌,
}
use agents_go.Conv.Hex.{from_hex}
use agents_go.Conv.Hex.Pads.{set_bytes}

pub record BigInt : Type 0 where
  pub negative : Bool
  pub abs : ℕ

-- Big-endian bytes in front of `out`, least significant first to be written; `fuel` is at least `n`.
pub emit : ℕ → ℕ → Text → Text
emit zero n out = out
emit (suc fuel) n out =
    let rest = emit fuel (n / 256) ((n % 256) ∷ out) in if n == 0 then out else rest

-- big.Int's Bytes: the absolute value, big-endian, with no leading zero.
unfoldable pub bytes : ℕ → Text
unfolding emit
bytes n = emit n n []

abbrev max_uint256_hex : Text
max_uint256_hex = codes "ffffffffffffffffffffffffffffffffffffffffffffffffffffffffffffffff"

-- `MAX_UINT256_BIGINT`.
unfoldable pub max_uint256 : ℕ
unfolding from_hex
max_uint256 = set_bytes (from_hex max_uint256_hex)

pub to_big_int : Option Text → Option BigInt
to_big_int none = none
to_big_int (some data_bytes) = some (record { negative = false; abs = set_bytes data_bytes })

-- A panic, or the value that is returned.
pub data Outcome : Type 0 where
  panics : Outcome
  returns : Option Text → Outcome

-- `val.Cmp(MAX_UINT256_BIGINT) > 0`.
pub above_max : BigInt → Bool
unfolding max_uint256
above_max v = not v.negative && ltb max_uint256 v.abs

unfoldable pub from_big_int : Option BigInt → Outcome
unfolding above_max bytes
from_big_int none = returns none
from_big_int (some v) = if above_max v then panics else returns (some (bytes v.abs))

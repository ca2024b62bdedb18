-- ===== src/Trx/Fees.antt =====
-- agents/trx/server.go: `GetFeePrices`, `estimateBandwidth` and `estimateFee`. A price that the node does not name is
-- a nil `*big.Int`, `none` here, and its use in a product is a panic.
pub mod Exact
pub mod Fresh
use agents_go.Prelude.{
  ℕ, ◌+◌, ◌-◌, ◌*◌, ◌/◌, ◌%◌, ◌^◌, Bool, true, false, not, ◌&&◌, ◌||◌, Option, none, some, leb, ltb,
  ◌==◌, if◌then◌else◌, Result, ok, err,
}
use agents_go.Conv.Uint256.{BigInt}
use agents_go.Cache.{SimpleExpirationCache, get, set}

-- The value of a result, where zero has no sign.
abbrev pub signed : Bool → ℕ → BigInt
signed negative abs = record { negative = negative && not (abs == 0); abs = abs }

-- `big.NewInt(int64(n))` for a uint64.
unfoldable pub from_uint64 : ℕ → BigInt
from_uint64 n = if ltb n (2 ^ 63) then signed false n else signed true (2 ^ 64 - n)

-- big.Int's Mul and Add.
unfoldable pub mul : BigInt → BigInt → BigInt
mul x y = signed (if x.negative then not y.negative else y.negative) (x.abs * y.abs)

unfoldable pub add : BigInt → BigInt → BigInt
add x y =
    if (x.negative && y.negative) || (not x.negative && not y.negative)
    then signed x.negative (x.abs + y.abs)
    else if leb y.abs x.abs
    then signed x.negative (x.abs - y.abs)
    else signed y.negative (y.abs - x.abs)

-- `feePrices`, and `ChainParameters` of agents/trx/api.go.
pub record FeePrices : Type 0 where
  pub energy_price : Option BigInt
  pub bandwidth_price : Option BigInt

pub data FeeError (E : Type 0) : Type 0 where
  unavailable : E → FeeError E
  nil_price : FeeError E

-- `estimateBandwidth`, in uint64.
unfoldable pub estimate_bandwidth : ℕ → ℕ → ℕ
estimate_bandwidth raw_data_hex_size correction =
    (raw_data_hex_size / 2 + 64 + 67 + 3 + correction) % 2 ^ 64

module _ {E : Type 0} where
  -- The branch without a valid entry, at the time `now` of its `Set`.
  refresh :
      ℕ
      → Result E FeePrices
      → SimpleExpirationCache FeePrices
      → Result E FeePrices × SimpleExpirationCache FeePrices
  unfolding set
  refresh now (err e) cache = (err e, cache)
  refresh now (ok prices) cache = (ok prices, set now prices cache)

  -- `asked` and `now` are the times of `Get` and `Set`; `parameters` is what `GetChainParameters` gives.
  unfoldable pub get_fee_prices :
      ℕ
      → ℕ
      → Result E FeePrices
      → SimpleExpirationCache FeePrices
      → Result E FeePrices × SimpleExpirationCache FeePrices
  unfolding refresh get
  get_fee_prices asked now parameters cache =
      let (prices, valid) = get asked cache in
      if valid then (ok prices, cache) else refresh now parameters cache

  -- The product and the sum of `estimateFee`.
  unfoldable pub fee_of : ℕ → ℕ → Result E FeePrices → Result (FeeError E) BigInt
  fee_of bandwidth energy (err e) = err (unavailable e)
  fee_of bandwidth energy (ok prices) = elim prices.bandwidth_price [
    | none ↦ err nil_price
    | some b ↦ elim prices.energy_price [
      | none ↦ err nil_price
      | some e ↦ ok (add (mul (from_uint64 bandwidth) b) (mul (from_uint64 energy) e))
    ]
  ]

  unfoldable pub estimate_fee :
      ℕ
      → ℕ
      → Result E FeePrices
      → ℕ
      → ℕ
      → SimpleExpirationCache FeePrices
      → Result (FeeError E) BigInt × SimpleExpirationCache FeePrices
  unfolding get_fee_prices fee_of
  estimate_fee asked now parameters bandwidth energy cache =
      let (prices, cache') = get_fee_prices asked now parameters cache in
      (fee_of bandwidth energy prices, cache')

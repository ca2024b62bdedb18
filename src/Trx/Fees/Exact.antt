-- ===== src/Trx/Fees/Exact.antt =====
-- The fee that agents/trx/server.go estimates.
use mathlib.Core.Path.{ap₂}
use agents_go.Conv.Uint256.{BigInt}
use agents_go.Prelude.{
  ℕ, ◌+◌, ◌*◌, ◌^◌, ◌≡◌, refl, sym, ap, ◌∙◌, ◌<◌, ◌≤◌, ◌⊎◌, inl, inr, true, false, ltb, ltb→lt,
  Bool-cases, Option, none, some, Result, ok, err, ok_path, arith,
}
use agents_go.Conv.Uint256.Laws.{natural}
use agents_go.Cache.{SimpleExpirationCache}
use agents_go.Trx.Fees.{FeePrices, mul, add, from_uint64, fee_of, get_fee_prices, estimate_fee}

mul-natural : (a b : ℕ) → mul (natural a) (natural b) ≡ natural (a * b)
unfolding mul
mul-natural a b = ground arith

add-natural : (a b : ℕ) → add (natural a) (natural b) ≡ natural (a + b)
unfolding add
add-natural a b = ground arith

from_uint64-natural : (n : ℕ) → n < 2 ^ 63 → from_uint64 n ≡ natural n
unfolding from_uint64
from_uint64-natural n h = ground arith

module _ {E : Type 0} where
  -- With prices that are not negative, from the cache or from the node, the fee is the bandwidth at its price and the
  -- energy at its price, without an overflow, if both amounts are below 2 ^ 63.
  pub estimate_fee_lem :
      (asked now : ℕ) (parameters : Result E FeePrices) (bandwidth energy b e : ℕ)
      (cache : SimpleExpirationCache FeePrices)
      → bandwidth < 2 ^ 63
      → energy < 2 ^ 63
      → (get_fee_prices asked now parameters cache).0
        ≡ ok (record { energy_price = some (natural e); bandwidth_price = some (natural b) })
      → (estimate_fee asked now parameters bandwidth energy cache).0
        ≡ ok (natural (bandwidth * b + energy * e))
  unfolding estimate_fee fee_of
  estimate_fee_lem asked now parameters bandwidth energy b e cache hb he priced =
      ap (fee_of bandwidth energy) priced
      ∙ rw (
        from_uint64-natural bandwidth hb,
        from_uint64-natural energy he,
        mul-natural bandwidth b,
        mul-natural energy e,
        add-natural (bandwidth * b) (energy * e),
      )

abbrev sum : ℕ → ℕ → BigInt → BigInt → BigInt
sum bandwidth energy b e = add (mul (from_uint64 bandwidth) b) (mul (from_uint64 energy) e)

module _ {E : Type 0} where
  -- The number `fee` is the bandwidth and the energy at their prices, from the cache or from the node, where the prices are
  -- not negative and an int64 holds both amounts.
  abbrev pub IsFee :
      ℕ → ℕ → Result E FeePrices → ℕ → ℕ → SimpleExpirationCache FeePrices → ℕ → Type 0
  IsFee asked now parameters bandwidth energy cache fee =
      (b : BigInt) × (e : BigInt) × ((get_fee_prices asked now parameters cache).0
        ≡ ok (record { energy_price = some e; bandwidth_price = some b }))
      × ((b.negative ≡ true)
          ⊎ ((e.negative ≡ true)
              ⊎ ((2 ^ 63 ≤ bandwidth)
                  ⊎ ((2 ^ 63 ≤ energy) ⊎ (fee ≡ bandwidth * b.abs + energy * e.abs)))))

  fee_of-ok :
      (bandwidth energy : ℕ) (r : Result E FeePrices) (v : BigInt)
      → fee_of bandwidth energy r ≡ ok v
      → (b : BigInt) × (e : BigInt) × (r
          ≡ ok (record { energy_price = some e; bandwidth_price = some b }))
        × (sum bandwidth energy b e ≡ v)
  unfolding fee_of
  fee_of-ok bandwidth energy (err x) v h = cc
  fee_of-ok bandwidth energy (ok prices) v h = by_price prices.bandwidth_price prices.energy_price h
    where
      by_price :
          (o u : Option BigInt)
          → fee_of {E = E} bandwidth energy (ok (record { energy_price = u; bandwidth_price = o }))
            ≡ ok v
          → (b : BigInt) × (e : BigInt) × (◌≡◌ {A = Result E FeePrices}
              (ok (record { energy_price = u; bandwidth_price = o }))
              (ok (record { energy_price = some e; bandwidth_price = some b })))
            × (sum bandwidth energy b e ≡ v)
      by_price none u h = cc
      by_price (some b) none h = cc
      by_price (some b) (some e) h = (b, e, refl, ok_path h)

not_negative : (b : BigInt) → b.negative ≡ false → b ≡ natural b.abs
not_negative b h = λ i. record { negative = h i; abs = b.abs }

sum_abs :
    (bandwidth energy : ℕ) (b e : BigInt)
    → b.negative ≡ false
    → e.negative ≡ false
    → bandwidth < 2 ^ 63
    → energy < 2 ^ 63
    → (add (mul (from_uint64 bandwidth) b) (mul (from_uint64 energy) e)).abs
      ≡ bandwidth * b.abs + energy * e.abs
sum_abs bandwidth energy b e hb he fits fits' =
    ap₂ (λ x y. (add (mul (from_uint64 bandwidth) x) (mul (from_uint64 energy) y)).abs)
      (not_negative b hb) (not_negative e he)
    ∙ rw
        (
          from_uint64-natural bandwidth fits,
          from_uint64-natural energy fits',
          mul-natural bandwidth b.abs,
          mul-natural energy e.abs,
          add-natural (bandwidth * b.abs) (energy * e.abs),
        )
        refl

-- An estimate that succeeds is the fee.
pub estimate_fee-IsFee :
    {E : Type 0} (asked now : ℕ) (parameters : Result E FeePrices) (bandwidth energy : ℕ)
    (cache : SimpleExpirationCache FeePrices) (v : BigInt)
    → (estimate_fee asked now parameters bandwidth energy cache).0 ≡ ok v
    → IsFee asked now parameters bandwidth energy cache v.abs
unfolding estimate_fee
estimate_fee-IsFee asked now parameters bandwidth energy cache v h =
    let (b, e, priced, same) =
      fee_of-ok bandwidth energy (get_fee_prices asked now parameters cache).0 v h in
    (
      b,
      e,
      priced,
      elim (Bool-cases b.negative) [
        | inl n ↦ inl n
        | inr hb ↦ elim (Bool-cases e.negative) [
          | inl n ↦ inr (inl n)
          | inr he ↦ elim (Bool-cases (ltb bandwidth (2 ^ 63))) [
            | inr large ↦ inr (inr (inl (ground (arith, large))))
            | inl fits ↦ elim (Bool-cases (ltb energy (2 ^ 63))) [
              | inr large ↦ inr (inr (inr (inl (ground (arith, large)))))
              | inl fits' ↦ inr (
                  inr (
                    inr (
                      inr (
                        ap (λ (x : BigInt). x.abs) (sym same)
                        ∙ sum_abs bandwidth energy b e hb he (ltb→lt _ _ fits)
                            (ltb→lt _ _ fits')))))
            ]
          ]
        ]
      ],
    )

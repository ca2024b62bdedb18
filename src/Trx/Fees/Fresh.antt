-- ===== src/Trx/Fees/Fresh.antt =====
-- How old the prices are that `GetFeePrices` of agents/trx/server.go gives.
use agents_go.Prelude.{
  ℕ, ◌+◌, ◌≡◌, refl, sym, ◌∙◌, ◌≤◌, ◌<◌, ◌⊎◌, inl, inr, true, false, List, [], ◌∷◌, Result, ok, err,
  Has, ltb, arith, Bool-cases,
}
use agents_go.Cache.{SimpleExpirationCache, new_cache, get, set}
use agents_go.Trx.Fees.{FeePrices, refresh, get_fee_prices}

-- A call of `GetFeePrices`: the times of `Get` and `Set`, and what the node would answer.
pub record Reading (E : Type 0) : Type 0 where
  pub asked : ℕ
  pub now : ℕ
  pub answer : Result E FeePrices

module _ {E : Type 0} (zero_value : FeePrices) (expiration : ℕ) where
  -- The cache after the calls of a list, the last one first.
  unfoldable pub after : List (Reading E) → SimpleExpirationCache FeePrices
  after [] = new_cache zero_value expiration
  after (r ∷ rs) = (get_fee_prices r.asked r.now r.answer (after rs)).1

  -- What the cache holds was given by the node at its time, or nothing was stored yet.
  abbrev IsGiven : List (Reading E) → SimpleExpirationCache FeePrices → Type 0
  IsGiven rs c =
      (c.expiration ≡ expiration)
      × ((c.last_updated ≡ 0)
          ⊎ ((q : Reading E) × Has q rs × (q.answer ≡ ok c.val) × (c.last_updated ≡ q.now)))

  kept :
      (r : Reading E) (rs : List (Reading E)) (c : SimpleExpirationCache FeePrices)
      → IsGiven rs c
      → IsGiven (r ∷ rs) c
  kept r rs c (e, inl unset) = (e, inl unset)
  kept r rs c (e, inr (q, held, given, at)) = (e, inr (q, inr held, given, at))

  refresh-IsGiven :
      (r : Reading E) (rs : List (Reading E)) (c : SimpleExpirationCache FeePrices)
      (answer : Result E FeePrices)
      → r.answer ≡ answer
      → IsGiven rs c
      → IsGiven (r ∷ rs) (refresh r.now answer c).1
  unfolding refresh set
  refresh-IsGiven r rs c (ok p) e given = (given.0, inr (r, inl refl, e, refl))
  refresh-IsGiven r rs c (err x) e given = kept r rs c given

  step-IsGiven :
      (r : Reading E) (rs : List (Reading E)) (c : SimpleExpirationCache FeePrices)
      → IsGiven rs c
      → IsGiven (r ∷ rs) (get_fee_prices r.asked r.now r.answer c).1
  unfolding get_fee_prices get
  step-IsGiven r rs c given = elim (Bool-cases (ltb r.asked (c.last_updated + c.expiration))) [
    | inl valid ↦ rw valid (kept r rs c given)
    | inr old ↦ rw old (refresh-IsGiven r rs c r.answer refl given)
  ]

  after-IsGiven : (rs : List (Reading E)) → IsGiven rs (after rs)
  unfolding after new_cache
  after-IsGiven [] = (refl, inl refl)
  after-IsGiven (r ∷ rs) = step-IsGiven r rs (after rs) (after-IsGiven rs)

  refresh-answer :
      (now : ℕ) (answer : Result E FeePrices) (c : SimpleExpirationCache FeePrices)
      → (refresh now answer c).0 ≡ answer
  unfolding refresh
  refresh-answer now (ok p) c = refl
  refresh-answer now (err e) c = refl

  from_cache :
      (r : Reading E) (c : SimpleExpirationCache FeePrices)
      → ltb r.asked (c.last_updated + c.expiration) ≡ true
      → (get_fee_prices r.asked r.now r.answer c).0 ≡ ok c.val
  unfolding get_fee_prices get
  from_cache r c valid = rw valid refl

  from_node :
      (r : Reading E) (c : SimpleExpirationCache FeePrices)
      → ltb r.asked (c.last_updated + c.expiration) ≡ false
      → (get_fee_prices r.asked r.now r.answer c).0 ≡ r.answer
  unfolding get_fee_prices get
  from_node r c old = rw old (refresh-answer r.now r.answer c)

  answered :
      (r : Reading E) (rs : List (Reading E)) (p : FeePrices) (c : SimpleExpirationCache FeePrices)
      → expiration ≤ r.asked
      → IsGiven rs c
      → (get_fee_prices r.asked r.now r.answer c).0 ≡ ok p
      → (r.answer ≡ ok p)
        ⊎ ((q : Reading E) × Has q rs × (q.answer ≡ ok p) × (r.asked < q.now + expiration))
  answered r rs p c late (same, given) h =
      elim (Bool-cases (ltb r.asked (c.last_updated + c.expiration))) [
        | inl valid ↦ elim given [
          | inl unset ↦ ground arith
          | inr (q, held, answer, at) ↦
              inr (q, held, answer ∙ sym (from_cache r c valid) ∙ h, ground arith)
        ]
        | inr old ↦ inl (sym (from_node r c old) ∙ h)
      ]

  -- Every price that `GetFeePrices` returns was given by the node, by this call or by an earlier one that stored it
  -- less than the cache's expiration before, whatever calls were made since the cache was new. The clock is past the
  -- first `expiration` of Go's time.
  pub fee_prices_fresh :
      (rs : List (Reading E)) (r : Reading E) (p : FeePrices)
      → expiration ≤ r.asked
      → (get_fee_prices r.asked r.now r.answer (after rs)).0 ≡ ok p
      → (r.answer ≡ ok p)
        ⊎ ((q : Reading E) × Has q rs × (q.answer ≡ ok p) × (r.asked < q.now + expiration))
  fee_prices_fresh rs r p late h = answered r rs p (after rs) late (after-IsGiven rs) h

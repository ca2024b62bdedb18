-- ===== src/Cache.antt =====
-- commons/cache/cache.go: `SimpleExpirationCache`. Times are nanoseconds since Go's zero time; the zero value is an
-- argument, and the mutex makes each operation one step. `NewCache` only configures a library's cache.
use agents_go.Prelude.{ℕ, ◌+◌, Bool, ltb}

pub record SimpleExpirationCache {ℓ} (T : Type ℓ) : Type ℓ where
  pub expiration : ℕ
  pub last_updated : ℕ
  pub val : T

module _ {ℓ} {T : Type ℓ} where
  unfoldable pub new_cache : T → ℕ → SimpleExpirationCache T
  new_cache zero_value expiration = record {
    expiration = expiration;
    last_updated = 0;
    val = zero_value;
  }

  -- The comparison `time.Since(c.lastUpdated) < c.expiration`, also where the clock has gone back.
  unfoldable pub get : ℕ → SimpleExpirationCache T → T × Bool
  get now c = (c.val, ltb now (c.last_updated + c.expiration))

  unfoldable pub set : ℕ → T → SimpleExpirationCache T → SimpleExpirationCache T
  set now val c = record c { val = val; last_updated = now }

-- ===== src/Balancer/Spec.antt =====
-- What commons/balancer/balancer.go promises of its upstreams: a pool of clients that are up or down and have a number of
-- requests left in the second. The order of the clients, the cursor and the dialled clients are forgotten.
use agents_go.Prelude.{
  ℕ, ◌+◌, ◌-◌, ◌%◌, ◌≡◌, ◌<◌, ◌⊎◌, Bool, true, false, ◌||◌, ◌&&◌, leb, Option, none, some, List, [],
  ◌∷◌, ◌==◌, if◌then◌else◌,
}
use agents_go.Balancer.{second, eff_limit}

-- `filled` is the time of the last refill.
pub record Pool : Type 0 where
  pub up : ℕ → Bool
  pub left : ℕ → ℕ
  pub filled : ℕ

-- What happens to a pool: a client is asked for at a time, the clients of a set are dialled with success, or a client is
-- lost.
pub data Action : Type 0 where
  asks : ℕ → Action
  dials : (ℕ → Bool) → Action
  loses : ℕ → Action

-- A second has passed since the last refill.
abbrev pub is_due : ℕ → Pool → Bool
is_due now v = leb (v.filled + second) now

module _ (size : ℕ) (limits : ℕ → ℕ) where
  -- Where a refill is due, and only there, the clients that are up have the requests of a new second.
  abbrev pub IsReadied : ℕ → Pool → Pool → Type 0
  IsReadied now v u =
      (u.filled ≡ (if is_due now v then now - now % second else v.filled))
      × ((p : ℕ)
          → p < size
          → (u.up p ≡ v.up p)
            × (u.left p ≡ (if is_due now v && v.up p then eff_limit (limits p) else v.left p)))

  -- The clients of `joined` are up as well.
  abbrev pub IsJoin : (ℕ → Bool) → Pool → Pool → Type 0
  IsJoin joined v v' =
      (v'.filled ≡ v.filled)
      × ((p : ℕ) → p < size → (v'.up p ≡ (v.up p || joined p)) × (v'.left p ≡ v.left p))

  -- Client `i` is down.
  abbrev pub IsLoss : ℕ → Pool → Pool → Type 0
  IsLoss i v v' =
      (v'.filled ≡ v.filled)
      × ((p : ℕ)
          → p < size
          → (v'.up p ≡ (if p == i then false else v.up p)) × (v'.left p ≡ v.left p))

  -- Every client is down or has no request left.
  abbrev pub IsExhausted : Pool → Type 0
  IsExhausted v = (p : ℕ) → p < size → (v.up p ≡ false) ⊎ (v.left p ≡ 0)

  -- Nobody answers for an exhausted pool, which stays as it is; or a client that is up and has a request left answers,
  -- and pays with one request.
  abbrev pub IsAnswer : Pool → Option ℕ → Pool → Type 0
  IsAnswer u none v = IsExhausted u × (u ≡ v)
  IsAnswer u (some q) v =
      (q < size)
      × (u.up q ≡ true)
      × (0 < u.left q)
      × (v.filled ≡ u.filled)
      × ((p : ℕ)
          → p < size
          → (v.up p ≡ u.up p) × (v.left p ≡ (if p == q then u.left p - 1 else u.left p)))

  -- From a pool, the actions of a list lead to the pool `w`, with the answers to those that ask, in order.
  pub data Reaches (w : Pool) : Pool → List Action → List (Option ℕ) → Type 0 where
    stops : Reaches w w [] []
    answered :
        (now : ℕ) (v u v' : Pool) (o : Option ℕ) (es : List Action) (os : List (Option ℕ))
        → IsReadied now v u
        → IsAnswer u o v'
        → Reaches w v' es os
        → Reaches w v (asks now ∷ es) (o ∷ os)
    dialled :
        (joined : ℕ → Bool) (v v' : Pool) (es : List Action) (os : List (Option ℕ))
        → IsJoin joined v v'
        → Reaches w v' es os
        → Reaches w v (dials joined ∷ es) os
    lost :
        (i : ℕ) (v v' : Pool) (es : List Action) (os : List (Option ℕ))
        → IsLoss i v v'
        → Reaches w v' es os
        → Reaches w v (loses i ∷ es) os

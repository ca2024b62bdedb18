-- ===== src/Balancer/Starting.antt =====
-- The balancer of commons/balancer/balancer.go after `Start`.
use agents_go.Prelude.{
  ℕ, ◌-◌, ◌%◌, ◌≡◌, sym, ◌∙◌, ◌≤◌, ◌<◌, inl, inr, Bool, true, false, Option, List, [], ◌∷◌, ◌==◌,
  arith, ==_iff, Bool-cases, Has,
}
use agents_go.Balancer.{Balancer, second, mem, new_balancer, start, connect_clients}
use agents_go.Balancer.Connected.{Tracks, new_balancer-Tracks, connect_clients-Tracks}
use agents_go.Balancer.Dialling.{connect_clients-flag}
use agents_go.Balancer.Budget.{connect-last_updated}
use agents_go.Balancer.Pools.{up-mem, step-count}
use agents_go.Balancer.History.{connects, step}

Has_of_mem : (i : ℕ) (ps : List ℕ) → mem i ps ≡ true → Has i ps
Has_of_mem i [] h = cc
Has_of_mem i (p ∷ ps) h = elim (Bool-cases (p == i)) [
  | inl e ↦ inl (sym ((==_iff p i).0 e))
  | inr e ↦ inr (Has_of_mem i ps (rw e at h))
]

module _ {T : Type 0} where
  connected-Has :
      (dial : ℕ → T × Bool) (b : Balancer T) (i : ℕ)
      → Tracks b
      → i < b.count
      → (dial i).1 ≡ false
      → Has i (connect_clients dial b).connected
  unfolding step
  connected-Has dial b i t lt up =
      let c = connect_clients dial b in
      let size = step-count (connects dial) b in
      let same = up-mem c i (connect_clients-Tracks dial b t) (omega (arith, size)) in
      Has_of_mem i c.connected (same ∙ connect_clients-flag dial b i t lt ∙ rw up (ground arith))

  -- After `Start` of a new balancer a client is connected if its `Dial` succeeds, and the last refill is not in the
  -- future.
  pub start-Has :
      (zero_client : T) (count : ℕ) (limits : ℕ → ℕ) (observations : Option (List (T × Bool)))
      (dial : ℕ → T × Bool) (now i : ℕ)
      → i < count
      → (dial i).1 ≡ false
      → Has i (start now dial (new_balancer zero_client count limits observations)).connected
        × ((start now dial (new_balancer zero_client count limits observations)).last_updated ≤ now)
  unfolding start new_balancer
  start-Has z count limits o dial now i lt up =
      let b = record (new_balancer z count limits o) { last_updated = now - now % second } in
      (
        connected-Has dial b i (new_balancer-Tracks z count limits o) lt up,
        omega (arith, connect-last_updated dial b),
      )

-- ===== src/Balancer/Outcome.antt =====
-- What one call of `selectClient` in commons/balancer/balancer.go can do.
use agents_go.Prelude.{
  ℕ, zero, suc, ◌+◌, ◌%◌, ◌≡◌, ap, sym, ◌≤◌, ◌<◌, refl, ◌⊎◌, inl, inr, Option, none, some, List, [],
  ◌∷◌, arith, length, get_elem?-some, Has, Has-get_elem?, All, ltb, ltb→lt, Bool-cases,
}
use native.Mathlib.Nat.{mod-lt}
use agents_go.Balancer.{
  Balancer, ClientRecord, richest, spend, pick, probe, select_client, refill, rewind,
}

module _ {T : Type 0} where
  -- No client of the list has a request left.
  abbrev pub AllSpent : (ℕ → ClientRecord T) → List ℕ → Type 0
  AllSpent f = All λ p. (f p).bucket ≡ 0

  -- From `b`, after its refill, nobody is picked or one connected client pays for one request; the
  -- cursor alone changes besides.
  pub data Outcome (b : Balancer T) : Balancer T × Option ℕ → Type 0 where
    nobody : AllSpent b.clients b.connected → Outcome b (b, none)
    picked :
        (p cursor : ℕ)
        → Has p b.connected
        → 0 < (b.clients p).bucket
        → Outcome b (record (spend p b) { index = cursor }, some p)

  -- What `richest` answers, started at `max_val` and `found`.
  pub richest_cases :
      (f : ℕ → ClientRecord T) (ps : List ℕ) (max_val : ℕ) (found : Option ℕ)
      → (All (λ p. (f p).bucket ≤ max_val) ps × (richest f ps max_val found ≡ found))
        ⊎ ((q : ℕ) × Has q ps
            × (max_val < (f q).bucket)
            × (richest f ps max_val found ≡ some q)
            × All (λ p. (f p).bucket ≤ (f q).bucket) ps)
  unfolding richest
  richest_cases f [] max_val found = inl (tt, refl)
  richest_cases f (p ∷ ps) max_val found = elim (Bool-cases (ltb max_val (f p).bucket)) [
    | inl more ↦ rw more (elim (richest_cases f ps (f p).bucket (some p)) [
      | inl (below, e) ↦ inr (p, inl refl, ltb→lt _ _ more, e, (omega arith, below))
      | inr (q, held, above, e, below) ↦
          inr (q, inr held, omega (arith, ltb→lt _ _ more), e, (omega arith, below))
    ])
    | inr less ↦ rw less (elim (richest_cases f ps max_val found) [
      | inl (below, e) ↦ inl ((ground arith, below), e)
      | inr (q, held, above, e, below) ↦ inr (q, inr held, above, e, (ground arith, below))
    ])
  ]

  pub AllSpent-of_le :
      (f : ℕ → ClientRecord T) (ps : List ℕ) → All (λ p. (f p).bucket ≤ 0) ps → AllSpent f ps
  AllSpent-of_le f [] h = tt
  AllSpent-of_le f (p ∷ ps) (hp, hps) = (omega arith, AllSpent-of_le f ps hps)

  pick-Outcome :
      (b : Balancer T) (i p : ℕ) (rest : Balancer T × Option ℕ)
      → Has p b.connected
      → (AllSpent b.clients b.connected → Outcome b rest)
      → Outcome b (pick i (some p) b rest)
  unfolding pick
  pick-Outcome b i p rest held later = elim (Bool-cases (ltb 0 (b.clients p).bucket)) [
    | inl more ↦ rw more (picked p _ held (ltb→lt _ _ more))
    | inr less ↦ rw less (elim (richest_cases b.clients b.connected 0 none) [
      | inl (below, e) ↦ rw e (later (AllSpent-of_le b.clients b.connected below))
      | inr (q, has, above, e, below) ↦ rw e (picked q b.index has above)
    ])
  ]

  pick_at-Outcome :
      (b : Balancer T) (i p : ℕ) (o : Option ℕ) (rest : Balancer T × Option ℕ)
      → o ≡ some p
      → Has p b.connected
      → (AllSpent b.clients b.connected → Outcome b rest)
      → Outcome b (pick i o b rest)
  pick_at-Outcome b i p o rest e held later = rw e (pick-Outcome b i p rest held later)

  probe-Outcome :
      (b : Balancer T) (k i : ℕ)
      → k ≤ length b.connected
      → AllSpent b.clients b.connected ⊎ (0 < k)
      → Outcome b (probe k i b)
  unfolding probe
  probe-Outcome b zero i h (inl spent) = nobody spent
  probe-Outcome b zero i h (inr pos) = absurd (omega arith)
  probe-Outcome b (suc k) i h _ =
      let (p, e) =
        get_elem?-some b.connected ((b.index + i) % length b.connected) (mod-lt _ (omega arith)) in
      pick_at-Outcome b i p _ (probe k (suc i) b) e (Has-get_elem? b.connected _ p e)
        (λ spent. probe-Outcome b k (suc i) (omega arith) (inl spent))

  -- The state that the rounds of `selectClient` start from.
  abbrev pub ready : ℕ → Balancer T → Balancer T
  ready now b = refill now (rewind b)

  pub connected-ready : (now : ℕ) (b : Balancer T) → (ready now b).connected ≡ b.connected
  unfolding refill rewind
  connected-ready now b = ground arith

  empty_or_positive : (f : ℕ → ClientRecord T) (ps : List ℕ) → AllSpent f ps ⊎ (0 < length ps)
  empty_or_positive f [] = inl tt
  empty_or_positive f (p ∷ ps) = inr (omega arith)

  rounds-Outcome : (b : Balancer T) (k : ℕ) → k ≡ length b.connected → Outcome b (probe k 0 b)
  rounds-Outcome b k e =
      probe-Outcome b k 0 (omega arith) (rw e (empty_or_positive b.clients b.connected))

  -- Once the buckets are refilled where a second has passed, `selectClient` either picks nobody, and
  -- then every connected client is out of requests and nothing else changes, or it picks a
  -- connected client that has a request left, takes one from that client's bucket and moves the
  -- cursor, and nothing else changes.
  pub select_client-Outcome :
      (now : ℕ) (b : Balancer T) → Outcome (ready now b) (select_client now b)
  unfolding select_client
  select_client-Outcome now b =
      rounds-Outcome (ready now b) _ (ap length (sym (connected-ready now b)))

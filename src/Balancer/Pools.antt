-- ===== src/Balancer/Pools.antt =====
-- The view of the balancer of commons/balancer/balancer.go that its specification takes, and what its operations do to it.
use agents_go.Prelude.{
  ℕ, ◌+◌, ◌-◌, ◌%◌, ◌≡◌, refl, ap, ◌∙◌, ◌<◌, inl, inr, Bool, true, false, not, Option, List, [],
  ◌∷◌, ◌==◌, leb, lt→ltb, if◌then◌else◌, Bool-cases, arith, length,
}
use agents_go.Balancer.{
  Balancer, ClientRecord, second, eff_limit, update, mem, new_balancer, connect_clients,
  dial_clients, publish, mark_disconnected, refill_buckets, refill, rewind, spend, select_client,
}
use agents_go.Balancer.Outcome.{AllSpent, Outcome, nobody, picked, ready, select_client-Outcome}
use agents_go.Balancer.Connected.{Tracks}
use agents_go.Balancer.Dialling.{mem-flagged_eq}
use agents_go.Balancer.History.{Event, selects, connects, disconnects, step}
use agents_go.Balancer.Budget.{IsBudgeted}
use agents_go.Balancer.Spec.{Pool, Action, asks, dials, loses}

module _ {T : Type 0} where
  -- What the specification sees of a balancer.
  abbrev pub pool : Balancer T → Pool
  pool b = record {
    up = λ p. (b.clients p).connected;
    left = λ p. (b.clients p).bucket;
    filled = b.last_updated;
  }

  pub pool_new :
      (zero_client : T) (count : ℕ) (limits : ℕ → ℕ) (observations : Option (List (T × Bool)))
      → pool (new_balancer zero_client count limits observations)
        ≡ record { up = λ p. false; left = limits; filled = 0 }
  unfolding new_balancer
  pool_new zero_client count limits observations = refl

  -- What the specification sees of an event.
  abbrev pub action : Event T → Action
  action (selects now) = asks now
  action (connects dial) = dials (λ p. not (dial p).1)
  action (disconnects i) = loses i

  -- What the selections of a history answer, the first one first.
  unfoldable pub answers : List (Event T) → Balancer T → List (Option ℕ)
  answers [] b = []
  answers (selects now ∷ es) b = (select_client now b).1 ∷ answers es (select_client now b).0
  answers (connects dial ∷ es) b = answers es (connect_clients dial b)
  answers (disconnects i ∷ es) b = answers es (mark_disconnected i b)

  -- What every state of a history has.
  pub record IsSound (size : ℕ) (limits : ℕ → ℕ) (b : Balancer T) : Type 0 where
    pub tracks : Tracks b
    pub budgeted : IsBudgeted limits b
    pub sized : b.count ≡ size

  pub refill_buckets-bucket :
      (ps : List ℕ) (f : ℕ → ClientRecord T) (p : ℕ)
      → (refill_buckets ps f p).bucket
        ≡ (if mem p ps then eff_limit (f p).limit_rps else (f p).bucket)
  unfolding refill_buckets
  refill_buckets-bucket [] f p = refl
  refill_buckets-bucket (q ∷ ps) f p =
      let r : ClientRecord T = record (f q) { bucket = eff_limit (f q).limit_rps } in
      ground (arith, refill_buckets-bucket ps (update f q r) p)

  pub up-mem :
      (b : Balancer T) (p : ℕ)
      → Tracks b
      → p < b.count
      → mem p b.connected ≡ (b.clients p).connected
  up-mem b p t h = ap (mem p) t ∙ mem-flagged_eq b.count p b.clients ∙ rw (lt→ltb p b.count h) refl

  pub spent_of_mem :
      (f : ℕ → ClientRecord T) (ps : List ℕ) (p : ℕ)
      → AllSpent f ps
      → mem p ps ≡ true
      → (f p).bucket ≡ 0
  spent_of_mem f [] p a h = cc
  spent_of_mem f (q ∷ ps) p (a, rest) h = ground (arith, spent_of_mem f ps p rest)

  pub pool-rewind : (b : Balancer T) → pool (rewind b) ≡ pool b
  unfolding rewind
  pool-rewind b = elim (Bool-cases (leb (length b.connected) b.index)) [
    | inl e ↦ rw e refl
    | inr e ↦ rw e refl
  ]

  pub refill_due :
      (now : ℕ) (b : Balancer T)
      → leb (b.last_updated + second) now ≡ true
      → refill now b ≡ record b {
        clients = refill_buckets b.connected b.clients;
        last_updated = now - now % second;
      }
  unfolding refill
  refill_due now b e = rw e refl

  pub refill_early :
      (now : ℕ) (b : Balancer T) → leb (b.last_updated + second) now ≡ false → refill now b ≡ b
  unfolding refill
  refill_early now b e = rw e refl

  pub new_balancer-count :
      (zero_client : T) (count : ℕ) (limits : ℕ → ℕ) (observations : Option (List (T × Bool)))
      → (new_balancer zero_client count limits observations).count ≡ count
  unfolding new_balancer
  new_balancer-count z count limits o = refl

  pub rewind-Tracks : (b : Balancer T) → Tracks b → Tracks (rewind b)
  unfolding rewind
  rewind-Tracks b t = elim (Bool-cases (leb (length b.connected) b.index)) [
    | inl e ↦ rw e t
    | inr e ↦ rw e t
  ]

  pub rewind-count : (b : Balancer T) → (rewind b).count ≡ b.count
  unfolding rewind
  rewind-count b = ground arith

  -- Of a client that is down and one that is not in the list.
  pub mark_disconnected-flag :
      (i p : ℕ) (b : Balancer T)
      → Tracks b
      → p < b.count
      → ((mark_disconnected i b).clients p).connected
        ≡ (if p == i then false else (b.clients p).connected)
  unfolding mark_disconnected
  mark_disconnected-flag i p b t h = ground (arith, up-mem b p t h)

  pub ready-count : (now : ℕ) (b : Balancer T) → (ready now b).count ≡ b.count
  unfolding refill rewind
  ready-count now b = ground arith

  pub Outcome-count :
      (b : Balancer T) (r : Balancer T × Option ℕ) → Outcome b r → r.0.count ≡ b.count
  unfolding spend
  Outcome-count b r (nobody spent) = refl
  Outcome-count b r (picked q cursor held pos) = refl

  pub step-count : (e : Event T) (b : Balancer T) → (step e b).count ≡ b.count
  unfolding step connect_clients dial_clients publish mark_disconnected
  step-count (selects now) b =
      Outcome-count (ready now b) _ (select_client-Outcome now b) ∙ ready-count now b
  step-count (connects dial) b = ground arith
  step-count (disconnects i) b = ground arith

-- ===== src/Balancer/Calls/Progress.antt =====
-- That `CallW` of commons/balancer/balancer.go gets to run its operation.
use agents_go.Prelude.{
  ℕ, ◌+◌, ◌≡◌, refl, sym, ap, ◌∙◌, subst, ◌≤◌, ◌<◌, inl, inr, Bool, Option, none, some, List, ◌∷◌,
  arith, Option-cases, Has,
}
use agents_go.Balancer.{Balancer, second, refill_buckets, refill, rewind, select_client}
use agents_go.Balancer.Outcome.{
  Outcome, nobody, picked, ready, connected-ready, select_client-Outcome,
}
use agents_go.Balancer.Choice.{select_client-none}
use agents_go.Balancer.Connected.{mem_of_Has}
use agents_go.Balancer.Pools.{refill_buckets-bucket, refill_due, spent_of_mem}
use agents_go.Balancer.Calls.{Reply, returned, call_with, wait_round, call_wait}

module _ {T : Type 0} where
  -- A refill leaves a connected client with a request.
  refilled_positive :
      (b : Balancer T) (p : ℕ)
      → Has p b.connected
      → 0 < (refill_buckets b.connected b.clients p).bucket
  refilled_positive b p held =
      ground (arith, refill_buckets-bucket b.connected b.clients p, mem_of_Has p b.connected held)

  due_positive :
      (now : ℕ) (b : Balancer T) (p : ℕ)
      → Has p b.connected
      → b.last_updated + second ≤ now
      → 0 < ((refill now b).clients p).bucket
  due_positive now b p held due =
      subst (λ (c : Balancer T). 0 < (c.clients p).bucket) (sym (refill_due now b (ground arith)))
        (refilled_positive b p held)

  rewind_keeps :
      (b : Balancer T)
      → ((rewind b).connected ≡ b.connected) × ((rewind b).last_updated ≡ b.last_updated)
  unfolding rewind
  rewind_keeps b = (ground arith, ground arith)

  ready_positive :
      (now : ℕ) (b : Balancer T) (p : ℕ)
      → Has p b.connected
      → b.last_updated + second ≤ now
      → 0 < ((ready now b).clients p).bucket
  ready_positive now b p held due =
      let (list, time) = rewind_keeps b in
      due_positive now (rewind b) p (subst (Has p) (sym list) held) (rw time due)

  -- A selection a second after the last refill finds a client, if one is connected.
  select_client-some :
      (now : ℕ) (b : Balancer T) (p : ℕ)
      → Has p b.connected
      → b.last_updated + second ≤ now
      → (q : ℕ) × ((select_client now b).1 ≡ some q)
  select_client-some now b p held due = elim (Option-cases (select_client now b).1) [
    | inr found ↦ found
    | inl nothing ↦
        let spent = (select_client-none now b).0 nothing in
        absurd (
          omega (
            arith,
            spent_of_mem (ready now b).clients b.connected p spent (mem_of_Has p b.connected held),
            ready_positive now b p held due,
          ))
  ]

  ready_time : (now : ℕ) (b : Balancer T) → b.last_updated ≤ now → (ready now b).last_updated ≤ now
  unfolding refill rewind
  ready_time now b h = ground arith

  Outcome_none : (b : Balancer T) (r : Balancer T × Option ℕ) → Outcome b r → r.1 ≡ none → r.0 ≡ b
  Outcome_none b r (nobody spent) h = refl
  Outcome_none b r (picked q cursor held pos) h = cc

module _ {T E : Type 0} (is_connection_error : Option E → Bool) (op : T → Option E) where
  -- The operation was run with a client.
  abbrev pub HasReturned : Balancer T × Reply E → Type 0
  HasReturned r = (q : ℕ) × (err : Option E) × (r.1 ≡ returned q err)

  round-HasReturned :
      (r : Balancer T × Option ℕ) (ctx_err : Option E) (rest : Balancer T → Balancer T × Reply E)
      (q : ℕ)
      → r.1 ≡ some q
      → HasReturned (wait_round is_connection_error op r ctx_err rest)
  unfolding wait_round call_with
  round-HasReturned (b, none) ctx_err rest q h = cc
  round-HasReturned (b, some p) ctx_err rest q h = (p, op (b.clients p).client, refl)

  round_again :
      (r : Balancer T × Option ℕ) (rest : Balancer T → Balancer T × Reply E)
      → r.1 ≡ none
      → wait_round is_connection_error op r none rest ≡ rest r.0
  unfolding wait_round
  round_again (b, none) rest h = refl
  round_again (b, some p) rest h = cc

  -- `CallW` runs its operation in the first or the second round, if a client is connected when it starts, its context is
  -- not done after the first sleep, the sleep takes a second, the clock does not stand before the last refill, and
  -- nothing else uses the balancer meanwhile.
  pub call_wait_serves :
      (b : Balancer T) (p now later : ℕ) (ctx_err : Option E) (rounds : List (ℕ × Option E))
      → Has p b.connected
      → b.last_updated ≤ now
      → now + second ≤ later
      → HasReturned (call_wait is_connection_error op ((now, none) ∷ (later, ctx_err) ∷ rounds) b)
  unfolding call_wait
  call_wait_serves b p now later ctx_err rounds held past slept =
      elim (Option-cases (select_client now b).1) [
        | inr (q, found) ↦ round-HasReturned (select_client now b) none _ q found
        | inl nothing ↦
            let same = Outcome_none (ready now b) _ (select_client-Outcome now b) nothing in
            let (q, found) =
              select_client-some later (ready now b) p
                (subst (Has p) (sym (connected-ready now b)) held)
                (omega (arith, ready_time now b past)) in
            let again : HasReturned
                (call_wait is_connection_error op ((later, ctx_err) ∷ rounds) (ready now b)) =
              round-HasReturned (select_client later (ready now b)) ctx_err _ q found in
            let rest = call_wait is_connection_error op ((later, ctx_err) ∷ rounds) in
            subst HasReturned (sym (round_again (select_client now b) rest nothing ∙ ap rest same))
              again
      ]

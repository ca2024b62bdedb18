-- ===== src/Balancer/Refinement.antt =====
-- The balancer of commons/balancer/balancer.go behaves as the pool of the specification.
use agents_go.Prelude.{
  ℕ, ◌+◌, ◌≡◌, refl, sym, ap, ◌∙◌, subst, ◌<◌, inl, inr, Bool, true, ◌&&◌, not, Option, List, [],
  ◌∷◌, map, false, leb, ltb, if◌then◌else◌, Bool-cases, arith, Has,
}
use agents_go.Balancer.{
  Balancer, second, eff_limit, mem, new_balancer, connect_clients, mark_disconnected,
  refill_buckets, refill, rewind, spend, select_client,
}
use agents_go.Balancer.Outcome.{Outcome, nobody, picked, ready, select_client-Outcome}
use agents_go.Balancer.Connected.{
  Tracks, mem_of_Has, refill_buckets-flag, ready-Tracks, new_balancer-Tracks,
}
use agents_go.Balancer.Dialling.{mem-flagged_eq, connect_clients-flag}
use agents_go.Balancer.History.{Event, selects, connects, disconnects, step, run, step-Tracks}
use agents_go.Balancer.Budget.{
  IsBudgeted, connect-SameBudget, connect-last_updated, select-IsBudgeted, connect-IsBudgeted,
  mark-IsBudgeted, rewind-IsBudgeted, refill-IsBudgeted, mark-SameBudget, mark-last_updated,
  new_balancer-IsBudgeted,
}
use agents_go.Balancer.Spec.{
  IsReadied, IsAnswer, IsExhausted, Reaches, stops, answered, dialled, lost,
}
use agents_go.Balancer.Pools.{
  pool, pool_new, action, answers, IsSound, refill_buckets-bucket, up-mem, spent_of_mem,
  pool-rewind, refill_due, refill_early, new_balancer-count, rewind-Tracks, rewind-count,
  mark_disconnected-flag, ready-count, step-count,
}

module _ {T : Type 0} where
  module _ (size : ℕ) (limits : ℕ → ℕ) where
    step-IsBudgeted :
        (e : Event T) (b : Balancer T) → IsBudgeted limits b → IsBudgeted limits (step e b)
    unfolding step
    step-IsBudgeted (selects now) b v = select-IsBudgeted limits now b v
    step-IsBudgeted (connects dial) b v = connect-IsBudgeted limits dial b v
    step-IsBudgeted (disconnects i) b v = mark-IsBudgeted limits i b v

    step-IsSound :
        (e : Event T) (b : Balancer T) → IsSound size limits b → IsSound size limits (step e b)
    step-IsSound e b s = record {
      tracks = step-Tracks e b s.tracks;
      budgeted = step-IsBudgeted e b s.budgeted;
      sized = step-count e b ∙ s.sized;
    }

    rewound : (b : Balancer T) → IsSound size limits b → IsSound size limits (rewind b)
    rewound b s = record {
      tracks = rewind-Tracks b s.tracks;
      budgeted = rewind-IsBudgeted limits b s.budgeted;
      sized = rewind-count b ∙ s.sized;
    }

    readied : (now : ℕ) (b : Balancer T) → IsSound size limits b → IsSound size limits (ready now b)
    readied now b s = record {
      tracks = ready-Tracks now b s.tracks;
      budgeted = refill-IsBudgeted limits now (rewind b) (rewind-IsBudgeted limits b s.budgeted);
      sized = ready-count now b ∙ s.sized;
    }

    refilled-left :
        (b : Balancer T) (p : ℕ)
        → IsSound size limits b
        → p < size
        → (refill_buckets b.connected b.clients p).bucket
          ≡ (if (b.clients p).connected then eff_limit (limits p) else (b.clients p).bucket)
    refilled-left b p s h =
        refill_buckets-bucket b.connected b.clients p
        ∙ ap (λ c. if c then eff_limit (b.clients p).limit_rps else (b.clients p).bucket)
            (up-mem b p s.tracks (omega (arith, s.sized)))
        ∙ ap (λ l. if (b.clients p).connected then eff_limit l else (b.clients p).bucket)
            (s.budgeted.limited p)

    refill-IsReadied :
        (now : ℕ) (b : Balancer T)
        → IsSound size limits b
        → IsReadied size limits now (pool b) (pool (refill now b))
    refill-IsReadied now b s = elim (Bool-cases (leb (b.last_updated + second) now)) [
      | inl due ↦
          subst (λ d. IsReadied size limits now (pool b) (pool d)) (sym (refill_due now b due))
            (
              rw due refl,
              λ p h. (refill_buckets-flag b.connected b.clients p, rw due (refilled-left b p s h)),
            )
      | inr early ↦
          subst (λ d. IsReadied size limits now (pool b) (pool d)) (sym (refill_early now b early))
            (rw early refl, λ p h. (refl, rw early refl))
    ]

    ready-IsReadied :
        (now : ℕ) (b : Balancer T)
        → IsSound size limits b
        → IsReadied size limits now (pool b) (pool (ready now b))
    ready-IsReadied now b s =
        subst (λ v. IsReadied size limits now v (pool (ready now b))) (pool-rewind b)
          (refill-IsReadied now (rewind b) (rewound b s))

    picked-up :
        (b : Balancer T) (q : ℕ)
        → Tracks b
        → Has q b.connected
        → (ltb q b.count && (b.clients q).connected) ≡ true
    picked-up b q t held =
        sym (mem-flagged_eq b.count q b.clients)
        ∙ sym (ap (mem q) t)
        ∙ mem_of_Has q b.connected held

    Outcome-IsAnswer :
        (b : Balancer T) (r : Balancer T × Option ℕ)
        → IsSound size limits b
        → Outcome b r
        → IsAnswer size limits (pool b) r.1 (pool r.0)
    unfolding spend
    Outcome-IsAnswer b r s (nobody spent) = (exhausted, refl)
      where
        exhausted : IsExhausted size limits (pool b)
        exhausted p h = elim (Bool-cases (b.clients p).connected) [
          | inl up ↦ inr (
              spent_of_mem b.clients b.connected p spent
                (up-mem b p s.tracks (omega (arith, s.sized)) ∙ up))
          | inr down ↦ inl down
        ]
    Outcome-IsAnswer b r s (picked q cursor held pos) =
        let up = picked-up b q s.tracks held in
        (
          ground (arith, up, s.sized),
          ground (arith, up),
          pos,
          refl,
          λ p h. (ground arith, ground arith),
        )

    run-Reaches :
        (es : List (Event T)) (b : Balancer T)
        → IsSound size limits b
        → Reaches size limits (pool (run es b)) (pool b) (map action es) (answers es b)
    unfolding run step answers
    run-Reaches [] b s = stops
    run-Reaches (selects now ∷ es) b s =
        answered now (pool b) (pool (ready now b)) (pool (select_client now b).0)
          (select_client now b).1 (map action es) (answers es (select_client now b).0)
          (ready-IsReadied now b s)
          (Outcome-IsAnswer (ready now b) (select_client now b) (readied now b s)
            (select_client-Outcome now b))
          (run-Reaches es (select_client now b).0 (step-IsSound (selects now) b s))
    run-Reaches (connects dial ∷ es) b s =
        dialled (λ p. not (dial p).1) (pool b) (pool (connect_clients dial b)) (map action es)
          (answers es (connect_clients dial b))
          (
            connect-last_updated dial b,
            λ p h. (
              connect_clients-flag dial b p s.tracks (omega (arith, s.sized)),
              (connect-SameBudget dial b p).0,
            ),
          )
          (run-Reaches es (connect_clients dial b) (step-IsSound (connects dial) b s))
    run-Reaches (disconnects i ∷ es) b s =
        lost i (pool b) (pool (mark_disconnected i b)) (map action es)
          (answers es (mark_disconnected i b))
          (
            mark-last_updated i b,
            λ p h. (
              mark_disconnected-flag i p b s.tracks (omega (arith, s.sized)),
              (mark-SameBudget i b p).0,
            ),
          )
          (run-Reaches es (mark_disconnected i b) (step-IsSound (disconnects i) b s))

  -- Refinement: a new balancer behaves as the pool. The events of a history, one by one, lead from the pool in which every
  -- client is down to that of the balancer's records: before each selection every client that is up has the requests of
  -- a new second where a second has passed since the last refill, and only there; a client that is chosen is up then
  -- and pays with one of its requests, nobody is chosen only if no client that is up has a request left; a
  -- `connectClients` adds the clients that it dials, and a `markDisconnected` takes one away. No `connectClients`
  -- overlaps another operation.
  pub new_balancer-Reaches :
      (zero_client : T) (count : ℕ) (limits : ℕ → ℕ) (observations : Option (List (T × Bool)))
      (es : List (Event T))
      → Reaches count limits
          (pool (run es (new_balancer zero_client count limits observations)))
          (record { up = λ p. false; left = limits; filled = 0 })
          (map action es)
          (answers es (new_balancer zero_client count limits observations))
  new_balancer-Reaches z count limits o es =
      subst
        (λ v.
          Reaches count limits (pool (run es (new_balancer z count limits o))) v (map action es)
            (answers es (new_balancer z count limits o)))
        (pool_new z count limits o)
        (run-Reaches count limits es _ (record {
          tracks = new_balancer-Tracks z count limits o;
          budgeted = new_balancer-IsBudgeted z count limits o;
          sized = new_balancer-count z count limits o;
        }))

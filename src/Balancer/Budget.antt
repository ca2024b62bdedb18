-- ===== src/Balancer/Budget.antt =====
-- The buckets of the balancer in commons/balancer/balancer.go, which operation changes them, and the
-- invariant that they stay within the limits.
use agents_go.Prelude.{
  ℕ, zero, suc, ◌+◌, ◌%◌, ◌≡◌, refl, ◌∙◌, ◌≤◌, Bool, Option, List, [], ◌∷◌, arith, leb, Bool-cases,
  inl, inr,
}
use agents_go.Balancer.{
  Balancer, ClientRecord, Dialing, second, eff_limit, new_balancer, connect_one, connect_rounds,
  dialing, dial_clients, publish, connect_clients, mark_disconnected, refill_buckets, refill,
  rewind, spend, select_client,
}
use agents_go.Balancer.Outcome.{Outcome, nobody, picked, ready, select_client-Outcome}
use agents_go.Balancer.History.{Event, selects, connects, disconnects, step, run}

module _ {T : Type 0} where
  -- The buckets and limits of the two are the same.
  abbrev pub SameBudget : (f g : ℕ → ClientRecord T) → Type 0
  SameBudget f g = (p : ℕ) → ((f p).bucket ≡ (g p).bucket) × ((f p).limit_rps ≡ (g p).limit_rps)

  -- `limits` are the dialers' limits, no bucket is above its limit, and the time of the last refill
  -- is a whole second.
  pub record IsBudgeted (limits : ℕ → ℕ) (b : Balancer T) : Type 0 where
    pub capped : (p : ℕ) → (b.clients p).bucket ≤ eff_limit (limits p)
    pub limited : (p : ℕ) → (b.clients p).limit_rps ≡ limits p
    pub aligned : b.last_updated % second ≡ 0

  rounds-SameBudget :
      (dial : ℕ → T × Bool) (n : ℕ) (b : Balancer T)
      → SameBudget (connect_rounds dial n (dialing b)).clients b.clients
  unfolding connect_rounds
  rounds-SameBudget dial zero b p = (refl, refl)
  rounds-SameBudget dial (suc n) b p =
      one dial n p (connect_rounds dial n (dialing b)) (rounds-SameBudget dial n b p)
    where
      one :
          (dial : ℕ → T × Bool) (n p : ℕ) (s : Dialing T)
          → ((s.clients p).bucket ≡ (b.clients p).bucket)
            × ((s.clients p).limit_rps ≡ (b.clients p).limit_rps)
          → ((connect_one dial n s).clients p).bucket ≡ (b.clients p).bucket
            × (((connect_one dial n s).clients p).limit_rps ≡ (b.clients p).limit_rps)
      one dial n p s h = ground arith

  pub connect-SameBudget :
      (dial : ℕ → T × Bool) (b : Balancer T) → SameBudget (connect_clients dial b).clients b.clients
  unfolding connect_clients dial_clients publish
  connect-SameBudget dial b p = ground (arith, rounds-SameBudget dial b.count b p)

  pub connect-last_updated :
      (dial : ℕ → T × Bool) (b : Balancer T)
      → (connect_clients dial b).last_updated ≡ b.last_updated
  unfolding connect_clients dial_clients publish
  connect-last_updated dial b = ground arith

  pub mark-SameBudget :
      (i : ℕ) (b : Balancer T) → SameBudget (mark_disconnected i b).clients b.clients
  unfolding mark_disconnected
  mark-SameBudget i b p = ground arith

  pub mark-last_updated :
      (i : ℕ) (b : Balancer T) → (mark_disconnected i b).last_updated ≡ b.last_updated
  unfolding mark_disconnected
  mark-last_updated i b = ground arith

  refill_buckets-capped :
      (limits : ℕ → ℕ) (ps : List ℕ) (f : ℕ → ClientRecord T) (p : ℕ)
      → ((q : ℕ) → ((f q).bucket ≤ eff_limit (limits q)) × ((f q).limit_rps ≡ limits q))
      → ((refill_buckets ps f p).bucket ≤ eff_limit (limits p))
        × ((refill_buckets ps f p).limit_rps ≡ limits p)
  unfolding refill_buckets
  refill_buckets-capped limits [] f p h = h p
  refill_buckets-capped limits (q ∷ ps) f p h =
      refill_buckets-capped limits ps _ p
        (λ r. (ground (arith, h r, h q), ground (arith, h r, h q)))

  pub rewind-clients : (b : Balancer T) → (rewind b).clients ≡ b.clients
  unfolding rewind
  rewind-clients b = ground arith

  pub rewind-last_updated : (b : Balancer T) → (rewind b).last_updated ≡ b.last_updated
  unfolding rewind
  rewind-last_updated b = ground arith

  pub rewind-IsBudgeted :
      (limits : ℕ → ℕ) (b : Balancer T) → IsBudgeted limits b → IsBudgeted limits (rewind b)
  rewind-IsBudgeted limits b v = record {
    capped = λ p. rw (rewind-clients b) (v.capped p);
    limited = λ p. rw (rewind-clients b) (v.limited p);
    aligned = rw (rewind-last_updated b) v.aligned;
  }

  pub refill-IsBudgeted :
      (limits : ℕ → ℕ) (now : ℕ) (b : Balancer T)
      → IsBudgeted limits b
      → IsBudgeted limits (refill now b)
  unfolding refill
  refill-IsBudgeted limits now b v = elim (Bool-cases (leb (b.last_updated + second) now)) [
    | inl e ↦ rw e (record {
      capped = λ p.
          (refill_buckets-capped limits b.connected b.clients p (λ q. (v.capped q, v.limited q))).0;
      limited = λ p.
          (refill_buckets-capped limits b.connected b.clients p (λ q. (v.capped q, v.limited q))).1;
      aligned = omega arith;
    })
    | inr e ↦ rw e v
  ]

  spend-IsBudgeted :
      (limits : ℕ → ℕ) (b : Balancer T) (p cursor : ℕ)
      → IsBudgeted limits b
      → IsBudgeted limits (record (spend p b) { index = cursor })
  unfolding spend
  spend-IsBudgeted limits b p cursor v = record {
    capped = λ q. ground (arith, v.capped q, v.capped p);
    limited = λ q. ground (arith, v.limited q, v.limited p);
    aligned = v.aligned;
  }

  Outcome-IsBudgeted :
      (limits : ℕ → ℕ) (b : Balancer T) (r : Balancer T × Option ℕ)
      → IsBudgeted limits b
      → Outcome b r
      → IsBudgeted limits r.0
  Outcome-IsBudgeted limits b r v (nobody spent) = v
  Outcome-IsBudgeted limits b r v (picked p cursor held pos) = spend-IsBudgeted limits b p cursor v

  pub select-IsBudgeted :
      (limits : ℕ → ℕ) (now : ℕ) (b : Balancer T)
      → IsBudgeted limits b
      → IsBudgeted limits (select_client now b).0
  select-IsBudgeted limits now b v =
      Outcome-IsBudgeted limits (ready now b) _
        (refill-IsBudgeted limits now (rewind b) (rewind-IsBudgeted limits b v))
        (select_client-Outcome now b)

  pub connect-IsBudgeted :
      (limits : ℕ → ℕ) (dial : ℕ → T × Bool) (b : Balancer T)
      → IsBudgeted limits b
      → IsBudgeted limits (connect_clients dial b)
  connect-IsBudgeted limits dial b v = record {
    capped = λ p. omega (arith, connect-SameBudget dial b p, v.capped p);
    limited = λ p. (connect-SameBudget dial b p).1 ∙ v.limited p;
    aligned = rw (connect-last_updated dial b) v.aligned;
  }

  pub mark-IsBudgeted :
      (limits : ℕ → ℕ) (i : ℕ) (b : Balancer T)
      → IsBudgeted limits b
      → IsBudgeted limits (mark_disconnected i b)
  mark-IsBudgeted limits i b v = record {
    capped = λ p. omega (arith, mark-SameBudget i b p, v.capped p);
    limited = λ p. (mark-SameBudget i b p).1 ∙ v.limited p;
    aligned = rw (mark-last_updated i b) v.aligned;
  }

  pub run-IsBudgeted :
      (limits : ℕ → ℕ) (es : List (Event T)) (b : Balancer T)
      → IsBudgeted limits b
      → IsBudgeted limits (run es b)
  unfolding run step
  run-IsBudgeted limits [] b v = v
  run-IsBudgeted limits (selects now ∷ es) b v =
      run-IsBudgeted limits es _ (select-IsBudgeted limits now b v)
  run-IsBudgeted limits (connects dial ∷ es) b v =
      run-IsBudgeted limits es _ (connect-IsBudgeted limits dial b v)
  run-IsBudgeted limits (disconnects i ∷ es) b v =
      run-IsBudgeted limits es _ (mark-IsBudgeted limits i b v)

  pub new_balancer-IsBudgeted :
      (zero_client : T) (n : ℕ) (limits : ℕ → ℕ) (observations : Option (List (T × Bool)))
      → IsBudgeted limits (new_balancer zero_client n limits observations)
  unfolding new_balancer
  new_balancer-IsBudgeted z n limits o = record {
    capped = λ p. ground arith;
    limited = λ p. refl;
    aligned = refl;
  }

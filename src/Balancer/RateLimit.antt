-- ===== src/Balancer/RateLimit.antt =====
-- The request limit that `selectClient` of commons/balancer/balancer.go enforces by its buckets.
use agents_go.Prelude.{
  ℕ, Bool, ◌+◌, ◌*◌, ◌%◌, ◌≡◌, refl, ◌≤◌, ◌<◌, Option, List, [], ◌∷◌, arith, count, All,
}
use Prim.Native.Nat.{zero-le}
use native.Mathlib.Nat.{le_trans}
use agents_go.Balancer.{
  Balancer, second, eff_limit, new_balancer, connect_clients, mark_disconnected, refill, rewind,
  spend, select_client,
}
use agents_go.Balancer.Outcome.{Outcome, nobody, picked, ready, select_client-Outcome}
use agents_go.Balancer.History.{Event, selects, connects, disconnects, run, chosen, put}
use agents_go.Balancer.Budget.{
  IsBudgeted, connect-SameBudget, connect-last_updated, mark-SameBudget, mark-last_updated,
  rewind-IsBudgeted, refill-IsBudgeted, connect-IsBudgeted, mark-IsBudgeted, run-IsBudgeted,
  new_balancer-IsBudgeted,
}

module _ {T : Type 0} where
  -- The event, if it is a selection, falls into the second number `s` of the clock.
  abbrev pub InSecond : ℕ → Event T → Type 0
  InSecond s (selects now) = (s * second ≤ now) × (now < s * second + second)
  InSecond s (connects dial) = Unit
  InSecond s (disconnects i) = Unit

  -- What a selection takes from the buckets it hands out.
  Outcome-paid :
      (b : Balancer T) (r : Balancer T × Option ℕ) (p : ℕ) (ps : List ℕ)
      → Outcome b r
      → count p (put r.1 ps) + (r.0.clients p).bucket ≡ count p ps + (b.clients p).bucket
  unfolding spend
  Outcome-paid b r p ps (nobody spent) = refl
  Outcome-paid b r p ps (picked q cursor held pos) = ground arith

  Outcome-last_updated :
      (b : Balancer T) (r : Balancer T × Option ℕ) → Outcome b r → r.0.last_updated ≡ b.last_updated
  unfolding spend
  Outcome-last_updated b r (nobody spent) = refl
  Outcome-last_updated b r (picked q cursor held pos) = refl

  -- No second refill in a second that has had one.
  ready_again :
      (s now : ℕ) (b : Balancer T) (p : ℕ)
      → s * second ≤ b.last_updated
      → now < s * second + second
      → ((ready now b).last_updated ≡ b.last_updated)
        × (((ready now b).clients p).bucket ≡ (b.clients p).bucket)
  unfolding refill rewind
  ready_again s now b p h lt = ground arith

  -- After a selection in second `s` the last refill lies in that second, or later.
  ready_once :
      (s now : ℕ) (b : Balancer T)
      → b.last_updated % second ≡ 0
      → s * second ≤ now
      → s * second ≤ (ready now b).last_updated
  unfolding refill rewind
  ready_once s now b e h = ground arith

  -- Once the second's refill is done, the selections of the second take no more than is left.
  chosen_in_bucket :
      (s p : ℕ) (es : List (Event T)) (b : Balancer T)
      → s * second ≤ b.last_updated
      → All (InSecond s) es
      → count p (chosen es b) ≤ (b.clients p).bucket
  unfolding chosen
  chosen_in_bucket s p [] b h a = omega arith
  chosen_in_bucket s p (selects now ∷ es) b h ((lo, hi), a) =
      let done = select_client-Outcome now b in
      omega (
        arith,
        Outcome-paid (ready now b) _ p (chosen es (select_client now b).0) done,
        ready_again s now b p h hi,
        chosen_in_bucket s p es (select_client now b).0
            (omega (arith, Outcome-last_updated (ready now b) _ done, ready_again s now b p h hi))
            a,
      )
  chosen_in_bucket s p (connects dial ∷ es) b h (_, a) = omega (
    arith,
    connect-SameBudget dial b p,
    chosen_in_bucket s p es (connect_clients dial b) (rw (connect-last_updated dial b) h) a,
  )
  chosen_in_bucket s p (disconnects i ∷ es) b h (_, a) = omega (
    arith,
    mark-SameBudget i b p,
    chosen_in_bucket s p es (mark_disconnected i b) (rw (mark-last_updated i b) h) a,
  )

  chosen_in_limit :
      (limits : ℕ → ℕ) (s p : ℕ) (es : List (Event T)) (b : Balancer T)
      → IsBudgeted limits b
      → All (InSecond s) es
      → count p (chosen es b) ≤ eff_limit (limits p)
  unfolding chosen
  chosen_in_limit limits s p [] b v a = zero-le
  chosen_in_limit limits s p (selects now ∷ es) b v ((lo, hi), a) =
      let done = select_client-Outcome now b in
      let v' = refill-IsBudgeted limits now (rewind b) (rewind-IsBudgeted limits b v) in
      le_trans
        (omega (
          arith,
          Outcome-paid (ready now b) _ p (chosen es (select_client now b).0) done,
          chosen_in_bucket s p es (select_client now b).0
              (omega
                (arith, Outcome-last_updated (ready now b) _ done, ready_once s now b v.aligned lo))
              a,
        ))
        (v'.capped p)
  chosen_in_limit limits s p (connects dial ∷ es) b v (_, a) =
      chosen_in_limit limits s p es _ (connect-IsBudgeted limits dial b v) a
  chosen_in_limit limits s p (disconnects i ∷ es) b v (_, a) =
      chosen_in_limit limits s p es _ (mark-IsBudgeted limits i b v) a

  -- The rate limit. After any history `before` of a new balancer, a history all of whose selections
  -- fall into one second of the clock chooses each client at most as often as its limit says
  -- (`math.MaxInt64` times for the limit 0), whatever connects and disconnects in between.
  pub chosen-le-limit :
      (zero_client : T) (n : ℕ) (limits : ℕ → ℕ) (observations : Option (List (T × Bool)))
      (before es : List (Event T)) (s p : ℕ)
      → All (InSecond s) es
      → count p (chosen es (run before (new_balancer zero_client n limits observations)))
        ≤ eff_limit (limits p)
  chosen-le-limit z n limits o before es s p a =
      chosen_in_limit limits s p es _
        (run-IsBudgeted limits before _ (new_balancer-IsBudgeted z n limits o)) a

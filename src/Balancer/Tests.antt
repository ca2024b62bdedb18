-- ===== src/Balancer/Tests.antt =====
-- Concrete balancers, for the code of commons/balancer/balancer.go: two clients with a limit of two
-- requests a second.
use agents_go.Prelude.{
  ℕ, ◌≡◌, ◌≢◌, ◌≤◌, refl, Bool, true, false, Option, none, some, List, [], ◌∷◌, arith, count, map,
  ◌+◌, inl, inr,
}
use agents_go.Balancer.{
  Balancer, new_balancer, select_client, connect_clients, dial_clients, publish, mem, spend, rewind,
  connect_one, connect_rounds, probe, pick, richest, refill, refill_buckets, mark_disconnected,
}
use agents_go.Balancer.Selection.{IsReady, Selects, select_client-Selects}
use agents_go.Balancer.Connected.{Tracks}
use agents_go.Balancer.History.{
  Event, selects, connects, disconnects, run, step, chosen, run_new-Tracks,
}
use agents_go.Balancer.RateLimit.{chosen-le-limit}
use agents_go.Balancer.Race.{overlapped, overlapped_stale}
use agents_go.Balancer.Calls.{waiting, call_wait}
use agents_go.Balancer.Spec.{Reaches}
use agents_go.Balancer.Pools.{pool, action, answers}
use agents_go.Balancer.Refinement.{new_balancer-Reaches}
use agents_go.Balancer.Calls.Progress.{HasReturned, call_wait_serves}
use agents_go.Balancer.Calls.Laws.{call_wait_ends}

abbrev limits : ℕ → ℕ
limits i = 2

abbrev dial : ℕ → ℕ × Bool
dial i = (i + 10, false)

abbrev fresh : Balancer ℕ
fresh = new_balancer 0 2 limits (some [])

abbrev started : Balancer ℕ
started = run (connects dial ∷ []) fresh

started-Tracks : Tracks started
started-Tracks = run_new-Tracks 0 2 limits (some []) (connects dial ∷ [])

-- Three requests to one client in the first second: the third is refused.
abbrev busy : List (Event ℕ)
busy = selects 1 ∷ disconnects 1 ∷ selects 2 ∷ selects 3 ∷ []

chosen-busy : chosen busy started ≡ 0 ∷ 0 ∷ []
unfolding chosen run step new_balancer connect_clients dial_clients publish connect_rounds
    connect_one select_client refill rewind probe pick richest spend mark_disconnected
    refill_buckets
chosen-busy = refl

chosen-le-limit_example : count 0 (chosen busy (run (connects dial ∷ []) fresh)) ≤ 2
chosen-le-limit_example = chosen-le-limit 0 2 limits (some []) (connects dial ∷ []) busy 0 0 (
  (omega arith, omega arith),
  (tt, ((omega arith, omega arith), ((omega arith, omega arith), tt))),
)

select_client-Selects_example :
    (c : Balancer ℕ) × IsReady 1 started c × Selects c (select_client 1 started)
select_client-Selects_example = select_client-Selects 1 started

run_new-Tracks_example : Tracks (run (connects dial ∷ selects 1 ∷ disconnects 0 ∷ []) fresh)
run_new-Tracks_example =
    run_new-Tracks 0 2 limits (some []) (connects dial ∷ selects 1 ∷ disconnects 0 ∷ [])

-- The second client is lost, and the first is lost while the second is dialled again.
abbrev half : Balancer ℕ
half = run (connects dial ∷ disconnects 1 ∷ []) fresh

half-Tracks : Tracks half
half-Tracks = run_new-Tracks 0 2 limits (some []) (connects dial ∷ disconnects 1 ∷ [])

overlapped_stale_example :
    (mem 0 (overlapped dial 0 half).connected ≡ true)
    × (((overlapped dial 0 half).clients 0).connected ≡ false)
    × (connect_clients dial (overlapped dial 0 half) ≡ overlapped dial 0 half)
unfolding run step new_balancer connect_clients dial_clients publish connect_rounds connect_one
    mark_disconnected
overlapped_stale_example =
    overlapped_stale dial dial half 0 half-Tracks (omega arith) refl (λ j. refl)

-- Every operation fails with the client's number, and that is a connection error.
abbrev is_connection_error : Option ℕ → Bool
is_connection_error none = false
is_connection_error (some e) = true

abbrev op : ℕ → Option ℕ
op c = some c

abbrev rounds : List (ℕ × Option ℕ)
rounds = (1, none) ∷ (2, some 99) ∷ []

call_wait_ends_example : (call_wait is_connection_error op rounds fresh).1 ≢ waiting
call_wait_ends_example = call_wait_ends is_connection_error op rounds fresh 2 99 (inr (inl refl))

-- A client that is refused, and served after the refill.
abbrev history : List (Event ℕ)
history =
    connects dial ∷ disconnects 1 ∷ selects 1 ∷ selects 2 ∷ selects 3 ∷ selects 1_000_000_001 ∷ []

answers-history : answers history fresh ≡ some 0 ∷ some 0 ∷ none ∷ some 0 ∷ []
unfolding answers run step new_balancer connect_clients dial_clients publish connect_rounds
    connect_one select_client refill rewind probe pick richest spend mark_disconnected
    refill_buckets
answers-history = refl

new_balancer-Reaches_example :
    Reaches 2 limits
      (pool (run history fresh))
      (record { up = λ p. false; left = limits; filled = 0 })
      (map action history)
      (answers history fresh)
new_balancer-Reaches_example = new_balancer-Reaches 0 2 limits (some []) history

abbrev exhausted : Balancer ℕ
exhausted = run (selects 1 ∷ selects 1 ∷ selects 1 ∷ selects 1 ∷ []) started

call_wait_serves_example :
    HasReturned is_connection_error op
      (call_wait is_connection_error op ((1, none) ∷ (1_000_000_001, none) ∷ []) exhausted)
unfolding run step new_balancer connect_clients dial_clients publish connect_rounds connect_one
    select_client refill rewind probe pick richest spend
call_wait_serves_example =
    call_wait_serves is_connection_error op exhausted 0 1 1_000_000_001 none [] (inl refl)
      (omega arith) (omega arith)

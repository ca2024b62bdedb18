-- ===== src/Balancer/Calls.antt =====
-- commons/balancer/balancer.go: `Call`, `CallW`, `CallEveryUpstream` and `Close`. The operation is a
-- function from the client to its error, and `is_connection_error` is the dialer's test.
pub mod Laws
pub mod Progress
use agents_go.Prelude.{
  ℕ, zero, suc, ◌≡◌, ◌≢◌, ap, sym, refl, ◌∙◌, ◌<◌, Bool, true, false, not, Option, none, some, List,
  [], ◌∷◌, ◌++◌, map, arith, if◌then◌else◌, Bool-cases, Option-cases, inl, inr, Has, ◌⊎◌, ◌==◌,
  append_assoc,
}
use agents_go.Balancer.{
  Balancer, ClientRecord, select_client, mark_disconnected, mem, remove, update,
}
use agents_go.Balancer.Outcome.{Outcome, nobody, picked, ready, select_client-Outcome}
use agents_go.Balancer.Connected.{Tracks, flagged, remove-flagged, select_client-Tracks}
use agents_go.Balancer.Dialling.{mem-flagged_eq}

-- `returned p err`: the operation ran with the client of record `p`, and `err` was returned.
-- `waiting`: the clock readings that were given are used up while `CallW` still waits.
pub data Reply (E : Type 0) : Type 0 where
  no_upstream : Reply E
  returned : ℕ → Option E → Reply E
  context_done : E → Reply E
  waiting : Reply E

module _ {T E : Type 0} (is_connection_error : Option E → Bool) (op : T → Option E) where
  -- What `Call` and `CallW` do with a selected client.
  unfoldable pub call_with : Balancer T → ℕ → Balancer T × Reply E
  call_with b p =
      let err = op (b.clients p).client in
      (if is_connection_error err then mark_disconnected p b else b, returned p err)

  call_selected : Balancer T × Option ℕ → Balancer T × Reply E
  unfolding call_with
  call_selected (b, none) = (b, no_upstream)
  call_selected (b, some p) = call_with b p

  pub call : ℕ → Balancer T → Balancer T × Reply E
  unfolding call_selected
  call now b = call_selected (select_client now b)

  -- A round of `CallW` with what the selection gave; `rest` is what the later rounds give.
  unfoldable pub wait_round :
      Balancer T × Option ℕ → Option E → (Balancer T → Balancer T × Reply E) → Balancer T × Reply E
  unfolding call_with
  wait_round (b, none) none rest = rest b
  wait_round (b, none) (some e) rest = (b, context_done e)
  wait_round (b, some p) ctx_err rest = call_with b p

  -- Each round has its reading of the clock, and what `ctx.Err()` gives after its sleep.
  unfoldable pub call_wait : List (ℕ × Option E) → Balancer T → Balancer T × Reply E
  unfolding wait_round
  call_wait [] b = (b, waiting)
  call_wait ((now, ctx_err) ∷ rounds) b =
      wait_round (select_client now b) ctx_err (call_wait rounds)

module _ {T E : Type 0} (op : T → Option E) where
  -- The first `n` rounds of `CallEveryUpstream`: the records whose client was called, and the error.
  every_rounds : ℕ → (ℕ → ClientRecord T) → List ℕ × Option E
  every_rounds zero f = ([], none)
  every_rounds (suc n) f =
      let (called, err) = every_rounds n f in
      if (f n).connected then (called ++ n ∷ [], op (f n).client) else (called, err)

  pub call_every_upstream : Balancer T → List ℕ × Option E
  unfolding every_rounds
  call_every_upstream b = every_rounds b.count b.clients

module _ {T : Type 0} where
  -- The first `n` rounds of `Close`: the clients that were closed.
  close_rounds : ℕ → (ℕ → ClientRecord T) → List T
  close_rounds zero f = []
  close_rounds (suc n) f =
      let closed = close_rounds n f in
      if (f n).connected then closed ++ (f n).client ∷ [] else closed

  pub close : Balancer T → List T
  unfolding close_rounds
  close b = close_rounds b.count b.clients

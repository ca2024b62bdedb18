-- ===== src/Balancer/History.antt =====
-- Histories of the balancer of commons/balancer/balancer.go: selections, runs of `connectClients`
-- and disconnections in any order, each under the balancer's lock.
use agents_go.Prelude.{ℕ, Option, none, some, List, [], ◌∷◌, Bool}
use agents_go.Balancer.{Balancer, new_balancer, connect_clients, mark_disconnected, select_client}
use agents_go.Balancer.Connected.{
  Tracks, connect_clients-Tracks, mark_disconnected-Tracks, select_client-Tracks,
  new_balancer-Tracks,
}

pub data Event (T : Type 0) : Type 0 where
  selects : ℕ → Event T
  connects : (ℕ → T × Bool) → Event T
  disconnects : ℕ → Event T

abbrev pub put : Option ℕ → List ℕ → List ℕ
put none ps = ps
put (some p) ps = p ∷ ps

module _ {T : Type 0} where
  unfoldable pub step : Event T → Balancer T → Balancer T
  step (selects now) b = (select_client now b).0
  step (connects dial) b = connect_clients dial b
  step (disconnects i) b = mark_disconnected i b

  unfoldable pub run : List (Event T) → Balancer T → Balancer T
  run [] b = b
  run (e ∷ es) b = run es (step e b)

  -- The clients that the selections of a history chose, the first one first.
  unfoldable pub chosen : List (Event T) → Balancer T → List ℕ
  chosen [] b = []
  chosen (selects now ∷ es) b = put (select_client now b).1 (chosen es (select_client now b).0)
  chosen (connects dial ∷ es) b = chosen es (connect_clients dial b)
  chosen (disconnects i ∷ es) b = chosen es (mark_disconnected i b)

  pub step-Tracks : (e : Event T) (b : Balancer T) → Tracks b → Tracks (step e b)
  unfolding step
  step-Tracks (selects now) b t = select_client-Tracks now b t
  step-Tracks (connects dial) b t = connect_clients-Tracks dial b t
  step-Tracks (disconnects i) b t = mark_disconnected-Tracks i b t

  run-Tracks : (es : List (Event T)) (b : Balancer T) → Tracks b → Tracks (run es b)
  unfolding run
  run-Tracks [] b t = t
  run-Tracks (e ∷ es) b t = run-Tracks es (step e b) (step-Tracks e b t)

  -- After any history of a new balancer in which no `connectClients` overlaps another operation, the
  -- list of connected clients holds exactly the clients whose flag is set, each once, in order.
  pub run_new-Tracks :
      (zero_client : T) (count : ℕ) (limits : ℕ → ℕ) (observations : Option (List (T × Bool)))
      (es : List (Event T))
      → Tracks (run es (new_balancer zero_client count limits observations))
  run_new-Tracks z count limits o es = run-Tracks es _ (new_balancer-Tracks z count limits o)

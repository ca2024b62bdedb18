-- ===== src/Balancer.antt =====
-- commons/balancer/balancer.go: `ClientBalancer`, its selection of a client with a request budget,
-- and its connection bookkeeping. A `*clientRecord` is its `idx`, the place in `clients`, which
-- `NewBalancerWLog` gives it and nothing changes; `clients` is the function from `idx` to record.
-- Times are nanoseconds since Go's zero time. The dialer and the operation that a call runs are
-- arguments; the logger is left out, and the mutex makes each operation one step.
pub mod Outcome
pub mod Choice
pub mod Selection
pub mod Connected
pub mod History
pub mod Budget
pub mod RateLimit
pub mod Dialling
pub mod Race
pub mod Starting
pub mod Calls
pub mod Spec
pub mod Pools
pub mod Refinement
pub mod Tests
use agents_go.Prelude.{
  ℕ, zero, suc, ◌+◌, ◌-◌, ◌%◌, ◌^◌, ◌≡◌, Bool, true, false, Option, none, some, List, [], ◌∷◌, ◌++◌,
  ltb, leb, ◌==◌, if◌then◌else◌, length, get_elem?,
}

abbrev pub second : ℕ
second = 1_000_000_000

abbrev pub max_int64 : ℕ
max_int64 = 2 ^ 63 - 1

-- `limit_rps` is what the dialer's `GetLimitRps` answers, a uint32.
pub record ClientRecord (T : Type 0) : Type 0 where
  pub limit_rps : ℕ
  pub connected : Bool
  pub bucket : ℕ
  pub client : T

-- `observations` holds the calls of `OnConnectionStatusChange` so far, the last one first; it is
-- `none` where the balancer has no such callback.
pub record Balancer (T : Type 0) : Type 0 where
  pub count : ℕ
  pub clients : ℕ → ClientRecord T
  pub connected : List ℕ
  pub last_updated : ℕ
  pub index : ℕ
  pub observations : Option (List (T × Bool))

abbrev pub update {ℓ} : {A : Type ℓ} → (ℕ → A) → ℕ → A → ℕ → A
update f i a j = if j == i then a else f j

-- `effLimit`: a limit of 0 means no limit.
abbrev pub eff_limit : ℕ → ℕ
eff_limit limit = if leb limit 0 then max_int64 else limit

-- What `connectClients` keeps while it runs: `newConnected` and the records written so far.
pub record Dialing (T : Type 0) : Type 0 where
  pub clients : ℕ → ClientRecord T
  pub new_connected : List ℕ
  pub observations : Option (List (T × Bool))

abbrev pub remove : ℕ → List ℕ → List ℕ
remove i [] = []
remove i (v ∷ vs) = if v == i then vs else v ∷ remove i vs

abbrev pub mem : ℕ → List ℕ → Bool
mem i [] = false
mem i (v ∷ vs) = if v == i then true else mem i vs

module _ {T : Type 0} where
  -- `NewBalancerWLog`; `zero_client` is the zero value of the client type.
  pub new_balancer : T → ℕ → (ℕ → ℕ) → Option (List (T × Bool)) → Balancer T
  new_balancer zero_client count limits observations = record {
    count = count;
    clients = λ i. record {
      limit_rps = limits i;
      connected = false;
      bucket = limits i;
      client = zero_client;
    };
    connected = [];
    last_updated = 0;
    index = 0;
    observations = observations;
  }

  abbrev pub observe : T → Bool → Option (List (T × Bool)) → Option (List (T × Bool))
  observe client up none = none
  observe client up (some seen) = some ((client, up) ∷ seen)

  -- One round of the loop. `dial` answers the client and whether `Dial` failed; the assignment
  -- stores the client in both cases.
  connect_one : (ℕ → T × Bool) → ℕ → Dialing T → Dialing T
  connect_one dial i s =
      let r = s.clients i in
      if r.connected
      then record s { new_connected = s.new_connected ++ i ∷ [] }
      else if (dial i).1
      then record s { clients = update s.clients i (record r { client = (dial i).0 }) }
      else record {
        clients = update s.clients i (record r { client = (dial i).0; connected = true });
        new_connected = s.new_connected ++ i ∷ [];
        observations = observe (dial i).0 true s.observations;
      }

  -- The first `n` rounds.
  connect_rounds : (ℕ → T × Bool) → ℕ → Dialing T → Dialing T
  unfolding connect_one
  connect_rounds dial zero s = s
  connect_rounds dial (suc n) s = connect_one dial n (connect_rounds dial n s)

  abbrev dialing : Balancer T → Dialing T
  dialing b = record { clients = b.clients; new_connected = []; observations = b.observations }

  -- `connectClients` up to the lock: the records are written, `connected` is not.
  pub dial_clients : (ℕ → T × Bool) → Balancer T → Balancer T × List ℕ
  unfolding connect_rounds
  dial_clients dial b =
      let s = connect_rounds dial b.count (dialing b) in
      (record b { clients = s.clients; observations = s.observations }, s.new_connected)

  -- The assignment under the lock.
  pub publish : List ℕ → Balancer T → Balancer T
  publish new_connected b = record b { connected = new_connected }

  pub connect_clients : (ℕ → T × Bool) → Balancer T → Balancer T
  unfolding dial_clients publish
  connect_clients dial b =
      if b.count == length b.connected
      then b
      else (let (b', new_connected) = dial_clients dial b in publish new_connected b')

  -- `Start`, without the goroutine that runs `connectClients` again and again.
  pub start : ℕ → (ℕ → T × Bool) → Balancer T → Balancer T
  start now dial b = connect_clients dial (record b { last_updated = now - now % second })

  pub mark_disconnected : ℕ → Balancer T → Balancer T
  mark_disconnected i b =
      if mem i b.connected
      then record b {
        connected = remove i b.connected;
        clients = update b.clients i (record (b.clients i) { connected = false });
        observations = observe (b.clients i).client false b.observations;
      }
      else b

  pub refill_buckets : List ℕ → (ℕ → ClientRecord T) → ℕ → ClientRecord T
  refill_buckets [] f = f
  refill_buckets (p ∷ ps) f =
      refill_buckets ps (update f p (record (f p) { bucket = eff_limit (f p).limit_rps }))

  -- `now.Sub(c.lastUpdated) >= 1*time.Second`, and what stands under it.
  pub refill : ℕ → Balancer T → Balancer T
  unfolding refill_buckets
  refill now b =
      if leb (b.last_updated + second) now
      then record b {
        clients = refill_buckets b.connected b.clients;
        last_updated = now - now % second;
      }
      else b

  pub rewind : Balancer T → Balancer T
  rewind b = if leb (length b.connected) b.index then record b { index = 0 } else b

  -- The inner loop: the first client with the largest bucket above `max_val`.
  pub richest : (ℕ → ClientRecord T) → List ℕ → ℕ → Option ℕ → Option ℕ
  richest f [] max_val found = found
  richest f (p ∷ ps) max_val found =
      let better = richest f ps (f p).bucket (some p) in
      let same = richest f ps max_val found in if ltb max_val (f p).bucket then better else same

  -- `client.bucket--`; every use stands behind a test that the bucket is positive.
  pub spend : ℕ → Balancer T → Balancer T
  spend p b = record b {
    clients = update b.clients p (record (b.clients p) { bucket = (b.clients p).bucket - 1 });
  }

  -- One round at `client`; `rest` is what the later rounds give. The first clause is Go's panic on
  -- an index out of range, which does not happen.
  pub pick : ℕ → Option ℕ → Balancer T → Balancer T × Option ℕ → Balancer T × Option ℕ
  unfolding richest spend
  pick i none b rest = (b, none)
  pick i (some p) b rest =
      if ltb 0 (b.clients p).bucket
      then (record (spend p b) { index = (b.index + i + 1) % length b.connected }, some p)
      else elim (richest b.clients b.connected 0 none) [
        | some q ↦ (spend q b, some q)
        | none ↦ rest
      ]

  -- `for i := 0; i < l; i++`, with `k` rounds left.
  probe : ℕ → ℕ → Balancer T → Balancer T × Option ℕ
  unfolding pick
  probe zero i b = (b, none)
  probe (suc k) i b =
      pick i (get_elem? b.connected ((b.index + i) % length b.connected)) b (probe k (suc i) b)

  pub select_client : ℕ → Balancer T → Balancer T × Option ℕ
  unfolding refill rewind probe
  select_client now b = let b' = refill now (rewind b) in probe (length b.connected) 0 b'

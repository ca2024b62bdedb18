-- ===== src/Balancer/Calls/Laws.antt =====
-- What a call through the balancer of commons/balancer/balancer.go leaves behind.
use agents_go.Prelude.{
  ℕ, zero, suc, ◌≡◌, ◌≢◌, ap, sym, refl, subst, ◌∙◌, Bool, true, false, not, Option, none, some,
  List, [], ◌∷◌, ◌++◌, map, arith, Bool-cases, inl, inr, Has,
}
use mathlib.Core.List.{foldl, foldl-append, map-append}
use agents_go.Balancer.{
  Balancer, ClientRecord, select_client, mark_disconnected, mem, remove, spend,
}
use agents_go.Balancer.Outcome.{Outcome, nobody, picked, ready, select_client-Outcome}
use agents_go.Balancer.Connected.{mem_of_Has, Tracks, flagged, remove-flagged, select_client-Tracks}
use agents_go.Balancer.Dialling.{mem-flagged_eq}
use agents_go.Balancer.Calls.{
  Reply, returned, waiting, call_with, call_selected, call, wait_round, call_wait, every_rounds,
  call_every_upstream, close_rounds, close,
}

module _ {T : Type 0} where
  -- A disconnected client is no longer in a list that tracks the flags.
  mem-mark : (b : Balancer T) (i : ℕ) → Tracks b → mem i (mark_disconnected i b).connected ≡ false
  unfolding mark_disconnected
  mem-mark b i t = elim (Bool-cases (mem i b.connected)) [
    | inl e ↦ rw e (
        ap (λ ps. mem i (remove i ps)) t
        ∙ ap (mem i) (remove-flagged b.count i b.clients)
        ∙ mem-flagged_eq b.count i _
        ∙ ground arith)
    | inr e ↦ rw e e
  ]

  close-flagged :
      (n : ℕ) (f : ℕ → ClientRecord T) → close_rounds n f ≡ map (λ p. (f p).client) (flagged n f)
  unfolding close_rounds flagged
  close-flagged zero f = refl
  close-flagged (suc n) f = elim (Bool-cases (f n).connected) [
    | inl up ↦
        rw (up, close-flagged n f) (sym (map-append (λ p. (f p).client) (flagged n f) (n ∷ [])))
    | inr down ↦ rw (down, close-flagged n f)
  ]

  -- Where the list of connected clients tracks the flags, `Close` closes the client of each entry of
  -- the list once, in order, and no other.
  pub close_lem :
      (b : Balancer T) → Tracks b → close b ≡ map (λ p. (b.clients p).client) b.connected
  unfolding close
  close_lem b t = close-flagged b.count b.clients ∙ ap (map (λ p. (b.clients p).client)) (sym t)

module _ {T E : Type 0} (is_connection_error : Option E → Bool) (op : T → Option E) where
  call_with-mem :
      (b : Balancer T) (q p : ℕ) (err : Option E)
      → Tracks b
      → mem q b.connected ≡ true
      → (call_with is_connection_error op b q).1 ≡ returned p err
      → mem p (call_with is_connection_error op b q).0.connected ≡ not (is_connection_error err)
  unfolding call_with
  call_with-mem b q p err t m e =
      let same : q ≡ p = cc in
      let told : op (b.clients q).client ≡ err = cc in
      rw (← same, ← told)
        (elim (Bool-cases (is_connection_error (op (b.clients q).client))) [
          | inl broken ↦ rw broken (mem-mark b q t)
          | inr fine ↦ rw fine m
        ])

  selected-mem :
      (b : Balancer T) (r : Balancer T × Option ℕ) (p : ℕ) (err : Option E)
      → Outcome b r
      → Tracks r.0
      → (call_selected is_connection_error op r).1 ≡ returned p err
      → mem p (call_selected is_connection_error op r).0.connected ≡ not (is_connection_error err)
  unfolding call_selected spend
  selected-mem b r p err (nobody spent) t e = cc
  selected-mem b r p err (picked q cursor held pos) t e =
      call_with-mem _ q p err t (mem_of_Has q b.connected held) e

  -- After a call that ran its operation with client `p` and returned `err`, `p` is connected exactly
  -- if `err` is no connection error. The list of connected clients tracks the flags before the call.
  pub call-mem :
      (now : ℕ) (b : Balancer T) (p : ℕ) (err : Option E)
      → Tracks b
      → (call is_connection_error op now b).1 ≡ returned p err
      → mem p (call is_connection_error op now b).0.connected ≡ not (is_connection_error err)
  unfolding call
  call-mem now b p err t e =
      selected-mem (ready now b) _ p err (select_client-Outcome now b)
        (select_client-Tracks now b t) e

  round-ended :
      (b : Balancer T) (r : Balancer T × Option ℕ) (e : E)
      (rest : Balancer T → Balancer T × Reply E)
      → Outcome b r
      → (wait_round is_connection_error op r (some e) rest).1 ≢ waiting
  unfolding wait_round call_with
  round-ended b r e rest (nobody spent) h = cc
  round-ended b r e rest (picked q cursor held pos) h = cc

  round-waits :
      (b : Balancer T) (r : Balancer T × Option ℕ) (o : Option E)
      (rest : Balancer T → Balancer T × Reply E)
      → Outcome b r
      → ((b' : Balancer T) → (rest b').1 ≢ waiting)
      → (wait_round is_connection_error op r o rest).1 ≢ waiting
  unfolding wait_round call_with
  round-waits b r none rest (nobody spent) later h = later b h
  round-waits b r (some e) rest (nobody spent) later h = cc
  round-waits b r o rest (picked q cursor held pos) later h = cc

  -- `CallW` ends by the first round whose context is done, from any state.
  pub call_wait_ends :
      (rounds : List (ℕ × Option E)) (b : Balancer T) (now : ℕ) (e : E)
      → Has (now, some e) rounds
      → (call_wait is_connection_error op rounds b).1 ≢ waiting
  unfolding call_wait
  call_wait_ends [] b now e h = absurd h
  call_wait_ends ((t, o) ∷ rounds) b now e (inl same) =
      let o-some : some e ≡ o = ap (λ (r : ℕ × Option E). r.1) same in
      subst
        (λ o'.
          (wait_round is_connection_error op (select_client t b) o'
            (call_wait is_connection_error op rounds)).1
          ≢ waiting)
        o-some (round-ended (ready t b) _ e _ (select_client-Outcome t b))
  call_wait_ends ((t, o) ∷ rounds) b now e (inr h) =
      round-waits (ready t b) _ o _ (select_client-Outcome t b)
        (λ b'. call_wait_ends rounds b' now e h)

  round-mem :
      (b : Balancer T) (r : Balancer T × Option ℕ) (o : Option E) (p : ℕ) (err : Option E)
      (rest : Balancer T → Balancer T × Reply E)
      → Outcome b r
      → Tracks r.0
      → ((b' : Balancer T)
          → Tracks b'
          → (rest b').1 ≡ returned p err
          → mem p (rest b').0.connected ≡ not (is_connection_error err))
      → (wait_round is_connection_error op r o rest).1 ≡ returned p err
      → mem p (wait_round is_connection_error op r o rest).0.connected
        ≡ not (is_connection_error err)
  unfolding wait_round spend
  round-mem b r none p err rest (nobody spent) t later e = later b t e
  round-mem b r (some c) p err rest (nobody spent) t later e = cc
  round-mem b r o p err rest (picked q cursor held pos) t later e =
      call_with-mem _ q p err t (mem_of_Has q b.connected held) e

  -- The same for `CallW`, whatever rounds of waiting come before the call.
  pub call_wait-mem :
      (rounds : List (ℕ × Option E)) (b : Balancer T) (p : ℕ) (err : Option E)
      → Tracks b
      → (call_wait is_connection_error op rounds b).1 ≡ returned p err
      → mem p (call_wait is_connection_error op rounds b).0.connected
        ≡ not (is_connection_error err)
  unfolding call_wait
  call_wait-mem [] b p err t e = cc
  call_wait-mem ((now, o) ∷ rounds) b p err t e =
      round-mem (ready now b) _ o p err _ (select_client-Outcome now b)
        (select_client-Tracks now b t) (λ b' t' e'. call_wait-mem rounds b' p err t' e') e

module _ {T E : Type 0} (op : T → Option E) where
  -- The error of the last call in a list of calls, `none` for no call.
  abbrev pub last_error : (ℕ → ClientRecord T) → List ℕ → Option E
  last_error f = foldl (λ _ p. op (f p).client) none

  every-flagged :
      (n : ℕ) (f : ℕ → ClientRecord T)
      → every_rounds op n f ≡ (flagged n f, last_error f (flagged n f))
  unfolding every_rounds flagged
  every-flagged zero f = refl
  every-flagged (suc n) f = elim (Bool-cases (f n).connected) [
    | inl up ↦
        rw (up, every-flagged n f)
          (ap (λ e. (flagged n f ++ n ∷ [], e))
            (sym (foldl-append (λ _ p. op (f p).client) none (flagged n f) (n ∷ []))))
    | inr down ↦ rw (down, every-flagged n f)
  ]

  -- Where the list of connected clients tracks the flags, `CallEveryUpstream` runs the operation with
  -- each of them once, in order, and returns the error of the last one alone.
  pub call_every_upstream_lem :
      (b : Balancer T)
      → Tracks b
      → call_every_upstream op b ≡ (b.connected, last_error b.clients b.connected)
  unfolding call_every_upstream
  call_every_upstream_lem b t = rw t (every-flagged b.count b.clients)

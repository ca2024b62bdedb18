-- ===== src/Balancer/Race.antt =====
-- A disconnection between the two halves of `connectClients` in commons/balancer/balancer.go: the
-- records are written without the lock, and only the list is published under it.
use agents_go.Prelude.{
  ℕ, ◌≡◌, ap, sym, refl, ◌∙◌, ◌<◌, Bool, true, false, ◌&&◌, arith, length, ltb, ◌==◌, ==_iff, ◌≢◌,
  inl, inr, Bool-cases, subst, if◌then◌else◌,
}
use agents_go.Balancer.{Balancer, dial_clients, publish, connect_clients, mark_disconnected, mem}
use agents_go.Balancer.Connected.{Tracks, dial_clients-flagged}
use agents_go.Balancer.Dialling.{mem-flagged_eq, length-flagged, dial_clients-flag}

module _ {T : Type 0} where
  -- `markDisconnected` takes the lock after `connectClients` has gone through the records and before
  -- it assigns the list; a `connectClients` that finds every client connected returns before either.
  pub overlapped : (ℕ → T × Bool) → ℕ → Balancer T → Balancer T
  overlapped dial i b =
      if b.count == length b.connected
      then mark_disconnected i b
      else (let (b', new_connected) = dial_clients dial b in
          publish new_connected (mark_disconnected i b'))

  -- A member of a list that tracks the flags.
  mem-Tracks :
      (b : Balancer T) (i : ℕ)
      → Tracks b
      → mem i b.connected ≡ true
      → (i < b.count) × ((b.clients i).connected ≡ true)
  mem-Tracks b i t m =
      let e : (ltb i b.count && (b.clients i).connected) ≡ true =
        sym (mem-flagged_eq b.count i b.clients) ∙ ap (mem i) (sym t) ∙ m in
      (ground arith, ground arith)

  dial-connected :
      (dial : ℕ → T × Bool) (b : Balancer T) → (dial_clients dial b).0.connected ≡ b.connected
  unfolding dial_clients
  dial-connected dial b = refl

  dial-count : (dial : ℕ → T × Bool) (b : Balancer T) → (dial_clients dial b).0.count ≡ b.count
  unfolding dial_clients
  dial-count dial b = refl

  mem-dialled :
      (dial : ℕ → T × Bool) (b : Balancer T) (i : ℕ)
      → i < b.count
      → (b.clients i).connected ≡ true
      → mem i (dial_clients dial b).1 ≡ true
  mem-dialled dial b i lt up =
      ap (mem i) (dial_clients-flagged dial b)
      ∙ mem-flagged_eq b.count i (dial_clients dial b).0.clients
      ∙ ground (arith, dial_clients-flag dial b i lt)

  length-dialled :
      (dial : ℕ → T × Bool) (b : Balancer T)
      → ((i : ℕ) → (dial i).1 ≡ false)
      → length (dial_clients dial b).1 ≡ b.count
  length-dialled dial b ok =
      ap length (dial_clients-flagged dial b)
      ∙ length-flagged b.count _ (λ i lt. ground (arith, dial_clients-flag dial b i lt, ok i))

  mark-clears :
      (b : Balancer T) (i : ℕ)
      → mem i b.connected ≡ true
      → ((mark_disconnected i b).clients i).connected ≡ false
  unfolding mark_disconnected
  mark-clears b i m = ground arith

  mark-count : (b : Balancer T) (i : ℕ) → (mark_disconnected i b).count ≡ b.count
  unfolding mark_disconnected
  mark-count b i = ground arith

  connect_full :
      (dial : ℕ → T × Bool) (b : Balancer T)
      → length b.connected ≡ b.count
      → connect_clients dial b ≡ b
  unfolding connect_clients
  connect_full dial b e = ground (arith, ==_iff b.count (length b.connected))

  overlapped_running :
      (dial : ℕ → T × Bool) (i : ℕ) (b : Balancer T)
      → length b.connected ≢ b.count
      → overlapped dial i b
        ≡ publish (dial_clients dial b).1 (mark_disconnected i (dial_clients dial b).0)
  unfolding overlapped
  overlapped_running dial i b missing = elim (Bool-cases (b.count == length b.connected)) [
    | inl e ↦ absurd (missing (sym ((==_iff b.count (length b.connected)).0 e)))
    | inr e ↦ rw e refl
  ]

  abbrev Stale : Balancer T → ℕ → (ℕ → T × Bool) → Type 0
  Stale b i later =
      (mem i b.connected ≡ true) × ((b.clients i).connected ≡ false) × (connect_clients later b ≡ b)

  publish-Stale :
      (dial later : ℕ → T × Bool) (b : Balancer T) (i : ℕ)
      → Tracks b
      → mem i b.connected ≡ true
      → ((j : ℕ) → (dial j).1 ≡ false)
      → Stale
          (publish (dial_clients dial b).1 (mark_disconnected i (dial_clients dial b).0))
          i
          later
  unfolding publish
  publish-Stale dial later b i t m ok =
      let (lt, up) = mem-Tracks b i t m in
      let b' = (dial_clients dial b).0 in
      (
        mem-dialled dial b i lt up,
        mark-clears b' i (ap (mem i) (dial-connected dial b) ∙ m),
        connect_full later _ (length-dialled dial b ok ∙ sym (mark-count b' i ∙ dial-count dial b)),
      )

  -- If a client is not connected, so that `connectClients` dials, client `i` is disconnected while it runs, and every
  -- `Dial` succeeds, the published list still holds `i` although its flag is cleared, and no later `connectClients`
  -- changes anything: the client is not dialled again, and it stays among those that are selected.
  pub overlapped_stale :
      (dial later : ℕ → T × Bool) (b : Balancer T) (i : ℕ)
      → Tracks b
      → length b.connected ≢ b.count
      → mem i b.connected ≡ true
      → ((j : ℕ) → (dial j).1 ≡ false)
      → (mem i (overlapped dial i b).connected ≡ true)
        × (((overlapped dial i b).clients i).connected ≡ false)
        × (connect_clients later (overlapped dial i b) ≡ overlapped dial i b)
  overlapped_stale dial later b i t missing m ok =
      subst (λ d. Stale d i later) (sym (overlapped_running dial i b missing))
        (publish-Stale dial later b i t m ok)

-- ===== src/Balancer/Selection.antt =====
-- What `selectClient` in commons/balancer/balancer.go does, with its refill and its cursor.
use agents_go.Prelude.{
  ℕ, ◌+◌, ◌-◌, ◌%◌, ◌≡◌, refl, sym, ap, ◌∙◌, subst, ◌≤◌, ◌<◌, inl, inr, ◌==◌, ==_iff, Bool, true,
  false, ◌&&◌, Option, none, some, List, [], ◌∷◌, leb, ltb, ltb→lt, if◌then◌else◌, Bool-cases,
  arith, length, get_elem?, get_elem?-some, Has, All,
}
use agents_go.Balancer.{
  Balancer, ClientRecord, second, eff_limit, update, mem, refill_buckets, refill, rewind, spend,
  select_client,
}
use agents_go.Balancer.Outcome.{
  AllSpent, AllSpent-of_le, Outcome, nobody, picked, ready, richest_cases, connected-ready,
  select_client-Outcome,
}
use agents_go.Balancer.Choice.{
  pick_in_budget, spent_of_Has, select_client_at, pick-richest, index-ready,
}

length_of_Has : (q : ℕ) (ps : List ℕ) → Has q ps → 0 < length ps
length_of_Has q [] h = absurd h
length_of_Has q (p ∷ ps) h = omega arith

module _ {T : Type 0} where
  -- The state that the choice is made in: the cursor is back at 0 where it was behind the list, and the connected clients
  -- have the requests of a new second where one has passed since the last refill, and only there.
  abbrev pub IsReady : ℕ → Balancer T → Balancer T → Type 0
  IsReady now b c =
      (c.connected ≡ b.connected)
      × (c.count ≡ b.count)
      × (c.observations ≡ b.observations)
      × (c.index ≡ (if leb (length b.connected) b.index then 0 else b.index))
      × (c.last_updated
          ≡ (if leb (b.last_updated + second) now then now - now % second else b.last_updated))
      × ((p : ℕ)
          → c.clients p ≡ (
              if leb (b.last_updated + second) now && mem p b.connected
              then record (b.clients p) { bucket = eff_limit (b.clients p).limit_rps }
              else b.clients p))

  -- `c` with one request of `p` less and the cursor at `i`.
  abbrev pub paid : Balancer T → ℕ → ℕ → Balancer T
  paid c p i = record c {
    clients = update c.clients p (record (c.clients p) { bucket = (c.clients p).bucket - 1 });
    index = i;
  }

  -- Nobody, if no connected client has a request left; the client under the cursor, if it has one, and the cursor moves on,
  -- round the end of the list; else one of those with the most requests, and the cursor stays.
  pub data Selects (c : Balancer T) : Balancer T × Option ℕ → Type 0 where
    none_left : All (λ p. (c.clients p).bucket ≡ 0) c.connected → Selects c (c, none)
    under_cursor :
        (p : ℕ)
        → get_elem? c.connected c.index ≡ some p
        → 0 < (c.clients p).bucket
        → Selects c (paid c p ((c.index + 1) % length c.connected), some p)
    most_left :
        (p q : ℕ)
        → get_elem? c.connected c.index ≡ some p
        → (c.clients p).bucket ≡ 0
        → Has q c.connected
        → 0 < (c.clients q).bucket
        → All (λ r. (c.clients r).bucket ≤ (c.clients q).bucket) c.connected
        → Selects c (paid c q c.index, some q)

  abbrev refilled : Bool → ClientRecord T → ClientRecord T
  refilled again r = if again then record r { bucket = eff_limit r.limit_rps } else r

  refilled_twice :
      (again : Bool) (r : ClientRecord T) → refilled again (refilled true r) ≡ refilled true r
  refilled_twice true r = refl
  refilled_twice false r = refl

  refill_buckets_at :
      (ps : List ℕ) (f : ℕ → ClientRecord T) (p : ℕ)
      → refill_buckets ps f p ≡ refilled (mem p ps) (f p)
  unfolding refill_buckets
  refill_buckets_at [] f p = refl
  refill_buckets_at (q ∷ ps) f p =
      refill_buckets_at ps (update f q (refilled true (f q))) p ∙ elim (Bool-cases (p == q)) [
        | inl e ↦
            let same : p ≡ q = (==_iff p q).0 e in
            let back : (q == p) ≡ true = (==_iff q p).1 (sym same) in
            rw (e, back)
              (refilled_twice (mem p ps) (f q) ∙ ap (λ (k : ℕ). refilled true (f k)) (sym same))
        | inr e ↦ let back : (q == p) ≡ false = ground (arith, e) in rw (e, back) refl
      ]

  ready-IsReady : (now : ℕ) (b : Balancer T) → IsReady now b (ready now b)
  unfolding refill rewind
  ready-IsReady now b = elim (Bool-cases (leb (length b.connected) b.index)) [
    | inl back ↦ elim (Bool-cases (leb (b.last_updated + second) now)) [
      | inl due ↦
          rw (back, due) (refl, refl, refl, refl, refl, refill_buckets_at b.connected b.clients)
      | inr early ↦ rw (back, early) (refl, refl, refl, refl, refl, λ p. refl)
    ]
    | inr inside ↦ elim (Bool-cases (leb (b.last_updated + second) now)) [
      | inl due ↦
          rw (inside, due) (refl, refl, refl, refl, refl, refill_buckets_at b.connected b.clients)
      | inr early ↦ rw (inside, early) (refl, refl, refl, refl, refl, λ p. refl)
    ]
  ]

  AllSpent-Selects :
      (c : Balancer T) (r : Balancer T × Option ℕ)
      → AllSpent c.clients c.connected
      → Outcome c r
      → Selects c r
  AllSpent-Selects c r spent (nobody _) = none_left spent
  AllSpent-Selects c r spent (picked p cursor held pos) =
      absurd (omega (arith, spent_of_Has c.clients c.connected p held spent))

  cursor_inside : (b : Balancer T) → 0 < length b.connected → (rewind b).index < length b.connected
  unfolding rewind
  cursor_inside b some_there = ground arith

  ready-Selects : (now : ℕ) (b : Balancer T) → Selects (ready now b) (select_client now b)
  unfolding spend
  ready-Selects now b =
      let c = ready now b in
      elim (richest_cases c.clients c.connected 0 none) [
        | inl (below, e) ↦
            AllSpent-Selects c (select_client now b) (AllSpent-of_le c.clients c.connected below)
              (select_client-Outcome now b)
        | inr (q, has, above, e, below) ↦
            let held : Has q b.connected = subst (Has q) (connected-ready now b) has in
            let (p, at) =
              get_elem?-some b.connected (rewind b).index
                (cursor_inside b (length_of_Has q b.connected held)) in
            let at_cursor : get_elem? c.connected c.index ≡ some p =
              ap (λ ps. get_elem? ps c.index) (connected-ready now b)
              ∙ ap (get_elem? b.connected) (index-ready now b)
              ∙ at in
            let (rest, same) = select_client_at now b p at in
            elim (Bool-cases (ltb 0 (c.clients p).bucket)) [
              | inl more ↦
                  let pos = ltb→lt 0 (c.clients p).bucket more in
                  subst (Selects c) (sym (same ∙ pick_in_budget c p rest pos))
                    (under_cursor p at_cursor pos)
              | inr less ↦
                  let out : (c.clients p).bucket ≡ 0 = ground (arith, less) in
                  subst (Selects c) (sym (same ∙ pick-richest c p q rest out e))
                    (most_left p q at_cursor out has above below)
            ]
      ]

  -- `selectClient` readies the state, and chooses in it: nobody, if no connected client has a request left; the client
  -- under the cursor, if it has one, and the cursor moves on, round the end of the list; else a connected client with the
  -- most requests, and the cursor stays. The client that is chosen has one request less, and nothing else changes.
  pub select_client-Selects :
      (now : ℕ) (b : Balancer T)
      → (c : Balancer T) × IsReady now b c × Selects c (select_client now b)
  select_client-Selects now b = (ready now b, ready-IsReady now b, ready-Selects now b)

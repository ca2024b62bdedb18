-- ===== src/Balancer/Choice.antt =====
-- Which client `selectClient` in commons/balancer/balancer.go chooses, and when it chooses none.
use agents_go.Prelude.{
  ℕ, zero, suc, ◌+◌, ◌-◌, ◌%◌, ◌≡◌, ap, sym, refl, ◌∙◌, ◌≤◌, ◌<◌, ◌↔◌, inl, inr, Option, none, some,
  List, [], ◌∷◌, arith, length, get_elem?, get_elem?-lt, Has, All, lt→ltb, subst,
}
use mathlib.Core.Path.{ap₂}
use native.Mathlib.Nat.{mod-eq_of_lt, add-zero}
use agents_go.Balancer.{
  Balancer, ClientRecord, richest, spend, pick, probe, select_client, refill, rewind,
}
use agents_go.Balancer.Outcome.{
  AllSpent, Outcome, nobody, picked, ready, select_client-Outcome, richest_cases, connected-ready,
  AllSpent-of_le,
}

module _ {T : Type 0} where
  pub spent_of_Has :
      (f : ℕ → ClientRecord T) (ps : List ℕ) (p : ℕ) → Has p ps → AllSpent f ps → (f p).bucket ≡ 0
  spent_of_Has f [] p h a = absurd h
  spent_of_Has f (x ∷ ps) p (inl e) a = rw e (a.0)
  spent_of_Has f (x ∷ ps) p (inr h) a = spent_of_Has f ps p h a.1

  none-Outcome :
      (b : Balancer T) (r : Balancer T × Option ℕ)
      → Outcome b r
      → (r.1 ≡ none) ↔ AllSpent b.clients b.connected
  none-Outcome b r (nobody spent) = (λ _. spent, λ _. refl)
  none-Outcome b r (picked p cursor held pos) =
      (λ e. cc, λ spent. absurd (omega (arith, spent_of_Has b.clients b.connected p held spent)))

  -- `selectClient` finds nobody exactly when every connected client is out of requests (after the
  -- refill that is due at `now`): one client with a request left is always found.
  pub select_client-none :
      (now : ℕ) (b : Balancer T)
      → ((select_client now b).1 ≡ none) ↔ AllSpent (ready now b).clients b.connected
  select_client-none now b =
      subst (λ ps. ((select_client now b).1 ≡ none) ↔ AllSpent (ready now b).clients ps)
        (connected-ready now b) (none-Outcome (ready now b) _ (select_client-Outcome now b))

  probe_first :
      (b : Balancer T) (k : ℕ)
      → 0 < k
      → probe k 0 b
        ≡ pick 0 (get_elem? b.connected ((b.index + 0) % length b.connected)) b (probe (k - 1) 1 b)
  unfolding probe
  probe_first b zero h = absurd (omega arith)
  probe_first b (suc k) h = rw (suc-sub k)
    where
      suc-sub : (k : ℕ) → suc k - 1 ≡ k
      suc-sub k = omega arith

  probe_at :
      (b : Balancer T) (k p : ℕ)
      → 0 < k
      → get_elem? b.connected b.index ≡ some p
      → probe k 0 b ≡ pick 0 (some p) b (probe (k - 1) 1 b)
  probe_at b k p h e =
      probe_first b k h
      ∙ ap (λ o. pick 0 o b (probe (k - 1) 1 b)) (ap (get_elem? b.connected) at ∙ e)
    where
      at : (b.index + 0) % length b.connected ≡ b.index
      at = rw (add-zero b.index) (mod-eq_of_lt (get_elem?-lt b.connected b.index p e))

  pub index-ready : (now : ℕ) (b : Balancer T) → (ready now b).index ≡ (rewind b).index
  unfolding refill
  index-ready now b = ground arith

  -- The state after the refill and the client under the cursor determine the choice.
  pub select_client_at :
      (now : ℕ) (b : Balancer T) (p : ℕ)
      → get_elem? b.connected (rewind b).index ≡ some p
      → (rest : Balancer T × Option ℕ) × (select_client now b ≡ pick 0 (some p) (ready now b) rest)
  unfolding select_client
  select_client_at now b p e = (
    probe (length b.connected - 1) 1 (ready now b),
    probe_at (ready now b) (length b.connected) p
        (omega (arith, get_elem?-lt b.connected (rewind b).index p e))
        (ap (λ ps. get_elem? ps (ready now b).index) (connected-ready now b)
          ∙ ap (get_elem? b.connected) (index-ready now b)
          ∙ e),
  )

  pub pick_in_budget :
      (b : Balancer T) (p : ℕ) (rest : Balancer T × Option ℕ)
      → 0 < (b.clients p).bucket
      → pick 0 (some p) b rest
        ≡ (record (spend p b) { index = (b.index + 1) % length b.connected }, some p)
  unfolding pick
  pick_in_budget b p rest pos = rw (lt→ltb _ _ pos, add-zero b.index)

  -- Round robin: if the client under the cursor has a request left after the refill, it is the one
  -- chosen, it pays, and the cursor moves to the next connected client, round the end of the list.
  pub select_client_cursor :
      (now : ℕ) (b : Balancer T) (p : ℕ)
      → get_elem? b.connected (rewind b).index ≡ some p
      → 0 < ((ready now b).clients p).bucket
      → select_client now b ≡ (
        record (spend p (ready now b)) { index = ((rewind b).index + 1) % length b.connected },
        some p,
      )
  select_client_cursor now b p e pos =
      let (rest, chosen) = select_client_at now b p e in
      chosen
      ∙ pick_in_budget (ready now b) p rest pos
      ∙ ap₂ (λ (i n : ℕ). (record (spend p (ready now b)) { index = (i + 1) % n }, some p))
          (index-ready now b) (ap length (connected-ready now b))

  pub pick-richest :
      (b : Balancer T) (p q : ℕ) (rest : Balancer T × Option ℕ)
      → (b.clients p).bucket ≡ 0
      → richest b.clients b.connected 0 none ≡ some q
      → pick 0 (some p) b rest ≡ (spend q b, some q)
  unfolding pick
  pick-richest b p q rest out found = rw (out, found)

  pick_out_of_budget :
      (b : Balancer T) (p q : ℕ) (rest : Balancer T × Option ℕ)
      → (b.clients p).bucket ≡ 0
      → ¬ AllSpent b.clients b.connected
      → (pick 0 (some p) b rest).1 ≡ some q
      → All (λ r. (b.clients r).bucket ≤ (b.clients q).bucket) b.connected
        × ((pick 0 (some p) b rest).0.index ≡ b.index)
  unfolding spend
  pick_out_of_budget b p q rest out left e = elim (richest_cases b.clients b.connected 0 none) [
    | inl (below, none_found) ↦ absurd (left (AllSpent-of_le b.clients b.connected below))
    | inr (q', held, above, found, below) ↦
        let chosen = pick-richest b p q' rest out found in
        let same : q' ≡ q = cc (ap (λ (r : Balancer T × Option ℕ). r.1) chosen) in
        (
          subst (λ r. All (λ s. (b.clients s).bucket ≤ (b.clients r).bucket) b.connected) same
              below,
          ap (λ (r : Balancer T × Option ℕ). r.0.index) chosen,
        )
  ]

  not_spent :
      (now : ℕ) (b : Balancer T) (q : ℕ)
      → (select_client now b).1 ≡ some q
      → ¬ AllSpent (ready now b).clients (ready now b).connected
  not_spent now b q e spent =
      let e' : (select_client now b).1 ≡ none =
        (none-Outcome (ready now b) _ (select_client-Outcome now b)).1 spent in
      cc

  -- If the client under the cursor is out of requests after the refill, the one chosen is not the
  -- next in turn that has a request left: no connected client has a fuller bucket, and the cursor
  -- stays.
  pub select_client_richest :
      (now : ℕ) (b : Balancer T) (p q : ℕ)
      → get_elem? b.connected (rewind b).index ≡ some p
      → ((ready now b).clients p).bucket ≡ 0
      → (select_client now b).1 ≡ some q
      → All
          (λ r. ((ready now b).clients r).bucket ≤ ((ready now b).clients q).bucket)
          (ready now b).connected
        × ((select_client now b).0.index ≡ (rewind b).index)
  select_client_richest now b p q e out picks =
      let (rest, chosen) = select_client_at now b p e in
      let (most, stays) =
        pick_out_of_budget (ready now b) p q rest out (not_spent now b q picks)
          (ap (λ (r : Balancer T × Option ℕ). r.1) (sym chosen) ∙ picks) in
      (most, ap (λ (r : Balancer T × Option ℕ). r.0.index) chosen ∙ stays ∙ index-ready now b)

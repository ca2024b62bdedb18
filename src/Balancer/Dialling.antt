-- ===== src/Balancer/Dialling.antt =====
-- What `connectClients` of commons/balancer/balancer.go does to the flags of the records.
use agents_go.Prelude.{
  ℕ, zero, suc, ◌≡◌, ap, refl, ◌∙◌, ◌≤◌, ◌<◌, Bool, true, not, ◌&&◌, ◌||◌, List, [], ◌∷◌, ◌++◌,
  arith, length, length-append, ◌==◌, ltb, if◌then◌else◌, Bool-cases, inl, inr, ==_iff,
}
use agents_go.Balancer.{
  Balancer, ClientRecord, Dialing, dialing, connect_one, connect_rounds, dial_clients, publish,
  connect_clients, mem,
}
use agents_go.Balancer.Connected.{Tracks, flagged}

mem-concat : (i n : ℕ) (xs : List ℕ) → mem i (xs ++ n ∷ []) ≡ (mem i xs || (n == i))
mem-concat i n [] = ground arith
mem-concat i n (x ∷ xs) = ground (arith, mem-concat i n xs)

module _ {T : Type 0} where
  pub mem-flagged_eq :
      (n i : ℕ) (f : ℕ → ClientRecord T) → mem i (flagged n f) ≡ (ltb i n && (f i).connected)
  unfolding flagged
  mem-flagged_eq zero i f = ground arith
  mem-flagged_eq (suc n) i f = ground (arith, mem-flagged_eq n i f, mem-concat i n (flagged n f))

  length-flagged-le : (n : ℕ) (f : ℕ → ClientRecord T) → length (flagged n f) ≤ n
  unfolding flagged
  length-flagged-le zero f = omega arith
  length-flagged-le (suc n) f =
      ground (arith, length-flagged-le n f, length-append (flagged n f) (n ∷ []))

  -- As many entries as clients: every flag is set.
  flagged_full :
      (n i : ℕ) (f : ℕ → ClientRecord T) → n ≡ length (flagged n f) → i < n → (f i).connected ≡ true
  unfolding flagged
  flagged_full zero i f h lt = elim lt [ ]
  flagged_full (suc n) i f h lt =
      ground
        (arith, length-flagged-le n f, length-append (flagged n f) (n ∷ []), flagged_full n i f)

  pub length-flagged :
      (n : ℕ) (f : ℕ → ClientRecord T)
      → ((i : ℕ) → i < n → (f i).connected ≡ true)
      → length (flagged n f) ≡ n
  unfolding flagged
  length-flagged zero f h = refl
  length-flagged (suc n) f h = ground (
    arith,
    h n (omega arith),
    length-flagged n f (λ i lt. h i (omega arith)),
    length-append (flagged n f) (n ∷ []),
  )

  rounds_later :
      (dial : ℕ → T × Bool) (n i : ℕ) (b : Balancer T)
      → n ≤ i
      → (connect_rounds dial n (dialing b)).clients i ≡ b.clients i
  unfolding connect_rounds
  rounds_later dial zero i b h = refl
  rounds_later dial (suc n) i b h =
      one-other (connect_rounds dial n (dialing b)) ∙ rounds_later dial n i b (omega arith)
    where
      one-other : (s : Dialing T) → (connect_one dial n s).clients i ≡ s.clients i
      one-other s = ground arith

  rounds-flag :
      (dial : ℕ → T × Bool) (n i : ℕ) (b : Balancer T)
      → i < n
      → ((connect_rounds dial n (dialing b)).clients i).connected
        ≡ ((b.clients i).connected || not (dial i).1)
  unfolding connect_rounds
  rounds-flag dial zero i b h = elim h [ ]
  rounds-flag dial (suc n) i b h = ground (
    arith,
    one-flag (connect_rounds dial n (dialing b)),
    rounds-flag dial n i b,
    rounds_later dial n i b,
  )
    where
      one-flag :
          (s : Dialing T)
          → ((connect_one dial n s).clients i).connected ≡ (
              if i == n then (s.clients i).connected || not (dial i).1 else (s.clients i).connected)
      one-flag s = ground arith

  -- Where the list of connected clients tracks the flags, `connectClients` leaves a client connected
  -- exactly if it was connected before or its `Dial` succeeds.
  pub connect_clients-flag :
      (dial : ℕ → T × Bool) (b : Balancer T) (i : ℕ)
      → Tracks b
      → i < b.count
      → ((connect_clients dial b).clients i).connected ≡ ((b.clients i).connected || not (dial i).1)
  unfolding connect_clients dial_clients publish
  connect_clients-flag dial b i t lt = elim (Bool-cases (b.count == length b.connected)) [
    | inl e ↦ rw e (rw (flagged_full b.count i b.clients ((==_iff _ _).0 e ∙ ap length t) lt))
    | inr e ↦ rw e (rounds-flag dial b.count i b lt)
  ]

  pub dial_clients-flag :
      (dial : ℕ → T × Bool) (b : Balancer T) (i : ℕ)
      → i < b.count
      → ((dial_clients dial b).0.clients i).connected ≡ ((b.clients i).connected || not (dial i).1)
  unfolding dial_clients
  dial_clients-flag dial b i lt = rounds-flag dial b.count i b lt

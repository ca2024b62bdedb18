-- ===== src/Balancer/Connected.antt =====
-- The list of connected clients against the flags of the records, in commons/balancer/balancer.go.
use agents_go.Prelude.{
  ℕ, zero, suc, ◌≡◌, ap, refl, ◌∙◌, ◌≤◌, ◌<◌, ◌≢◌, Bool, true, false, List, [], ◌∷◌, ◌++◌, arith,
  length, ◌==◌, if◌then◌else◌, Bool-cases, inl, inr, Option, Has,
}
use agents_go.Balancer.{
  Balancer, ClientRecord, Dialing, update, dialing, connect_one, connect_rounds, dial_clients,
  publish, connect_clients, remove, mem, mark_disconnected, new_balancer, refill, rewind,
  refill_buckets, spend, select_client, eff_limit,
}
use agents_go.Balancer.Outcome.{Outcome, nobody, picked, ready, select_client-Outcome}

mem-append : (i : ℕ) (xs ys : List ℕ) → mem i xs ≡ false → mem i (xs ++ ys) ≡ mem i ys
mem-append i [] ys h = refl
mem-append i (x ∷ xs) ys h = ground (arith, mem-append i xs ys)

pub mem_of_Has : (i : ℕ) (ps : List ℕ) → Has i ps → mem i ps ≡ true
mem_of_Has i [] h = absurd h
mem_of_Has i (p ∷ ps) (inl e) = ground arith
mem_of_Has i (p ∷ ps) (inr h) = ground (arith, mem_of_Has i ps h)

remove-append_old :
    (i n : ℕ) (xs : List ℕ) → i ≢ n → remove i (xs ++ n ∷ []) ≡ remove i xs ++ n ∷ []
remove-append_old i n [] h = ground arith
remove-append_old i n (x ∷ xs) h = ground (arith, remove-append_old i n xs h)

remove-append_new : (n : ℕ) (xs : List ℕ) → mem n xs ≡ false → remove n (xs ++ n ∷ []) ≡ xs
remove-append_new n [] h = ground arith
remove-append_new n (x ∷ xs) h = ground (arith, remove-append_new n xs)

remove_absent : (i : ℕ) (xs : List ℕ) → mem i xs ≡ false → remove i xs ≡ xs
remove_absent i [] h = refl
remove_absent i (x ∷ xs) h = ground (arith, remove_absent i xs)

module _ {T : Type 0} where
  -- The places below `n` whose record has its flag set, in order.
  unfoldable pub flagged : ℕ → (ℕ → ClientRecord T) → List ℕ
  flagged zero f = []
  flagged (suc n) f = if (f n).connected then flagged n f ++ n ∷ [] else flagged n f

  -- `connected` lists each client whose flag is set, once and in the order of `clients`, and no other.
  abbrev pub Tracks : Balancer T → Type 0
  Tracks b = b.connected ≡ flagged b.count b.clients

  pub flagged_ext :
      (n : ℕ) (f g : ℕ → ClientRecord T)
      → ((i : ℕ) → i < n → (f i).connected ≡ (g i).connected)
      → flagged n f ≡ flagged n g
  unfolding flagged
  flagged_ext zero f g h = refl
  flagged_ext (suc n) f g h = rw (h n (omega arith), flagged_ext n f g (λ i lt. h i (omega arith)))

  flagged-update :
      (n i : ℕ) (f : ℕ → ClientRecord T) (r : ClientRecord T)
      → n ≤ i
      → flagged n (update f i r) ≡ flagged n f
  flagged-update n i f r h = flagged_ext n _ f (λ j lt. ground arith)

  -- The rounds of `connectClients` collect exactly the flags that they leave behind.
  rounds-flagged :
      (dial : ℕ → T × Bool) (n : ℕ) (b : Balancer T)
      → (connect_rounds dial n (dialing b)).new_connected
        ≡ flagged n (connect_rounds dial n (dialing b)).clients
  unfolding connect_rounds flagged
  rounds-flagged dial zero b = refl
  rounds-flagged dial (suc n) b =
      one-flagged dial n (connect_rounds dial n (dialing b)) (rounds-flagged dial n b)
    where
      one-flagged :
          (dial : ℕ → T × Bool) (n : ℕ) (s : Dialing T)
          → s.new_connected ≡ flagged n s.clients
          → (connect_one dial n s).new_connected ≡ flagged (suc n) (connect_one dial n s).clients
      one-flagged dial n s e = ground (
        arith,
        e,
        flagged-update n n s.clients (record (s.clients n) { client = (dial n).0 }),
        flagged-update n n s.clients
            (record (s.clients n) { client = (dial n).0; connected = true }),
      )

  pub dial_clients-flagged :
      (dial : ℕ → T × Bool) (b : Balancer T)
      → (dial_clients dial b).1 ≡ flagged b.count (dial_clients dial b).0.clients
  unfolding dial_clients
  dial_clients-flagged dial b = rounds-flagged dial b.count b

  pub connect_clients-Tracks :
      (dial : ℕ → T × Bool) (b : Balancer T) → Tracks b → Tracks (connect_clients dial b)
  unfolding connect_clients dial_clients publish
  connect_clients-Tracks dial b t = elim (Bool-cases (b.count == length b.connected)) [
    | inl e ↦ rw e t
    | inr e ↦ rw e (rounds-flagged dial b.count b)
  ]

  mem-flagged : (n i : ℕ) (f : ℕ → ClientRecord T) → n ≤ i → mem i (flagged n f) ≡ false
  unfolding flagged
  mem-flagged zero i f h = refl
  mem-flagged (suc n) i f h = ground (
    arith,
    mem-flagged n i f (omega arith),
    mem-append i (flagged n f) (n ∷ []) (mem-flagged n i f (omega arith)),
  )

  -- Clearing a flag takes the client out of the list.
  pub remove-flagged :
      (n i : ℕ) (f : ℕ → ClientRecord T)
      → remove i (flagged n f) ≡ flagged n (update f i (record (f i) { connected = false }))
  unfolding flagged
  remove-flagged zero i f = refl
  remove-flagged (suc n) i f = ground (
    arith,
    remove-flagged n i f,
    mem-flagged n n f (omega arith),
    remove_absent n (flagged n f) (mem-flagged n n f (omega arith)),
    remove-append_new n (flagged n f) (mem-flagged n n f (omega arith)),
    remove-append_old i n (flagged n f),
    flagged-update n n f (record (f n) { connected = false }),
  )

  pub mark_disconnected-Tracks :
      (i : ℕ) (b : Balancer T) → Tracks b → Tracks (mark_disconnected i b)
  unfolding mark_disconnected
  mark_disconnected-Tracks i b t = elim (Bool-cases (mem i b.connected)) [
    | inl e ↦ rw e (ap (remove i) t ∙ remove-flagged b.count i b.clients)
    | inr e ↦ rw e t
  ]

  flagged_none :
      (n : ℕ) (f : ℕ → ClientRecord T) → ((i : ℕ) → (f i).connected ≡ false) → [] ≡ flagged n f
  unfolding flagged
  flagged_none zero f h = refl
  flagged_none (suc n) f h = rw (h n) (flagged_none n f h)

  pub new_balancer-Tracks :
      (zero_client : T) (count : ℕ) (limits : ℕ → ℕ) (observations : Option (List (T × Bool)))
      → Tracks (new_balancer zero_client count limits observations)
  unfolding new_balancer
  new_balancer-Tracks z count limits o = flagged_none count _ (λ i. refl)

  -- The selection changes no flag.
  pub refill_buckets-flag :
      (ps : List ℕ) (f : ℕ → ClientRecord T) (i : ℕ)
      → (refill_buckets ps f i).connected ≡ (f i).connected
  unfolding refill_buckets
  refill_buckets-flag [] f i = refl
  refill_buckets-flag (p ∷ ps) f i =
      let r : ClientRecord T = record (f p) { bucket = eff_limit (f p).limit_rps } in
      ground (arith, refill_buckets-flag ps (update f p r) i)

  pub ready-Tracks : (now : ℕ) (b : Balancer T) → Tracks b → Tracks (ready now b)
  unfolding refill rewind
  ready-Tracks now b t = ground (
    arith,
    flagged_ext b.count (refill_buckets b.connected b.clients) b.clients
        (λ i _. refill_buckets-flag b.connected b.clients i),
  )

  spend-Tracks :
      (b : Balancer T) (p cursor : ℕ) → Tracks b → Tracks (record (spend p b) { index = cursor })
  unfolding spend
  spend-Tracks b p cursor t = t ∙ flagged_ext b.count b.clients _ (λ i _. ground arith)

  Outcome-Tracks :
      (b : Balancer T) (r : Balancer T × Option ℕ) → Tracks b → Outcome b r → Tracks r.0
  Outcome-Tracks b r t (nobody spent) = t
  Outcome-Tracks b r t (picked p cursor held pos) = spend-Tracks b p cursor t

  pub select_client-Tracks : (now : ℕ) (b : Balancer T) → Tracks b → Tracks (select_client now b).0
  select_client-Tracks now b t =
      Outcome-Tracks (ready now b) _ (ready-Tracks now b t) (select_client-Outcome now b)

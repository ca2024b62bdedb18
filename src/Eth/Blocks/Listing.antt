-- ===== src/Eth/Blocks/Listing.antt =====
-- What `ListBlocks` of agents/eth/server/server.go sends to its stream.
use agents_go.Prelude.{
  ℕ, zero, suc, ◌+◌, ◌-◌, ◌^◌, ◌≡◌, ◌≢◌, ◌≤◌, ◌<◌, refl, ◌⊎◌, inl, inr, true, Option, none, some,
  List, [], ◌∷◌, map, leb, ltb, ◌==◌, if◌then◌else◌, length, arith, Bool-cases, Result, ok, err,
  sym, ap, ◌∙◌, lt→ltb,
}
use agents_go.Conv.Uint256.{BigInt}
use agents_go.Conv.Uint256.Laws.{natural}
use agents_go.Eth.Blocks.{
  asked_number, ListError, out_of_range, end_number, numbers_from, deliver, send_block,
  send_response, send_blocks, run_batch, list_blocks,
}

-- How many blocks a request asks for: 10 if it names no count, or 0.
abbrev pub wanted : Option ℕ → ℕ
wanted none = 10
wanted (some count) = if count == 0 then 10 else count

-- Within uint64, `endNumber` is what it reads as.
end_number_exact :
    (start top : ℕ) (count : Option ℕ)
    → start + wanted count < 2 ^ 64
    → top + 1 < 2 ^ 64
    → (end_number start count top ≤ start + wanted count) × (end_number start count top ≤ top + 1)
unfolding end_number
end_number_exact start top none fits high = (omega arith, omega arith)
end_number_exact start top (some count) fits high = (ground arith, ground arith)

wraps :
    (start top count : ℕ)
    → start < 2 ^ 64
    → 0 < count
    → count < 2 ^ 64
    → 2 ^ 64 ≤ start + count
    → leb (end_number start (some count) top) start ≡ true
unfolding end_number
wraps start top count s64 pos c64 over = ground arith

module _ {E H B : Type 0} (convert_block : H → Result E B) (finality : B → ℕ)
    (stream : B → Option E) where
  -- The blocks are those that the node gives for the numbers from `n` on, without a gap, each
  -- converted and final enough.
  abbrev pub Follows : (ℕ → Result E H) → ℕ → ℕ → List B → Type 0
  Follows fetch min_status n [] = Unit
  Follows fetch min_status n (b ∷ bs) =
      ((h : H) × (fetch n ≡ ok h) × (convert_block h ≡ ok b))
      × (min_status ≤ finality b)
      × Follows fetch min_status (n + 1) bs

  abbrev Sends : (ℕ → Result E H) → ℕ → ℕ → ℕ → ℕ → List B × Option (ListError E) → Type 0
  Sends fetch min_status idx n rounds (sent, e) =
      Follows fetch min_status n sent
      × (length sent ≤ rounds)
      × ((e ≡ none) → (sent ≢ []) ⊎ ((0 < idx) ⊎ (rounds ≡ 0)))

  deliver-Sends :
      (fetch : ℕ → Result E H) (min_status idx n rounds : ℕ) (o : Option E) (b : B)
      (rest : List B × Option (ListError E))
      → ((h : H) × (fetch n ≡ ok h) × (convert_block h ≡ ok b))
      → min_status ≤ finality b
      → Sends fetch min_status (suc idx) (n + 1) rounds rest
      → Sends fetch min_status idx n (suc rounds) (deliver o b rest)
  unfolding deliver
  deliver-Sends fetch min_status idx n rounds (some e) b rest made final later =
      (tt, omega arith, λ h. cc)
  deliver-Sends fetch min_status idx n rounds none b (sent, e) made final (follows, len, ends) =
      ((made, final, follows), omega arith, λ _. inl (λ h. cc))

  block-Sends :
      (fetch : ℕ → Result E H) (min_status idx n rounds : ℕ) (h : H) (r : Result E B)
      (rest : List B × Option (ListError E))
      → fetch n ≡ ok h
      → convert_block h ≡ r
      → Sends fetch min_status (suc idx) (n + 1) rounds rest
      → Sends fetch min_status idx n
          (suc rounds)
          (send_block convert_block finality stream min_status idx r rest)
  unfolding send_block
  block-Sends fetch min_status idx n rounds h (err e) rest got made later =
      (tt, omega arith, λ x. cc)
  block-Sends fetch min_status idx n rounds h (ok b) rest got made later =
      elim (Bool-cases (ltb (finality b) min_status)) [
        | inl low ↦ rw low (tt, omega arith, λ x. inr (inl (ground arith)))
        | inr high ↦ rw high (
            deliver-Sends fetch min_status idx n rounds (stream b) b rest (h, got, made)
              (ground arith) later)
      ]

  response-Sends :
      (fetch : ℕ → Result E H) (min_status idx n rounds : ℕ) (r : Result E H)
      (rest : List B × Option (ListError E))
      → fetch n ≡ r
      → Sends fetch min_status (suc idx) (n + 1) rounds rest
      → Sends fetch min_status idx n
          (suc rounds)
          (send_response convert_block finality stream min_status idx r rest)
  unfolding send_response
  response-Sends fetch min_status idx n rounds (err e) rest got later = (tt, omega arith, λ x. cc)
  response-Sends fetch min_status idx n rounds (ok h) rest got later =
      block-Sends fetch min_status idx n rounds h (convert_block h) rest got refl later

  blocks-Sends :
      (fetch : ℕ → Result E H) (min_status idx n rounds : ℕ)
      → Sends fetch min_status idx n rounds (
          send_blocks convert_block finality stream min_status idx
            (map fetch (numbers_from n rounds)))
  unfolding send_blocks numbers_from
  blocks-Sends fetch min_status idx n zero = (tt, omega arith, λ _. inr (inr refl))
  blocks-Sends fetch min_status idx n (suc rounds) =
      response-Sends fetch min_status idx n rounds (fetch n) _ refl
        (blocks-Sends fetch min_status (suc idx) (n + 1) rounds)

  decided :
      (fetch : ℕ → Result E H) (start min_status k : ℕ) (r : List B × Option (ListError E))
      → 0 < k
      → Sends fetch min_status 0 start k r
      → Follows fetch min_status start r.0 × (length r.0 ≤ k) × ((r.0 ≢ []) ⊎ (r.1 ≢ none))
  decided fetch start min_status k (sent, none) pos (follows, len, ends) = (
    follows,
    len,
    elim (ends refl) [
      | inl some_sent ↦ inl some_sent
      | inr (inl below) ↦ absurd (omega arith)
      | inr (inr none_left) ↦ absurd (omega arith)
    ],
  )
  decided fetch start min_status k (sent, some e) pos (follows, len, ends) =
      (follows, len, inr (λ h. cc))

  batch-Sends :
      (batch : Option E) (fetch : BigInt → Result E H) (start rounds min_status : ℕ)
      → 0 < rounds
      → let r = run_batch convert_block finality stream batch fetch start rounds min_status in
        Follows (λ n. fetch (asked_number n)) min_status start r.0
        × (length r.0 ≤ rounds)
        × ((r.0 ≢ []) ⊎ (r.1 ≢ none))
  unfolding run_batch
  batch-Sends (some e) fetch start rounds min_status pos = (tt, omega arith, inr (λ h. cc))
  batch-Sends none fetch start rounds min_status pos =
      decided (λ n. fetch (asked_number n)) start min_status rounds _ pos
        (blocks-Sends (λ n. fetch (asked_number n)) min_status 0 start rounds)

  result-Sends :
      (batch : Option E) (fetch : BigInt → Result E H) (start top min_status : ℕ) (count : Option ℕ)
      → let r =
          list_blocks convert_block finality stream (ok top) batch fetch start count min_status in
        Follows (λ n. fetch (asked_number n)) min_status start r.0
        × (length r.0 ≤ end_number start count top - start)
        × ((r.0 ≢ []) ⊎ (r.1 ≢ none))
  unfolding list_blocks
  result-Sends batch fetch start top min_status count =
      elim (Bool-cases (leb (end_number start count top) start)) [
        | inl over ↦ rw over (tt, omega arith, inr (λ h. cc))
        | inr within ↦ rw within (
            batch-Sends batch fetch start (end_number start count top - start) min_status
              (ground arith))
      ]

  -- Below 2 ^ 63 the int64 of a number is the number.
  Follows-below :
      (fetch : BigInt → Result E H) (min_status n : ℕ) (sent : List B)
      → n + length sent ≤ 2 ^ 63
      → Follows (λ k. fetch (asked_number k)) min_status n sent
      → Follows (λ k. fetch (natural k)) min_status n sent
  unfolding asked_number
  Follows-below fetch min_status n [] below h = tt
  Follows-below fetch min_status n (b ∷ bs) below ((x, got, made), final, later) =
      let at : asked_number n ≡ natural n = rw (lt→ltb n (2 ^ 63) (omega arith)) refl in
      (
        (x, ap fetch (sym at) ∙ got, made),
        final,
        Follows-below fetch min_status (n + 1) bs (omega arith) later,
      )

  -- `ListBlocks` sends the blocks with the numbers from `start` on without a gap, each as the node
  -- gives it and at least as final as asked, no more than are wanted and none above the highest
  -- block; and it sends a block or returns an error. The wanted end and the highest number fit an
  -- int64, as the node is asked for int64 numbers.
  pub list_blocks_lem :
      (batch : Option E) (fetch : BigInt → Result E H) (start top min_status : ℕ) (count : Option ℕ)
      → start + wanted count < 2 ^ 63
      → top + 1 < 2 ^ 63
      → let r =
          list_blocks convert_block finality stream (ok top) batch fetch start count min_status in
        Follows (λ n. fetch (natural n)) min_status start r.0
        × (length r.0 ≤ wanted count)
        × (length r.0 ≤ top + 1 - start)
        × ((r.0 ≢ []) ⊎ (r.1 ≢ none))
  list_blocks_lem batch fetch start top min_status count fits high =
      let (follows, len, ends) = result-Sends batch fetch start top min_status count in
      let (few, low) = end_number_exact start top count (omega arith) (omega arith) in
      let most : length
            (list_blocks convert_block finality stream (ok top) batch fetch start count
              min_status).0
          ≤ wanted count =
        omega (arith, len, few) in
      (
        Follows-below fetch min_status start _ (omega (arith, most)) follows,
        most,
        omega (arith, len, low),
        ends,
      )

  -- A count so large that the end of the range passes 2 ^ 64 asks for nothing: the sum wraps around
  -- below `start`, and the answer is that there are no more blocks, whatever blocks there are.
  pub list_blocks_wraps :
      (batch : Option E) (fetch : BigInt → Result E H) (start top min_status count : ℕ)
      → start < 2 ^ 64
      → 0 < count
      → count < 2 ^ 64
      → 2 ^ 64 ≤ start + count
      → list_blocks convert_block finality stream (ok top) batch fetch start (some count) min_status
        ≡ ([], some out_of_range)
  unfolding list_blocks end_number
  list_blocks_wraps batch fetch start top min_status count s64 pos c64 over =
      rw (wraps start top count s64 pos c64 over)

-- ===== src/Eth/Construct/Intents.antt =====
-- What `CreateTransfer` of agents/eth/server/construct.go gives to be signed.
use agents_go.Prelude.{
  ℕ, ◌*◌, ◌≡◌, refl, subst, sym, ◌∙◌, ◌⊎◌, inl, inr, true, Option, [], ◌++◌, Text, codes, length,
  take, Bool-cases, Result, ok, err, ◌>>=◌, map_err, >>=-eq-ok, map_err-ok, ok_path, err-ok,
}
use Prim.Native.Nat.{max}
use agents_go.Conv.Hex.{left_pad_bytes}
use agents_go.Conv.Hex.Pads.{set_bytes, left_pad_bytes_lem}
use agents_go.Conv.Uint256.{bytes}
use agents_go.Conv.Uint256.Laws.{set_bytes-bytes}
use agents_go.Currency.{ChainCurrencyId, is_native, is_erc20}
use agents_go.Eth.Construct.{
  Tx, Node, TxLib, TransferRequest, Intent, Failure, invalid_currency, address_from_string,
  parsed_currency, no_nonce, no_gas_price, no_estimate, not_marshalled, token_tx, intent_with,
  erc20_payload, native_tx, erc20_tx, transfer_tx, intent_of, create_transfer,
}

-- go-ethereum's common.LeftPadBytes is documented as the function of the same name in hexconv.
abbrev pub LeftPads : {E : Type 0} → TxLib E → Type 0
LeftPads lib = (s : Text) (l : ℕ) → lib.left_pad s l ≡ left_pad_bytes s l

module _ {E : Type 0} (lib : TxLib E) where
  -- The call data names the method, and then, in words of at least 32 bytes, the receiver and the amount.
  abbrev pub Encodes : Text → Text → ℕ → Type 0
  Encodes payload to_address amount =
      (receiver : Text) × (word : Text) × (payload
        ≡ take 4 (lib.keccak256 (codes "transfer(address,uint256)")) ++ (receiver ++ word))
      × (length receiver ≡ max 32 (length to_address))
      × (set_bytes receiver ≡ set_bytes to_address)
      × (length word ≡ max 32 (length (bytes amount)))
      × (set_bytes word ≡ amount)

  erc20-Encodes :
      (to_address amount : Text)
      → LeftPads lib
      → Encodes (erc20_payload lib to_address amount) to_address (set_bytes amount)
  unfolding erc20_payload
  erc20-Encodes to_address amount pads =
      let (len, same) = left_pad_bytes_lem to_address 32 in
      let (len', same') = left_pad_bytes_lem (bytes (set_bytes amount)) 32 in
      (
        left_pad_bytes to_address 32,
        left_pad_bytes (bytes (set_bytes amount)) 32,
        rw (pads to_address 32, pads (bytes (set_bytes amount)) 32),
        len,
        same,
        len',
        same' ∙ set_bytes-bytes (set_bytes amount),
      )

  -- The intent is that of the transaction: its hash, its binary form and its fee.
  abbrev pub Signs : Tx → Intent → Type 0
  Signs tx intent =
      (intent.id ≡ lib.sign_hash tx)
      × (intent.payload_to_sign ≡ lib.sign_hash tx)
      × (lib.marshal tx ≡ ok intent.raw_data)
      × (set_bytes intent.estimated_fee ≡ tx.gas * tx.gas_price)

  intent_with-Signs :
      (tx : Tx) (raw : Text) → lib.marshal tx ≡ ok raw → Signs tx (intent_with lib tx raw)
  unfolding intent_with
  intent_with-Signs tx raw h = (refl, refl, h, set_bytes-bytes (tx.gas * tx.gas_price))

  intent-ok : (tx : Tx) (intent : Intent) → intent_of lib tx ≡ ok intent → Signs tx intent
  unfolding intent_of
  intent-ok tx intent h =
      let (raw, marshalled, made) =
        >>=-eq-ok (map_err not_marshalled (lib.marshal tx)) (λ raw. ok (intent_with lib tx raw))
          intent h in
      subst (Signs tx) (ok_path made)
        (intent_with-Signs tx raw (map_err-ok not_marshalled (lib.marshal tx) raw marshalled))

module _ {E : Type 0} (lib : TxLib E) (extension : Option (Text → Result E Text)) where
  -- A native transfer of the amount, or a call of the token's `transfer` with it.
  abbrev pub Moves : Tx → ChainCurrencyId → Text → ℕ → Type 0
  Moves tx currency to_address amount =
      ((is_native currency ≡ true) × (tx.to ≡ to_address) × (tx.value ≡ amount) × (tx.payload ≡ []))
      ⊎ ((is_erc20 currency ≡ true)
          × (address_from_string lib extension currency.address ≡ ok tx.to)
          × (tx.value ≡ 0)
          × Encodes lib tx.payload to_address amount)

module _ {E : Type 0} (lib : TxLib E) (node : Node E)
    (extension : Option (Text → Result E Text)) where
  erc20_tx-Moves :
      (nonce gas_price : ℕ) (from_address to_address amount token : Text)
      (currency : ChainCurrencyId) (tx : Tx)
      → LeftPads lib
      → is_erc20 currency ≡ true
      → address_from_string lib extension currency.address ≡ ok token
      → erc20_tx lib node nonce gas_price from_address to_address amount token ≡ ok tx
      → Moves lib extension tx currency to_address (set_bytes amount)
  unfolding erc20_tx
  erc20_tx-Moves nonce gas_price from_address to_address amount token currency tx pads kind found
        h =
      let payload = erc20_payload lib to_address amount in
      let (gas_limit, estimated, made) =
        >>=-eq-ok (map_err no_estimate (node.estimate_gas from_address token payload))
          (λ gas. ok (token_tx nonce gas_price token payload gas)) tx h in
      subst (λ t. Moves lib extension t currency to_address (set_bytes amount)) (ok_path made)
        (unfold token_tx in inr (kind, found, refl, erc20-Encodes lib to_address amount pads))

  transfer_tx-Moves :
      (req : TransferRequest) (nonce gas_price : ℕ) (currency : ChainCurrencyId)
      (to_address from_address : Text) (tx : Tx)
      → LeftPads lib
      → transfer_tx lib node extension req nonce gas_price currency to_address from_address ≡ ok tx
      → Moves lib extension tx currency to_address (set_bytes req.amount)
  unfolding transfer_tx native_tx
  transfer_tx-Moves req nonce gas_price currency to_address from_address tx pads h =
      elim (Bool-cases (is_native currency)) [
        | inl native ↦
            let e : transfer_tx lib node extension req nonce gas_price currency to_address
                  from_address
                ≡ ok (native_tx nonce gas_price to_address req.amount) =
              rw native in
            subst (λ t. Moves lib extension t currency to_address (set_bytes req.amount))
              (ok_path (sym e ∙ h)) (inl (native, refl, refl, refl))
        | inr other ↦ elim (Bool-cases (is_erc20 currency)) [
          | inl kind ↦
              let rest = erc20_tx lib node nonce gas_price from_address to_address req.amount in
              let e : transfer_tx lib node extension req nonce gas_price currency to_address
                    from_address
                  ≡ address_from_string lib extension currency.address >>= rest =
                rw (kind, other) in
              let (token, found, built) =
                >>=-eq-ok (address_from_string lib extension currency.address) rest tx
                  (sym e ∙ h) in
              erc20_tx-Moves nonce gas_price from_address to_address req.amount token currency tx
                pads kind found built
          | inr neither ↦
              let e : transfer_tx lib node extension req nonce gas_price currency to_address
                    from_address
                  ≡ err (invalid_currency req.currency_id) =
                rw (neither, other) in
              absurd (err-ok (sym e ∙ h))
        ]
      ]

  -- If `CreateTransfer` succeeds, then what it gives to be signed, under one hash, and the raw data are those of
  -- one transaction that moves the amount of the request, in the currency that its identifier names, to the
  -- receiver that its address names; and the fee is the product of that transaction's gas and gas price.
  pub create_transfer_lem :
      (req : TransferRequest) (intent : Intent)
      → LeftPads lib
      → create_transfer lib node extension req ≡ ok intent
      → (tx : Tx) × (currency : ChainCurrencyId) × (to_address : Text) × (parsed_currency {E = E}
            req.currency_id
          ≡ ok currency)
        × (address_from_string lib extension req.to ≡ ok to_address)
        × Moves lib extension tx currency to_address (set_bytes req.amount)
        × Signs lib tx intent
  unfolding create_transfer
  create_transfer_lem req intent pads h =
      let signed : ℕ → ℕ → ChainCurrencyId → Text → Text → Result (Failure E) Intent =
        λ n g c to from. transfer_tx lib node extension req n g c to from >>= (intent_of lib) in
      let sent : ℕ → ℕ → ChainCurrencyId → Text → Result (Failure E) Intent =
        λ n g c to. address_from_string lib extension req.from >>= (signed n g c to) in
      let addressed : ℕ → ℕ → ChainCurrencyId → Result (Failure E) Intent =
        λ n g c. address_from_string lib extension req.to >>= (sent n g c) in
      let priced : ℕ → ℕ → Result (Failure E) Intent =
        λ n g. parsed_currency req.currency_id >>= (addressed n g) in
      let numbered : ℕ → Result (Failure E) Intent =
        λ n. map_err no_gas_price node.suggest_gas_price >>= (priced n) in
      let (nonce, got_nonce, h1) =
        >>=-eq-ok (map_err no_nonce (node.pending_nonce_at (lib.hex_to_address req.from))) numbered
          intent h in
      let (gas_price, got_price, h2) =
        >>=-eq-ok (map_err no_gas_price node.suggest_gas_price) (priced nonce) intent h1 in
      let (currency, named, h3) =
        >>=-eq-ok (parsed_currency req.currency_id) (addressed nonce gas_price) intent h2 in
      let (to_address, receiver, h4) =
        >>=-eq-ok (address_from_string lib extension req.to) (sent nonce gas_price currency) intent
          h3 in
      let (from_address, sender, h5) =
        >>=-eq-ok (address_from_string lib extension req.from)
          (signed nonce gas_price currency to_address) intent h4 in
      let (tx, built, h6) =
        >>=-eq-ok
          (transfer_tx lib node extension req nonce gas_price currency to_address from_address)
          (intent_of lib) intent h5 in
      (
        tx,
        currency,
        to_address,
        named,
        receiver,
        transfer_tx-Moves req nonce gas_price currency to_address from_address tx pads built,
        intent-ok lib tx intent h6,
      )

  -- A transfer of the native currency whose two addresses and currency can be read succeeds as soon as the node
  -- answers with a nonce and a gas price, and the transaction can be written; its intent is that of the
  -- transaction with that nonce and gas price.
  pub create_transfer_native :
      (req : TransferRequest) (nonce gas_price : ℕ) (currency : ChainCurrencyId)
      (to_address from_address raw : Text)
      → node.pending_nonce_at (lib.hex_to_address req.from) ≡ ok nonce
      → node.suggest_gas_price ≡ ok gas_price
      → parsed_currency {E = E} req.currency_id ≡ ok currency
      → is_native currency ≡ true
      → address_from_string lib extension req.to ≡ ok to_address
      → address_from_string lib extension req.from ≡ ok from_address
      → lib.marshal (native_tx nonce gas_price to_address req.amount) ≡ ok raw
      → create_transfer lib node extension req
        ≡ ok (intent_with lib (native_tx nonce gas_price to_address req.amount) raw)
  unfolding create_transfer
  create_transfer_native req nonce gas_price currency to_address from_address raw hn hg hc native ht
        hf hm =
      rw (hn, hg, hc, ht, hf) (unfold transfer_tx in rw native (unfold intent_of in rw hm))

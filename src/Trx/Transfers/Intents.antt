-- ===== src/Trx/Transfers/Intents.antt =====
-- The intents that `CreateTransfer` of agents/trx/server.go makes.
use agents_go.Prelude.{
  ℕ, ◌≡◌, refl, ap, ◌⊎◌, inl, inr, Bool, true, false, none, some, [], ◌∷◌, Text, codes, is_empty,
  length, sym, ◌∙◌, subst, ◌+◌, ◌/◌, ◌%◌, ◌^◌, Result, ok, err, ok_path, map_err-ok, if◌then◌else◌,
}
use agents_go.Prelude.Runs.{Run, lift, >>=-eq-ok, call->>=, or_fail->>=, ensure->>}
use agents_go.Conv.Hex.Pads.{set_bytes}
use agents_go.Conv.Uint256.{BigInt, Outcome, panics, returns, from_big_int, above_max, bytes}
use agents_go.Conv.Uint256.Laws.{set_bytes-bytes}
use agents_go.Trx.Fees.Exact.{IsFee, estimate_fee-IsFee}
use agents_go.Currency.{ChainCurrencyId, chain_currency_from_string, is_native, is_erc20}
use agents_go.Cache.{SimpleExpirationCache}
use agents_go.Eth.Construct.{Intent, TransferRequest}
use agents_go.Trx.Fees.{FeePrices, estimate_bandwidth, estimate_fee}
use agents_go.Trx.Api.{
  CreateTransactionResponse, TriggerContractRequest, TriggerConstantContractResponse,
  TriggerSmartContractResponse,
}
use agents_go.Trx.Transfers.{
  TrxApiClient, TrxLib, TransferError, invalid_currency, bad_currency, refused, fee_failed,
  node_failed, bad_address, no_abi, not_packed, create_request, trigger_request, intent_with,
  intent_of, fee_bytes, signing, created, fee_of_transfer, native_transfer, token_transfer,
  transfer_of, create_transfer,
}

module _ {E : Type 0} where
  fee_bytes-ok :
      (o : Outcome) (t : Text)
      → ◌≡◌ {A = Result (TransferError E) Text} (fee_bytes o) (ok t)
      → o ≡ returns (some t)
  unfolding fee_bytes
  fee_bytes-ok panics t h = cc
  fee_bytes-ok (returns none) t h = cc
  fee_bytes-ok (returns (some x)) t h = cc

is_empty-nil : (t : Text) → is_empty t ≡ true → t ≡ []
is_empty-nil [] h = refl
is_empty-nil (c ∷ t) h = cc

-- The number in the bytes of a fee.
from_big_int-abs :
    (v : BigInt) (t : Text) → from_big_int (some v) ≡ returns (some t) → set_bytes t ≡ v.abs
unfolding from_big_int
from_big_int-abs v t h = by_size (above_max v) h
  where
    by_size :
        (large : Bool)
        → (if large then panics else returns (some (bytes v.abs))) ≡ returns (some t)
        → set_bytes t ≡ v.abs
    by_size true h = cc
    by_size false h =
        let same : bytes v.abs ≡ t = cc in ap set_bytes (sym same) ∙ set_bytes-bytes v.abs

module _ {E A : Type 0} (lib : TrxLib E A) where
  -- An intent to sign the transaction `tx_id`, with a fee.
  abbrev pub Signs : Intent → Text → Text → (ℕ → Type 0) → Type 0
  Signs intent tx_id raw_data IsRight =
      (intent.id ≡ lib.hex2bytes tx_id)
      × (intent.payload_to_sign ≡ lib.hex2bytes tx_id)
      × (intent.signature_type ≡ codes "secp256k1")
      × (intent.raw_data ≡ raw_data)
      × IsRight (set_bytes intent.estimated_fee)

  signing-ok :
      (tx_id raw_data : Text) (r : Result (TransferError E) Text) (intent : Intent)
      → signing lib tx_id raw_data r ≡ ok intent
      → (t : Text) × (r ≡ ok t) × (intent_with lib tx_id raw_data t ≡ intent)
  unfolding signing
  signing-ok tx_id raw_data (ok t) intent h = (t, refl, ok_path h)
  signing-ok tx_id raw_data (err e) intent h = cc

  intent_of-Signs :
      (tx_id raw_data : Text) (v : BigInt) (intent : Intent) (IsRight : ℕ → Type 0)
      → IsRight v.abs
      → ◌≡◌ {A = Result (TransferError E) Intent} (intent_of lib tx_id raw_data v) (ok intent)
      → Signs intent tx_id raw_data IsRight
  unfolding intent_of intent_with
  intent_of-Signs tx_id raw_data v intent IsRight right h =
      let (t, made, same) =
        signing-ok tx_id raw_data (fee_bytes (from_big_int (some v))) intent h in
      let number = from_big_int-abs v t (fee_bytes-ok (from_big_int (some v)) t made) in
      subst (λ (x : Intent). Signs x tx_id raw_data IsRight) same
        (refl, refl, refl, refl, subst IsRight (sym number) right)

module _ {E A : Type 0} (lib : TrxLib E A) (asked now : ℕ) (client : TrxApiClient E) where
  fee_of_transfer-ok :
      (bandwidth energy : ℕ) (cache u : SimpleExpirationCache FeePrices) (v : BigInt)
      → fee_of_transfer lib asked now client bandwidth energy cache ≡ (ok v, u)
      → IsFee asked now client.parameters bandwidth energy cache v.abs
  unfolding fee_of_transfer
  fee_of_transfer-ok bandwidth energy cache u v h =
      estimate_fee-IsFee asked now client.parameters bandwidth energy cache v (
        map_err-ok fee_failed (estimate_fee asked now client.parameters bandwidth energy cache).0 v
          (ap (λ p. p.0) h))

  -- A native transfer's intent signs the transaction that the node made of the request.
  abbrev pub IsNativeIntent : TransferRequest → SimpleExpirationCache FeePrices → Intent → Type 0
  IsNativeIntent req cache intent =
      (res : CreateTransactionResponse) × (client.create (record {
        owner_address = req.from;
        to_address = req.to;
        amount = set_bytes req.amount % 2 ^ 64;
        visible = true;
      })
        ≡ ok res)
      × (res.error ≡ [])
      × Signs lib intent res.tx_id res.raw_data (
          IsFee asked now client.parameters
            ((length res.raw_data_hex / 2 + 64 + 67 + 3 + 0) % 2 ^ 64) 0 cache)

  native_transfer-IsNativeIntent :
      (req : TransferRequest) (cache u : SimpleExpirationCache FeePrices) (intent : Intent)
      → native_transfer lib asked now client req cache ≡ (ok intent, u)
      → IsNativeIntent req cache intent
  unfolding native_transfer create_request estimate_bandwidth
  native_transfer-IsNativeIntent req cache u intent h =
      let (res, created, h1) =
        call->>= node_failed (client.create (create_request req)) _ intent cache u h in
      let (fine, h2) = ensure->> (is_empty res.error) (refused res.error) _ intent cache u h1 in
      let (v, cache', priced, h3) =
        >>=-eq-ok
          (fee_of_transfer lib asked now client (estimate_bandwidth (length res.raw_data_hex) 0) 0)
          (λ v. lift (intent_of lib res.tx_id res.raw_data v)) intent cache u h2 in
      let priced' =
        fee_of_transfer-ok (estimate_bandwidth (length res.raw_data_hex) 0) 0 cache cache' v
          priced in
      (
        res,
        created,
        is_empty-nil res.error fine,
        intent_of-Signs lib res.tx_id res.raw_data v intent
            (IsFee asked now client.parameters (estimate_bandwidth (length res.raw_data_hex) 0) 0
              cache)
            priced' (ap (λ p. p.0) h3),
      )

  -- A call of the token's contract, which the sender pays for and which moves no TRX.
  abbrev pub asked_call : TransferRequest → ChainCurrencyId → Text → TriggerContractRequest
  asked_call req cur_id call_data = record {
    owner_address = req.from;
    contract_address = cur_id.address;
    fee_limit = 20_000_000;
    call_value = 0;
    call_data = lib.bytes2hex call_data;
    visible = true;
  }

  -- A token transfer's intent signs the transaction that the node made of the second request, with the fee of the first,
  -- where both are for the call of `transfer` with the receiver and the amount.
  abbrev pub IsTokenIntent :
      TransferRequest → ChainCurrencyId → SimpleExpirationCache FeePrices → Intent → Type 0
  IsTokenIntent req cur_id cache intent =
      (abi : A) × (addr : Text) × (call_data : Text) × (estimated : TriggerConstantContractResponse)
      × (made : TriggerSmartContractResponse) × (lib.get_abi ≡ ok abi)
      × (lib.parse_address req.to ≡ ok addr)
      × (lib.pack abi (codes "transfer") addr (set_bytes req.amount) ≡ ok call_data)
      × (client.trigger_constant (asked_call req cur_id call_data) ≡ ok estimated)
      × (estimated.result.result ≡ true)
      × (client.trigger_smart (asked_call req cur_id call_data) ≡ ok made)
      × (made.result.result ≡ true)
      × Signs lib intent made.transaction.tx_id made.transaction.raw_data (
          IsFee asked now client.parameters
            ((length estimated.raw_data_hex / 2 + 64 + 67 + 3 + 6) % 2 ^ 64) estimated.energy_used
            cache)

  token_transfer-IsTokenIntent :
      (req : TransferRequest) (cur_id : ChainCurrencyId) (cache u : SimpleExpirationCache FeePrices)
      (intent : Intent)
      → token_transfer lib asked now client req cur_id cache ≡ (ok intent, u)
      → IsTokenIntent req cur_id cache intent
  unfolding token_transfer trigger_request estimate_bandwidth
  token_transfer-IsTokenIntent req cur_id cache u intent h =
      let (abi, has_abi, h1) = call->>= no_abi lib.get_abi _ intent cache u h in
      let (addr, parsed, h2) =
        call->>= bad_address (lib.parse_address req.to) _ intent cache u h1 in
      let (call_data, packed, h3) =
        call->>= not_packed (lib.pack abi (codes "transfer") addr (set_bytes req.amount)) _ intent
          cache u h2 in
      let request = trigger_request lib req cur_id call_data in
      let (estimated, asked1, h4) =
        call->>= node_failed (client.trigger_constant request) _ intent cache u h3 in
      let (fine, h5) = ensure->> estimated.result.result _ _ intent cache u h4 in
      let bandwidth = estimate_bandwidth (length estimated.raw_data_hex) 6 in
      let (v, cache', priced, h6) =
        >>=-eq-ok (fee_of_transfer lib asked now client bandwidth estimated.energy_used) _ intent
          cache u h5 in
      let (made, asked2, h7) =
        call->>= node_failed (client.trigger_smart request) _ intent cache' u h6 in
      let (fine', h8) = ensure->> made.result.result _ _ intent cache' u h7 in
      let priced' = fee_of_transfer-ok bandwidth estimated.energy_used cache cache' v priced in
      let tx = made.transaction in
      let signs =
        intent_of-Signs lib tx.tx_id tx.raw_data v intent
          (IsFee asked now client.parameters bandwidth estimated.energy_used cache) priced'
          (ap (λ p. p.0) h8) in
      (
        abi, addr, call_data, estimated, made, has_abi, parsed, packed, asked1, fine, asked2, fine',
        signs,
      )

  -- What `CreateTransfer` promises of the intent, for the two kinds of currency that it knows.
  abbrev pub IsIntentOf :
      TransferRequest → ChainCurrencyId → SimpleExpirationCache FeePrices → Intent → Type 0
  IsIntentOf req cur_id cache intent =
      ((is_native cur_id ≡ true) × IsNativeIntent req cache intent)
      ⊎ ((is_erc20 cur_id ≡ true) × IsTokenIntent req cur_id cache intent)

  chosen :
      (native erc20_token : Bool)
      (a b c : Run (SimpleExpirationCache FeePrices) (TransferError E) Intent)
      (cache : SimpleExpirationCache FeePrices)
      (r : Result (TransferError E) Intent × SimpleExpirationCache FeePrices)
      → (if native then a else if erc20_token then b else c) cache ≡ r
      → ((native ≡ true) × (a cache ≡ r)) ⊎ (((erc20_token ≡ true) × (b cache ≡ r)) ⊎ (c cache ≡ r))
  chosen true t a b c cache r h = inl (refl, h)
  chosen false true a b c cache r h = inr (inl (refl, h))
  chosen false false a b c cache r h = inr (inr h)

  transfer_of-IsIntentOf :
      (req : TransferRequest) (cur_id : ChainCurrencyId) (cache u : SimpleExpirationCache FeePrices)
      (intent : Intent)
      → transfer_of lib asked now client req cur_id cache ≡ (ok intent, u)
      → IsIntentOf req cur_id cache intent
  unfolding transfer_of
  transfer_of-IsIntentOf req cur_id cache u intent h =
      let native = native_transfer lib asked now client req in
      let token = token_transfer lib asked now client req cur_id in
      let neither = lift (err (invalid_currency req.currency_id)) in
      elim (chosen (is_native cur_id) (is_erc20 cur_id) native token neither cache (ok intent, u)
        h) [
          | inl (n, h') ↦ inl (n, native_transfer-IsNativeIntent req cache u intent h')
          | inr (inl (t, h')) ↦ inr (t, token_transfer-IsTokenIntent req cur_id cache u intent h')
          | inr (inr h') ↦ cc
        ]

  -- An intent that `CreateTransfer` gives is to sign the transaction that the node made: for the native currency, of the
  -- receiver and the amount's low 64 bits, with the fee for its size; for a token, of the call of `transfer` that is
  -- packed of the receiver's address and the amount, with the fee for the size and the energy that the node estimates.
  -- Both requests to the node are written out. The fee is that of the current prices, where these are not negative and
  -- an int64 holds the bandwidth and the energy.
  pub create_transfer-IsIntentOf :
      (req : TransferRequest) (cache u : SimpleExpirationCache FeePrices) (intent : Intent)
      → create_transfer lib asked now (some client) req cache ≡ (ok intent, u)
      → (cur_id : ChainCurrencyId) × (chain_currency_from_string req.currency_id ≡ some cur_id)
        × IsIntentOf req cur_id cache intent
  unfolding create_transfer
  create_transfer-IsIntentOf req cache u intent h =
      let (cur_id, parsed, h1) =
        or_fail->>= (bad_currency req.currency_id) (chain_currency_from_string req.currency_id) _
          intent cache u h in
      (cur_id, parsed, transfer_of-IsIntentOf req cur_id cache u intent h1)

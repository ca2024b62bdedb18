-- ===== src/Eth/Transfers/Contents.antt =====
-- What the transfers of a transaction in agents/eth/server/transaction.go hold.
use agents_go.Prelude.{
  ◌-◌, ◌≡◌, refl, sym, ap, ◌∙◌, true, ◌&&◌, Option, none, some, List, [], ◌∷◌, ◌++◌, Text, codes,
  text_eq, text_eq_iff, leb, ltb, if◌then◌else◌, length, length-append, take, take-drop, drop,
  drop-append, arith, ◌⊎◌, inl, inr, Bool-cases,
}
use agents_go.Conv.Hex.Pads.{set_bytes}
use agents_go.Conv.Uint256.{bytes}
use agents_go.Conv.Uint256.Laws.{set_bytes-bytes}
use agents_go.Eth.Transfers.{
  Log, RpcTx, Transfer, EthLib, has_suffix, topic, erc20_transfer, is_erc20_transfer,
  address_to_string, convert_native_transfer, decode_log_as_transfer, convert_erc20_transfer,
  convert,
}

has_suffix-append : (p x : Text) → has_suffix (p ++ x) x ≡ true
has_suffix-append p x =
    let same : length (p ++ x) - length x ≡ length p = omega (arith, length-append p x) in
    let last : drop (length (p ++ x) - length x) (p ++ x) ≡ x =
      ap (λ n. drop n (p ++ x)) same ∙ drop-append p x in
    let equal : text_eq (drop (length (p ++ x) - length x) (p ++ x)) x ≡ true =
      (text_eq_iff _ x).1 last in
    let fits : leb (length x) (length (p ++ x)) ≡ true = ground (arith, length-append p x) in
    rw (fits, equal) refl

has_suffix-true : (s x : Text) → has_suffix s x ≡ true → (p : Text) × (s ≡ p ++ x)
has_suffix-true s x h =
    let same : drop (length s - length x) s ≡ x = (text_eq_iff _ x).0 (ground (arith, h)) in
    (
      take (length s - length x) s,
      sym (take-drop (length s - length x) s) ∙ ap (λ d. take (length s - length x) s ++ d) same,
    )

module _ (lib : EthLib) where
  -- The log has three topics, of which the first is the hash of Transfer(address,address,uint256).
  abbrev pub IsTransferLog : Log → Text → Text → Type 0
  IsTransferLog log t1 t2 =
      (t0 : Text) × (more : List Text) × (prefix : Text) × (log.topics ≡ t0 ∷ t1 ∷ t2 ∷ more)
      × (lib.hash_hex t0
          ≡ prefix ++ codes "ddf252ad1be2c89b69c2b068fc378daa952ba7f163c4a11628f55a4df523b3ef")

  IsTransferLog-true :
      (log : Log) (t1 t2 : Text) → IsTransferLog log t1 t2 → is_erc20_transfer lib log ≡ true
  unfolding is_erc20_transfer
  IsTransferLog-true log t1 t2 (t0, more, prefix, three, first) =
      rw (three, first) (rw (has_suffix-append prefix erc20_transfer) (ground arith))

  true-IsTransferLog :
      (log : Log)
      → is_erc20_transfer lib log ≡ true
      → (t1 : Text) × (t2 : Text) × IsTransferLog log t1 t2
  unfolding is_erc20_transfer
  true-IsTransferLog log h = by_topics log.topics refl h
    where
      by_topics :
          (topics : List Text)
          → log.topics ≡ topics
          → (ltb 2 (length topics) && has_suffix (lib.hash_hex (topic 0 topics)) erc20_transfer)
            ≡ true
          → (t1 : Text) × (t2 : Text) × IsTransferLog log t1 t2
      by_topics [] e h = cc
      by_topics (t0 ∷ []) e h = cc
      by_topics (t0 ∷ t1 ∷ []) e h = cc
      by_topics (t0 ∷ t1 ∷ t2 ∷ more) e h =
          let (prefix, first) =
            has_suffix-true (lib.hash_hex t0) erc20_transfer (ground (arith, h)) in
          (t1, t2, (t0, more, prefix, e, first))

module _ (lib : EthLib) (extension : Option (Text → Text)) where
  -- An address as the chain writes it, by its hook if there is one; the empty text for no address.
  abbrev pub shown : Text → Text
  shown address = elim extension [ some render ↦ render address | none ↦ lib.address_hex address ]

  abbrev pub shown_if : Option Text → Text
  shown_if none = []
  shown_if (some address) = shown address

  abbrev pub native_of : RpcTx → Transfer
  native_of tx = record {
    id = tx.tx_hash ++ 0 ∷ [];
    tx_id = tx.tx_hash;
    op_id = tx.tx_hash ++ 0 ∷ [];
    from = shown_if tx.from;
    to = shown_if tx.to;
    status = 1;
    currency_id = [];
    value = bytes tx.value;
  }

  -- A transfer of the token whose contract wrote the log, between the addresses of the two topics.
  abbrev pub token_of : RpcTx → Log → Text → Text → Transfer
  token_of tx log t1 t2 = record {
    id = tx.tx_hash ++ bytes log.tx_index;
    tx_id = tx.tx_hash;
    op_id = tx.tx_hash ++ bytes log.tx_index;
    from = shown (lib.bytes_to_address t1);
    to = shown (lib.bytes_to_address t2);
    status = 0;
    currency_id = shown log.address;
    value = log.payload;
  }

  -- One transfer for each transfer log, in order, and none for another log.
  abbrev pub AreTokens : RpcTx → List Log → List Transfer → Type 0
  AreTokens tx [] ts = ts ≡ []
  AreTokens tx (log ∷ logs) ts =
      ((t1 : Text) × (t2 : Text) × (rest : List Transfer) × IsTransferLog lib log t1 t2
        × (ts ≡ token_of tx log t1 t2 ∷ rest)
        × AreTokens tx logs rest)
      ⊎ (¬ ((t1 : Text) × (t2 : Text) × IsTransferLog lib log t1 t2) × AreTokens tx logs ts)

  decode-token_of :
      (tx : RpcTx) (log : Log) (t1 t2 : Text)
      → IsTransferLog lib log t1 t2
      → decode_log_as_transfer lib extension tx log ≡ token_of tx log t1 t2
  unfolding decode_log_as_transfer address_to_string
  decode-token_of tx log t1 t2 (t0, more, prefix, three, first) = rw three refl

  convert-AreTokens :
      (tx : RpcTx) (logs : List Log)
      → AreTokens tx logs (convert_erc20_transfer lib extension tx logs)
  unfolding convert_erc20_transfer
  convert-AreTokens tx [] = refl
  convert-AreTokens tx (log ∷ logs) = elim (Bool-cases (is_erc20_transfer lib log)) [
    | inl e ↦
        let (t1, t2, is_transfer) = true-IsTransferLog lib log e in
        let rest = convert_erc20_transfer lib extension tx logs in
        rw e (
          inl (
            t1,
            t2,
            rest,
            is_transfer,
            ap (λ t. t ∷ rest) (decode-token_of tx log t1 t2 is_transfer),
            convert-AreTokens tx logs,
          ))
    | inr e ↦ rw e (
        inr (
          (λ (t1, t2, is_transfer). let yes = IsTransferLog-true lib log t1 t2 is_transfer in cc),
          convert-AreTokens tx logs,
        ))
  ]

  tokens_all :
      (tx : RpcTx) (logs : List Log)
      → (if ltb 0 (length logs) then convert_erc20_transfer lib extension tx logs else [])
        ≡ convert_erc20_transfer lib extension tx logs
  unfolding convert_erc20_transfer
  tokens_all tx [] = refl
  tokens_all tx (log ∷ logs) = ground arith

  address_to_string-shown_if :
      (address : Option Text) → address_to_string lib extension address ≡ shown_if address
  unfolding address_to_string
  address_to_string-shown_if none = refl
  address_to_string-shown_if (some address) = refl

  convert_native_transfer-native_of :
      (tx : RpcTx) → convert_native_transfer lib extension tx ≡ native_of tx
  unfolding convert_native_transfer
  convert_native_transfer-native_of tx =
      rw (address_to_string-shown_if tx.from) (rw (address_to_string-shown_if tx.to) refl)

  -- The transfers of a transaction are that of its native currency, if it moves some, and then one of a token for each of
  -- its ERC-20 transfer logs, in order, with the amount and the contract of the log and the addresses of its second
  -- and third topics; and the amount of the transaction spells the value that it moves.
  pub convert_lem :
      (tx : RpcTx) (logs : List Log)
      → (tokens : List Transfer) × ((convert lib extension tx logs).transfers
          ≡ (if ltb 0 tx.value then native_of tx ∷ [] else []) ++ tokens)
        × AreTokens tx logs tokens
        × (set_bytes (convert lib extension tx logs).amount ≡ tx.value)
  unfolding convert
  convert_lem tx logs = (
    convert_erc20_transfer lib extension tx logs,
    rw (convert_native_transfer-native_of tx) (rw (tokens_all tx logs) refl),
    convert-AreTokens tx logs,
    elim (Bool-cases (ltb 0 tx.value)) [
      | inl e ↦ rw e (set_bytes-bytes tx.value)
      | inr e ↦ rw e (ground (arith, e))
    ],
  )

-- ===== src/Eth/Transfers/Laws.antt =====
-- The transfers that agents/eth/server/transaction.go makes of a transaction and its logs.
use agents_go.Prelude.{ℕ, ◌≡◌, ap, Option, List, [], ◌∷◌, ◌++◌, Text, All, Bool-cases, inl, inr}
use agents_go.Conv.Uint256.{bytes}
use agents_go.Eth.Transfers.{Log, RpcTx, EthLib, is_erc20_transfer, convert_erc20_transfer}

module _ (lib : EthLib) (extension : Option (Text → Text)) where
  -- Every transfer that is made of a log with the index `i` of its transaction has one and the same
  -- identifier, the transaction's hash and the bytes of `i`: two token transfers of a transaction
  -- cannot be told apart by it.
  pub erc20_ids_equal :
      (tx : RpcTx) (i : ℕ) (logs : List Log)
      → All (λ l. l.tx_index ≡ i) logs
      → All (λ t. t.id ≡ tx.tx_hash ++ bytes i) (convert_erc20_transfer lib extension tx logs)
  unfolding convert_erc20_transfer
  erc20_ids_equal tx i [] h = tt
  erc20_ids_equal tx i (log ∷ logs) (here, h) = elim (Bool-cases (is_erc20_transfer lib log)) [
    | inl e ↦ rw e (ap (λ k. tx.tx_hash ++ bytes k) here, erc20_ids_equal tx i logs h)
    | inr e ↦ rw e (erc20_ids_equal tx i logs h)
  ]

-- ===== src/Eth/Tests.antt =====
-- A concrete node, chain and transaction, for the code of agents/eth/server.
use agents_go.Prelude.{
  ℕ, ◌+◌, ◌-◌, ◌^◌, ◌≡◌, ◌≢◌, ◌≤◌, ◌⊎◌, refl, Option, none, some, List, [], ◌∷◌, Text, codes,
  length, ltb, if◌then◌else◌, arith, Result, ok, err,
}
use agents_go.Conv.Hex.Pads.{set_bytes}
use agents_go.Conv.Uint256.{BigInt}
use agents_go.Conv.Uint256.Laws.{natural}
use agents_go.Eth.Transfers.{Log, RpcTx, Transfer, EthLib, erc20_transfer, convert}
use agents_go.Eth.Transfers.Contents.{native_of, AreTokens, convert_lem}
use agents_go.Eth.Blocks.{FinalityStatus, out_of_range, list_blocks}
use agents_go.Eth.Converter.{
  HeaderWithBody, Block, header_of, finality_status_of, eth_block_to_proto, get_block,
}
use agents_go.Eth.Converter.Laws.{eth_block_to_proto_lem}
use agents_go.Eth.Blocks.Listing.{Follows, list_blocks_lem, list_blocks_wraps}

-- Hashes and addresses here are already text.
abbrev lib : EthLib
lib = record { hash_hex = λ h. h; address_hex = λ a. a; bytes_to_address = λ a. a }

abbrev log : ℕ → Log
log i = record {
  address = codes "c";
  topics = erc20_transfer ∷ codes "a" ∷ codes "b" ∷ [];
  payload = 9 ∷ [];
  tx_index = i;
}

abbrev tx : ℕ → RpcTx
tx i = record {
  tx_hash = codes "h";
  value = 300;
  to = some (codes "b");
  tx_type = 2;
  from = some (codes "a");
  block_hash = codes "k";
  transaction_index = i;
}

-- Logs of another event are left out.
abbrev approval : Log
approval = record (log 0) { topics = codes "8c5be1e5" ∷ codes "a" ∷ codes "b" ∷ [] }

convert_lem_example :
    (tokens : List Transfer) × ((convert lib none (tx 0) (log 0 ∷ approval ∷ [])).transfers
      ≡ native_of lib none (tx 0) ∷ tokens)
    × AreTokens lib none (tx 0) (log 0 ∷ approval ∷ []) tokens
    × (set_bytes (convert lib none (tx 0) (log 0 ∷ approval ∷ [])).amount ≡ 300)
convert_lem_example = convert_lem lib none (tx 0) (log 0 ∷ approval ∷ [])

abbrev statuses : FinalityStatus
statuses = record { unsafe = 1; safe = 2; finalized = 3 }

-- Blocks below 7 are there; a block's finality is 3 below 6 and 1 from there on.
abbrev fetch : BigInt → Result ℕ ℕ
fetch n = if n.negative then err 400 else if ltb n.abs 7 then ok n.abs else err 404

abbrev convert_block : ℕ → Result ℕ ℕ
convert_block n = ok (n + 100)

abbrev finality : ℕ → ℕ
finality b = if ltb b 106 then 3 else 1

abbrev stream : ℕ → Option ℕ
stream b = none

list_blocks_lem_example :
    Follows convert_block finality stream
      (λ n. fetch (natural n))
      2
      4
      (list_blocks convert_block finality stream (ok 6) none fetch 4 none 2).0
    × (length (list_blocks convert_block finality stream (ok 6) none fetch 4 none 2).0 ≤ 10)
    × (length (list_blocks convert_block finality stream (ok 6) none fetch 4 none 2).0 ≤ 3)
    × (((list_blocks convert_block finality stream (ok 6) none fetch 4 none 2).0 ≢ [])
        ⊎ ((list_blocks convert_block finality stream (ok 6) none fetch 4 none 2).1 ≢ none))
list_blocks_lem_example =
    list_blocks_lem convert_block finality stream none fetch 4 6 2 none (omega arith) (omega arith)

list_blocks_wraps_example :
    list_blocks convert_block finality stream (ok 6) none fetch 4 (some (2 ^ 64 - 1)) 2
    ≡ ([], some out_of_range)
list_blocks_wraps_example =
    list_blocks_wraps convert_block finality stream none fetch 4 6 2 (2 ^ 64 - 1) (omega arith)
      (omega arith) (omega arith) (omega arith)

abbrev mined : HeaderWithBody
mined = record {
  block_hash = codes "k";
  number = 17;
  parent_hash = codes "j";
  time = 1_699_999_000;
  transactions = tx 0 ∷ tx 1 ∷ [];
}

abbrev filter_logs : Text → Result ℕ (List Log)
filter_logs id = ok (log 1 ∷ log 0 ∷ log 1 ∷ [])

abbrev block_by_hash : Text → Result ℕ HeaderWithBody
block_by_hash id = ok mined

abbrev hook : Option (Block → ℕ)
hook = some (λ b. 2)

eth_block_to_proto_lem_example :
    (eth_block_to_proto lib none hook statuses filter_logs 1_700_000_000 mined
      ≡ ok (record (header_of mined) {
        finality_status = 2;
        transactions =
            convert lib none (tx 0) (log 0 ∷ [])
            ∷ convert lib none (tx 1) (log 1 ∷ log 1 ∷ [])
            ∷ [];
      }))
    × (get_block lib none hook statuses filter_logs block_by_hash 1_700_000_000 (codes "k")
        ≡ ok (record (header_of mined) { finality_status = 2; transactions = [] }))
unfolding finality_status_of
eth_block_to_proto_lem_example =
    eth_block_to_proto_lem lib none hook statuses filter_logs block_by_hash 1_700_000_000
      (codes "k") mined (log 1 ∷ log 0 ∷ log 1 ∷ []) refl refl

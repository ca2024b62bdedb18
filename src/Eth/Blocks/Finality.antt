-- ===== src/Eth/Blocks/Finality.antt =====
-- How final a block is, by its age, in agents/eth/server/block.go.
use agents_go.Prelude.{ℕ, ◌+◌, ◌^◌, ◌≡◌, ◌≤◌, ◌<◌, ◌↔◌, arith}
use agents_go.Eth.Blocks.{FinalityStatus, block_finality_status}

-- With a clock past the first 648 seconds of Unix time, a block is finalized exactly if it is more
-- than 648 seconds old, and unsafe exactly if it is at most 384 seconds old, given that the three
-- status numbers differ.
pub block_finality_status_lem :
    (fs : FinalityStatus) (now timestamp : ℕ)
    → fs.unsafe < fs.safe
    → fs.safe < fs.finalized
    → 648 ≤ now
    → now < 2 ^ 64
    → ((block_finality_status fs now timestamp ≡ fs.finalized) ↔ (timestamp + 648 < now))
      × ((block_finality_status fs now timestamp ≡ fs.unsafe) ↔ (now ≤ timestamp + 384))
unfolding block_finality_status
block_finality_status_lem fs now timestamp us sf lo hi = (ground arith, ground arith)

-- Later in time no block is less final.
pub block_finality_status_mono :
    (fs : FinalityStatus) (now later timestamp : ℕ)
    → fs.unsafe < fs.safe
    → fs.safe < fs.finalized
    → 648 ≤ now
    → now ≤ later
    → later < 2 ^ 64
    → block_finality_status fs now timestamp ≤ block_finality_status fs later timestamp
unfolding block_finality_status
block_finality_status_mono fs now later timestamp us sf lo le hi = ground arith

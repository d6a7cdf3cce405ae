-- ===== src/Api/Latest.antt =====
-- On evm-ingestion/api/server.go, `UpdateLatestBlock`, while other threads store too.
use l1_data_tools.Common.{ℕ, ◌≤◌, ◌≡◌, List, [], ◌∷◌, arith, max}
use l1_data_tools.Api.{update_latest_block}

-- Other threads only ever raise the number.
abbrev pub Rising : ℕ → List ℕ → Type 0
Rising latest [] = Unit
Rising latest (other ∷ others) = (latest ≤ other) × Rising other others

-- The result is at least the number that is stored, and at least what the cell held, where the
-- other threads only raise it.
pub update_latest_block_bounds :
    (others : List ℕ) (n latest : ℕ)
    → Rising latest others
    → (n ≤ update_latest_block others n latest) × (latest ≤ update_latest_block others n latest)
unfolding update_latest_block
update_latest_block_bounds [] n latest h = ground arith
update_latest_block_bounds (other ∷ others) n latest (h, hs) =
    ground (arith, update_latest_block_bounds others n other hs)

-- With no other thread at work it is the larger of the two.
pub update_latest_block_alone : (n latest : ℕ) → update_latest_block [] n latest ≡ max n latest
unfolding update_latest_block
update_latest_block_alone n latest = ground arith

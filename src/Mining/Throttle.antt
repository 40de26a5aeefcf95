-- ===== src/Mining/Throttle.antt =====
-- internal/mining/throttle.go: `BlockThrottle`. The mutex makes each method one step.
pub mod Counts
use monetarium_stratum.Prelude.{ℕ, ◌+◌, ◌%◌, ◌^◌, Bool, true, false, ◌||◌, ◌==◌, leb, if◌then◌else◌}

pub record BlockThrottle : Type 0 where
  pub divisor : ℕ  -- uint32
  pub found_blocks : ℕ  -- uint64
  pub submitted : ℕ  -- uint64
  pub throttled : ℕ  -- uint64

-- `NewBlockThrottle`
unfoldable pub new_block_throttle : ℕ → BlockThrottle
new_block_throttle d = record {
  divisor = if d == 0 then 1 else d;
  found_blocks = 0;
  submitted = 0;
  throttled = 0;
}

-- `Allow`
unfoldable pub allow : BlockThrottle → BlockThrottle × Bool
allow t =
    let found = (t.found_blocks + 1) % 2 ^ 64 in
    if leb t.divisor 1 || (found % t.divisor == 1)
    then (record t { found_blocks = found; submitted = (t.submitted + 1) % 2 ^ 64 }, true)
    else (record t { found_blocks = found; throttled = (t.throttled + 1) % 2 ^ 64 }, false)

-- `Stats`
unfoldable pub stats : BlockThrottle → ℕ × ℕ × ℕ
stats t = (t.found_blocks, t.submitted, t.throttled)

-- ===== src/Miner/Gpu/Sweep.antt =====
-- cmd/gpuminer/miner.go: the search that the GPU host runs, one sweep of the nonces at a time, and
-- the check of what the host reports. The host is a process that sends events in any order.
use mathlib.Core.List.{reverse}
use monetarium_stratum.Prelude.{
  ℕ, ◌+◌, ◌-◌, ◌%◌, ◌^◌, ◌&&◌, List, [], ◌∷◌, ◌++◌, ltb, if◌then◌else◌,
}
use monetarium_stratum.Bytes.Slice.{Bytes, copy_range}
use monetarium_stratum.Bytes.Endian.{le_bytes, le_value}
use monetarium_stratum.Bytes.Hex.{encode}
use monetarium_stratum.Miner.Job.{Job}
use monetarium_stratum.Miner.Gpu.Job.{nonce_offset, extra_nonce2_offset, classify_solution}
use monetarium_stratum.Miner.Search.{Found}

-- What the host reports: nonces checked so far, a finished sweep, or a solution.
pub data HostEvent : Type 0 where
  progress searched : ℕ → HostEvent
  solution : ℕ → ℕ → HostEvent

-- The variables of the loop, the work sent to the host, what was submitted, and what was added to
-- the miner's counters.
pub record Sweep : Type 0 where
  pub extra_nonce2 : ℕ  -- uint64
  pub last_nonces : ℕ  -- uint64
  pub sent : List (Bytes × Bytes)
  pub found : List Found
  pub hashes : ℕ
  pub blocks : ℕ

-- `headerHex`
unfoldable pub header_hex : Job → ℕ → Bytes
header_hex job extra_nonce2 =
    encode (
      copy_range extra_nonce2_offset (extra_nonce2_offset + 8) job.header (le_bytes 8 extra_nonce2))

-- `shareTargetHex`: the target's bytes in little-endian order.
unfoldable pub share_target_hex : Job → Bytes
share_target_hex job = encode (reverse job.share_target_be)

-- The header that `onSolution` hashes.
unfoldable pub solved_header : Job → Bytes → ℕ → Bytes
solved_header job extra_nonce2 nonce =
    copy_range nonce_offset (nonce_offset + 4)
      (copy_range extra_nonce2_offset (extra_nonce2_offset + 8) job.header
        (le_bytes 8 (le_value extra_nonce2)))
      (le_bytes 4 nonce)

-- The work message of a sweep.
unfoldable pub send_sweep : Job → Sweep → Sweep
unfolding header_hex share_target_hex
send_sweep job s = record s {
  sent = s.sent ++ (header_hex job s.extra_nonce2, share_target_hex job) ∷ [];
  last_nonces = 0;
}

-- The hashes that a report adds.
unfoldable pub count_hashes : ℕ → Sweep → Sweep
count_hashes n s = record s {
  hashes = if ltb s.last_nonces n then s.hashes + (n - s.last_nonces) else s.hashes;
}

unfoldable pub next_sweep : Job → Sweep → Sweep
unfolding send_sweep
next_sweep job s = send_sweep job (record s { extra_nonce2 = (s.extra_nonce2 + 1) % 2 ^ 64 })

module _ (blake3 : Bytes → Bytes) (job : Job) where
  -- `onSolution`: the solution is submitted only if its header, hashed again, is a share.
  unfoldable pub on_solution : Bytes → ℕ → Sweep → Sweep
  unfolding solved_header
  on_solution extra_nonce2 nonce s =
      let (is_share, is_block) =
        classify_solution (blake3 (solved_header job extra_nonce2 nonce)) job.share_target_be
          job.block_target_be in
      record s {
        found =
            if is_share
            then s.found ++ record { extra_nonce2 = extra_nonce2; nonce = nonce } ∷ []
            else s.found;
        blocks = if is_share && is_block then s.blocks + 1 else s.blocks;
      }

  -- One event of the inner loop; a finished sweep and a solution go on to the next extra nonce 2.
  unfoldable pub on_event : HostEvent → Sweep → Sweep
  unfolding count_hashes on_solution next_sweep
  on_event (progress n) s = record (count_hashes n s) {
    last_nonces = if ltb s.last_nonces n then n else s.last_nonces;
  }
  on_event (searched n) s = next_sweep job (count_hashes n s)
  on_event (solution n nonce) s =
      next_sweep job (on_solution (le_bytes 8 s.extra_nonce2) nonce (count_hashes n s))

  abbrev pub start_sweep : Sweep
  start_sweep = record {
    extra_nonce2 = 0;
    last_nonces = 0;
    sent = [];
    found = [];
    hashes = 0;
    blocks = 0;
  }

  unfoldable pub run_events : List HostEvent → Sweep → Sweep
  unfolding on_event
  run_events [] s = s
  run_events (e ∷ es) s = run_events es (on_event e s)

  -- `mineJob` of the GPU miner, on the events that come before new work stops it.
  unfoldable pub mine_sweeps : List HostEvent → Sweep
  unfolding run_events send_sweep
  mine_sweeps events = run_events events (send_sweep job start_sweep)

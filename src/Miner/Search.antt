-- ===== src/Miner/Search.antt =====
-- cmd/cpuminer/miner.go, `mineJob`: the search of one thread through nonces and extra nonces.
pub mod Header
pub mod Positions
pub mod Shares
pub mod Complete
use monetarium_stratum.Prelude.{
  ℕ, zero, suc, ◌+◌, ◌%◌, ◌^◌, Bool, true, false, ◌&&◌, List, [], ◌∷◌, ◌++◌, ◌==◌, if◌then◌else◌,
}
use monetarium_stratum.Bytes.Slice.{Bytes, copy_range}
use monetarium_stratum.Bytes.Endian.{le_bytes, le_value}
use monetarium_stratum.Miner.Job.{Job, nonce_offset, extra_nonce2_offset, classify_solution}

-- A solution handed to `onSubmit`: the extra nonce 2 and the nonce.
pub record Found : Type 0 where
  pub extra_nonce2 : Bytes
  pub nonce : ℕ

-- The variables of the loop, what it submitted, and what it added to the miner's counters.
pub record Search : Type 0 where
  pub header : Bytes
  pub extra_nonce2 : Bytes
  pub nonce : ℕ  -- uint32
  pub found : List Found
  pub hashes : ℕ
  pub blocks : ℕ

-- The nonce and extra nonce 2 put into the header.
unfoldable pub place_nonces : Bytes → Bytes → ℕ → Bytes
place_nonces header extra_nonce2 nonce =
    copy_range extra_nonce2_offset (extra_nonce2_offset + 8)
      (copy_range nonce_offset (nonce_offset + 4) header (le_bytes 4 nonce)) extra_nonce2

-- The variables before the loop; `idx` is the number of the thread.
unfoldable pub start_search : Job → ℕ → Search
start_search job idx = record {
  header = job.header;
  extra_nonce2 = le_bytes 8 (idx % 2 ^ 64);
  nonce = 0;
  found = [];
  hashes = 0;
  blocks = 0;
}

-- The next extra nonce 2 of the thread, once the nonces are used up.
unfoldable pub roll : ℕ → ℕ → Bytes → Bytes
roll threads nonce extra_nonce2 =
    if nonce == 0 then le_bytes 8 ((le_value extra_nonce2 + threads) % 2 ^ 64) else extra_nonce2

-- The header that a round hashes.
unfoldable pub hashed_header : Search → Bytes
unfolding place_nonces
hashed_header s = place_nonces s.header s.extra_nonce2 s.nonce

module _ (blake3 : Bytes → Bytes) (threads : ℕ) (job : Job) where
  -- One round of the loop, past its test for new work.
  unfoldable pub search_round : Search → Search
  unfolding hashed_header roll
  search_round s =
      let header = hashed_header s in
      let (is_share, is_block) =
        classify_solution (blake3 header) job.share_target_be job.block_target_be in
      let nonce = (s.nonce + 1) % 2 ^ 32 in
      record {
        header = header;
        extra_nonce2 = roll threads nonce s.extra_nonce2;
        nonce = nonce;
        found =
            if is_share
            then s.found ++ record { extra_nonce2 = s.extra_nonce2; nonce = s.nonce } ∷ []
            else s.found;
        hashes = s.hashes + 1;
        blocks = if is_share && is_block then s.blocks + 1 else s.blocks;
      }

  -- `mineJob` of thread `idx`, where the test for new work stops it before round `rounds`.
  unfoldable pub mine_job : ℕ → ℕ → Search
  mine_job idx zero = start_search job idx
  mine_job idx (suc rounds) = search_round (mine_job idx rounds)

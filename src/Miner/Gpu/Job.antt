-- ===== src/Miner/Gpu/Job.antt =====
-- cmd/gpuminer/miner.go: the GPU miner's own job builder and comparison. Its `Job` is declared with
-- the same fields as that of the CPU miner, and is the same record here.
use mathlib.Core.List.{reverse}
use monetarium_stratum.Prelude.{
  ℕ, zero, suc, ◌+◌, ◌-◌, ◌^◌, Bool, true, false, Option, none, some, ◌==◌, ltb, if◌then◌else◌,
  length, replicate, Result, ok, ◌>>=◌, ◌>>◌, guard, or_fail, ℤ, nat_abs, Ordering,
}
use monetarium_stratum.Bytes.Slice.{Bytes, slice, copy_at}
use monetarium_stratum.Bytes.Endian.{le_bytes, le_value}
use monetarium_stratum.Bytes.Hex.{decode}
use monetarium_stratum.Mining.Chain.{Chain}
use monetarium_stratum.Miner.Job.{
  Job, BuildError, invalid_version, invalid_prevhash, invalid_gen_tx1, invalid_nbits, invalid_ntime,
  invalid_extra_nonce1, fill_bytes_panic, byte_at, is_gt,
}

abbrev pub header_len : ℕ
header_len = 180

abbrev pub version_offset : ℕ
version_offset = 0

abbrev pub prev_block_offset : ℕ
prev_block_offset = 4

abbrev pub partial_header_offset : ℕ
partial_header_offset = 36

abbrev pub height_offset : ℕ
height_offset = 128

abbrev pub timestamp_offset : ℕ
timestamp_offset = 136

abbrev pub nonce_offset : ℕ
nonce_offset = 140

abbrev pub extra_nonce1_offset : ℕ
extra_nonce1_offset = 144

abbrev pub extra_nonce2_offset : ℕ
extra_nonce2_offset = 148

abbrev pub gen_tx1_len : ℕ
gen_tx1_len = header_len - partial_header_offset

-- A hexadecimal field that must hold `n` bytes.
unfoldable pub decode_field : Bytes → ℕ → BuildError → Result BuildError Bytes
decode_field text n e = do b ← or_fail (decode text) e; guard (length b == n) e; ok b

-- `toTargetBytes`; `none` is the panic of `FillBytes`.
unfoldable pub to_target_bytes : ℤ → Option Bytes
to_target_bytes target =
    if ltb (nat_abs target) (2 ^ 256) then some (reverse (le_bytes 32 (nat_abs target))) else none

-- `buildJob`, with the miner's extra nonce 1 and share target.
unfoldable pub build_job :
    Chain → Bytes → ℤ → Bytes → Bytes → Bytes → Bytes → Bytes → Bytes → Result BuildError Job
build_job c extra_nonce1_hex share_target job_id prev_hash_hex gen_tx1_hex version_hex nbits_hex
      ntime_hex =
    do
      version ← decode_field version_hex 4 invalid_version
      prev_hash ← decode_field prev_hash_hex 32 invalid_prevhash
      gen_tx1 ← decode_field gen_tx1_hex gen_tx1_len invalid_gen_tx1
      nbits ← decode_field nbits_hex 4 invalid_nbits
      ntime ← decode_field ntime_hex 4 invalid_ntime
      extra_nonce1 ← decode_field extra_nonce1_hex 4 invalid_extra_nonce1
      let h1 = copy_at version_offset (replicate header_len 0) version
      let h2 = copy_at prev_block_offset h1 prev_hash
      let h3 = copy_at partial_header_offset h2 gen_tx1
      let h4 = copy_at timestamp_offset h3 ntime
      let header = copy_at extra_nonce1_offset h4 extra_nonce1
      share_be ← or_fail (to_target_bytes share_target) fill_bytes_panic
      block_be ← or_fail (to_target_bytes (c.compact_to_big (le_value nbits))) fill_bytes_panic
      ok (record {
        job_id = job_id;
        height = le_value (slice header height_offset (height_offset + 4));
        header = header;
        ntime = ntime;
        share_target_be = share_be;
        block_target_be = block_be;
      })

-- The loop of `cmpHashTarget` from index `i`, with the rounds left.
unfoldable pub cmp_loop : ℕ → ℕ → Bytes → Bytes → Ordering
unfolding byte_at
cmp_loop zero i sum be = Ordering.eq
cmp_loop (suc rounds) i sum be =
    let rest = cmp_loop rounds (i + 1) sum be in
    let a = byte_at sum (31 - i) in
    let b = byte_at be i in if a == b then rest else if ltb a b then Ordering.lt else Ordering.gt

-- `cmpHashTarget`
unfoldable pub cmp_hash_target : Bytes → Bytes → Ordering
unfolding cmp_loop
cmp_hash_target sum be = cmp_loop 32 0 sum be

-- `classifySolution`: the flags isShare and isBlock.
unfoldable pub classify_solution : Bytes → Bytes → Bytes → Bool × Bool
unfolding cmp_hash_target
classify_solution sum share_be block_be =
    if is_gt (cmp_hash_target sum share_be)
    then (false, false)
    else (true, if is_gt (cmp_hash_target sum block_be) then false else true)

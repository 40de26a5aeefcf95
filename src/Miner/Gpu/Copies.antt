-- ===== src/Miner/Gpu/Copies.antt =====
-- The GPU miner's copies of the CPU miner's functions compute the same.
use monetarium_stratum.Prelude.{ℕ, zero, suc, ◌+◌, ◌≡◌, refl, ℤ}
use monetarium_stratum.Bytes.Slice.{Bytes}
use monetarium_stratum.Mining.Chain.{Chain}
use monetarium_stratum.Miner.Job.{
  cmp_loop, cmp_hash_target, classify_solution, to_target_bytes, build_job, decode_exact, assemble,
}
use monetarium_stratum.Miner.Gpu.Job.{
  cmp_loop as gpu_cmp_loop, cmp_hash_target as gpu_cmp_hash_target,
  classify_solution as gpu_classify_solution, to_target_bytes as gpu_to_target_bytes,
  build_job as gpu_build_job, decode_field,
}

cmp_loop-copy :
    (rounds i : ℕ) (sum be : Bytes) → gpu_cmp_loop rounds i sum be ≡ cmp_loop rounds i sum be
unfolding cmp_loop gpu_cmp_loop
cmp_loop-copy zero i sum be = refl
cmp_loop-copy (suc rounds) i sum be = rw (cmp_loop-copy rounds (i + 1) sum be) refl

pub classify_solution-copy :
    (sum share_be block_be : Bytes)
    → gpu_classify_solution sum share_be block_be ≡ classify_solution sum share_be block_be
unfolding classify_solution gpu_classify_solution cmp_hash_target gpu_cmp_hash_target
classify_solution-copy sum share_be block_be =
    rw (cmp_loop-copy 32 0 sum share_be, cmp_loop-copy 32 0 sum block_be) refl

-- The two builders make the same job of the same fields, and fail alike.
pub build_job-copy :
    (c : Chain) (extra_nonce1 : Bytes) (share : ℤ)
    (job_id prev_hash gen_tx1 version nbits ntime : Bytes)
    → gpu_build_job c extra_nonce1 share job_id prev_hash gen_tx1 version nbits ntime
      ≡ build_job c extra_nonce1 share job_id prev_hash gen_tx1 version nbits ntime
unfolding build_job gpu_build_job decode_exact decode_field to_target_bytes gpu_to_target_bytes
    assemble
build_job-copy c extra_nonce1 share job_id prev_hash gen_tx1 version nbits ntime = refl

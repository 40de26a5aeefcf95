-- ===== src/Agreement/Verdict.antt =====
-- internal/stratum/client.go against cmd/cpuminer: a share that the miner finds on a job of the pool
-- is accepted by the pool.
use monetarium_stratum.Prelude.{
  ℕ, ◌+◌, ◌-◌, ◌%◌, ◌^◌, ◌≤◌, ◌≡◌, refl, Bool, true, some, arith, ◌==◌, length, All, pos, ok,
}
use monetarium_stratum.Bytes.Slice.{Bytes, IsByte, slice, length-slice, take-All, drop-All}
use monetarium_stratum.Bytes.Endian.{le_value}
use monetarium_stratum.Bytes.Hex.{encode, decode-encode}
use monetarium_stratum.Mining.Chain.{Chain}
use monetarium_stratum.Mining.Work.{Work, version, prev_block, partial_header, bits, timestamp}
use monetarium_stratum.Mining.Work.Solved.{IsBlob}
use monetarium_stratum.Stratum.Server.{work_notification}
use monetarium_stratum.Miner.Job.{
  Job, BuildError, build_job, decode_exact, to_target_bytes, height_offset, invalid_version,
  invalid_prevhash, invalid_gen_tx1, invalid_nbits, invalid_ntime, invalid_extra_nonce1,
}
use monetarium_stratum.Miner.Session.{Miner, handle_notify, miner_share_target, install_job}
use monetarium_stratum.Agreement.Header.{job_header}

decode_exact-encode :
    (b : Bytes) (n : ℕ) (e : BuildError)
    → All IsByte b
    → length b ≡ n
    → decode_exact (encode b) n e ≡ ok b
unfolding decode_exact
decode_exact-encode b n e h l =
    let t : (length b == n) ≡ true = ground arith in rw (decode-encode b h, t)

-- A field of the blob in hexadecimal is read back.
field_back :
    (w : Work) (blob : IsBlob w) (a b : ℕ) (e : BuildError)
    → a ≤ b
    → b ≤ 192
    → decode_exact (encode (slice w.data_blob a b)) (b - a) e ≡ ok (slice w.data_blob a b)
field_back w blob a b e ab fits =
    decode_exact-encode (slice w.data_blob a b) (b - a) e
      (take-All IsByte (b - a) _ (drop-All IsByte a w.data_blob blob.bytes))
      (omega (arith, length-slice w.data_blob a b, blob.sized))

module _ (c : Chain) (w : Work) (blob : IsBlob w) (extra_nonce1 : Bytes)
    (sized : length extra_nonce1 ≡ 4) (extra_nonce1_bytes : All IsByte extra_nonce1) (share : ℕ)
    (share_be block_be : Bytes) (share_fits : to_target_bytes (pos share) ≡ some share_be)
    (block_fits : to_target_bytes (c.compact_to_big (le_value (bits w))) ≡ some block_be) where
  -- The job that the miner makes of the notification.
  abbrev pub job_of : Job
  job_of = record {
    job_id = w.job_id;
    height =
        le_value (slice (job_header w blob extra_nonce1 sized) height_offset (height_offset + 4));
    header = job_header w blob extra_nonce1 sized;
    ntime = timestamp w;
    share_target_be = share_be;
    block_target_be = block_be;
  }

  build_job-notification :
      build_job c
        (encode extra_nonce1)
        (pos share)
        w.job_id
        (encode (prev_block w))
        (encode (partial_header w))
        (encode (version w))
        (encode (bits w))
        (encode (timestamp w))
      ≡ ok job_of
  unfolding build_job version prev_block partial_header bits timestamp
  build_job-notification =
      rw
        (
          field_back w blob 0 4 invalid_version (omega arith) (omega arith),
          field_back w blob 4 36 invalid_prevhash (omega arith) (omega arith),
          field_back w blob 36 180 invalid_gen_tx1 (omega arith) (omega arith),
          field_back w blob 116 120 invalid_nbits (omega arith) (omega arith),
          field_back w blob 136 140 invalid_ntime (omega arith) (omega arith),
          decode_exact-encode extra_nonce1 4 invalid_extra_nonce1 extra_nonce1_bytes sized,
          share_fits,
          block_fits,
        )
        refl

  built :
      (m : Miner)
      → m.extra_nonce1 ≡ encode extra_nonce1
      → m.target ≡ some share
      → build_job c m.extra_nonce1
          (pos (miner_share_target c m))
          w.job_id
          (encode (prev_block w))
          (encode (partial_header w))
          (encode (version w))
          (encode (bits w))
          (encode (timestamp w))
        ≡ ok job_of
  unfolding miner_share_target
  built m same_nonce same_target = rw (same_nonce, same_target) build_job-notification

  -- A miner with an extra nonce 1 of four bytes and a share target takes the notification of a blob
  -- of 192 bytes as the job with the blob's header and these targets, where both targets fit 32
  -- bytes.
  pub handle_notify-work :
      (m : Miner) (clean : Bool)
      → m.extra_nonce1 ≡ encode extra_nonce1
      → m.target ≡ some share
      → handle_notify c (work_notification w clean).params m
        ≡ ok (record m { gen = (m.gen + 1) % 2 ^ 64; current_job = some job_of })
  unfolding handle_notify work_notification miner_share_target
  handle_notify-work m clean same_nonce same_target =
      rw (built m same_nonce same_target, install_job) refl

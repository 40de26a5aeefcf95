-- ===== src/Agreement/Gpu.antt =====
-- The pool and the GPU miner together: what the miner submits for a job of the pool, whatever its
-- host reports.
use monetarium_stratum.Prelude.{
  ℕ, zero, suc, ◌≡◌, ◌≢◌, ap, ◌∙◌, sym, subst, some, List, [], ◌∷◌, length, All, pos, get_elem?,
}
use monetarium_stratum.Bytes.Slice.{Bytes, IsByte}
use monetarium_stratum.Bytes.Endian.{le_bytes, le_value}
use monetarium_stratum.Bytes.Hex.{encode}
use monetarium_stratum.Mining.Chain.{Chain, IsWireFormat, IsProofOfWork}
use monetarium_stratum.Mining.Work.{Work, bits, timestamp}
use monetarium_stratum.Mining.Work.Solved.{IsBlob}
use monetarium_stratum.Mining.Evaluate.{Decision, rejected, share_target}
use monetarium_stratum.Mining.Manager.{job}
use monetarium_stratum.Stratum.Server.{Client, Server, Node}
use monetarium_stratum.Stratum.Client.{judge, handle_submit}
use monetarium_stratum.Miner.Job.{Job, to_target_bytes}
use monetarium_stratum.Miner.Job.Compare.{flags}
use monetarium_stratum.Miner.Search.{Found}
use monetarium_stratum.Miner.Gpu.Job.{classify_solution}
use monetarium_stratum.Miner.Gpu.Copies.{classify_solution-copy}
use monetarium_stratum.Miner.Gpu.Session.{submit_params}
use monetarium_stratum.Miner.Gpu.Sweep.{HostEvent, mine_sweeps}
use monetarium_stratum.Miner.Gpu.Checks.{IsEvent, mine_sweeps-IsShare}
use monetarium_stratum.Agreement.Header.{length-job_header}
use monetarium_stratum.Agreement.Verdict.{job_of}
use monetarium_stratum.Agreement.Accepted.{share_accepted, validated_of, mined_header}

get_elem?-All :
    {A : Type 0} (P : A → Type 0) (xs : List A) (i : ℕ) (a : A)
    → All P xs
    → get_elem? xs i ≡ some a
    → P a
get_elem?-All P [] i a h e = cc e
get_elem?-All P (x ∷ xs) zero a h e = let same : x ≡ a = cc e in subst P same (h.0)
get_elem?-All P (x ∷ xs) (suc i) a h e = get_elem?-All P xs i a (h.1) e

module _ (c : Chain) (blake3 : Bytes → Bytes) (wire : IsWireFormat c)
    (work_law : IsProofOfWork c blake3) (w : Work) (blob : IsBlob w) (extra_nonce1 : Bytes)
    (sized : length extra_nonce1 ≡ 4) (extra_nonce1_bytes : All IsByte extra_nonce1)
    (share block : ℕ) (share_be block_be : Bytes)
    (share_fits : to_target_bytes (pos share) ≡ some share_be)
    (block_fits : to_target_bytes (pos block) ≡ some block_be)
    (block_bits : c.compact_to_big (le_value (bits w)) ≡ pos block) where
  abbrev pub gpu_job : Job
  gpu_job =
      job_of c w blob extra_nonce1 sized extra_nonce1_bytes share share_be block_be share_fits
        (ap to_target_bytes block_bits ∙ block_fits)

  -- Where the job is still registered, the client has the miner's extra nonce 1 of four bytes and
  -- its worker name, both sides hold the same share target, the block target is a natural number,
  -- and both targets fit 32 bytes: whatever the host reports, with 32 bit nonces, each share that
  -- the GPU miner submits for the job passes every check of the pool, is not rejected, and is to be
  -- a block exactly where the GPU miner took it for one.
  pub gpu_share_accepted :
      (events : List HostEvent) (i : ℕ) (f : Found) (client : Client) (s : Server) (node : Node)
      (id req_id : ℕ)
      → All IsEvent events
      → get_elem? (mine_sweeps blake3 gpu_job events).found i ≡ some f
      → client.extra_nonce1 ≡ encode extra_nonce1
      → job s.work_mgr w.job_id ≡ some w
      → share_target c s.share_diff ≡ some share
      → (d : Decision) × (handle_submit c node id req_id client
            (submit_params client.worker w.job_id f.extra_nonce2 (timestamp w) (le_bytes 4 f.nonce))
            s
          ≡ judge c node id req_id (validated_of w extra_nonce1 f) s d)
        × (d ≢ rejected)
        × (flags d
            ≡ classify_solution
                (blake3 (
                  mined_header c blake3 wire work_law w blob extra_nonce1 sized extra_nonce1_bytes
                    share block share_be block_be share_fits block_fits block_bits f))
                share_be
                block_be)
  unfolding submit_params monetarium_stratum.Miner.Session.submit_params
  gpu_share_accepted events i f client s node id req_id nonces found same_nonce registered same =
      let sub =
        get_elem?-All _ (mine_sweeps blake3 gpu_job events).found i f
          (mine_sweeps-IsShare blake3 gpu_job (length-job_header w blob extra_nonce1 sized) events
            nonces)
          found in
      let (d, run, not_rejected, agree) =
        share_accepted c blake3 wire work_law w blob extra_nonce1 sized extra_nonce1_bytes share
          block share_be block_be share_fits block_fits block_bits f client s node id req_id sub
          same_nonce registered same in
      (d, run, not_rejected, agree ∙ sym (classify_solution-copy _ share_be block_be))

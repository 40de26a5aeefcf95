-- ===== src/Agreement/Submitted.antt =====
-- A share from the miner's `submitShare`, over the connection, to the pool's `handleMessage`.
use monetarium_stratum.Prelude.{ℕ, ◌≡◌, ◌≢◌, ap, ◌∙◌, true, some, [], ◌∷◌, ◌++◌, length, All, pos}
use monetarium_stratum.Bytes.Slice.{Bytes, IsByte}
use monetarium_stratum.Bytes.Endian.{le_bytes, le_value}
use monetarium_stratum.Bytes.Hex.{encode}
use monetarium_stratum.Mining.Chain.{Chain, IsWireFormat, IsProofOfWork}
use monetarium_stratum.Mining.Work.{Work, bits, timestamp}
use monetarium_stratum.Mining.Work.Solved.{IsBlob}
use monetarium_stratum.Mining.Evaluate.{Decision, rejected, share_target}
use monetarium_stratum.Mining.Manager.{job}
use monetarium_stratum.Stratum.Server.{Client, Server, Node, find_client}
use monetarium_stratum.Stratum.Client.{handle_submit, handle_message, judge}
use monetarium_stratum.Miner.Job.{Job, to_target_bytes, classify_solution}
use monetarium_stratum.Miner.Job.Compare.{flags}
use monetarium_stratum.Miner.Session.{Sent, Miner, submit_share, submit_params}
use monetarium_stratum.Miner.Search.{Found}
use monetarium_stratum.Miner.Search.Shares.{IsShare}
use monetarium_stratum.Agreement.Verdict.{job_of}
use monetarium_stratum.Agreement.Accepted.{share_accepted, validated_of, mined_header}
use monetarium_stratum.Agreement.Requests.{sent_line, share_request, handle_message-submit_share}

module _ (c : Chain) (blake3 : Bytes → Bytes) (wire : IsWireFormat c)
    (work_law : IsProofOfWork c blake3) (w : Work) (blob : IsBlob w) (extra_nonce1 : Bytes)
    (sized : length extra_nonce1 ≡ 4) (extra_nonce1_bytes : All IsByte extra_nonce1)
    (share block : ℕ) (share_be block_be : Bytes)
    (share_fits : to_target_bytes (pos share) ≡ some share_be)
    (block_fits : to_target_bytes (pos block) ≡ some block_be)
    (block_bits : c.compact_to_big (le_value (bits w)) ≡ pos block) where
  abbrev pub mined_job : Job
  mined_job =
      job_of c w blob extra_nonce1 sized extra_nonce1_bytes share share_be block_be share_fits
        (ap to_target_bytes block_bits ∙ block_fits)

  -- A miner finds a share on a job of the pool and submits it on a connection that takes the
  -- write. Then it has written one request more, and the pool, where the job is still registered,
  -- where it has the client with the miner's extra nonce 1 of four bytes and with the worker name
  -- that is the miner's user, where both sides hold the same share target, where the block target
  -- is a natural number and both targets fit 32 bytes, comes for the line of that request to the
  -- verdict on a decision, which is no rejection, and is to submit a block exactly where the miner
  -- took the share for a block.
  pub submitted_share_accepted :
      (m : Miner) (f : Found) (id : ℕ) (client : Client) (s : Server) (node : Node)
      → IsShare blake3 mined_job f
      → m.writable ≡ true
      → m.user ≡ client.worker
      → find_client id s ≡ some client
      → client.extra_nonce1 ≡ encode extra_nonce1
      → job s.work_mgr w.job_id ≡ some w
      → share_target c s.share_diff ≡ some share
      → (r : Sent) × (d : Decision) × ((submit_share mined_job f.extra_nonce2 f.nonce m).sent
          ≡ m.sent ++ r ∷ [])
        × (handle_message c node id (some (sent_line r)) s
            ≡ judge c node client.id r.id (validated_of w extra_nonce1 f) s d)
        × (d ≢ rejected)
        × (flags d
            ≡ classify_solution
                (blake3 (
                  mined_header c blake3 wire work_law w blob extra_nonce1 sized extra_nonce1_bytes
                    share block share_be block_be share_fits block_fits block_bits f))
                share_be
                block_be)
  submitted_share_accepted m f id client s node found writable named present same_nonce registered
        same_share =
      let r = share_request mined_job f.extra_nonce2 f.nonce m in
      let sends =
        handle_message-submit_share c node mined_job f.extra_nonce2 f.nonce m id client s writable
          present in
      let verdict =
        share_accepted c blake3 wire work_law w blob extra_nonce1 sized extra_nonce1_bytes share
          block share_be block_be share_fits block_fits block_bits f client s node client.id r.id
          found same_nonce registered same_share in
      (
        r,
        verdict.0,
        sends.0,
        sends.2
            ∙ ap
                (λ user.
                  handle_submit c node client.id r.id client
                    (submit_params user w.job_id f.extra_nonce2 (timestamp w) (le_bytes 4 f.nonce))
                    s)
                named
            ∙ verdict.1,
        verdict.2,
        verdict.3,
      )

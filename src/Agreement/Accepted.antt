-- ===== src/Agreement/Accepted.antt =====
-- The submission of a share that the miner found, through `handleSubmit` of the pool.
use monetarium_stratum.Prelude.{
  ℕ, ◌+◌, ◌≤◌, ◌<◌, ◌≡◌, ◌≢◌, refl, sym, ap, ◌∙◌, true, Option, some, arith, leb, ltb, lt→ltb, ◌&&◌,
  if◌then◌else◌, length, take, All, pos, ok, get_elem?, get_elem?-take, eq_bytes_refl,
}
use monetarium_stratum.Bytes.Slice.{Bytes, IsByte, slice, take-All, drop-All}
use monetarium_stratum.Bytes.Splice.{slice_ext}
use monetarium_stratum.Bytes.Endian.{le_bytes, le_value, le_bytes-All}
use monetarium_stratum.Bytes.Hex.{encode, decode, decode-encode}
use monetarium_stratum.Mining.Chain.{Chain, IsWireFormat, IsProofOfWork}
use monetarium_stratum.Mining.Work.{Work, apply_submission, bits, timestamp}
use monetarium_stratum.Mining.Work.Solved.{
  IsBlob, AreBytes, solved_bytes, solved_bytes_parse, build_solved_header_ok,
  get_elem?-apply_submission,
}
use monetarium_stratum.Mining.Evaluate.{Decision, rejected, evaluate_submit, share_target}
use monetarium_stratum.Mining.Manager.{job}
use monetarium_stratum.Stratum.Server.{Client, Server, Node}
use monetarium_stratum.Stratum.Client.{Validated, validate, decide, judge, handle_submit}
use monetarium_stratum.Stratum.Client.Laws.{handle_submit-decided}
use monetarium_stratum.Stratum.Protocol.{string_params}
use monetarium_stratum.Miner.Job.{to_target_bytes, classify_solution}
use monetarium_stratum.Miner.Job.Compare.{flags, classify_solution-evaluate}
use monetarium_stratum.Miner.Session.{submit_params}
use monetarium_stratum.Miner.Search.{Found, place_nonces}
use monetarium_stratum.Miner.Search.Shares.{IsShare}
use monetarium_stratum.Agreement.Header.{job_header, rebuilt-place_nonces, miner-IsSubmission}
use monetarium_stratum.Agreement.Verdict.{job_of}

pub timestamp-All : (w : Work) → IsBlob w → All IsByte (timestamp w)
unfolding timestamp
timestamp-All w blob = take-All IsByte 4 _ (drop-All IsByte 136 w.data_blob blob.bytes)

untouched :
    (j : ℕ) (n t e2 e1 d : Option ℕ) (k : ℕ)
    → 116 ≤ j
    → j < 120
    → (if leb 140 j && ltb j 144
        then n
        else if leb 136 j && ltb j 140
        then t
        else if leb 148 j && ltb j 156
        then e2
        else if leb 144 j && ltb j (144 + k)
        then e1
        else d)
      ≡ d
untouched j n t e2 e1 d k lo hi = ground arith

not_rejected : (d : Decision) → (flags d).0 ≡ true → d ≢ rejected
not_rejected d h e = cc (ap (λ x. (flags x).0) e)

-- The submission as the pool decodes it.
abbrev pub validated_of : Work → Bytes → Found → Validated
validated_of w extra_nonce1 f = record {
  work = w;
  extra_nonce1 = extra_nonce1;
  extra_nonce2 = f.extra_nonce2;
  ntime = timestamp w;
  nonce = le_bytes 4 f.nonce;
}

-- The four fields of a submission that the miner wrote are read back by the pool.
pub validate-submit_params :
    (w : Work) (extra_nonce1 : Bytes) (f : Found) (client : Client) (s : Server)
    → IsBlob w
    → All IsByte extra_nonce1
    → All IsByte f.extra_nonce2
    → client.extra_nonce1 ≡ encode extra_nonce1
    → job s.work_mgr w.job_id ≡ some w
    → validate client s
        (submit_params client.worker w.job_id f.extra_nonce2 (timestamp w) (le_bytes 4 f.nonce))
      ≡ ok (validated_of w extra_nonce1 f)
unfolding validate submit_params string_params
validate-submit_params w extra_nonce1 f client s blob h1 h2 same found =
    rw
      (
        eq_bytes_refl client.worker,
        found,
        decode-encode f.extra_nonce2 h2,
        decode-encode (timestamp w) (timestamp-All w blob),
        decode-encode (le_bytes 4 f.nonce) (le_bytes-All 4 f.nonce),
        ap decode same ∙ decode-encode extra_nonce1 h1,
      )
      refl

module _ (c : Chain) (blake3 : Bytes → Bytes) (wire : IsWireFormat c)
    (work_law : IsProofOfWork c blake3) (w : Work) (blob : IsBlob w) (extra_nonce1 : Bytes)
    (sized : length extra_nonce1 ≡ 4) (extra_nonce1_bytes : All IsByte extra_nonce1)
    (share block : ℕ) (share_be block_be : Bytes)
    (share_fits : to_target_bytes (pos share) ≡ some share_be)
    (block_fits : to_target_bytes (pos block) ≡ some block_be)
    (block_bits : c.compact_to_big (le_value (bits w)) ≡ pos block) where
  abbrev pub mined_header : Found → Bytes
  mined_header f = place_nonces (job_header w blob extra_nonce1 sized) f.extra_nonce2 f.nonce

  abbrev pub fields :
      (f : Found)
      → All IsByte f.extra_nonce2
      → AreBytes extra_nonce1 f.extra_nonce2 (timestamp w) (le_bytes 4 f.nonce)
  fields f h = record {
    extra_nonce1_bytes = extra_nonce1_bytes;
    extra_nonce2_bytes = h;
    ntime_bytes = timestamp-All w blob;
    nonce_bytes = le_bytes-All 4 f.nonce;
  }

  kept_byte :
      (f : Found)
      → length f.extra_nonce2 ≡ 8
      → (j : ℕ) → 116 ≤ j
      → j < 120
      → get_elem?
          (take 180
            (apply_submission w extra_nonce1 f.extra_nonce2 (timestamp w) (le_bytes 4 f.nonce)))
          j
        ≡ get_elem? w.data_blob j
  kept_byte f le j lo hi =
      let t : ltb j 180 ≡ true = lt→ltb j 180 (omega arith) in
      get_elem?-take 180 _ j
      ∙ rw t (
          get_elem?-apply_submission w extra_nonce1 f.extra_nonce2 (timestamp w)
            (le_bytes 4 f.nonce) j blob.sized
            (miner-IsSubmission w blob extra_nonce1 sized f.extra_nonce2 f.nonce le)
          ∙ untouched j _ _ _ _ _ (length extra_nonce1) lo hi)

  -- The compact bits stand in the part of the blob that a submission leaves alone.
  bits_kept :
      (f : Found)
      → length f.extra_nonce2 ≡ 8
      → (h : All IsByte f.extra_nonce2)
      → slice
          (solved_bytes c wire w extra_nonce1 f.extra_nonce2
            (timestamp w)
            (le_bytes 4 f.nonce)
            blob
            (fields f h))
          116
          120
        ≡ bits w
  unfolding bits
  bits_kept f le h = slice_ext _ w.data_blob 116 120 (kept_byte f le)

  pub decide-mined :
      (f : Found) (s : Server)
      → length f.extra_nonce2 ≡ 8
      → (h : All IsByte f.extra_nonce2) → share_target c s.share_diff ≡ some share
      → (node : Node) (id req_id : ℕ)
      → decide c node id req_id
          (solved_bytes_parse c wire w extra_nonce1 f.extra_nonce2
            (timestamp w)
            (le_bytes 4 f.nonce)
            blob
            (fields f h)).0
          s
        ≡ ok (evaluate_submit (pos (le_value (blake3 (mined_header f)))) (pos share) (pos block))
  unfolding decide
  decide-mined f s le h same node id req_id =
      let p =
        solved_bytes_parse c wire w extra_nonce1 f.extra_nonce2 (timestamp w) (le_bytes 4 f.nonce)
          blob (fields f h) in
      let hash : c.hash_to_big (c.pow_hash_v2 p.0) ≡ pos (le_value (blake3 (mined_header f))) =
        ap c.hash_to_big (work_law.hashes p.0 _ p.2)
        ∙ work_law.reads_hash _
        ∙ ap (λ b. pos (le_value (blake3 b)))
            (rebuilt-place_nonces w blob extra_nonce1 sized f.extra_nonce2 f.nonce le) in
      let limit : c.compact_to_big (c.bits p.0) ≡ pos block =
        ap c.compact_to_big (wire.reads_bits _ p.0 p.1 ∙ ap le_value (bits_kept f le h))
        ∙ block_bits in
      rw (same, hash, limit) refl

  -- Where the job is still registered, the client has the miner's extra nonce 1 of four bytes and
  -- its worker name, both sides hold the same share target, the block target is a natural number,
  -- and both targets fit 32 bytes: a share that the miner finds on a job of the pool passes every
  -- check of the pool. `handleSubmit` comes to the verdict on a decision, which is no rejection,
  -- and is to submit a block exactly where the miner took the share for a block.
  pub share_accepted :
      (f : Found) (client : Client) (s : Server) (node : Node) (id req_id : ℕ)
      → IsShare blake3
          (job_of c w blob extra_nonce1 sized extra_nonce1_bytes share share_be block_be share_fits
            (ap to_target_bytes block_bits ∙ block_fits))
          f
      → client.extra_nonce1 ≡ encode extra_nonce1
      → job s.work_mgr w.job_id ≡ some w
      → share_target c s.share_diff ≡ some share
      → (d : Decision) × (handle_submit c node id req_id client
            (submit_params client.worker w.job_id f.extra_nonce2 (timestamp w) (le_bytes 4 f.nonce))
            s
          ≡ judge c node id req_id (validated_of w extra_nonce1 f) s d)
        × (d ≢ rejected)
        × (flags d ≡ classify_solution (blake3 (mined_header f)) share_be block_be)
  share_accepted f client s node id req_id found same_nonce registered same_share =
      let d = evaluate_submit (pos (le_value (blake3 (mined_header f)))) (pos share) (pos block) in
      let le = found.extra_nonce2_sized in
      let h = found.extra_nonce2_bytes in
      let agree : classify_solution (blake3 (mined_header f)) share_be block_be ≡ flags d =
        classify_solution-evaluate (blake3 (mined_header f)) share_be block_be share block
          (work_law.sum_length (mined_header f)) (work_law.sum_bytes (mined_header f)) share_fits
          block_fits in
      (
        d,
        handle_submit-decided c node id req_id client _ s (validated_of w extra_nonce1 f)
            (solved_bytes_parse c wire w extra_nonce1 f.extra_nonce2 (timestamp w)
              (le_bytes 4 f.nonce) blob (fields f h)).0
            d
            (validate-submit_params w extra_nonce1 f client s blob extra_nonce1_bytes h same_nonce
              registered)
            (build_solved_header_ok c wire w extra_nonce1 f.extra_nonce2 (timestamp w)
              (le_bytes 4 f.nonce) blob (fields f h)
              (miner-IsSubmission w blob extra_nonce1 sized f.extra_nonce2 f.nonce le))
            (decide-mined f s le h same_share node id req_id),
        not_rejected d (sym (ap (λ x. x.0) agree) ∙ found.meets_target),
        sym agree,
      )

-- ===== src/Stratum/Client/Submit.antt =====
-- `handleSubmit`, in the order of its checks: a rejection is the error that the client is sent.
use monetarium_stratum.Prelude.{
  ℕ, ◌+◌, true, Option, none, some, List, [], ◌∷◌, ◌++◌, if◌then◌else◌, eq_bytes, Result, ok, err,
  ◌>>=◌, ◌>>◌, guard, or_fail, pos,
}
use monetarium_stratum.Bytes.Slice.{Bytes}
use monetarium_stratum.Bytes.Text.{codes}
use monetarium_stratum.Bytes.Hex.{decode}
use monetarium_stratum.Mining.Chain.{Chain}
use monetarium_stratum.Mining.Work.{Work, build_solved_header, solved_header_data}
use monetarium_stratum.Mining.Evaluate.{
  Decision, rejected, accepted_share, submit_block, share_target, evaluate_submit,
}
use monetarium_stratum.Mining.Throttle.{allow}
use monetarium_stratum.Mining.Manager.{job}
use monetarium_stratum.Stratum.Protocol.{
  Json, bool, string_params, err_low_difficulty, err_unknown, err_stale_share, err_unauthorized,
}
use monetarium_stratum.Stratum.Server.{
  Panic, division_by_zero, Client, Server, Node, replied, failed, update_client, send_result,
  send_error, record_share, refresh_work,
}

pub data Rejection : Type 0 where
  invalid_submit_params worker_mismatch job_not_found bad_extra_nonce2 bad_timestamp bad_nonce
        bad_extra_nonce1 invalid_submission low_difficulty unserializable submission_failed
        rejected_by_node :
      Rejection

unfoldable pub code_of : Rejection → ℕ
code_of worker_mismatch = err_unauthorized
code_of job_not_found = err_stale_share
code_of low_difficulty = err_low_difficulty
code_of _ = err_unknown

unfoldable pub message_of : Rejection → Bytes
message_of invalid_submit_params = codes "invalid submit params"
message_of worker_mismatch = codes "worker name mismatch"
message_of job_not_found = codes "job not found"
message_of bad_extra_nonce2 = codes "invalid extraNonce2"
message_of bad_timestamp = codes "invalid timestamp"
message_of bad_nonce = codes "invalid nonce"
message_of bad_extra_nonce1 = codes "invalid extraNonce1"
message_of invalid_submission = codes "invalid submission"
message_of low_difficulty = codes "low difficulty share"
message_of unserializable = codes "unable to serialize submission"
message_of submission_failed = codes "work submission failed"
message_of rejected_by_node = codes "work rejected by the node"

-- The five parameters that are read; more are ignored.
pub record Submission : Type 0 where
  pub worker : Bytes
  pub job_id : Bytes
  pub extra_nonce2 : Bytes
  pub ntime : Bytes
  pub nonce : Bytes

unfoldable pub five_params : Option (List Bytes) → Option Submission
five_params (some (worker ∷ job_id ∷ extra_nonce2 ∷ ntime ∷ nonce ∷ _)) = some (record {
  worker = worker;
  job_id = job_id;
  extra_nonce2 = extra_nonce2;
  ntime = ntime;
  nonce = nonce;
})
five_params _ = none

-- The job and the decoded fields of a submission.
pub record Validated : Type 0 where
  pub work : Work
  pub extra_nonce1 : Bytes
  pub extra_nonce2 : Bytes
  pub ntime : Bytes
  pub nonce : Bytes

-- The checks up to the decoding of the four fields.
unfoldable pub validate : Client → Server → List Json → Result Rejection Validated
unfolding five_params
validate client s params = do
  p ← or_fail (five_params (string_params params)) invalid_submit_params
  guard (eq_bytes p.worker client.worker) worker_mismatch
  work ← or_fail (job s.work_mgr p.job_id) job_not_found
  extra_nonce2 ← or_fail (decode p.extra_nonce2) bad_extra_nonce2
  ntime ← or_fail (decode p.ntime) bad_timestamp
  nonce ← or_fail (decode p.nonce) bad_nonce
  extra_nonce1 ← or_fail (decode client.extra_nonce1) bad_extra_nonce1
  ok (record {
    work = work;
    extra_nonce1 = extra_nonce1;
    extra_nonce2 = extra_nonce2;
    ntime = ntime;
    nonce = nonce;
  })

unfoldable pub reject : ℕ → ℕ → Rejection → Server → Server
unfolding code_of message_of
reject id req_id r s = send_error id req_id (code_of r) (message_of r) s

-- The call of the node and its three outcomes. (On an error that speaks of the block difficulty the
-- server also logs a line.)
unfoldable pub call_node : Node → ℕ → ℕ → Bytes → Server → Server
unfolding reject
call_node node id req_id blob s =
    let called = record s { node_calls = s.node_calls ++ blob ∷ [] } in
    elim (node.submit_work blob) [
      | failed e ↦ reject id req_id submission_failed called
      | replied accepted ↦
          if accepted
          then send_result id req_id (bool true) called
          else reject id req_id rejected_by_node called
    ]

-- A block that the throttle discards: counted as a share, and the work refreshed.
unfoldable pub throttle_block : Node → ℕ → ℕ → Server → Result Panic Server
throttle_block node id req_id s =
    refresh_work node.now (send_result id req_id (bool true) (record_share s))

abbrev pub count_submission : Client → Client
count_submission c = record c { submissions = c.submissions + 1 }

module _ (c : Chain) (node : Node) (id req_id : ℕ) where
  -- The decision on a header, at the server's share difficulty.
  unfoldable pub decide : c.Header → Server → Result Panic Decision
  decide header s = do
    share ← or_fail (share_target c s.share_diff) division_by_zero
    ok (
        evaluate_submit (c.hash_to_big (c.pow_hash_v2 header)) (pos share)
          (c.compact_to_big (c.bits header)))

  -- A block that the throttle lets pass.
  unfoldable pub submit_block_data : Validated → Server → Server
  unfolding call_node reject
  submit_block_data v s =
      elim (solved_header_data c v.work v.extra_nonce1 v.extra_nonce2 v.ntime v.nonce) [
        | err e ↦ reject id req_id unserializable s
        | ok blob ↦ call_node node id req_id blob s
      ]

  -- The throttle's verdict on a found block.
  unfoldable pub submit_found : Validated → Server → Result Panic Server
  unfolding submit_block_data throttle_block
  submit_found v s =
      let s1 = update_client id count_submission s in
      let (throttle', allowed) = allow s1.throttle in
      let s2 = record s1 { throttle = throttle' } in
      if allowed then ok (submit_block_data v s2) else throttle_block node id req_id s2

  -- The three decisions.
  unfoldable pub judge : Validated → Server → Decision → Result Panic Server
  unfolding submit_found reject
  judge v s rejected = ok (reject id req_id low_difficulty s)
  judge v s accepted_share = ok (send_result id req_id (bool true) (record_share s))
  judge v s submit_block = submit_found v s

  -- `handleSubmit` of a client with the parameters of its request.
  unfoldable pub handle_submit : Client → List Json → Server → Result Panic Server
  handle_submit client params s = elim (validate client s params) [
    | err r ↦ ok (reject id req_id r s)
    | ok v ↦ elim (build_solved_header c v.work v.extra_nonce1 v.extra_nonce2 v.ntime v.nonce) [
      | err e ↦ ok (reject id req_id invalid_submission s)
      | ok header ↦ decide header s >>= judge v s
    ]
  ]

-- ===== src/Miner/Gpu/Session/State.antt =====
-- cmd/gpuminer/miner.go: the GPU miner's state and handlers. It has no set of pending requests: it
-- counts whatever response it reads.
use monetarium_stratum.Prelude.{
  ℕ, ◌+◌, ◌/◌, ◌%◌, ◌^◌, Bool, true, false, Option, none, some, List, [], ◌∷◌, ◌++◌, ◌==◌, ltb,
  if◌then◌else◌, eq_bytes, length, Result, ok, err, pos,
}
use monetarium_stratum.Bytes.Slice.{Bytes}
use monetarium_stratum.Bytes.Endian.{le_bytes}
use monetarium_stratum.Bytes.Hex.{encode}
use monetarium_stratum.Mining.Chain.{Chain}
use monetarium_stratum.Stratum.Protocol.{
  Json, num, str, string_of, method_submit, method_notify, method_set_difficulty,
}
use monetarium_stratum.Miner.Job.{Job, BuildError, fill_bytes_panic}
use monetarium_stratum.Miner.Session.{Panic, division_by_zero, fill_bytes, Incoming, Sent}
use monetarium_stratum.Miner.Gpu.Job.{build_job}

-- `Miner`, with the requests that it wrote; `writable` is whether the connection takes a write.
pub record GpuMiner : Type 0 where
  pub user : Bytes
  pub password : Bytes
  pub writable : Bool
  pub sent : List Sent
  pub next_id : ℕ  -- uint64
  pub extra_nonce1 : Bytes
  pub extra_nonce2_len : ℕ
  pub target : Option ℕ
  pub current_job : Option Job
  pub gen : ℕ  -- uint64
  pub accepted : ℕ  -- uint64
  pub rejected : ℕ  -- uint64

-- `NewMiner`
unfoldable pub new_miner : Bytes → Bytes → GpuMiner
new_miner user password = record {
  user = user;
  password = password;
  writable = false;
  sent = [];
  next_id = 0;
  extra_nonce1 = [];
  extra_nonce2_len = 8;
  target = none;
  current_job = none;
  gen = 0;
  accepted = 0;
  rejected = 0;
}

-- What `connectAndMine` resets: a sweep of the last connection ends, and the target is the limit.
unfoldable pub reset_connection : Chain → GpuMiner → GpuMiner
reset_connection c m = record m {
  writable = true;
  gen = (m.gen + 1) % 2 ^ 64;
  target = some c.pow_limit;
}

-- `nextRequestID`
unfoldable pub next_request_id : GpuMiner → GpuMiner × ℕ
next_request_id m = let n = (m.next_id + 1) % 2 ^ 64 in (record m { next_id = n }, n)

-- `sendRequest`: the identifier, unless the write fails.
unfoldable pub send_request : Bytes → List Json → GpuMiner → GpuMiner × Option ℕ
unfolding next_request_id
send_request method params m =
    let (m', id) = next_request_id m in
    if m'.writable
    then (
      record m' { sent = m'.sent ++ record { id = id; method = method; params = params } ∷ [] },
      some id,
    )
    else (m', none)

-- `setDifficulty` at the integer part of the difficulty; `Div` panics on zero.
unfoldable pub set_difficulty : Chain → ℕ → GpuMiner → Result Panic GpuMiner
set_difficulty c diff m =
    if diff == 0
    then err division_by_zero
    else let target = c.pow_limit / diff in
      ok (record m { target = some (if ltb c.pow_limit target then c.pow_limit else target) })

-- `shareTarget`
unfoldable pub miner_share_target : Chain → GpuMiner → ℕ
miner_share_target c m = elim m.target [ none ↦ c.pow_limit | some t ↦ t ]

-- `jsonParamString`: a parameter that is no string reads as the empty one.
unfoldable pub param_string : Json → Bytes
unfolding string_of
param_string v = elim (string_of v) [ none ↦ [] | some s ↦ s ]

-- The integer part of the difficulty that a notification carries: 0 without a number. The program
-- reads a float64 and converts it to a uint64, which comes to the same for every uint32, as the pool
-- sends them; the rounding of other numbers, and numbers out of the range, are not modelled.
unfoldable pub difficulty_of : List Json → ℕ
difficulty_of [] = 0
difficulty_of (num whole fraction ∷ _) = whole
difficulty_of (_ ∷ _) = 0

-- The job and its generation, or no change where the job cannot be built.
unfoldable pub install_job : GpuMiner → Result BuildError Job → Result Panic GpuMiner
install_job m (ok job) = ok (record m { gen = (m.gen + 1) % 2 ^ 64; current_job = some job })
install_job m (err fill_bytes_panic) = err fill_bytes
install_job m (err _) = ok m

-- `handleNotify` with its nine parameters; genTx2, the branches and the clean flag are only logged.
unfoldable pub nine_params : Chain → List Json → GpuMiner → Result Panic GpuMiner
unfolding install_job miner_share_target param_string
nine_params c (job_id ∷ prev_hash ∷ gen_tx1 ∷ _ ∷ _ ∷ version ∷ nbits ∷ ntime ∷ _ ∷ []) m =
    install_job m (
      build_job c m.extra_nonce1 (pos (miner_share_target c m)) (param_string job_id)
        (param_string prev_hash) (param_string gen_tx1) (param_string version) (param_string nbits)
        (param_string ntime))
nine_params c _ m = ok m

-- `handleNotify`: another number of parameters is logged and dropped.
unfoldable pub handle_notify : Chain → List Json → GpuMiner → Result Panic GpuMiner
unfolding nine_params
handle_notify c params m = if length params == 9 then nine_params c params m else ok m

-- `handleNotification`
unfoldable pub handle_notification : Chain → Incoming → GpuMiner → Result Panic GpuMiner
unfolding handle_notify set_difficulty difficulty_of
handle_notification c msg m =
    if eq_bytes msg.method method_set_difficulty
    then set_difficulty c (difficulty_of msg.params) m
    else if eq_bytes msg.method method_notify
    then handle_notify c msg.params m
    else ok m

-- `handleResponse`: any response is taken for that of a share.
unfoldable pub handle_response : Incoming → GpuMiner → GpuMiner
handle_response msg m = elim msg.error [
  | some e ↦ record m { rejected = (m.rejected + 1) % 2 ^ 64 }
  | none ↦ record m { accepted = (m.accepted + 1) % 2 ^ 64 }
]

-- One round of `readLoop`.
unfoldable pub read_message : Chain → Incoming → GpuMiner → Result Panic GpuMiner
unfolding handle_notification handle_response
read_message c msg m =
    if eq_bytes msg.method [] then ok (handle_response msg m) else handle_notification c msg m

-- `submitParams`
unfoldable pub submit_params : Bytes → Bytes → Bytes → Bytes → Bytes → List Json
submit_params worker job_id extra_nonce2 ntime nonce =
    str worker
    ∷ str job_id
    ∷ str (encode extra_nonce2)
    ∷ str (encode ntime)
    ∷ str (encode nonce)
    ∷ []

-- `submitShare`: a failed write counts as a rejection.
unfoldable pub submit_share : Job → Bytes → ℕ → GpuMiner → GpuMiner
unfolding send_request submit_params
submit_share job extra_nonce2 nonce m =
    let (m', sent) =
      send_request method_submit
        (submit_params m.user job.job_id extra_nonce2 job.ntime (le_bytes 4 nonce)) m in
    elim sent [ none ↦ record m' { rejected = (m'.rejected + 1) % 2 ^ 64 } | some id ↦ m' ]

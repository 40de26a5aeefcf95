-- ===== src/Examples/GpuAt.antt =====
-- The GPU miner's session and its agreement with the pool, at concrete inputs.
use mathlib.Core.Option.{some-injective}
use monetarium_stratum.Prelude.{
  ◌+◌, ℕ, arith, true, ◌≡◌, ◌≢◌, refl, none, some, List, [], ◌∷◌, get_elem?, replicate, Option,
  Result, ok, zero, suc, false, if◌then◌else◌, eq_bytes, subst,
}
use monetarium_stratum.Bytes.Slice.{Bytes, slice, copy_at}
use monetarium_stratum.Bytes.Hex.{encode}
use monetarium_stratum.Bytes.Endian.{le_bytes, le_value}
use monetarium_stratum.Mining.Work.{timestamp, version, prev_block, partial_header}
use monetarium_stratum.Mining.Evaluate.{Decision, rejected, share_target}
use monetarium_stratum.Stratum.Protocol.{null, bool, num, str, arr, item, no_items}
use monetarium_stratum.Stratum.Client.{handle_submit, judge}
use monetarium_stratum.Miner.Job.{assemble}
use monetarium_stratum.Miner.Job.Compare.{flags}
use monetarium_stratum.Miner.Search.{place_nonces}
use monetarium_stratum.Miner.Gpu.Job.{classify_solution}
use monetarium_stratum.Miner.Gpu.Host.{
  SolutionMessage, solution_line, other_line, searched_line, GpuHost, HostStep, prints,
  takes_solution, start_gpu_host, run_host,
}
use monetarium_stratum.Miner.Gpu.Host.Channels.{
  IsHost, reported_solutions, reported_searched, run_host-start_gpu_host,
}
use monetarium_stratum.Miner.Gpu.Lag.{is_hit, mine_sweeps-reports, mine_sweeps_behind}
use monetarium_stratum.Miner.Gpu.Sweep.{
  searched, solved_header, HostEvent, solution, progress, mine_sweeps,
}
use monetarium_stratum.Miner.Session as Cpu
use monetarium_stratum.Miner.Session.{Incoming, Turn, reads, submits, Miner, Panic, HandshakeError}
use monetarium_stratum.Miner.Gpu.Session as Gpu
use monetarium_stratum.Miner.Gpu.Session.Forget.{Surplus, forget, forget_all}
use monetarium_stratum.Miner.Gpu.Session.Refines.{Ahead, forget_result}
use monetarium_stratum.Miner.Gpu.Session.Connects.{connect_and_mine-forget}
use monetarium_stratum.Miner.Gpu.Session.Awaited.{IsAwaited, run_turns_awaited}
use monetarium_stratum.Agreement.Header.{job_header}
use monetarium_stratum.Agreement.Accepted.{validated_of}
use monetarium_stratum.Agreement.Gpu.{gpu_share_accepted}
use monetarium_stratum.Examples.Base.{
  toy_chain, toy_chain-IsWireFormat, toy_chain-IsProofOfWork, toy_hash, toy_work, toy_work-IsBlob,
  toy_client, toy_server, toy_node, toy_miner,
}
use monetarium_stratum.Examples.Pair.{
  e1, e1_bytes, hundred_be, five_be, hundred_fits, five_fits, bits_are_five, toy_job, fifty,
  job_is_found,
}

abbrev reports : List HostEvent
reports = progress 7 ∷ solution 20 50 ∷ []

reports_fifty : get_elem? (mine_sweeps toy_hash toy_job reports).found 0 ≡ some fifty
unfolding mine_sweeps classify_solution toy_hash place_nonces assemble le_bytes le_value copy_at
    version prev_block partial_header timestamp
reports_fifty = refl

gpu_share_accepted_example :
    (d : Decision) × (handle_submit toy_chain toy_node 1 7 toy_client
        (Gpu.submit_params toy_client.worker toy_work.job_id fifty.extra_nonce2
          (timestamp toy_work)
          (le_bytes 4 50))
        toy_server
      ≡ judge toy_chain toy_node 1 7 (validated_of toy_work e1 fifty) toy_server d)
    × (d ≢ rejected)
    × (flags d
        ≡ classify_solution
            (toy_hash
              (place_nonces (job_header toy_work toy_work-IsBlob e1 refl) fifty.extra_nonce2 50))
            hundred_be
            five_be)
unfolding share_target
gpu_share_accepted_example =
    gpu_share_accepted toy_chain toy_hash toy_chain-IsWireFormat toy_chain-IsProofOfWork toy_work
      toy_work-IsBlob e1 refl e1_bytes 100 5 hundred_be five_be hundred_fits five_fits bits_are_five
      reports 0 fifty toy_client toy_server toy_node 1 7 (tt, (omega arith, tt)) reports_fifty refl
      job_is_found refl

abbrev level : Surplus
level = record { gens = 0; accepted = 0; rejected = 0 }

abbrev answer : Incoming
answer = record { id = 1; method = []; result = none; error = none; params = [] }

abbrev turns : List Turn
turns = submits toy_job (replicate 8 0) 50 ∷ reads ∷ []

answer-IsAwaited : IsAwaited toy_chain turns (answer ∷ []) toy_miner
unfolding Cpu.submit_share Cpu.send_request Cpu.next_request_id Cpu.has Cpu.drop_id
answer-IsAwaited = (λ e. refl, λ m' e. tt)

run_turns_awaited_example :
    Gpu.run_turns toy_chain turns (answer ∷ []) (forget level toy_miner)
    ≡ forget_all level (Cpu.run_turns toy_chain turns (answer ∷ []) toy_miner)
run_turns_awaited_example =
    run_turns_awaited toy_chain turns (answer ∷ []) toy_miner level answer-IsAwaited

-- A whole connection: the replies of the handshake, and the response to one share.
abbrev subscribed : Incoming
subscribed = record {
  id = 1;
  method = [];
  result = some (arr (item null (item (str (encode e1)) (item (num 8 0) no_items))));
  error = none;
  params = [];
}

abbrev authorized : Incoming
authorized = record { id = 2; method = []; result = some (bool true); error = none; params = [] }

abbrev messages : List Incoming
messages = subscribed ∷ authorized ∷ record answer { id = 3 } ∷ []

connect_and_mine-forget_example :
    (d : Surplus) × Ahead level d 2
    × (Gpu.connect_and_mine toy_chain turns messages (forget level toy_miner)
        ≡ forget_result d (Cpu.connect_and_mine toy_chain turns messages toy_miner))
connect_and_mine-forget_example = connect_and_mine-forget toy_chain turns messages toy_miner level

accepted_by : Result Panic (Miner × Option HandshakeError) → Option ℕ
accepted_by (ok (m, none)) = some m.accepted
accepted_by _ = none

accepted_by_gpu : Result Panic (Gpu.GpuMiner × Option HandshakeError) → Option ℕ
accepted_by_gpu (ok (m, none)) = some m.accepted
accepted_by_gpu _ = none

-- Both miners come through the handshake and count the share.
both_count :
    (accepted_by (Cpu.connect_and_mine toy_chain turns messages toy_miner) ≡ some 1)
    × (accepted_by_gpu (Gpu.connect_and_mine toy_chain turns messages (forget level toy_miner))
        ≡ some 1)
unfolding Cpu.connect_and_mine Gpu.connect_and_mine Cpu.submit_share Gpu.submit_share
    Cpu.send_request Gpu.send_request Cpu.read_message Gpu.read_message accepted_by accepted_by_gpu
    Cpu.subscribe Cpu.reset_connection Cpu.authorize Cpu.run_turns Gpu.subscribe
    Gpu.reset_connection Gpu.authorize Gpu.run_turns
both_count = (refl, refl)

-- A hash that is a share where the first bytes of the nonce and of the extra nonce 2 agree.
abbrev matching_hash : Bytes → Bytes
matching_hash header =
    (if eq_bytes (slice header 140 141) (slice header 148 149) then 3 else 200) ∷ replicate 31 0

-- The host finds the nonce of the first header only.
abbrev first_only : ℕ → Option ℕ
first_only zero = some 0
first_only (suc k) = none

abbrev all_checked : ℕ → ℕ
all_checked k = 4294967296

first_hits :
    (k nonce : ℕ)
    → first_only k ≡ some nonce
    → is_hit matching_hash toy_job first_only all_checked k nonce ≡ true
unfolding classify_solution solved_header le_bytes le_value copy_at assemble version prev_block
    partial_header timestamp
first_hits zero nonce e =
    subst (λ n. is_hit matching_hash toy_job first_only all_checked 0 n ≡ true)
      (some-injective 0 nonce e) refl
first_hits (suc k) nonce e = cc e

next_misses :
    (k nonce : ℕ)
    → first_only k ≡ some nonce
    → is_hit matching_hash toy_job first_only all_checked (k + 1) nonce ≡ false
unfolding classify_solution solved_header le_bytes le_value copy_at assemble version prev_block
    partial_header timestamp
next_misses zero nonce e =
    subst (λ n. is_hit matching_hash toy_job first_only all_checked 1 n ≡ false)
      (some-injective 0 nonce e) refl
next_misses (suc k) nonce e = cc e

old_misses :
    (nonce : ℕ)
    → some 7 ≡ some nonce
    → is_hit matching_hash toy_job first_only all_checked 0 nonce ≡ false
unfolding classify_solution solved_header le_bytes le_value copy_at assemble version prev_block
    partial_header timestamp
old_misses nonce e =
    subst (λ n. is_hit matching_hash toy_job first_only all_checked 0 n ≡ false)
      (some-injective 7 nonce e) refl

mine_sweeps-reports_example :
    (mine_sweeps matching_hash toy_job (solution 4294967296 0 ∷ searched 4294967296 ∷ [])).found
    ≡ record { extra_nonce2 = le_bytes 8 0; nonce = 0 } ∷ []
mine_sweeps-reports_example =
    mine_sweeps-reports matching_hash toy_job first_only all_checked 2 first_hits (omega arith)

mine_sweeps_behind_example :
    (mine_sweeps matching_hash toy_job
      (solution 64 7 ∷ solution 4294967296 0 ∷ searched 4294967296 ∷ [])).found
    ≡ []
mine_sweeps_behind_example =
    mine_sweeps_behind matching_hash toy_job first_only all_checked 2 (some 7) 64 old_misses
      next_misses (omega arith)

abbrev reported : SolutionMessage
reported = record { nonce = 50; header = []; nonces_checked = 20 }

-- A report waits, is taken, and the next one waits.
abbrev host_day : List HostStep
host_day =
    prints (solution_line reported)
    ∷ prints other_line
    ∷ takes_solution
    ∷ prints (solution_line (record reported { nonce = 60 }))
    ∷ prints (searched_line 64)
    ∷ []

abbrev host_after : GpuHost
host_after = record {
  stdin = true;
  solutions = record reported { nonce = 60 } ∷ [];
  progress = [];
  searched = 64 ∷ [];
  reading = true;
  sent = [];
  taken_solutions = reported ∷ [];
  taken_searched = [];
  events = solution 20 50 ∷ [];
}

run_host-start_gpu_host_example :
    IsHost (reported_solutions host_day) (reported_searched host_day) host_after
unfolding run_host start_gpu_host
run_host-start_gpu_host_example = run_host-start_gpu_host host_day host_after refl

-- ===== src/Examples/MinerAt.antt =====
-- The miner's jobs, search and session at concrete inputs.
use mathlib.Core.List.{List, Mem}
use monetarium_stratum.Prelude.{
  ℕ, Option, get_elem?, leb, ltb, ◌&&◌, if◌then◌else◌, ◌+◌, ◌≡◌, ◌∙◌, refl, true, none, some, [],
  ◌∷◌, ◌++◌, arith, length, All, Distinct, map, ok, err, List, Result, ◌≤◌, replicate, pos,
}
use monetarium_stratum.Bytes.Slice.{Bytes, IsByte, copy_at}
use monetarium_stratum.Bytes.Endian.{le_bytes, le_value}
use monetarium_stratum.Bytes.Text.{codes}
use monetarium_stratum.Mining.Evaluate.{evaluate_submit}
use monetarium_stratum.Stratum.Protocol.{
  method_set_difficulty, null, bool, num, str, arr, item, no_items,
}
use monetarium_stratum.Miner.Job.{Job, to_target_bytes, classify_solution}
use monetarium_stratum.Miner.Job.Compare.{flags, classify_solution-evaluate}
use monetarium_stratum.Miner.Search.{mine_job, place_nonces}
use monetarium_stratum.Miner.Search.Positions.{positions_disjoint}
use monetarium_stratum.Miner.Search.Shares.{IsShare}
use monetarium_stratum.Miner.Search.Header.{get_elem?-place_nonces}
use monetarium_stratum.Miner.Search.Complete.{IsJobByte, nonces_of, found_every_share}
use monetarium_stratum.Miner.Worker.{
  idle, mining, bumps, stores, loads_job, loads_gen, tests, run_board,
}
use monetarium_stratum.Miner.Worker.Stale.{stale_job_goes_on}
use monetarium_stratum.Miner.Session.{Incoming, Miner, read_message, submit_share}
use monetarium_stratum.Miner.Session.{
  Attempt, dial_failed, connected, run_miner, new_miner, subscribe, reset_connection, authorize,
  send_request, run_turns, reads, submits, Panic,
}
use monetarium_stratum.Miner.Session.Lifetime.{run_miner-new_miner}
use monetarium_stratum.Miner.Session.Accounting.{started, submitted, IsMining-counts}
use monetarium_stratum.Miner.Gpu.Sweep.{HostEvent, progress, solution, mine_sweeps}
use monetarium_stratum.Miner.Gpu.Checks.{mine_sweeps-IsShare}
use monetarium_stratum.Miner.Gpu.Fresh.{mine_sweeps-Distinct}
use monetarium_stratum.Examples.Base.{toy_chain, toy_hash, toy_miner, all_bytes, all_bytes→All}

abbrev sum : Bytes
sum = 3 ∷ replicate 31 0

abbrev hundred_be : Bytes
hundred_be = replicate 31 0 ++ 100 ∷ []

abbrev five_be : Bytes
five_be = replicate 31 0 ++ 5 ∷ []

sum_bytes : All IsByte sum
unfolding all_bytes
sum_bytes = all_bytes→All sum refl

hundred_bytes : All IsByte hundred_be
unfolding all_bytes
hundred_bytes = all_bytes→All hundred_be refl

abbrev toy_job : Job
toy_job = record {
  job_id = codes "1";
  height = 0;
  header = replicate 180 0;
  ntime = replicate 4 0;
  share_target_be = hundred_be;
  block_target_be = five_be;
}

classify_solution-evaluate_example :
    classify_solution sum hundred_be five_be
    ≡ flags (evaluate_submit (pos (le_value sum)) (pos 100) (pos 5))
unfolding to_target_bytes le_bytes
classify_solution-evaluate_example =
    classify_solution-evaluate sum hundred_be five_be 100 5 refl sum_bytes refl refl

abbrev one : ℕ
one = 1

positions_disjoint_example : (one ≡ 1) × (one ≡ 1)
positions_disjoint_example =
    positions_disjoint toy_hash 2 toy_job 1 1 1 1 (omega arith) (omega arith) (omega arith)
      (omega arith) refl refl

-- The second thread's header at its fourth nonce.
abbrev fourth : Bytes
fourth = place_nonces toy_job.header (le_bytes 8 1) 3

outside :
    (i : ℕ) (e n d : Option ℕ)
    → IsJobByte i
    → (if leb 148 i && ltb i 156 then e else if leb 140 i && ltb i 144 then n else d) ≡ d
outside i e n d j = ground arith

fourth_same : (i : ℕ) → IsJobByte i → get_elem? fourth i ≡ get_elem? toy_job.header i
unfolding le_bytes
fourth_same i j =
    get_elem?-place_nonces toy_job.header (le_bytes 8 1) 3 i refl refl ∙ outside i _ _ _ j

found_every_share_example : Mem (nonces_of fourth) (mine_job toy_hash 2 toy_job 1 4).found
unfolding toy_hash place_nonces le_bytes le_value copy_at all_bytes to_target_bytes
found_every_share_example =
    found_every_share toy_hash 2 toy_job refl 100 refl fourth 1 0 4 refl (all_bytes→All fourth refl)
      fourth_same refl (all_bytes→All (toy_hash fourth) refl) (omega arith) refl (omega arith)

abbrev bad_difficulty : Incoming
bad_difficulty = record {
  id = 0;
  method = method_set_difficulty;
  result = none;
  error = none;
  params = num 0 5 ∷ [];
}

abbrev one_sent : Miner
one_sent = submit_share toy_job (replicate 8 0) 3 toy_miner

IsMining-counts_example : one_sent.accepted + one_sent.rejected + length one_sent.pending ≡ 1
IsMining-counts_example =
    IsMining-counts toy_miner 1 one_sent (omega arith) (omega arith)
      (submitted 0 3 toy_job (replicate 8 0) toy_miner started)

abbrev reports : List HostEvent
reports = progress 10 ∷ solution 20 3 ∷ solution 30 200 ∷ []

mine_sweeps-IsShare_example :
    All (IsShare toy_hash toy_job) (mine_sweeps toy_hash toy_job reports).found
mine_sweeps-IsShare_example =
    mine_sweeps-IsShare toy_hash toy_job refl reports (tt, (omega arith, (omega arith, tt)))

-- The first of the two solutions is submitted, the second is not.
reports_found :
    (mine_sweeps toy_hash toy_job reports).found
    ≡ record { extra_nonce2 = replicate 8 0; nonce = 3 } ∷ []
unfolding mine_sweeps classify_solution toy_hash le_bytes le_value copy_at
    monetarium_stratum.Miner.Gpu.Job.classify_solution
reports_found = refl

mine_sweeps-Distinct_example :
    Distinct (map (λ f. le_value f.extra_nonce2) (mine_sweeps toy_hash toy_job reports).found)
mine_sweeps-Distinct_example = mine_sweeps-Distinct toy_hash toy_job reports (omega arith)

stale_job_goes_on_example :
    run_board (bumps toy_job ∷ loads_job ∷ loads_gen ∷ stores ∷ tests ∷ tests ∷ []) (record {
      gen = 4;
      current_job = some (record toy_job { job_id = codes "0" });
      storing = none;
      worker = idle;
    })
    ≡ some (record {
      gen = 5;
      current_job = some toy_job;
      storing = none;
      worker = mining (record toy_job { job_id = codes "0" }) 5;
    })
stale_job_goes_on_example = stale_job_goes_on 2 4 (record toy_job { job_id = codes "0" }) toy_job

-- A failed dial, and a connection on which one of two shares is answered.
abbrev attempts : List Attempt
attempts =
    dial_failed
    ∷ connected
        (record {
          id = 1;
          method = [];
          result = some (arr (item null (item (str (codes "01000000")) (item (num 8 0) no_items))));
          error = none;
          params = [];
        }
          ∷ record { id = 2; method = []; result = some (bool true); error = none; params = [] }
          ∷ record { id = 3; method = []; result = none; error = none; params = [] }
          ∷ [])
        (submits toy_job (replicate 8 0) 3 ∷ submits toy_job (replicate 8 0) 4 ∷ reads ∷ [])
    ∷ []

abbrev survivor : Result Panic Miner → Miner
survivor (ok m) = m
survivor (err p) = new_miner [] []

abbrev after_attempts : Miner
after_attempts = survivor (run_miner toy_chain attempts (new_miner (codes "w") []))

attempts_run : run_miner toy_chain attempts (new_miner (codes "w") []) ≡ ok after_attempts
unfolding run_miner new_miner subscribe authorize send_request reset_connection run_turns
    submit_share read_message
attempts_run = refl

run_miner-new_miner_example :
    after_attempts.accepted + after_attempts.rejected + length after_attempts.pending ≤ 2
run_miner-new_miner_example =
    run_miner-new_miner toy_chain (codes "w") [] attempts after_attempts attempts_run

both_counted : (after_attempts.accepted ≡ 1) × (length after_attempts.pending ≡ 1)
unfolding run_miner new_miner subscribe authorize send_request reset_connection run_turns
    submit_share read_message
both_counted = (refl, refl)

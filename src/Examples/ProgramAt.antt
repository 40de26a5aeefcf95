-- ===== src/Examples/ProgramAt.antt =====
-- A client's queue, the wait for the node, and the event loop of the program, at concrete inputs.
use monetarium_stratum.Prelude.{
  ℕ, zero, suc, ◌≤◌, ◌<◌, ◌≡◌, ◌⊎◌, refl, Bool, true, false, none, some, List, [], ◌∷◌, ◌++◌, arith,
  length, replicate, ok, err, negsuc, Option, inl, inr, Result,
}
use monetarium_stratum.Bytes.Hex.{decode}
use monetarium_stratum.Mining.Evaluate.{share_target}
use monetarium_stratum.Bytes.Text.{codes}
use monetarium_stratum.Stratum.Protocol.{Message, response, new_response, bool}
use monetarium_stratum.Stratum.Queue.{sends_size, Pipe, PipeStep, sends, writes, new_pipe, run_pipe}
use monetarium_stratum.Stratum.Queue.Fifo.{accepted, run_pipe-new_pipe}
use monetarium_stratum.Stratum.Queue.Blocks.{run_pipe_holds}
use monetarium_stratum.Node.Client.{
  NodeAnswer, answered, rpc_error, wait_for_node, refused, connect_node, get_work, handle_work,
  new_node_client,
}
use monetarium_stratum.Node.Retries.{
  IsRetried, served, wait_for_node_returns, connect_node_delivers,
}
use monetarium_stratum.Program.Loop.{
  Pool, Halt, waits, PoolStep, delivers, takes_work, tells, take_work, install_work, send_next,
  joins, ticks, signals, new_pool, run, pool_step,
}
use monetarium_stratum.Stratum.Server.{
  connect, new_server, send_work, enqueue, update_client, queue,
}
use monetarium_stratum.Mining.Manager.{reason_new_txns, set_current, new_work_manager}
use monetarium_stratum.Mining.Work.{new_work}
use monetarium_stratum.Program.Served.{Runs, delivered}
use monetarium_stratum.Program.Order.{run-new_pool}
use monetarium_stratum.Examples.Base.{toy_chain}

abbrev yes_to : ℕ → Message
yes_to n = response (new_response n (bool true))

abbrev schedule : List PipeStep
schedule = sends (yes_to 1) ∷ sends (yes_to 2) ∷ writes ∷ sends (yes_to 3) ∷ []

abbrev two_wait : Pipe
two_wait = record {
  sends = yes_to 2 ∷ yes_to 3 ∷ [];
  written = yes_to 1 ∷ [];
  lost = [];
  writing = true;
  quit = false;
}

run_pipe-new_pipe_example :
    (two_wait.written ++ two_wait.lost ++ two_wait.sends ≡ accepted schedule)
    × (length two_wait.sends ≤ sends_size)
unfolding run_pipe new_pipe
run_pipe-new_pipe_example = run_pipe-new_pipe schedule two_wait refl

abbrev failed_pipe : Pipe
failed_pipe = record two_wait { writing = false }

run_pipe_holds_example : (two_wait.written ≡ two_wait.written) × (3 ≤ sends_size)
unfolding run_pipe
run_pipe_holds_example =
    run_pipe_holds (sends (yes_to 4) ∷ []) failed_pipe
      (record failed_pipe { sends = yes_to 2 ∷ yes_to 3 ∷ yes_to 4 ∷ [] }) refl refl (omega arith)
      refl refl

-- A node that is downloading blocks at the first two calls.
abbrev answers : ℕ → NodeAnswer
answers zero = rpc_error (negsuc 9)
answers (suc zero) = rpc_error (negsuc 8)
answers (suc (suc i)) = answered (codes "00") (codes "01")

abbrev goes_on : ℕ → Bool
goes_on i = false

two-IsRetried : (j : ℕ) → j < 2 → IsRetried (negsuc 8) (negsuc 9) answers goes_on j
unfolding get_work
two-IsRetried zero h = (refused (negsuc 9), refl, inr refl, refl)
two-IsRetried (suc zero) h = (refused (negsuc 8), refl, inl refl, refl)
two-IsRetried (suc (suc j)) h = absurd (omega arith)

wait_for_node_returns_example :
    wait_for_node (negsuc 8) (negsuc 9) answers goes_on 5 0 ≡ some (3, ok tt)
unfolding get_work decode
wait_for_node_returns_example =
    wait_for_node_returns (negsuc 8) (negsuc 9) answers goes_on 2 5 (ok tt) two-IsRetried
      (served (0 ∷ [], 1 ∷ []) refl) (omega arith)

connect_node_delivers_example :
    connect_node (negsuc 8) (negsuc 9) answers goes_on 5 true true new_node_client
    ≡ some (
        ok (record new_node_client {
          work = record { data_blob = 0 ∷ []; reason = reason_new_txns } ∷ [];
        }))
unfolding get_work decode new_node_client
connect_node_delivers_example =
    connect_node_delivers (negsuc 8) (negsuc 9) answers goes_on 2 5 (0 ∷ [], 1 ∷ [])
      (0 ∷ [], 1 ∷ []) new_node_client two-IsRetried refl refl (omega arith) (omega arith)

abbrev day : List PoolStep
day =
    joins
    ∷ delivers (replicate 192 0) (codes "NewTxns")
    ∷ takes_work
    ∷ tells
    ∷ tells
    ∷ tells
    ∷ ticks
    ∷ signals
    ∷ []

run-new_pool_example :
    (run toy_chain day (new_pool 10 1 [] 16) ≡ err waits)
    ⊎ ((p : Pool) × (run toy_chain day (new_pool 10 1 [] 16) ≡ ok p)
        × Runs toy_chain 10 1 [] 16 8 (delivered day) p)
unfolding share_target
run-new_pool_example = run-new_pool toy_chain 10 1 [] 16 100 refl day (omega arith)

abbrev work_taken : Result Halt Pool → Option (Bool × ℕ × ℕ)
work_taken (ok p) = some (p.running, p.server.work_mgr.seq, length p.reports)
work_taken (err h) = none

-- The schedule does not wait: the work is taken and sent, reported on, and the loop returns.
day_ends : work_taken (run toy_chain day (new_pool 10 1 [] 16)) ≡ some (false, 1, 1)
unfolding run new_pool pool_step handle_work new_node_client take_work install_work send_next
    send_work enqueue update_client queue set_current connect new_server new_work_manager new_work
day_ends = refl

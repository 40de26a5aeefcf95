-- ===== src/Miner/Worker.antt =====
-- cmd/cpuminer/miner.go and stratum.go: `hashWorker` beside the `handleNotify` of the read loop, one
-- atomic access of a shared variable at a time. The GPU miner has the same two functions. A step that
-- is none is one that its goroutine is not at.
use monetarium_stratum.Prelude.{
  ℕ, ◌+◌, ◌%◌, ◌^◌, Option, none, some, List, [], ◌∷◌, ◌==◌, if◌then◌else◌,
}
use monetarium_stratum.Miner.Job.{Job}
pub mod Stale

-- Where a worker is: before its loads, between them, or in `mineJob`.
pub data Phase : Type 0 where
  idle : Phase
  has_job : Job → Phase
  mining : Job → ℕ → Phase

-- The shared variables, the job that `handleNotify` built and has not stored yet, and one worker.
pub record Board : Type 0 where
  pub gen : ℕ  -- uint64
  pub current_job : Option Job
  pub storing : Option Job
  pub worker : Phase

-- `m.gen.Add(1)` in `handleNotify`
unfoldable pub bump : Job → Board → Option Board
bump job b = elim b.storing [
  | none ↦ some (record b { gen = (b.gen + 1) % 2 ^ 64; storing = some job })
  | some other ↦ none
]

-- `m.currentJob.Store(job)` in `handleNotify`
unfoldable pub store : Board → Option Board
store b = elim b.storing [
  | none ↦ none
  | some job ↦ some (record b { current_job = some job; storing = none })
]

-- `job := m.currentJob.Load()` in `hashWorker`; without a job it waits and comes back.
load_job_at : Option Job → Phase → Board → Option Board
load_job_at none idle b = some b
load_job_at (some job) idle b = some (record b { worker = has_job job })
load_job_at _ _ b = none

unfoldable pub load_job : Board → Option Board
unfolding load_job_at
load_job b = load_job_at b.current_job b.worker b

-- `gen := m.gen.Load()` in `hashWorker`, and the call of `mineJob`.
load_gen_at : Phase → Board → Option Board
load_gen_at (has_job job) b = some (record b { worker = mining job b.gen })
load_gen_at _ b = none

unfoldable pub load_gen : Board → Option Board
unfolding load_gen_at
load_gen b = load_gen_at b.worker b

-- The test of the generation before a round of `mineJob`: on with the job, or back to the loads.
test_gen_at : Phase → Board → Option Board
test_gen_at (mining job gen) b =
    some (record b { worker = if b.gen == gen then mining job gen else idle })
test_gen_at _ b = none

unfoldable pub test_gen : Board → Option Board
unfolding test_gen_at
test_gen b = test_gen_at b.worker b

pub data BoardStep : Type 0 where
  bumps : Job → BoardStep
  stores loads_job loads_gen tests : BoardStep

unfoldable pub board_step : BoardStep → Board → Option Board
unfolding bump store load_job load_gen test_gen
board_step (bumps job) b = bump job b
board_step stores b = store b
board_step loads_job b = load_job b
board_step loads_gen b = load_gen b
board_step tests b = test_gen b

unfoldable pub run_board : List BoardStep → Board → Option Board
unfolding board_step
run_board [] b = some b
run_board (e ∷ es) b = elim (board_step e b) [ none ↦ none | some b' ↦ run_board es b' ]

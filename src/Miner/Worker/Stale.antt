-- ===== src/Miner/Worker/Stale.antt =====
-- Which job a worker mines after a notification.
use monetarium_stratum.Prelude.{
  ℕ, zero, suc, ◌+◌, ◌%◌, ◌^◌, ◌≡◌, ◌≢◌, refl, ◌∙◌, true, false, Option, none, some, [], ◌∷◌, ◌==◌,
  replicate, arith,
}
use monetarium_stratum.Miner.Job.{Job}
use monetarium_stratum.Miner.Worker.{
  idle, mining, Board, bump, store, load_job, load_gen, test_gen, bumps, stores, loads_job,
  loads_gen, tests, board_step, run_board,
}

same_gen : (n : ℕ) → (n == n) ≡ true
same_gen n = ground arith

-- A worker at the current generation goes on with its job.
goes_on :
    (rounds gen : ℕ) (current : Option Job) (job : Job)
    → run_board
        (replicate rounds tests)
        (record { gen = gen; current_job = current; storing = none; worker = mining job gen })
      ≡ some (record { gen = gen; current_job = current; storing = none; worker = mining job gen })
unfolding run_board board_step test_gen
goes_on zero gen current job = refl
goes_on (suc rounds) gen current job =
    let b : Board = record {
      gen = gen;
      current_job = current;
      storing = none;
      worker = mining job gen;
    } in
    let one : board_step tests b ≡ some b = rw (same_gen gen) refl in
    let next : run_board (tests ∷ replicate rounds tests) b ≡ run_board (replicate rounds tests) b =
      simp (run_board, one) in
    next ∙ goes_on rounds gen current job

-- A notification raises the generation before it stores its job, and a worker loads the job before
-- the generation. A worker that makes both loads between the two takes the old job for one of the new
-- generation, and mines it for any number of rounds, while the new job is current.
pub stale_job_goes_on :
    (rounds gen : ℕ) (old new : Job)
    → run_board
        (bumps new ∷ loads_job ∷ loads_gen ∷ stores ∷ replicate rounds tests)
        (record { gen = gen; current_job = some old; storing = none; worker = idle })
      ≡ some (record {
        gen = (gen + 1) % 2 ^ 64;
        current_job = some new;
        storing = none;
        worker = mining old ((gen + 1) % 2 ^ 64);
      })
unfolding run_board board_step bump store load_job load_gen
stale_job_goes_on rounds gen old new = goes_on rounds ((gen + 1) % 2 ^ 64) (some new) old

-- Without such loads: a worker that mines at any generation but the new one leaves its job at its next
-- test after a notification, and mines the new job at the new generation.
pub new_job_is_taken :
    (gen at : ℕ) (old : Option Job) (before new : Job)
    → ((gen + 1) % 2 ^ 64) ≢ at
    → run_board
        (bumps new ∷ stores ∷ tests ∷ loads_job ∷ loads_gen ∷ [])
        (record { gen = gen; current_job = old; storing = none; worker = mining before at })
      ≡ some (record {
        gen = (gen + 1) % 2 ^ 64;
        current_job = some new;
        storing = none;
        worker = mining new ((gen + 1) % 2 ^ 64);
      })
unfolding run_board board_step bump store load_job load_gen test_gen
new_job_is_taken gen at old before new ne =
    let other : ((gen + 1) % 2 ^ 64 == at) ≡ false = ground (arith, ne) in
    let b : Board = record {
      gen = (gen + 1) % 2 ^ 64;
      current_job = some new;
      storing = none;
      worker = mining before at;
    } in
    let one : board_step tests b ≡ some (record b { worker = idle }) = rw other refl in
    let next : run_board (tests ∷ loads_job ∷ loads_gen ∷ []) b
        ≡ run_board (loads_job ∷ loads_gen ∷ []) (record b { worker = idle }) =
      simp (run_board, one) in
    next

-- ===== src/Miner/Gpu/Fresh.antt =====
-- One run of the GPU miner's `mineJob` never submits twice for one extra nonce 2.
use monetarium_stratum.Prelude.{
  ℕ, ◌+◌, ◌%◌, ◌^◌, ◌≤◌, ◌<◌, ◌≡◌, ◌≢◌, List, [], ◌∷◌, ◌++◌, map, arith, Bool-cases, inl, inr,
  length, All, Distinct,
}
use monetarium_stratum.Bytes.Slice.{Bytes}
use monetarium_stratum.Bytes.Endian.{le_bytes, le_value, le_value-le_bytes}
use monetarium_stratum.Miner.Job.{Job}
use monetarium_stratum.Miner.Gpu.Job.{classify_solution}
use monetarium_stratum.Miner.Search.{Found}
use monetarium_stratum.Miner.Gpu.Sweep.{
  HostEvent, progress, searched, solution, Sweep, solved_header, on_solution, on_event, mine_sweeps,
  run_events, count_hashes, next_sweep, send_sweep,
}

abbrev numbers : List Found → List ℕ
numbers fs = map (λ f. le_value f.extra_nonce2) fs

-- Every submission is for an extra nonce 2 below `k`, and no two are for the same.
Below : ℕ → List Found → Type 0
Below k fs = All (λ n. n < k) (numbers fs) × Distinct (numbers fs)

All-lt : (k : ℕ) (ns : List ℕ) → All (λ n. n < k) ns → All (λ n. n < k + 1) ns
All-lt k [] h = tt
All-lt k (n ∷ ns) h = (omega arith, All-lt k ns (h.1))

lt-snoc :
    (k : ℕ) (fs : List Found) (f : Found)
    → le_value f.extra_nonce2 ≡ k
    → All (λ n. n < k) (numbers fs)
    → All (λ n. n < k + 1) (numbers (fs ++ f ∷ []))
lt-snoc k [] f e h = (omega arith, tt)
lt-snoc k (g ∷ fs) f e h = (omega (arith, h.0), lt-snoc k fs f e (h.1))

ne-snoc :
    (k m : ℕ) (fs : List Found) (f : Found)
    → le_value f.extra_nonce2 ≡ k
    → m < k
    → All (λ n. m ≢ n) (numbers fs)
    → All (λ n. m ≢ n) (numbers (fs ++ f ∷ []))
ne-snoc k m [] f e lt h = (λ same. absurd (omega arith), tt)
ne-snoc k m (g ∷ fs) f e lt h = (h.0, ne-snoc k m fs f e lt (h.1))

Distinct-snoc :
    (k : ℕ) (fs : List Found) (f : Found)
    → le_value f.extra_nonce2 ≡ k
    → All (λ n. n < k) (numbers fs)
    → Distinct (numbers fs)
    → Distinct (numbers (fs ++ f ∷ []))
Distinct-snoc k [] f e lt h = (tt, tt)
Distinct-snoc k (g ∷ fs) f e lt h =
    (ne-snoc k (le_value g.extra_nonce2) fs f e (lt.0) (h.0), Distinct-snoc k fs f e (lt.1) (h.1))

module _ (blake3 : Bytes → Bytes) (job : Job) where
  solution-Below :
      (nonce : ℕ) (s : Sweep)
      → s.extra_nonce2 < 2 ^ 64
      → Below s.extra_nonce2 s.found
      → Below
          (s.extra_nonce2 + 1)
          (on_solution blake3 job (le_bytes 8 s.extra_nonce2) nonce s).found
  unfolding on_solution Below
  solution-Below nonce s fits h =
      let e = le_bytes 8 s.extra_nonce2 in
      let value : le_value e ≡ s.extra_nonce2 = le_value-le_bytes 8 s.extra_nonce2 (omega arith) in
      let f : Found = record { extra_nonce2 = e; nonce = nonce } in
      elim (Bool-cases (
        (classify_solution (blake3 (solved_header job e nonce)) job.share_target_be
          job.block_target_be).0)) [
            | inl hit ↦ rw hit (
              lt-snoc s.extra_nonce2 s.found f value (h.0),
              Distinct-snoc s.extra_nonce2 s.found f value (h.0) (h.1),
            )
            | inr miss ↦ rw miss (All-lt s.extra_nonce2 (numbers s.found) (h.0), h.1)
          ]

  -- The number of the sweep, which no event takes past the number of events.
  record Swept (n : ℕ) (s : Sweep) : Type 0 where
    counted : s.extra_nonce2 ≤ n
    fresh : Below s.extra_nonce2 s.found

  on_event-Swept :
      (n : ℕ) (event : HostEvent) (s : Sweep)
      → n + 1 < 2 ^ 64
      → Swept n s
      → Swept (n + 1) (on_event blake3 job event s)
  unfolding on_event count_hashes next_sweep send_sweep Below
  on_event-Swept n (progress k) s fits h = record {
    counted = omega (arith, h.counted);
    fresh = h.fresh;
  }
  on_event-Swept n (searched k) s fits h =
      let next : (s.extra_nonce2 + 1) % 2 ^ 64 ≡ s.extra_nonce2 + 1 = omega (arith, h.counted) in
      record {
        counted = omega (arith, h.counted);
        fresh = rw next (All-lt s.extra_nonce2 (numbers s.found) (h.fresh.0), h.fresh.1);
      }
  on_event-Swept n (solution k nonce) s fits h =
      let next : (s.extra_nonce2 + 1) % 2 ^ 64 ≡ s.extra_nonce2 + 1 = omega (arith, h.counted) in
      record {
        counted = omega (arith, h.counted);
        fresh = rw next (solution-Below nonce s (omega (arith, h.counted)) h.fresh);
      }

  run_events-Swept :
      (n : ℕ) (events : List HostEvent) (s : Sweep)
      → n + length events < 2 ^ 64
      → Swept n s
      → Swept (n + length events) (run_events blake3 job events s)
  unfolding run_events
  run_events-Swept n [] s fits h = record { counted = omega (arith, h.counted); fresh = h.fresh }
  run_events-Swept n (event ∷ events) s fits h =
      let r =
        run_events-Swept (n + 1) events (on_event blake3 job event s) (omega arith)
          (on_event-Swept n event s (omega arith) h) in
      record { counted = omega (arith, r.counted); fresh = r.fresh }

  -- While fewer than 2 ^ 64 events come, the submissions of one run of the GPU miner's `mineJob` have
  -- different extra nonces 2. (The worker may run it again for the same job, and each run starts at
  -- extra nonce 2 zero.)
  pub mine_sweeps-Distinct :
      (events : List HostEvent)
      → length events < 2 ^ 64
      → Distinct (map (λ f. le_value f.extra_nonce2) (mine_sweeps blake3 job events).found)
  unfolding mine_sweeps send_sweep Below
  mine_sweeps-Distinct events fits =
      (run_events-Swept 0 events _ (omega arith)
        (record { counted = omega arith; fresh = (tt, tt) })).fresh.1

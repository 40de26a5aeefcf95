-- ===== src/Miner/Gpu/Checks.antt =====
-- What the GPU miner submits, whatever its host reports, and what it asks of the host.
use mathlib.Core.List.{reverse, reverse-reverse}
use monetarium_stratum.Prelude.{
  ℕ, ◌^◌, ◌<◌, ◌≡◌, sym, ap, ◌∙◌, subst, true, some, List, [], ◌∷◌, arith, Bool-cases, inl, inr,
  length, All, get_elem?_ext,
}
use monetarium_stratum.Bytes.Slice.{Bytes, IsByte, copy_range, length-copy_at}
use monetarium_stratum.Bytes.Splice.{get_elem?-copy_range}
use monetarium_stratum.Bytes.Endian.{
  le_bytes, le_value, length-le_bytes, le_bytes-All, le_bytes-le_value,
}
use monetarium_stratum.Bytes.Hex.{decode, decode-encode}
use monetarium_stratum.Miner.Job.Compare.{be_value, be_value-reverse, reverse-All}
use monetarium_stratum.Miner.Job.{Job, header_len}
use monetarium_stratum.Miner.Search.{place_nonces}
use monetarium_stratum.Miner.Search.Header.{get_elem?-place_nonces}
use monetarium_stratum.Miner.Search.Shares.{IsShare, snoc-All}
use monetarium_stratum.Miner.Gpu.Job.{classify_solution as gpu_classify_solution}
use monetarium_stratum.Miner.Gpu.Copies.{classify_solution-copy}
use monetarium_stratum.Miner.Gpu.Sweep.{
  HostEvent, progress, searched, solution, Sweep, solved_header, on_solution, on_event, mine_sweeps,
  run_events, count_hashes, next_sweep, send_sweep, share_target_hex,
}

-- The order of the two copies does not matter.
solved_header-place_nonces :
    (job : Job) (e : Bytes) (n : ℕ)
    → length job.header ≡ header_len
    → length e ≡ 8
    → All IsByte e
    → solved_header job e n ≡ place_nonces job.header e n
unfolding solved_header
solved_header-place_nonces job e n sized le he =
    let back : le_bytes 8 (le_value e) ≡ e =
      subst (λ k. le_bytes k (le_value e) ≡ e) le (le_bytes-le_value e he) in
    let h1 = copy_range 148 156 job.header e in
    let l1 : length h1 ≡ 180 = length-copy_at 148 job.header _ ∙ sized in
    let ln : length (le_bytes 4 n) ≡ 4 = length-le_bytes 4 n in
    rw back (
      get_elem?_ext _ _ λ i. ground (
        arith,
        get_elem?-place_nonces job.header e n i sized le,
        get_elem?-copy_range 140 144 h1 (le_bytes 4 n) i (omega arith) (omega arith) (omega arith),
        get_elem?-copy_range 148 156 job.header e i (omega arith) (omega arith) (omega arith),
      ))

-- The nonce of a solution is a uint32.
abbrev pub IsEvent : HostEvent → Type 0
IsEvent (progress n) = Unit
IsEvent (searched n) = Unit
IsEvent (solution n nonce) = nonce < 2 ^ 32

module _ (blake3 : Bytes → Bytes) (job : Job) (sized : length job.header ≡ header_len) where
  on_solution-IsShare :
      (e : Bytes) (n : ℕ) (s : Sweep)
      → length e ≡ 8
      → All IsByte e
      → n < 2 ^ 32
      → All (IsShare blake3 job) s.found
      → All (IsShare blake3 job) (on_solution blake3 job e n s).found
  unfolding on_solution
  on_solution-IsShare e n s le he fits h =
      elim (Bool-cases (
        (gpu_classify_solution (blake3 (solved_header job e n)) job.share_target_be
          job.block_target_be).0)) [
            | inl yes_share ↦ rw yes_share (
                snoc-All (IsShare blake3 job) s.found (record { extra_nonce2 = e; nonce = n }) h
                  (record {
                    meets_target =
                        ap (λ x. x.0)
                          (sym (
                            classify_solution-copy (blake3 (place_nonces job.header e n))
                              job.share_target_be job.block_target_be))
                        ∙ subst
                            (λ x.
                              (gpu_classify_solution (blake3 x) job.share_target_be
                                job.block_target_be).0
                              ≡ true)
                            (solved_header-place_nonces job e n sized le he) yes_share;
                    extra_nonce2_sized = le;
                    extra_nonce2_bytes = he;
                    nonce_fits = fits;
                  }))
            | inr no_share ↦ rw no_share h
          ]

  on_event-IsShare :
      (event : HostEvent) (s : Sweep)
      → IsEvent event
      → All (IsShare blake3 job) s.found
      → All (IsShare blake3 job) (on_event blake3 job event s).found
  unfolding on_event count_hashes next_sweep send_sweep
  on_event-IsShare (progress n) s fits h = h
  on_event-IsShare (searched n) s fits h = h
  on_event-IsShare (solution n nonce) s fits h =
      on_solution-IsShare (le_bytes 8 s.extra_nonce2) nonce (count_hashes n s)
        (length-le_bytes 8 s.extra_nonce2) (le_bytes-All 8 s.extra_nonce2) fits h

  run_events-IsShare :
      (events : List HostEvent) (s : Sweep)
      → All IsEvent events
      → All (IsShare blake3 job) s.found
      → All (IsShare blake3 job) (run_events blake3 job events s).found
  unfolding run_events
  run_events-IsShare [] s fits h = h
  run_events-IsShare (event ∷ events) s fits h =
      run_events-IsShare events (on_event blake3 job event s) (fits.1)
        (on_event-IsShare event s (fits.0) h)

  -- On a job whose header has 180 bytes, and whatever its host reports, with 32 bit nonces, in
  -- whatever order: all that the GPU miner submits meets the share target of the job.
  pub mine_sweeps-IsShare :
      (events : List HostEvent)
      → All IsEvent events
      → All (IsShare blake3 job) (mine_sweeps blake3 job events).found
  unfolding mine_sweeps send_sweep
  mine_sweeps-IsShare events fits = run_events-IsShare events _ fits tt

-- The target that the host is sent decodes to bytes that spell, in little endian, the number that the
-- share target of the job spells in big endian.
pub share_target_hex-decodes :
    (job : Job)
    → All IsByte job.share_target_be
    → (target : Bytes) × (decode (share_target_hex job) ≡ some target)
      × (le_value target ≡ be_value job.share_target_be)
unfolding share_target_hex
share_target_hex-decodes job bytes = (
  reverse job.share_target_be,
  decode-encode (reverse job.share_target_be) (reverse-All job.share_target_be bytes),
  sym (be_value-reverse (reverse job.share_target_be))
      ∙ ap be_value (reverse-reverse job.share_target_be),
)

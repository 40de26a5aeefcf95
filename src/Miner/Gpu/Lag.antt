-- ===== src/Miner/Gpu/Lag.antt =====
-- The sweeps against a host that searches one header after the other and reports on each: in step
-- with the miner, and behind it by a report that an earlier connection left.
use mathlib.Core.List.{append_assoc, append-nil}
use monetarium_stratum.Prelude.{
  ℕ, zero, suc, ◌+◌, ◌%◌, ◌^◌, ◌<◌, ◌≡◌, refl, sym, ap, ◌∙◌, Bool, true, false, Option, none, some,
  List, [], ◌∷◌, ◌++◌, arith, Bool-cases, Option-cases, inl, inr, if◌then◌else◌,
}
use monetarium_stratum.Bytes.Slice.{Bytes}
use monetarium_stratum.Bytes.Endian.{le_bytes}
use monetarium_stratum.Miner.Job.{Job}
use monetarium_stratum.Miner.Search.{Found}
use monetarium_stratum.Miner.Gpu.Job.{classify_solution}
use monetarium_stratum.Miner.Gpu.Sweep.{
  HostEvent, searched, solution, Sweep, solved_header, on_solution, on_event, mine_sweeps,
  run_events, count_hashes, next_sweep, send_sweep, start_sweep,
}

-- `search e` is the nonce that the host finds for the header with the extra nonce 2 `e`, and
-- `checked e` the number of nonces that it says it checked.
module _ (blake3 : Bytes → Bytes) (job : Job) (search : ℕ → Option ℕ) (checked : ℕ → ℕ) where
  abbrev pub report_of : ℕ → Option ℕ → HostEvent
  report_of n none = searched n
  report_of n (some nonce) = solution n nonce

  abbrev pub report : ℕ → HostEvent
  report e = report_of (checked e) (search e)

  -- The reports on `n` headers from the extra nonce 2 `e` on.
  abbrev pub reports : ℕ → ℕ → List HostEvent
  reports e zero = []
  reports e (suc n) = report e ∷ reports (e + 1) n

  -- Whether a nonce makes a share of the header with an extra nonce 2.
  abbrev pub is_hit : ℕ → ℕ → Bool
  is_hit e nonce =
      (classify_solution (blake3 (solved_header job (le_bytes 8 e) nonce)) job.share_target_be
        job.block_target_be).0

  abbrev pub hit : ℕ → ℕ → Found
  hit e nonce = record { extra_nonce2 = le_bytes 8 e; nonce = nonce }

  abbrev pub found_at : ℕ → Option ℕ → List Found
  found_at e none = []
  found_at e (some nonce) = hit e nonce ∷ []

  -- What the host finds for `n` headers.
  abbrev pub hits : ℕ → ℕ → List Found
  hits e zero = []
  hits e (suc n) = found_at e (search e) ++ hits (e + 1) n

  -- What a report adds to a miner that is at the extra nonce 2 `at`.
  abbrev added : ℕ → Option ℕ → List Found
  added at none = []
  added at (some nonce) = if is_hit at nonce then hit at nonce ∷ [] else []

  abbrev Adds : HostEvent → List Found → Sweep → Type 0
  Adds event fs s =
      ((on_event blake3 job event s).found ≡ s.found ++ fs)
      × ((on_event blake3 job event s).extra_nonce2 ≡ (s.extra_nonce2 + 1) % 2 ^ 64)

  on_report : (n : ℕ) (o : Option ℕ) (s : Sweep) → Adds (report_of n o) (added s.extra_nonce2 o) s
  unfolding on_event count_hashes on_solution next_sweep send_sweep
  on_report n none s = (sym (append-nil s.found), refl)
  on_report n (some nonce) s = elim (Bool-cases (is_hit s.extra_nonce2 nonce)) [
    | inl h ↦ rw h (refl, refl)
    | inr h ↦ rw h (sym (append-nil s.found), refl)
  ]

  -- In step: what the host finds is submitted.
  in_step :
      (n e : ℕ) (s : Sweep)
      → ((k nonce : ℕ) → search k ≡ some nonce → is_hit k nonce ≡ true)
      → e + n < 2 ^ 64
      → s.extra_nonce2 ≡ e
      → (run_events blake3 job (reports e n) s).found ≡ s.found ++ hits e n
  unfolding run_events
  in_step zero e s sound fits at = sym (append-nil s.found)
  in_step (suc n) e s sound fits at =
      let (found, next) = on_report (checked e) (search e) s in
      let s' = on_event blake3 job (report e) s in
      let next' : s'.extra_nonce2 ≡ e + 1 = next ∙ rw at (omega arith) in
      let here : added s.extra_nonce2 (search e) ≡ found_at e (search e) =
        rw at (elim (Option-cases (search e)) [
          | inl f ↦ rw f refl
          | inr (nonce, f) ↦ rw (f, sound e nonce f) refl
        ]) in
      in_step n (e + 1) s' sound (omega arith) next'
      ∙ ap (λ x. x ++ hits (e + 1) n) (found ∙ ap (λ x. s.found ++ x) here)
      ∙ append_assoc s.found (found_at e (search e)) (hits (e + 1) n)

  -- A report behind: no nonce that the host finds is tried with its own extra nonce 2.
  behind :
      (n e : ℕ) (s : Sweep)
      → ((k nonce : ℕ) → search k ≡ some nonce → is_hit (k + 1) nonce ≡ false)
      → e + 1 + n < 2 ^ 64
      → s.extra_nonce2 ≡ e + 1
      → (run_events blake3 job (reports e n) s).found ≡ s.found
  unfolding run_events
  behind zero e s missed fits at = refl
  behind (suc n) e s missed fits at =
      let (found, next) = on_report (checked e) (search e) s in
      let s' = on_event blake3 job (report e) s in
      let next' : s'.extra_nonce2 ≡ (e + 1) + 1 = next ∙ rw at (omega arith) in
      let here : added s.extra_nonce2 (search e) ≡ [] = rw at (elim (Option-cases (search e)) [
        | inl f ↦ rw f refl
        | inr (nonce, f) ↦ rw (f, missed e nonce f) refl
      ]) in
      behind n (e + 1) s' missed (omega arith) next'
      ∙ found
      ∙ ap (λ x. s.found ++ x) here
      ∙ append-nil s.found

  -- If the host reports on the headers in their order, beginning with the one that `mineJob` sends
  -- first, and each nonce that it reports makes a share, then every one of them is submitted, each
  -- with its extra nonce 2.
  pub mine_sweeps-reports :
      (n : ℕ)
      → ((k nonce : ℕ) → search k ≡ some nonce → is_hit k nonce ≡ true)
      → n < 2 ^ 64
      → (mine_sweeps blake3 job (reports 0 n)).found ≡ hits 0 n
  unfolding mine_sweeps send_sweep
  mine_sweeps-reports n sound fits = in_step n 0 _ sound (omega arith) refl

  -- But if a report on a header of an earlier connection comes first, then each later report meets
  -- the next extra nonce 2: unless a nonce also makes a share of that header, or of the first one,
  -- nothing that the host finds is submitted.
  pub mine_sweeps_behind :
      (n : ℕ) (old : Option ℕ) (old_checked : ℕ)
      → ((nonce : ℕ) → old ≡ some nonce → is_hit 0 nonce ≡ false)
      → ((k nonce : ℕ) → search k ≡ some nonce → is_hit (k + 1) nonce ≡ false)
      → n + 1 < 2 ^ 64
      → (mine_sweeps blake3 job (report_of old_checked old ∷ reports 0 n)).found ≡ []
  unfolding mine_sweeps send_sweep run_events
  mine_sweeps_behind n old old_checked old_missed missed fits =
      let s0 = send_sweep job (start_sweep blake3 job) in
      let (found, next) = on_report old_checked old s0 in
      let none_added : added 0 old ≡ [] = elim (Option-cases old) [
        | inl f ↦ rw f refl
        | inr (nonce, f) ↦ rw (f, old_missed nonce f) refl
      ] in
      behind n 0 (on_event blake3 job (report_of old_checked old) s0) missed (omega arith)
        (next ∙ omega arith)
      ∙ found
      ∙ none_added

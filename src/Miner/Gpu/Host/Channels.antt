-- ===== src/Miner/Gpu/Host/Channels.antt =====
-- The channels of the GPU host against the lists of its reports, and how its stop comes to hang.
use mathlib.Core.List.{append_assoc, append-nil}
use mathlib.Core.Option.{some-injective}
use monetarium_stratum.Prelude.{
  ℕ, ◌≤◌, ◌≡◌, ◌⊎◌, refl, sym, ap, ◌∙◌, subst, Option, none, some, List, [], ◌∷◌, ◌++◌, arith,
  length, length-append, ltb, Bool-cases, List-cases, inl, inr,
}
use monetarium_stratum.Miner.Gpu.Sweep.{HostEvent}
use monetarium_stratum.Miner.Gpu.Host.{
  SolutionMessage, HostLine, solution_line, progress_line, searched_line, other_line, GpuHost,
  start_gpu_host, read_line, take_solution, take_searched, take_progress, send_work, stopped,
  end_output, close_stdin, HostStep, prints, exits, takes_solution, takes_searched, takes_progress,
  closes, stops, works, host_step, run_host, solutions_size, progress_size, searched_size,
}

-- The solutions and the finished sweeps that the host reports in a step.
abbrev line_solutions : HostStep → List SolutionMessage
line_solutions (prints (solution_line msg)) = msg ∷ []
line_solutions _ = []

abbrev line_searched : HostStep → List ℕ
line_searched (prints (searched_line n)) = n ∷ []
line_searched _ = []

abbrev pub reported_solutions : List HostStep → List SolutionMessage
reported_solutions [] = []
reported_solutions (e ∷ es) = line_solutions e ++ reported_solutions es

abbrev pub reported_searched : List HostStep → List ℕ
reported_searched [] = []
reported_searched (e ∷ es) = line_searched e ++ reported_searched es

-- What was reported is what was taken, in its order, and what waits in the channels, within their
-- bounds.
pub record IsHost (sols : List SolutionMessage) (srch : List ℕ) (h : GpuHost) : Type 0 where
  pub solutions_in_order : h.taken_solutions ++ h.solutions ≡ sols
  pub searched_in_order : h.taken_searched ++ h.searched ≡ srch
  pub few_solutions : length h.solutions ≤ solutions_size
  pub few_searched : length h.searched ≤ searched_size
  pub few_progress : length h.progress ≤ progress_size

module _ (sols : List SolutionMessage) (srch : List ℕ) (h : GpuHost)
    (inv : IsHost sols srch h) where
  abbrev Goes : List SolutionMessage → List ℕ → Option GpuHost → Type 0
  Goes more_sols more_srch o =
      (o ≡ none)
      ⊎ ((h' : GpuHost) × (o ≡ some h') × IsHost (sols ++ more_sols) (srch ++ more_srch) h')

  kept : IsHost (sols ++ []) (srch ++ []) h
  kept = record {
    solutions_in_order = inv.solutions_in_order ∙ sym (append-nil sols);
    searched_in_order = inv.searched_in_order ∙ sym (append-nil srch);
    few_solutions = inv.few_solutions;
    few_searched = inv.few_searched;
    few_progress = inv.few_progress;
  }

  read_solution : (msg : SolutionMessage) → Goes (msg ∷ []) [] (read_line (solution_line msg) h)
  unfolding read_line
  read_solution msg = elim (Bool-cases (ltb (length h.solutions) solutions_size)) [
    | inl e ↦ inr (
      record h { solutions = h.solutions ++ msg ∷ [] },
      simp e,
      record {
        solutions_in_order =
            sym (append_assoc h.taken_solutions h.solutions (msg ∷ []))
            ∙ ap (λ x. x ++ msg ∷ []) inv.solutions_in_order;
        searched_in_order = inv.searched_in_order ∙ sym (append-nil srch);
        few_solutions = ground (arith, length-append h.solutions (msg ∷ []));
        few_searched = inv.few_searched;
        few_progress = inv.few_progress;
      },
    )
    | inr e ↦ inl (simp e)
  ]

  read_searched : (n : ℕ) → Goes [] (n ∷ []) (read_line (searched_line n) h)
  unfolding read_line
  read_searched n = elim (Bool-cases (ltb (length h.searched) searched_size)) [
    | inl e ↦ inr (
      record h { searched = h.searched ++ n ∷ [] },
      simp e,
      record {
        solutions_in_order = inv.solutions_in_order ∙ sym (append-nil sols);
        searched_in_order =
            sym (append_assoc h.taken_searched h.searched (n ∷ []))
            ∙ ap (λ x. x ++ n ∷ []) inv.searched_in_order;
        few_solutions = inv.few_solutions;
        few_searched = ground (arith, length-append h.searched (n ∷ []));
        few_progress = inv.few_progress;
      },
    )
    | inr e ↦ inl (simp e)
  ]

  read_progress : (n : ℕ) → Goes [] [] (read_line (progress_line n) h)
  unfolding read_line
  read_progress n = elim (Bool-cases (ltb (length h.progress) progress_size)) [
    | inl e ↦ inr (
      record h { progress = h.progress ++ n ∷ [] },
      simp e,
      record {
        solutions_in_order = kept.solutions_in_order;
        searched_in_order = kept.searched_in_order;
        few_solutions = inv.few_solutions;
        few_searched = inv.few_searched;
        few_progress = ground (arith, length-append h.progress (n ∷ []));
      },
    )
    | inr e ↦ inr (h, simp e, kept)
  ]

  takes_one_solution : Goes [] [] (take_solution h)
  unfolding take_solution
  takes_one_solution = elim (List-cases h.solutions) [
    | inl e ↦ inl (simp (take_solution, e))
    | inr (msg, rest, e) ↦ inr (
      record h {
        solutions = rest;
        taken_solutions = h.taken_solutions ++ msg ∷ [];
        events = h.events ++ HostEvent.solution msg.nonces_checked msg.nonce ∷ [];
      },
      simp (take_solution, e),
      record {
        solutions_in_order =
            append_assoc h.taken_solutions (msg ∷ []) rest
            ∙ ap (λ x. h.taken_solutions ++ x) (sym e)
            ∙ kept.solutions_in_order;
        searched_in_order = kept.searched_in_order;
        few_solutions = let b = inv.few_solutions in omega (arith, b, ap length e);
        few_searched = inv.few_searched;
        few_progress = inv.few_progress;
      },
    )
  ]

  takes_one_searched : Goes [] [] (take_searched h)
  unfolding take_searched
  takes_one_searched = elim (List-cases h.searched) [
    | inl e ↦ inl (simp (take_searched, e))
    | inr (n, rest, e) ↦ inr (
      record h {
        searched = rest;
        taken_searched = h.taken_searched ++ n ∷ [];
        events = h.events ++ HostEvent.searched n ∷ [];
      },
      simp (take_searched, e),
      record {
        solutions_in_order = kept.solutions_in_order;
        searched_in_order =
            append_assoc h.taken_searched (n ∷ []) rest
            ∙ ap (λ x. h.taken_searched ++ x) (sym e)
            ∙ kept.searched_in_order;
        few_solutions = inv.few_solutions;
        few_searched = let b = inv.few_searched in omega (arith, b, ap length e);
        few_progress = inv.few_progress;
      },
    )
  ]

  takes_one_progress : Goes [] [] (take_progress h)
  unfolding take_progress
  takes_one_progress = elim (List-cases h.progress) [
    | inl e ↦ inl (simp (take_progress, e))
    | inr (n, rest, e) ↦ inr (
      record h { progress = rest; events = h.events ++ HostEvent.progress n ∷ [] },
      simp (take_progress, e),
      record {
        solutions_in_order = kept.solutions_in_order;
        searched_in_order = kept.searched_in_order;
        few_solutions = inv.few_solutions;
        few_searched = inv.few_searched;
        few_progress = let b = inv.few_progress in omega (arith, b, ap length e);
      },
    )
  ]

  prints-Goes :
      (line : HostLine)
      → Goes
          (line_solutions (prints line))
          (line_searched (prints line))
          (host_step (prints line) h)
  unfolding host_step read_line
  prints-Goes line = elim (Bool-cases h.reading) [
    | inl e ↦
        let run : host_step (prints line) h ≡ read_line line h = simp (host_step, e) in
        subst (Goes (line_solutions (prints line)) (line_searched (prints line))) (sym run)
          (reads line)
    | inr e ↦ inl (simp (host_step, e))
  ]
    where
      reads :
          (l : HostLine)
          → Goes (line_solutions (prints l)) (line_searched (prints l)) (read_line l h)
      reads (solution_line msg) = read_solution msg
      reads (progress_line n) = read_progress n
      reads (searched_line n) = read_searched n
      reads other_line = inr (h, refl, kept)

  host_step-Goes : (e : HostStep) → Goes (line_solutions e) (line_searched e) (host_step e h)
  unfolding host_step end_output close_stdin stopped send_work
  host_step-Goes (prints line) = prints-Goes line
  host_step-Goes exits = inr (
    end_output h,
    refl,
    record {
      solutions_in_order = kept.solutions_in_order;
      searched_in_order = kept.searched_in_order;
      few_solutions = inv.few_solutions;
      few_searched = inv.few_searched;
      few_progress = inv.few_progress;
    },
  )
  host_step-Goes takes_solution = takes_one_solution
  host_step-Goes takes_searched = takes_one_searched
  host_step-Goes takes_progress = takes_one_progress
  host_step-Goes closes = inr (
    close_stdin h,
    refl,
    record {
      solutions_in_order = kept.solutions_in_order;
      searched_in_order = kept.searched_in_order;
      few_solutions = inv.few_solutions;
      few_searched = inv.few_searched;
      few_progress = inv.few_progress;
    },
  )
  host_step-Goes stops = elim (Bool-cases h.reading) [
    | inl e ↦ inl (simp e)
    | inr e ↦ inr (h, simp e, kept)
  ]
  host_step-Goes (works msg) = elim (Bool-cases h.stdin) [
    | inl e ↦ inr (
      record h { sent = h.sent ++ msg ∷ [] },
      simp e,
      record {
        solutions_in_order = kept.solutions_in_order;
        searched_in_order = kept.searched_in_order;
        few_solutions = inv.few_solutions;
        few_searched = inv.few_searched;
        few_progress = inv.few_progress;
      },
    )
    | inr e ↦ inl (simp e)
  ]

run_host-IsHost :
    (es : List HostStep) (sols : List SolutionMessage) (srch : List ℕ) (h h' : GpuHost)
    → IsHost sols srch h
    → run_host es h ≡ some h'
    → IsHost (sols ++ reported_solutions es) (srch ++ reported_searched es) h'
unfolding run_host
run_host-IsHost [] sols srch h h' inv run =
    subst (IsHost (sols ++ []) (srch ++ [])) (some-injective h h' run) (kept sols srch h inv)
run_host-IsHost (e ∷ es) sols srch h h' inv run = elim (host_step-Goes sols srch h inv e) [
  | inl w ↦ let both : none ≡ some h' = sym (simp (run_host, w)) ∙ run in cc
  | inr (h1, one, inv1) ↦
      let next : run_host es h1 ≡ some h' = sym (simp (run_host, one)) ∙ run in
      let rest =
        run_host-IsHost es (sols ++ line_solutions e) (srch ++ line_searched e) h1 h' inv1 next in
      record {
        solutions_in_order =
            rest.solutions_in_order ∙ append_assoc sols (line_solutions e) (reported_solutions es);
        searched_in_order =
            rest.searched_in_order ∙ append_assoc srch (line_searched e) (reported_searched es);
        few_solutions = rest.few_solutions;
        few_searched = rest.few_searched;
        few_progress = rest.few_progress;
      }
]

-- In whatever order the read loop and `mineJob` run: the solutions that `mineJob` took, then the one
-- in the channel, are the solutions that were read, in their order, and none is lost; likewise the
-- finished sweeps; and the three channels are within their bounds.
pub run_host-start_gpu_host :
    (es : List HostStep) (h : GpuHost)
    → run_host es start_gpu_host ≡ some h
    → IsHost (reported_solutions es) (reported_searched es) h
unfolding start_gpu_host
run_host-start_gpu_host es h run =
    run_host-IsHost es [] [] start_gpu_host h
      (record {
        solutions_in_order = refl;
        searched_in_order = refl;
        few_solutions = omega arith;
        few_searched = omega arith;
        few_progress = omega arith;
      })
      run

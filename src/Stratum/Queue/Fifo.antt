-- ===== src/Stratum/Queue/Fifo.antt =====
-- The queue of a client against the list of the messages that were put on it.
use mathlib.Core.List.{append_assoc, append-nil}
use mathlib.Core.Option.{some-injective}
use monetarium_stratum.Prelude.{
  ◌≤◌, ◌≡◌, refl, sym, ap, ◌∙◌, subst, true, false, Option, none, some, List, [], ◌∷◌, ◌++◌, arith,
  length, length-append, ltb, Bool-cases, Option-cases, inl, inr, List-cases,
}
use monetarium_stratum.Stratum.Protocol.{Message}
use monetarium_stratum.Stratum.Queue.{
  sends_size, Pipe, new_pipe, send, discard, write_next, stop_writing, close_pipe, PipeStep, sends,
  discards, writes, fails, stops, closes, pipe_step, run_pipe,
}

-- The messages that a schedule puts on the queue.
abbrev pub accepted : List PipeStep → List Message
accepted [] = []
accepted (sends msg ∷ es) = msg ∷ accepted es
accepted (e ∷ es) = accepted es

-- What the queue was given so far, in order: written, lost, or waiting.
abbrev given : Pipe → List Message
given p = p.written ++ p.lost ++ p.sends

record IsQueue (p : Pipe) : Type 0 where
  bounded : length p.sends ≤ sends_size
  none_lost : p.writing ≡ true → p.lost ≡ []

record After (before : List Message) (p : Pipe) : Type 0 where
  queue : IsQueue p
  same : given p ≡ before

-- What holds of the outcome holds of the pipe that a run comes to.
outcome :
    (before : List Message) (o : Option Pipe) (p p' : Pipe)
    → o ≡ some p'
    → o ≡ some p
    → After before p
    → After before p'
outcome before o p p' run is h = subst (After before) (some-injective p p' (sym is ∙ run)) h

pipe_step-After :
    (e : PipeStep) (p p' : Pipe)
    → pipe_step e p ≡ some p'
    → IsQueue p
    → After (given p ++ accepted (e ∷ [])) p'
unfolding pipe_step send discard write_next stop_writing close_pipe
pipe_step-After (sends msg) p p' run q = elim (Bool-cases (ltb (length p.sends) sends_size)) [
  | inl e ↦
      outcome _ _ (record p { sends = p.sends ++ msg ∷ [] }) p' run (rw e refl)
        (record {
          queue = record {
            bounded = ground (arith, length-append p.sends (msg ∷ []));
            none_lost = q.none_lost;
          };
          same = simp append_assoc;
        })
  | inr e ↦ let stuck : none ≡ some p' = sym (rw e refl) ∙ run in cc
]
pipe_step-After discards p p' run q = elim (Bool-cases p.quit) [
  | inl e ↦ outcome _ _ p p' run (rw e refl) (record { queue = q; same = simp append-nil })
  | inr e ↦ let stuck : none ≡ some p' = sym (rw e refl) ∙ run in cc
]
pipe_step-After writes p p' run q = elim (Bool-cases p.writing) [
  | inl e ↦ elim (List-cases p.sends) [
    | inl f ↦ let stuck : none ≡ some p' = sym (rw (e, f) refl) ∙ run in cc
    | inr (msg, rest, f) ↦
        outcome _ _ (record p { sends = rest; written = p.written ++ msg ∷ [] }) p' run
          (simp (e, f))
          (record {
            queue = record {
              bounded = let b = q.bounded in omega (arith, b, ap length f);
              none_lost = q.none_lost;
            };
            same = rw (q.none_lost e, f) (simp (append_assoc, append-nil));
          })
  ]
  | inr e ↦ let stuck : none ≡ some p' = sym (rw e refl) ∙ run in cc
]
pipe_step-After fails p p' run q = elim (Bool-cases p.writing) [
  | inl e ↦ elim (List-cases p.sends) [
    | inl f ↦ let stuck : none ≡ some p' = sym (rw (e, f) refl) ∙ run in cc
    | inr (msg, rest, f) ↦
        outcome _ _ (record p { sends = rest; lost = p.lost ++ msg ∷ []; writing = false }) p' run
          (simp (e, f))
          (record {
            queue = record {
              bounded = let b = q.bounded in omega (arith, b, ap length f);
              none_lost = λ h. cc h;
            };
            same = rw (q.none_lost e, f) (simp (append_assoc, append-nil));
          })
  ]
  | inr e ↦ let stuck : none ≡ some p' = sym (rw e refl) ∙ run in cc
]
pipe_step-After stops p p' run q = elim (Bool-cases p.quit) [
  | inl e ↦
      outcome _ _ (record p { writing = false }) p' run (rw e refl)
        (record {
          queue = record { bounded = q.bounded; none_lost = λ h. cc h };
          same = simp append-nil;
        })
  | inr e ↦ let stuck : none ≡ some p' = sym (rw e refl) ∙ run in cc
]
pipe_step-After closes p p' run q =
    outcome _ _ (record p { quit = true }) p' run refl
      (record {
        queue = record { bounded = q.bounded; none_lost = q.none_lost };
        same = simp append-nil;
      })

accepted_cons :
    (e : PipeStep) (es : List PipeStep) → accepted (e ∷ es) ≡ accepted (e ∷ []) ++ accepted es
accepted_cons (sends msg) es = refl
accepted_cons discards es = refl
accepted_cons writes es = refl
accepted_cons fails es = refl
accepted_cons stops es = refl
accepted_cons closes es = refl

run_pipe-After :
    (es : List PipeStep) (p p' : Pipe)
    → run_pipe es p ≡ some p'
    → IsQueue p
    → After (given p ++ accepted es) p'
unfolding run_pipe
run_pipe-After [] p p' run q =
    outcome _ (some p) p p' run refl (record { queue = q; same = simp append-nil })
run_pipe-After (e ∷ es) p p' run q = elim (Option-cases (pipe_step e p)) [
  | inl f ↦ let stuck : none ≡ some p' = sym (simp (run_pipe, f)) ∙ run in cc
  | inr (p1, f) ↦
      let one = pipe_step-After e p p1 f q in
      let rest = run_pipe-After es p1 p' (sym (simp (run_pipe, f)) ∙ run) one.queue in
      record {
        queue = rest.queue;
        same =
            rest.same
            ∙ ap (λ x. x ++ accepted es) one.same
            ∙ append_assoc (given p) (accepted (e ∷ [])) (accepted es)
            ∙ ap (λ x. given p ++ x) (sym (accepted_cons e es));
      }
]

-- In whatever order the goroutines of a client run, what its connection was given, then the message
-- of a failed write, then the channel, are together the messages that were put on the channel, in
-- their order; and the channel holds at most 128.
pub run_pipe-new_pipe :
    (es : List PipeStep) (p : Pipe)
    → run_pipe es new_pipe ≡ some p
    → (p.written ++ p.lost ++ p.sends ≡ accepted es) × (length p.sends ≤ sends_size)
unfolding new_pipe
run_pipe-new_pipe es p run =
    let a =
      run_pipe-After es new_pipe p run (record { bounded = omega arith; none_lost = λ h. refl }) in
    (a.same, a.queue.bounded)

-- ===== src/Stratum/Queue/Blocks.antt =====
-- When the queue of a client is emptied, and when it holds up those who put messages on it.
use mathlib.Core.List.{append_assoc, append-nil}
use mathlib.Core.Option.{some-injective}
use monetarium_stratum.Prelude.{
  ℕ, ◌+◌, ◌≤◌, ◌≡◌, refl, sym, ◌∙◌, subst, Bool, true, false, Option, none, some, List, [], ◌∷◌,
  ◌++◌, arith, length, length-append, ltb, Bool-cases, inl, inr, replicate,
}
use monetarium_stratum.Stratum.Protocol.{Message}
use monetarium_stratum.Stratum.Queue.{
  sends_size, Pipe, send, discard, write_next, stop_writing, PipeStep, sends, discards, writes,
  fails, stops, closes, pipe_step, run_pipe,
}
use monetarium_stratum.Stratum.Queue.Fifo.{accepted}

-- The write loop over a connection that takes its writes.
drains :
    (xs : List Message) (p : Pipe)
    → p.writing ≡ true
    → p.sends ≡ xs
    → run_pipe (replicate (length xs) writes) p
      ≡ some (record p { sends = []; written = p.written ++ xs })
unfolding run_pipe pipe_step write_next
drains [] p on is = rw (is) (simp append-nil)
drains (x ∷ xs) p on is =
    let p1 = record p { sends = xs; written = p.written ++ x ∷ [] } in
    let one : pipe_step writes p ≡ some p1 = simp (pipe_step, write_next, on, is) in
    let rest = drains xs p1 on refl in
    let next : run_pipe (writes ∷ replicate (length xs) writes) p
        ≡ run_pipe (replicate (length xs) writes) p1 =
      simp (run_pipe, one) in
    let all : some (record p1 { sends = []; written = (p.written ++ x ∷ []) ++ xs })
        ≡ some (record p { sends = []; written = p.written ++ (x ∷ xs) }) =
      simp append_assoc in
    next ∙ rest ∙ all

-- While its write loop runs and the connection takes what is written, the channel is emptied in as
-- many rounds as it holds messages, and its messages are written in their order.
pub run_pipe_drains :
    (p : Pipe)
    → p.writing ≡ true
    → run_pipe (replicate (length p.sends) writes) p
      ≡ some (record p { sends = []; written = p.written ++ p.sends })
run_pipe_drains p on = drains p.sends p on refl

-- Whether a schedule closes the client.
abbrev pub has_close : List PipeStep → Bool
has_close [] = false
has_close (closes ∷ es) = true
has_close (e ∷ es) = has_close es

record IsHeld (p : Pipe) (count : ℕ) (written : List Message) : Type 0 where
  stopped : p.writing ≡ false
  not_quit : p.quit ≡ false
  counted : length p.sends ≡ count
  same : p.written ≡ written
  bounded : length p.sends ≤ sends_size

none_runs : {p : Pipe} {o : Option Pipe} → o ≡ none → o ≡ some p → (A : Type 0) → A
none_runs e run A = let both : none ≡ some _ = sym e ∙ run in cc

held :
    (es : List PipeStep) (p p' : Pipe) (n : ℕ) (written : List Message)
    → has_close es ≡ false
    → run_pipe es p ≡ some p'
    → IsHeld p n written
    → IsHeld p' (n + length (accepted es)) written
unfolding run_pipe pipe_step send discard write_next stop_writing
held [] p p' n written safe run h =
    subst (λ x. IsHeld x (n + 0) written) (some-injective p p' run)
      (record {
        stopped = h.stopped;
        not_quit = h.not_quit;
        counted = omega (arith, h.counted);
        same = h.same;
        bounded = h.bounded;
      })
held (sends msg ∷ es) p p' n written safe run h =
    elim (Bool-cases (ltb (length p.sends) sends_size)) [
      | inl e ↦
          let p1 = record p { sends = p.sends ++ msg ∷ [] } in
          let next : run_pipe es p1 ≡ some p' = sym (simp (run_pipe, e)) ∙ run in
          let r = held es p1 p' (n + 1) written safe next (record {
            stopped = h.stopped;
            not_quit = h.not_quit;
            counted = omega (arith, h.counted, length-append p.sends (msg ∷ []));
            same = h.same;
            bounded = ground (arith, length-append p.sends (msg ∷ []));
          }) in
          subst (λ k. IsHeld p' k written) (omega arith) r
      | inr e ↦ none_runs (simp (run_pipe, e)) run _
    ]
held (discards ∷ es) p p' n written safe run h = none_runs (simp (run_pipe, h.not_quit)) run _
held (writes ∷ es) p p' n written safe run h = none_runs (simp (run_pipe, h.stopped)) run _
held (fails ∷ es) p p' n written safe run h = none_runs (simp (run_pipe, h.stopped)) run _
held (stops ∷ es) p p' n written safe run h = none_runs (simp (run_pipe, h.not_quit)) run _
held (closes ∷ es) p p' n written safe run h = cc safe

-- After a failed write, as long as the client is not closed, nothing more is written, and the channel
-- takes no more messages than it has room for: who puts one more waits.
pub run_pipe_holds :
    (es : List PipeStep) (p p' : Pipe)
    → p.writing ≡ false
    → p.quit ≡ false
    → length p.sends ≤ sends_size
    → has_close es ≡ false
    → run_pipe es p ≡ some p'
    → (p'.written ≡ p.written) × (length p.sends + length (accepted es) ≤ sends_size)
run_pipe_holds es p p' off open_still room safe run =
    let h = held es p p' (length p.sends) p.written safe run (record {
      stopped = off;
      not_quit = open_still;
      counted = refl;
      same = refl;
      bounded = room;
    }) in
    (h.same, omega (arith, h.counted, h.bounded))

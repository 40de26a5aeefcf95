-- ===== src/Program/Steps.antt =====
-- One step of the program.
use mathlib.Core.List.{append_assoc, append-nil}
use monetarium_stratum.Prelude.{
  ℕ, suc, map, ◌&&◌, ◌+◌, ◌-◌, ◌^◌, ◌≤◌, ◌<◌, ◌≡◌, refl, sym, ap, ◌∙◌, subst, Option, some, List,
  [], ◌∷◌, ◌++◌, arith, length, length-append, ltb, Bool-cases, List-cases, inl, inr, Result,
}
use monetarium_stratum.Bytes.Slice.{Bytes}
use monetarium_stratum.Mining.Chain.{Chain}
use monetarium_stratum.Mining.Evaluate.{share_target}
use monetarium_stratum.Stratum.Protocol.{Json}
use monetarium_stratum.Stratum.Server.{Server, Node, send_work}
use monetarium_stratum.Stratum.Client.{handle_message}
use monetarium_stratum.Stratum.Reachable.{reachable_runs, IsReachable-IsHealthy}
use monetarium_stratum.Stratum.Server.Health.{installs}
use monetarium_stratum.Node.Client.{
  WorkEvent, handle_work, handle_block_connected, drop_event, work_event_buffer, block_buffer,
}
use monetarium_stratum.Program.Loop.{
  Pool, Halt, Sending, idle, listing, sending_to, is_idle, to_list_clients, install_work, send_next,
  take_work, take_block, in_loop, in_node, in_server, new_block,
}
use monetarium_stratum.Program.Served.{
  IsServed, requested, taken, told, IsServed-IsReachable, Runs, Goes, keeps,
}

module _ (c : Chain) (share_difficulty divisor : ℕ) (password : Bytes) (max_clients : ℕ) where
  pub loop-Goes :
      (n : ℕ) (log : List WorkEvent) (p : Pool) (f : Pool → Result Halt Pool)
      → Goes c share_difficulty divisor password max_clients n log (f p)
      → Goes c share_difficulty divisor password max_clients n log (in_loop f p)
  unfolding in_loop
  loop-Goes n log p f h = elim (Bool-cases (p.running && is_idle p.sending)) [
    | inl e ↦
        let run : in_loop f p ≡ f p = simp (in_loop, e) in
        subst (Goes c share_difficulty divisor password max_clients n log) (sym run) h
    | inr e ↦ inl (simp (in_loop, e))
  ]

  -- A step of a goroutine of the server.
  pub server-Runs :
      (n k : ℕ) (log : List WorkEvent) (p : Pool) (s : Server)
      (r : Runs c share_difficulty divisor password max_clients n log p)
      → k ≤ suc n
      → IsServed c share_difficulty divisor password max_clients k r.works s
      → Runs c share_difficulty divisor password max_clients
          (suc n)
          (log ++ [])
          (record p { server = s })
  server-Runs n k log p s r le served = record {
    steps = k;
    works = r.works;
    in_time = le;
    served = served;
    in_order = r.in_order ∙ sym (append-nil log);
    few = r.few;
    few_blocks = r.few_blocks;
  }

  pub delivers-Goes :
      (n : ℕ) (log : List WorkEvent) (p : Pool) (blob reason : Bytes)
      → Runs c share_difficulty divisor password max_clients n log p
      → Goes c share_difficulty divisor password max_clients
          (suc n)
          (log ++ record { data_blob = blob; reason = reason } ∷ [])
          (in_node (handle_work blob reason p.node) p)
  unfolding in_node handle_work
  delivers-Goes n log p blob reason r =
      let w : WorkEvent = record { data_blob = blob; reason = reason } in
      elim (Bool-cases (ltb (length p.node.work) work_event_buffer)) [
        | inl e ↦
            let n' = record p.node { work = p.node.work ++ w ∷ [] } in
            inr (
              record p { node = n' },
              simp (in_node, e),
              record {
                steps = r.steps;
                works = r.works;
                in_time = omega (arith, r.in_time);
                served = r.served;
                in_order =
                    sym (append_assoc r.works p.node.work (w ∷ []))
                    ∙ ap (λ x. x ++ w ∷ []) r.in_order;
                few = ground (arith, length-append p.node.work (w ∷ []));
                few_blocks = r.few_blocks;
              },
            )
        | inr e ↦ inl (simp (in_node, e))
      ]

  pub block-Goes :
      (n : ℕ) (log : List WorkEvent) (p : Pool)
      → Runs c share_difficulty divisor password max_clients n log p
      → Goes c share_difficulty divisor password max_clients
          (suc n)
          (log ++ [])
          (in_node (handle_block_connected p.node) p)
  unfolding in_node handle_block_connected
  block-Goes n log p r = elim (Bool-cases (ltb p.node.blocks block_buffer)) [
    | inl e ↦
        let p' = record p { node = record p.node { blocks = p.node.blocks + 1 } } in
        inr (
          p',
          simp (in_node, e),
          keeps c share_difficulty divisor password max_clients n log p p' refl refl (ground arith)
              r,
        )
    | inr e ↦ inl (simp (in_node, e))
  ]

  pub drops-Goes :
      (n : ℕ) (log : List WorkEvent) (p : Pool)
      → Runs c share_difficulty divisor password max_clients n log p
      → Goes c share_difficulty divisor password max_clients
          (suc n)
          (log ++ [])
          (in_node (drop_event p.node) p)
  unfolding in_node drop_event
  drops-Goes n log p r = elim (Bool-cases p.node.cancelled) [
    | inl e ↦ inr (
      p,
      simp (in_node, e),
      keeps c share_difficulty divisor password max_clients n log p p refl refl r.few_blocks r,
    )
    | inr e ↦ inl (simp (in_node, e))
  ]

  pub take_block-Goes :
      (n : ℕ) (log : List WorkEvent) (p : Pool)
      → Runs c share_difficulty divisor password max_clients n log p
      → Goes c share_difficulty divisor password max_clients (suc n) (log ++ []) (take_block p)
  unfolding take_block new_block
  take_block-Goes n log p r = elim (Bool-cases (ltb 0 p.node.blocks)) [
    | inl e ↦
        let p' = record p { node = record p.node { blocks = p.node.blocks - 1 } } in
        inr (
          p',
          simp e,
          keeps c share_difficulty divisor password max_clients n log p p' refl refl
              (omega (arith, r.few_blocks)) r,
        )
    | inr e ↦ inl (simp e)
  ]

  send_to-Goes :
      (n : ℕ) (log : List WorkEvent) (p : Pool) (todo : Sending)
      → Runs c share_difficulty divisor password max_clients n log p
      → p.sending ≡ todo
      → Goes c share_difficulty divisor password max_clients (suc n) (log ++ []) (send_next p)
  unfolding send_next
  send_to-Goes n log p idle r e = inl (rw e refl)
  send_to-Goes n log p (listing w clean) r e =
      let p' = record p { sending = sending_to w clean (map (λ k. k.id) p.server.clients) } in
      inr (
        p',
        rw e refl,
        keeps c share_difficulty divisor password max_clients n log p p' refl refl r.few_blocks r,
      )
  send_to-Goes n log p (sending_to w clean []) r e =
      let p' = record p { sending = idle } in
      inr (
        p',
        rw e refl,
        keeps c share_difficulty divisor password max_clients n log p p' refl refl r.few_blocks r,
      )
  send_to-Goes n log p (sending_to w clean (id ∷ ids)) r e = inr (
    record p { server = send_work id w clean p.server; sending = sending_to w clean ids },
    rw e refl,
    record {
      steps = suc r.steps;
      works = r.works;
      in_time = omega (arith, r.in_time);
      served = told r.steps id w clean r.works p.server r.served;
      in_order = r.in_order ∙ sym (append-nil log);
      few = r.few;
      few_blocks = r.few_blocks;
    },
  )

  pub send_next-Goes :
      (n : ℕ) (log : List WorkEvent) (p : Pool)
      → Runs c share_difficulty divisor password max_clients n log p
      → Goes c share_difficulty divisor password max_clients (suc n) (log ++ []) (send_next p)
  send_next-Goes n log p r = send_to-Goes n log p p.sending r refl

  module _ (share : ℕ) (share_defined : share_target c share_difficulty ≡ some share) where
    pub take_work-Goes :
        (n : ℕ) (log : List WorkEvent) (p : Pool)
        → n < 2 ^ 32
        → Runs c share_difficulty divisor password max_clients n log p
        → Goes c share_difficulty divisor password max_clients (suc n) (log ++ []) (take_work p)
    unfolding take_work install_work
    take_work-Goes n log p fits r = elim (List-cases p.node.work) [
      | inl e ↦ inl (simp (take_work, e))
      | inr (w, rest, e) ↦
          let healthy =
            IsReachable-IsHealthy c share_difficulty divisor password max_clients share
              share_defined r.steps p.server (omega (arith, r.in_time))
              (IsServed-IsReachable c share_difficulty divisor password max_clients r.steps r.works
                p.server r.served) in
          let (q, done, _) =
            installs r.steps share_difficulty p.server w.data_blob w.reason
              (omega (arith, r.in_time)) healthy in
          inr (
            record p {
              node = record p.node { work = rest };
              server = record p.server { work_mgr = q.0 };
              sending = to_list_clients q.1 q.2;
            },
            simp (take_work, e, done),
            record {
              steps = suc r.steps;
              works = r.works ++ w ∷ [];
              in_time = omega (arith, r.in_time);
              served = taken r.steps w r.works p.server q r.served done;
              in_order =
                  append_assoc r.works (w ∷ []) rest
                  ∙ ap (λ x. r.works ++ x) (sym e)
                  ∙ r.in_order
                  ∙ sym (append-nil log);
              few = omega (arith, r.few, ap length e);
              few_blocks = r.few_blocks;
            },
          )
    ]

    pub requests-Goes :
        (n : ℕ) (log : List WorkEvent) (p : Pool) (node : Node) (id : ℕ) (line : Option Json)
        → n < 2 ^ 32
        → Runs c share_difficulty divisor password max_clients n log p
        → Goes c share_difficulty divisor password max_clients
            (suc n)
            (log ++ [])
            (in_server (handle_message c node id line p.server) p)
    unfolding in_server
    requests-Goes n log p node id line fits r =
        let reach =
          IsServed-IsReachable c share_difficulty divisor password max_clients r.steps r.works
            p.server r.served in
        let runs =
          reachable_runs c share_difficulty divisor password max_clients share share_defined r.steps
            p.server (omega (arith, r.in_time)) reach in
        let (s, done) = runs.0 node id line in
        inr (
          record p { server = s },
          simp (in_server, done),
          server-Runs n (suc r.steps) log p s r (omega (arith, r.in_time))
              (requested r.steps id node line r.works p.server s r.served done),
        )

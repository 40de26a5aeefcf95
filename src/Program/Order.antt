-- ===== src/Program/Order.antt =====
-- The event loop over time: the node's work is taken in its order, and nothing panics.
use mathlib.Core.List.{append_assoc, append-nil}
use monetarium_stratum.Prelude.{
  ℕ, suc, ◌+◌, ◌^◌, ◌<◌, ◌≡◌, ◌⊎◌, refl, sym, ap, ◌∙◌, subst, false, some, List, [], ◌∷◌, ◌++◌,
  arith, length, inl, inr, ok, err,
}
use monetarium_stratum.Bytes.Slice.{Bytes}
use monetarium_stratum.Mining.Chain.{Chain}
use monetarium_stratum.Mining.Evaluate.{share_target}
use monetarium_stratum.Stratum.Server.{connect, remove_client}
use monetarium_stratum.Node.Client.{WorkEvent, new_node_client}
use monetarium_stratum.Program.Loop.{
  Pool, waits, PoolStep, delivers, connects_block, drops, takes_work, tells, takes_block, ticks,
  signals, ends, joins, leaves, requests, new_pool, take_work, take_block, in_server, pool_step,
  run, log_block_stats,
}
use monetarium_stratum.Program.Served.{
  delivered, delivered_cons, fresh, joined, left, Runs, Goes, keeps,
}
use monetarium_stratum.Program.Steps.{
  loop-Goes, server-Runs, delivers-Goes, block-Goes, drops-Goes, take_block-Goes, take_work-Goes,
  requests-Goes, send_next-Goes,
}

module _ (c : Chain) (share_difficulty divisor : ℕ) (password : Bytes) (max_clients : ℕ) where
  module _ (share : ℕ) (share_defined : share_target c share_difficulty ≡ some share) where
    pool_step-Goes :
        (e : PoolStep) (n : ℕ) (log : List WorkEvent) (p : Pool)
        → n < 2 ^ 32
        → Runs c share_difficulty divisor password max_clients n log p
        → Goes c share_difficulty divisor password max_clients
            (suc n)
            (log ++ delivered (e ∷ []))
            (pool_step c e p)
    unfolding pool_step log_block_stats in_server
    pool_step-Goes (delivers blob reason) n log p fits r =
        delivers-Goes c share_difficulty divisor password max_clients n log p blob reason r
    pool_step-Goes connects_block n log p fits r =
        block-Goes c share_difficulty divisor password max_clients n log p r
    pool_step-Goes drops n log p fits r =
        drops-Goes c share_difficulty divisor password max_clients n log p r
    pool_step-Goes takes_work n log p fits r =
        loop-Goes c share_difficulty divisor password max_clients _ _ p take_work (
          take_work-Goes c share_difficulty divisor password max_clients share share_defined n log p
            fits r)
    pool_step-Goes tells n log p fits r =
        send_next-Goes c share_difficulty divisor password max_clients n log p r
    pool_step-Goes takes_block n log p fits r =
        loop-Goes c share_difficulty divisor password max_clients _ _ p take_block
          (take_block-Goes c share_difficulty divisor password max_clients n log p r)
    pool_step-Goes ticks n log p fits r =
        loop-Goes c share_difficulty divisor password max_clients _ _ p
          (λ q. ok (log_block_stats q))
          (inr (
            log_block_stats p,
            refl,
            keeps c share_difficulty divisor password max_clients n log p (log_block_stats p) refl
                refl r.few_blocks r,
          ))
    pool_step-Goes signals n log p fits r =
        loop-Goes c share_difficulty divisor password max_clients _ _ p
          (λ q. ok (record q { running = false }))
          (inr (
            record p { running = false },
            refl,
            keeps c share_difficulty divisor password max_clients n log p
                (record p { running = false }) refl refl r.few_blocks r,
          ))
    pool_step-Goes ends n log p fits r =
        loop-Goes c share_difficulty divisor password max_clients _ _ p
          (λ q. ok (record q { running = false }))
          (inr (
            record p { running = false },
            refl,
            keeps c share_difficulty divisor password max_clients n log p
                (record p { running = false }) refl refl r.few_blocks r,
          ))
    pool_step-Goes joins n log p fits r = inr (
      record p { server = connect p.server },
      refl,
      server-Runs c share_difficulty divisor password max_clients n (suc r.steps) log p
          (connect p.server) r (omega (arith, r.in_time))
          (joined r.steps r.works p.server r.served),
    )
    pool_step-Goes (leaves id) n log p fits r = inr (
      record p { server = remove_client id p.server },
      refl,
      server-Runs c share_difficulty divisor password max_clients n (suc r.steps) log p
          (remove_client id p.server) r (omega (arith, r.in_time))
          (left r.steps id r.works p.server r.served),
    )
    pool_step-Goes (requests node id line) n log p fits r =
        requests-Goes c share_difficulty divisor password max_clients share share_defined n log p
          node id line fits r

    run-Goes :
        (es : List PoolStep) (n : ℕ) (log : List WorkEvent) (p : Pool)
        → n + length es < 2 ^ 32
        → Runs c share_difficulty divisor password max_clients n log p
        → Goes c share_difficulty divisor password max_clients
            (n + length es)
            (log ++ delivered es)
            (run c es p)
    unfolding run
    run-Goes [] n log p fits r =
        let len : n + 0 ≡ n = omega arith in inr (p, refl, rw (len, append-nil log) r)
    run-Goes (e ∷ es) n log p fits r = elim (pool_step-Goes e n log p (omega arith) r) [
      | inl w ↦ inl (simp (run, w))
      | inr (p1, one, r1) ↦
          let rest = run-Goes es (suc n) (log ++ delivered (e ∷ [])) p1 (omega arith) r1 in
          let len : suc n + length es ≡ n + suc (length es) = omega arith in
          let all : (log ++ delivered (e ∷ [])) ++ delivered es ≡ log ++ delivered (e ∷ es) =
            append_assoc log (delivered (e ∷ [])) (delivered es)
            ∙ ap (λ x. log ++ x) (sym (delivered_cons e es)) in
          let next : run c (e ∷ es) p ≡ run c es p1 = simp (run, one) in
          subst
            (Goes c share_difficulty divisor password max_clients (n + suc (length es))
              (log ++ delivered (e ∷ es)))
            (sym next)
            (subst
              (λ x.
                Goes c share_difficulty divisor password max_clients (n + suc (length es)) x
                  (run c es p1))
              all
              (subst
                (λ k.
                  Goes c share_difficulty divisor password max_clients k
                    ((log ++ delivered (e ∷ [])) ++ delivered es) (run c es p1))
                len rest))
    ]

    -- From its start, on any schedule of fewer than 2 ^ 32 steps and at a share difficulty that has a
    -- target, the program never panics: the schedule comes to a step that has to wait, or all its
    -- steps are taken, the server has taken the node's work in the order in which it was delivered,
    -- all but what is in the channel, and the channels are within their bounds. The steps are those of
    -- the node client, of the event loop, whose `ProcessWork` sends to one client at a step, and of the
    -- miners' connections, each of whose requests is handled as one step, with the `RefreshWork` of a
    -- throttled block in it.
    pub run-new_pool :
        (es : List PoolStep)
        → length es < 2 ^ 32
        → (run c es (new_pool share_difficulty divisor password max_clients) ≡ err waits)
          ⊎ ((p : Pool) × (run c es (new_pool share_difficulty divisor password max_clients) ≡ ok p)
              × Runs c share_difficulty divisor password max_clients (length es) (delivered es) p)
    unfolding new_pool new_node_client
    run-new_pool es fits =
        let start = new_pool share_difficulty divisor password max_clients in
        let len : 0 + length es ≡ length es = omega arith in
        subst
          (λ k.
            Goes c share_difficulty divisor password max_clients k (delivered es) (run c es start))
          len
          (run-Goes es 0 [] start (omega arith) (record {
            steps = 0;
            works = [];
            in_time = omega arith;
            served = fresh;
            in_order = refl;
            few = omega arith;
            few_blocks = omega arith;
          }))

-- ===== src/Miner/Gpu/Session/Connects.antt =====
-- A connection of the GPU miner from the dial on, beside one of the CPU miner.
use monetarium_stratum.Prelude.{
  ◌+◌, ◌%◌, ◌^◌, ◌≡◌, refl, false, Option, none, some, List, [], ◌∷◌, arith, Result-cases,
  Bool-cases, inl, inr, if◌then◌else◌, eq_bytes, length, Result,
}
use monetarium_stratum.Mining.Chain.{Chain}
use monetarium_stratum.Miner.Session as Cpu
use monetarium_stratum.Miner.Session.{
  Panic, Incoming, Miner, HandshakeError, Turn, reads, submits, breaks,
}
use monetarium_stratum.Miner.Gpu.Session as Gpu
use monetarium_stratum.Miner.Gpu.Session.{GpuMiner}
use monetarium_stratum.Miner.Gpu.Session.Forget.{Surplus, forget, count_response}
use monetarium_stratum.Miner.Gpu.Session.Refines.{
  surplus, forget_result, run_turns-forget, subscribe-forget, authorize-forget, Grows, Grows-refl,
  Grows-trans, count_response-Grows, Ahead,
}

module _ (c : Chain) where
  surplus-Grows :
      (turns : List Turn) (incoming : List Incoming) (m : Miner) (d : Surplus)
      → Grows d (surplus c turns incoming m d) (length turns)
  surplus-Grows [] incoming m d = Grows-refl d 0
  surplus-Grows (reads ∷ turns) [] m d = Grows-refl d _
  surplus-Grows (reads ∷ turns) (msg ∷ rest) m d =
      let d' = if eq_bytes msg.method [] then count_response msg m d else d in
      let one : Grows d d' 1 = elim (Bool-cases (eq_bytes msg.method [])) [
        | inl e ↦ rw e (count_response-Grows msg m d)
        | inr e ↦ rw e (Grows-refl d 1)
      ] in
      elim (Result-cases (Cpu.read_message c msg m)) [
        | inl (m', e) ↦
            let g =
              Grows-trans d d' (surplus c turns rest m' d') 1 (length turns) one
                (surplus-Grows turns rest m' d') in
            rw e (record {
              gens = g.gens;
              accepted = g.accepted;
              rejected = g.rejected;
              bounded = omega (arith, g.bounded);
            })
        | inr (p, e) ↦ rw e (Grows-refl d _)
      ]
  surplus-Grows (submits job extra_nonce2 nonce ∷ turns) incoming m d =
      let g = surplus-Grows turns incoming (Cpu.submit_share job extra_nonce2 nonce m) d in
      record {
        gens = g.gens;
        accepted = g.accepted;
        rejected = g.rejected;
        bounded = omega (arith, g.bounded);
      }
  surplus-Grows (breaks ∷ turns) incoming m d =
      let g = surplus-Grows turns incoming (record m { writable = false }) d in
      record {
        gens = g.gens;
        accepted = g.accepted;
        rejected = g.rejected;
        bounded = omega (arith, g.bounded);
      }

  module _ (turns : List Turn) where
    abbrev Runs :
        Surplus
        → Result Panic (Miner × Option HandshakeError)
        → Result Panic (GpuMiner × Option HandshakeError)
        → Type 0
    Runs d cpu gpu = (d' : Surplus) × Grows d d' (length turns) × (gpu ≡ forget_result d' cpu)

    after_authorize-forget :
        (d : Surplus) (m : Miner) (rest : List Incoming) (e : Option HandshakeError)
        → Runs d
            (Cpu.after_authorize c turns (m, rest, e))
            (Gpu.after_authorize c turns (forget d m, rest, e))
    unfolding Cpu.after_authorize Gpu.after_authorize
    after_authorize-forget d m rest (some e) = (d, Grows-refl d _, refl)
    after_authorize-forget d m rest none =
        let d' = surplus c turns rest m d in
        let all = run_turns-forget c turns rest m d in
        elim (Result-cases (Cpu.run_turns c turns rest m)) [
          | inl (m', f) ↦ (d', surplus-Grows turns rest m d, rw (all, f) refl)
          | inr (p, f) ↦ (d', surplus-Grows turns rest m d, rw (all, f) refl)
        ]

    after_subscribe-forget :
        (d : Surplus) (m : Miner) (rest : List Incoming) (e : Option HandshakeError)
        → Runs d
            (Cpu.after_subscribe c turns (m, rest, e))
            (Gpu.after_subscribe c turns (forget d m, rest, e))
    unfolding Cpu.after_subscribe Gpu.after_subscribe
    after_subscribe-forget d m rest (some e) = (d, Grows-refl d _, refl)
    after_subscribe-forget d m rest none =
        let one = authorize-forget c d rest m in
        elim (Result-cases (Cpu.authorize c rest m)) [
          | inl ((m', rest', e), f) ↦ rw (one, f) (after_authorize-forget d m' rest' e)
          | inr (p, f) ↦ rw (one, f) (d, Grows-refl d _, refl)
        ]

    -- On the same messages and the same schedule of shares, a connection of the GPU miner runs as
    -- one of the CPU miner: it panics, fails in the handshake and goes on in the same places, writes
    -- the same requests but for the user agent, and has the same job and target. Its counters are
    -- ahead of those of the CPU miner by no more than a response for each turn.
    pub connect_and_mine-forget :
        (incoming : List Incoming) (m : Miner) (d : Surplus)
        → (d' : Surplus) × Ahead d d' (length turns)
          × (Gpu.connect_and_mine c turns incoming (forget d m)
              ≡ forget_result d' (Cpu.connect_and_mine c turns incoming m))
    unfolding Cpu.connect_and_mine Gpu.connect_and_mine Cpu.reset_connection Gpu.reset_connection
    connect_and_mine-forget incoming m d =
        let m1 = Cpu.reset_connection c m in
        let d1 = record d { gens = d.gens + 1 } in
        let reset : Gpu.reset_connection c (forget d m) ≡ forget d1 m1 =
          let g : ((m.gen + d.gens) % 2 ^ 64 + 1) % 2 ^ 64 ≡ (m.gen + (d.gens + 1)) % 2 ^ 64 =
            omega arith in
          rw g refl in
        let one = subscribe-forget c d1 incoming m1 in
        let run : Runs d1 (Cpu.connect_and_mine c turns incoming m)
            (Gpu.connect_and_mine c turns incoming (forget d m)) =
          elim (Result-cases (Cpu.subscribe c incoming m1)) [
            | inl ((m', rest, e), f) ↦ rw (reset, one, f) (after_subscribe-forget d1 m' rest e)
            | inr (p, f) ↦ rw (reset, one, f) (d1, Grows-refl d1 _, refl)
          ] in
        let (d', g, same) = run in
        (
          d',
          record {
            gens = g.gens;
            accepted = g.accepted;
            rejected = g.rejected;
            bounded = g.bounded;
          },
          same,
        )

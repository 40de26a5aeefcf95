-- ===== src/Miner/Gpu/Session/Awaited.antt =====
-- The GPU miner's count of shares where the pool answers only what it was asked.
use monetarium_stratum.Prelude.{
  ◌≡◌, refl, ◌∙◌, ap, true, false, List, [], ◌∷◌, Bool-cases, Result-cases, inl, inr, if◌then◌else◌,
  eq_bytes, ok,
}
use monetarium_stratum.Mining.Chain.{Chain}
use monetarium_stratum.Miner.Session as Cpu
use monetarium_stratum.Miner.Session.{Incoming, Miner, Turn, reads, submits, breaks, has}
use monetarium_stratum.Miner.Gpu.Session as Gpu
use monetarium_stratum.Miner.Gpu.Session.Forget.{Surplus, forget, forget_all, count_response}
use monetarium_stratum.Miner.Gpu.Session.Refines.{surplus, run_turns-forget}

module _ (c : Chain) where
  -- Every response that is read answers a request that is pending.
  abbrev pub IsAwaited : List Turn → List Incoming → Miner → Type 0
  IsAwaited [] incoming m = Unit
  IsAwaited (reads ∷ turns) [] m = Unit
  IsAwaited (reads ∷ turns) (msg ∷ rest) m =
      (eq_bytes msg.method [] ≡ true → has msg.id m.pending ≡ true)
      × ((m' : Miner) → Cpu.read_message c msg m ≡ ok m' → IsAwaited turns rest m')
  IsAwaited (submits job extra_nonce2 nonce ∷ turns) incoming m =
      IsAwaited turns incoming (Cpu.submit_share job extra_nonce2 nonce m)
  IsAwaited (breaks ∷ turns) incoming m = IsAwaited turns incoming (record m { writable = false })

  surplus_awaited :
      (turns : List Turn) (incoming : List Incoming) (m : Miner) (d : Surplus)
      → IsAwaited turns incoming m
      → surplus c turns incoming m d ≡ d
  surplus_awaited [] incoming m d h = refl
  surplus_awaited (reads ∷ turns) [] m d h = refl
  surplus_awaited (reads ∷ turns) (msg ∷ rest) m d h =
      let same : (if eq_bytes msg.method [] then count_response msg m d else d) ≡ d =
        elim (Bool-cases (eq_bytes msg.method [])) [
          | inl e ↦ rw (e, h.0 e) refl
          | inr e ↦ rw e refl
        ] in
      elim (Result-cases (Cpu.read_message c msg m)) [
        | inl (m', e) ↦ rw (e, same) (surplus_awaited turns rest m' d (h.1 m' e))
        | inr (p, e) ↦ rw e refl
      ]
  surplus_awaited (submits job extra_nonce2 nonce ∷ turns) incoming m d h =
      surplus_awaited turns incoming (Cpu.submit_share job extra_nonce2 nonce m) d h
  surplus_awaited (breaks ∷ turns) incoming m d h =
      surplus_awaited turns incoming (record m { writable = false }) d h

  -- After the handshake, while every response that is read answers a pending request, the GPU
  -- miner's counts of accepted and rejected shares go on exactly as those of the CPU miner, and so
  -- do its requests, its job and its target.
  pub run_turns_awaited :
      (turns : List Turn) (incoming : List Incoming) (m : Miner) (d : Surplus)
      → IsAwaited turns incoming m
      → Gpu.run_turns c turns incoming (forget d m)
        ≡ forget_all d (Cpu.run_turns c turns incoming m)
  run_turns_awaited turns incoming m d h =
      run_turns-forget c turns incoming m d
      ∙ ap (λ e. forget_all e (Cpu.run_turns c turns incoming m))
          (surplus_awaited turns incoming m d h)

-- ===== src/Miner/Gpu/Session/Forget.antt =====
-- The GPU miner's session is that of the CPU miner without its set of pending requests: handler by
-- handler.
use mathlib.Core.List.{map-append}
use monetarium_stratum.Prelude.{
  ℕ, ◌+◌, ◌%◌, ◌^◌, ◌≡◌, refl, ap, ◌∙◌, none, some, List, [], ◌∷◌, map, arith, Bool-cases,
  Option-cases, inl, inr, if◌then◌else◌, eq_bytes, length, ◌==◌, Result, ok, err, pos,
}
use monetarium_stratum.Bytes.Slice.{Bytes}
use monetarium_stratum.Bytes.Text.{codes}
use monetarium_stratum.Bytes.Endian.{le_bytes}
use monetarium_stratum.Mining.Chain.{Chain}
use monetarium_stratum.Stratum.Protocol.{
  Json, str, method_subscribe, method_submit, method_set_difficulty, method_notify,
}
use monetarium_stratum.Miner.Job.{
  Job, BuildError, fill_bytes_panic, invalid_version, invalid_prevhash, invalid_gen_tx1,
  invalid_nbits, invalid_ntime, invalid_extra_nonce1,
}
use monetarium_stratum.Miner.Session as Cpu
use monetarium_stratum.Miner.Session.{Panic, Incoming, Sent, Miner, has, drop_id}
use monetarium_stratum.Miner.Gpu.Session as Gpu
use monetarium_stratum.Miner.Gpu.Session.{GpuMiner}
use monetarium_stratum.Miner.Gpu.Copies.{build_job-copy}

-- By how much the GPU miner's counters are ahead of those of the CPU miner.
pub record Surplus : Type 0 where
  pub gens : ℕ
  pub accepted : ℕ
  pub rejected : ℕ

-- A request as the GPU miner writes it: a subscription names another user agent.
abbrev pub rename : Sent → Sent
rename r =
    if eq_bytes r.method method_subscribe
    then record r { params = str (codes "monetarium-gpuminer/0.1.0") ∷ [] }
    else r

-- The GPU miner of a CPU miner.
abbrev pub forget : Surplus → Miner → GpuMiner
forget d m = record {
  user = m.user;
  password = m.password;
  writable = m.writable;
  sent = map rename m.sent;
  next_id = m.next_id;
  extra_nonce1 = m.extra_nonce1;
  extra_nonce2_len = m.extra_nonce2_len;
  target = m.target;
  current_job = m.current_job;
  gen = (m.gen + d.gens) % 2 ^ 64;
  accepted = (m.accepted + d.accepted) % 2 ^ 64;
  rejected = (m.rejected + d.rejected) % 2 ^ 64;
}

abbrev pub forget_all : Surplus → Result Panic Miner → Result Panic GpuMiner
forget_all d (ok m) = ok (forget d m)
forget_all d (err p) = err p

-- A response that the CPU miner drops, because no request waits for it, is counted.
abbrev pub count_response : Incoming → Miner → Surplus → Surplus
count_response msg m d = if has msg.id m.pending then d else elim msg.error [
  | none ↦ record d { accepted = d.accepted + 1 }
  | some e ↦ record d { rejected = d.rejected + 1 }
]

step_both : (a d : ℕ) → ((a + d) % 2 ^ 64 + 1) % 2 ^ 64 ≡ ((a + 1) % 2 ^ 64 + d) % 2 ^ 64
step_both a d = omega arith

step_ahead : (a d : ℕ) → ((a + d) % 2 ^ 64 + 1) % 2 ^ 64 ≡ (a + (d + 1)) % 2 ^ 64
step_ahead a d = omega arith

module _ (d : Surplus) where
  pub send_request-forget :
      (method : Bytes) (params params' : List Json) (m : Miner)
      → ((id : ℕ)
          → rename (record { id = id; method = method; params = params })
            ≡ record { id = id; method = method; params = params' })
      → Gpu.send_request method params' (forget d m)
        ≡ (forget d (Cpu.send_request method params m).0, (Cpu.send_request method params m).1)
  unfolding Cpu.send_request Cpu.next_request_id Gpu.send_request Gpu.next_request_id
  send_request-forget method params params' m same = elim (Bool-cases m.writable) [
    | inl e ↦ rw (e, map-append, same ((m.next_id + 1) % 2 ^ 64)) refl
    | inr e ↦ rw e refl
  ]

  install_job-forget :
      (m : Miner) (r : Result BuildError Job)
      → Gpu.install_job (forget d m) r ≡ forget_all d (Cpu.install_job m r)
  unfolding Cpu.install_job Gpu.install_job
  install_job-forget m (ok job) = rw (step_both m.gen d.gens) refl
  install_job-forget m (err fill_bytes_panic) = refl
  install_job-forget m (err invalid_version) = refl
  install_job-forget m (err invalid_prevhash) = refl
  install_job-forget m (err invalid_gen_tx1) = refl
  install_job-forget m (err invalid_nbits) = refl
  install_job-forget m (err invalid_ntime) = refl
  install_job-forget m (err invalid_extra_nonce1) = refl

  pub handle_response-forget :
      (msg : Incoming) (m : Miner)
      → Gpu.handle_response msg (forget d m)
        ≡ forget (count_response msg m d) (Cpu.handle_response msg m)
  unfolding Cpu.handle_response Gpu.handle_response
  handle_response-forget msg m = elim (Bool-cases (has msg.id m.pending)) [
    | inl e ↦ elim (Option-cases msg.error) [
      | inl f ↦ rw (e, f, step_both m.accepted d.accepted) refl
      | inr (x, f) ↦ rw (e, f, step_both m.rejected d.rejected) refl
    ]
    | inr e ↦ elim (Option-cases msg.error) [
      | inl f ↦ rw (e, f, step_ahead m.accepted d.accepted) refl
      | inr (x, f) ↦ rw (e, f, step_ahead m.rejected d.rejected) refl
    ]
  ]

  set_difficulty-forget :
      (c : Chain) (diff : ℕ) (m : Miner)
      → Gpu.set_difficulty c diff (forget d m) ≡ forget_all d (Cpu.set_difficulty c diff m)
  unfolding Cpu.set_difficulty Gpu.set_difficulty
  set_difficulty-forget c diff m = elim (Bool-cases (diff == 0)) [
    | inl e ↦ rw e refl
    | inr e ↦ rw e refl
  ]

  nine_params-forget :
      (c : Chain) (params : List Json) (m : Miner)
      → Gpu.nine_params c params (forget d m) ≡ forget_all d (Cpu.nine_params c params m)
  unfolding Cpu.nine_params Gpu.nine_params Cpu.miner_share_target Gpu.miner_share_target
      Cpu.param_string Gpu.param_string
  nine_params-forget c (p1 ∷ p2 ∷ p3 ∷ p4 ∷ p5 ∷ p6 ∷ p7 ∷ p8 ∷ p9 ∷ []) m =
      ap (Gpu.install_job (forget d m))
        (build_job-copy c m.extra_nonce1 (pos (Cpu.miner_share_target c m)) _ _ _ _ _ _)
      ∙ install_job-forget m _
  nine_params-forget c _ m = refl

  pub handle_notification-forget :
      (c : Chain) (msg : Incoming) (m : Miner)
      → Gpu.handle_notification c msg (forget d m) ≡ forget_all d (Cpu.handle_notification c msg m)
  unfolding Cpu.handle_notification Gpu.handle_notification Cpu.handle_notify Gpu.handle_notify
      Cpu.difficulty_of Gpu.difficulty_of
  handle_notification-forget c msg m =
      elim (Bool-cases (eq_bytes msg.method method_set_difficulty)) [
        | inl e ↦ rw e (set_difficulty-forget c (Cpu.difficulty_of msg.params) m)
        | inr e ↦ elim (Bool-cases (eq_bytes msg.method method_notify)) [
          | inl f ↦ elim (Bool-cases (length msg.params == 9)) [
            | inl g ↦ rw (e, f, g) (nine_params-forget c msg.params m)
            | inr g ↦ rw (e, f, g) refl
          ]
          | inr f ↦ rw (e, f) refl
        ]
      ]

  pub submit_share-forget :
      (job : Job) (extra_nonce2 : Bytes) (nonce : ℕ) (m : Miner)
      → Gpu.submit_share job extra_nonce2 nonce (forget d m)
        ≡ forget d (Cpu.submit_share job extra_nonce2 nonce m)
  unfolding Cpu.submit_share Gpu.submit_share Cpu.submit_params Gpu.submit_params
  submit_share-forget job extra_nonce2 nonce m =
      let params = Cpu.submit_params m.user job.job_id extra_nonce2 job.ntime (le_bytes 4 nonce) in
      let r = Cpu.send_request method_submit params m in
      let run : Gpu.send_request method_submit params (forget d m) ≡ (forget d r.0, r.1) =
        send_request-forget method_submit params params m (λ id. refl) in
      elim (Option-cases r.1) [
        | inl e ↦
            simp (Gpu.submit_share, Cpu.submit_share, run, e, step_both r.0.rejected d.rejected)
        | inr (id, e) ↦ simp (Gpu.submit_share, Cpu.submit_share, run, e)
      ]

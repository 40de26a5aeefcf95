-- ===== src/Miner/Gpu/Session/Refines.antt =====
-- The GPU miner's session is that of the CPU miner without its set of pending requests: a whole
-- connection.
use monetarium_stratum.Prelude.{
  ℕ, ◌+◌, ◌≤◌, ◌≡◌, refl, sym, ap, ◌∙◌, true, false, ◌&&◌, Option, none, some, List, [], ◌∷◌, arith,
  Bool-cases, Option-cases, Result-cases, inl, inr, if◌then◌else◌, eq_bytes, ◌==◌, Result, ok, err,
}
use monetarium_stratum.Bytes.Text.{codes}
use monetarium_stratum.Mining.Chain.{Chain}
use monetarium_stratum.Stratum.Protocol.{
  Json, bool, str, arr, to_list, method_subscribe, method_authorize,
}
use monetarium_stratum.Miner.Session as Cpu
use monetarium_stratum.Miner.Session.{
  Panic, Incoming, Miner, HandshakeError, Turn, reads, submits, breaks, has, drop_id,
}
use monetarium_stratum.Miner.Gpu.Session as Gpu
use monetarium_stratum.Miner.Gpu.Session.{GpuMiner}
use monetarium_stratum.Miner.Gpu.Session.Forget.{
  Surplus, forget, forget_all, count_response, send_request-forget, handle_response-forget,
  handle_notification-forget, submit_share-forget,
}

abbrev Waited : Type 0
Waited = Miner × List Incoming × Option HandshakeError

abbrev forget_waited :
    Surplus → Result Panic Waited → Result Panic (GpuMiner × List Incoming × Option HandshakeError)
forget_waited d (ok (m, rest, e)) = ok (forget d m, rest, e)
forget_waited d (err p) = err p

abbrev pub forget_result :
    Surplus
    → Result Panic (Miner × Option HandshakeError)
    → Result Panic (GpuMiner × Option HandshakeError)
forget_result d (ok (m, e)) = ok (forget d m, e)
forget_result d (err p) = err p

abbrev on_ok : Result Panic Miner → (Miner → Surplus) → Surplus → Surplus
on_ok (ok m) f d = f m
on_ok (err p) f d = d

module _ (c : Chain) where
  -- What the GPU miner's counters gain on a connection over those of the CPU miner.
  abbrev pub surplus : List Turn → List Incoming → Miner → Surplus → Surplus
  surplus [] incoming m d = d
  surplus (reads ∷ turns) [] m d = d
  surplus (reads ∷ turns) (msg ∷ rest) m d =
      on_ok (Cpu.read_message c msg m)
        (λ m'. surplus turns rest m' (if eq_bytes msg.method [] then count_response msg m d else d))
        d
  surplus (submits job extra_nonce2 nonce ∷ turns) incoming m d =
      surplus turns incoming (Cpu.submit_share job extra_nonce2 nonce m) d
  surplus (breaks ∷ turns) incoming m d = surplus turns incoming (record m { writable = false }) d

  read_message-forget :
      (d : Surplus) (msg : Incoming) (m : Miner)
      → Gpu.read_message c msg (forget d m)
        ≡ forget_all
            (if eq_bytes msg.method [] then count_response msg m d else d)
            (Cpu.read_message c msg m)
  unfolding Cpu.read_message Gpu.read_message
  read_message-forget d msg m = elim (Bool-cases (eq_bytes msg.method [])) [
    | inl e ↦ rw e (ap ok (handle_response-forget d msg m))
    | inr e ↦ rw e (handle_notification-forget d c msg m)
  ]

  -- A connection after the handshake: the same requests, jobs and targets, and counters that differ
  -- by the responses that no request waits for.
  pub run_turns-forget :
      (turns : List Turn) (incoming : List Incoming) (m : Miner) (d : Surplus)
      → Gpu.run_turns c turns incoming (forget d m)
        ≡ forget_all (surplus turns incoming m d) (Cpu.run_turns c turns incoming m)
  unfolding Cpu.run_turns Gpu.run_turns
  run_turns-forget [] incoming m d = refl
  run_turns-forget (reads ∷ turns) [] m d = refl
  run_turns-forget (reads ∷ turns) (msg ∷ rest) m d =
      let one = read_message-forget d msg m in
      let d' = if eq_bytes msg.method [] then count_response msg m d else d in
      elim (Result-cases (Cpu.read_message c msg m)) [
        | inl (m', e) ↦ rw (one, e) (run_turns-forget turns rest m' d')
        | inr (p, e) ↦ rw (one, e) refl
      ]
  run_turns-forget (submits job extra_nonce2 nonce ∷ turns) incoming m d =
      rw (submit_share-forget d job extra_nonce2 nonce m)
        (run_turns-forget turns incoming (Cpu.submit_share job extra_nonce2 nonce m) d)
  run_turns-forget (breaks ∷ turns) incoming m d =
      run_turns-forget turns incoming (record m { writable = false }) d

  wait_reply-forget :
      (d : Surplus) (id : ℕ) (answer : Incoming → Miner → Miner × Option HandshakeError)
      (answer' : Incoming → GpuMiner → GpuMiner × Option HandshakeError)
      → ((msg : Incoming) (m : Miner)
          → answer' msg (forget d m) ≡ (forget d (answer msg m).0, (answer msg m).1))
      → (incoming : List Incoming) (m : Miner)
      → Gpu.wait_reply c id answer' incoming (forget d m)
        ≡ forget_waited d (Cpu.wait_reply c id answer incoming m)
  unfolding Cpu.wait_reply Gpu.wait_reply
  wait_reply-forget d id answer answer' same [] m = refl
  wait_reply-forget d id answer answer' same (msg ∷ rest) m =
      let one = handle_notification-forget d c msg m in
      elim (Bool-cases (eq_bytes msg.method [] && (msg.id == id))) [
        | inl e ↦ rw (e, same msg m) refl
        | inr e ↦ elim (Result-cases (Cpu.handle_notification c msg m)) [
          | inl (m', f) ↦ rw (e, one, f) (wait_reply-forget d id answer answer' same rest m')
          | inr (p, f) ↦ rw (e, one, f) refl
        ]
      ]

record_subscription-forget :
    (d : Surplus) (xs : List Json) (m : Miner)
    → Gpu.record_subscription xs (forget d m)
      ≡ (forget d (Cpu.record_subscription xs m).0, (Cpu.record_subscription xs m).1)
unfolding Cpu.record_subscription Gpu.record_subscription Cpu.text_or_empty Gpu.text_or_empty
    Cpu.whole_or_zero Gpu.whole_or_zero
record_subscription-forget d (x ∷ y ∷ z ∷ []) m = refl
record_subscription-forget d _ m = refl

read_subscription-forget :
    (d : Surplus) (error result : Option Json) (m : Miner)
    → Gpu.read_subscription error result (forget d m) ≡ (
      forget d (Cpu.read_subscription error result m).0,
      (Cpu.read_subscription error result m).1,
    )
unfolding Cpu.read_subscription Gpu.read_subscription
read_subscription-forget d none (some (arr xs)) m = record_subscription-forget d (to_list xs) m
read_subscription-forget d _ _ m = refl

read_authorization-forget :
    (d : Surplus) (error result : Option Json) (m : Miner)
    → Gpu.read_authorization error result (forget d m) ≡ (
      forget d (Cpu.read_authorization error result m).0,
      (Cpu.read_authorization error result m).1,
    )
unfolding Cpu.read_authorization Gpu.read_authorization
read_authorization-forget d none (some (bool true)) m = refl
read_authorization-forget d none (some (bool false)) m = refl
read_authorization-forget d _ _ m = refl

pub subscribe-forget :
    (c : Chain) (d : Surplus) (incoming : List Incoming) (m : Miner)
    → Gpu.subscribe c incoming (forget d m) ≡ forget_waited d (Cpu.subscribe c incoming m)
unfolding Cpu.subscribe Gpu.subscribe
subscribe-forget c d incoming m =
    let agent = str (codes "monetarium-cpuminer/0.1.0") ∷ [] in
    let agent' = str (codes "monetarium-gpuminer/0.1.0") ∷ [] in
    let r = Cpu.send_request method_subscribe agent m in
    let run : Gpu.send_request method_subscribe agent' (forget d m) ≡ (forget d r.0, r.1) =
      send_request-forget d method_subscribe agent agent' m (λ id. refl) in
    elim (Option-cases r.1) [
      | inl e ↦ simp (Gpu.subscribe, Cpu.subscribe, run, e)
      | inr (id, e) ↦
          let answer = λ (msg : Incoming). Cpu.read_subscription msg.error msg.result in
          let answer' = λ (msg : Incoming). Gpu.read_subscription msg.error msg.result in
          let gpu : Gpu.subscribe c incoming (forget d m)
              ≡ Gpu.wait_reply c id answer' incoming (forget d r.0) =
            simp (Gpu.subscribe, run, e) in
          let cpu : Cpu.subscribe c incoming m ≡ Cpu.wait_reply c id answer incoming r.0 =
            simp (Cpu.subscribe, e) in
          gpu
          ∙ wait_reply-forget c d id answer answer'
              (λ msg m'. read_subscription-forget d msg.error msg.result m') incoming r.0
          ∙ ap (forget_waited d) (sym cpu)
    ]

pub authorize-forget :
    (c : Chain) (d : Surplus) (incoming : List Incoming) (m : Miner)
    → Gpu.authorize c incoming (forget d m) ≡ forget_waited d (Cpu.authorize c incoming m)
unfolding Cpu.authorize Gpu.authorize
authorize-forget c d incoming m =
    let login = str m.user ∷ str m.password ∷ [] in
    let r = Cpu.send_request method_authorize login m in
    let run : Gpu.send_request method_authorize login (forget d m) ≡ (forget d r.0, r.1) =
      send_request-forget d method_authorize login login m (λ id. refl) in
    elim (Option-cases r.1) [
      | inl e ↦ simp (Gpu.authorize, Cpu.authorize, run, e)
      | inr (id, e) ↦
          let answer = λ (msg : Incoming). Cpu.read_authorization msg.error msg.result in
          let answer' = λ (msg : Incoming). Gpu.read_authorization msg.error msg.result in
          let gpu : Gpu.authorize c incoming (forget d m)
              ≡ Gpu.wait_reply c id answer' incoming (forget d r.0) =
            simp (Gpu.authorize, run, e) in
          let cpu : Cpu.authorize c incoming m ≡ Cpu.wait_reply c id answer incoming r.0 =
            simp (Cpu.authorize, e) in
          gpu
          ∙ wait_reply-forget c d id answer answer'
              (λ msg m'. read_authorization-forget d msg.error msg.result m') incoming r.0
          ∙ ap (forget_waited d) (sym cpu)
    ]

-- What a connection adds to a surplus: one generation, and no more responses than it reads.
pub record Ahead (d d' : Surplus) (responses : ℕ) : Type 0 where
  pub gens : d'.gens ≡ d.gens + 1
  pub accepted : d.accepted ≤ d'.accepted
  pub rejected : d.rejected ≤ d'.rejected
  pub bounded : d'.accepted + d'.rejected ≤ d.accepted + d.rejected + responses

-- The same without the generation.
pub record Grows (d d' : Surplus) (responses : ℕ) : Type 0 where
  pub gens : d'.gens ≡ d.gens
  pub accepted : d.accepted ≤ d'.accepted
  pub rejected : d.rejected ≤ d'.rejected
  pub bounded : d'.accepted + d'.rejected ≤ d.accepted + d.rejected + responses

pub Grows-refl : (d : Surplus) (n : ℕ) → Grows d d n
Grows-refl d n = record {
  gens = refl;
  accepted = omega arith;
  rejected = omega arith;
  bounded = omega arith;
}

pub Grows-trans : (d e f : Surplus) (n k : ℕ) → Grows d e n → Grows e f k → Grows d f (n + k)
Grows-trans d e f n k g h = record {
  gens = h.gens ∙ g.gens;
  accepted = omega (arith, g.accepted, h.accepted);
  rejected = omega (arith, g.rejected, h.rejected);
  bounded = omega (arith, g.bounded, h.bounded);
}

pub count_response-Grows :
    (msg : Incoming) (m : Miner) (d : Surplus) → Grows d (count_response msg m d) 1
count_response-Grows msg m d = elim (Bool-cases (has msg.id m.pending)) [
  | inl e ↦ rw e (Grows-refl d 1)
  | inr e ↦ elim (Option-cases msg.error) [
    | inl f ↦
        rw (e, f)
          (record {
            gens = refl;
            accepted = omega arith;
            rejected = omega arith;
            bounded = omega arith;
          })
    | inr (x, f) ↦
        rw (e, f)
          (record {
            gens = refl;
            accepted = omega arith;
            rejected = omega arith;
            bounded = omega arith;
          })
  ]
]

-- ===== src/Miner/Session/Lifetime.antt =====
-- The counts of shares over the whole life of a miner, one connection after the other.
use monetarium_stratum.Prelude.{
  ℕ, suc, ◌+◌, ◌≤◌, ◌≡◌, refl, sym, subst, true, false, ◌&&◌, Option, none, some, List, [], ◌∷◌,
  arith, Bool-cases, Option-cases, Result-cases, inl, inr, eq_bytes, length, ◌==◌, Result, ok, err,
}
use monetarium_stratum.Bytes.Slice.{Bytes}
use monetarium_stratum.Bytes.Text.{codes}
use monetarium_stratum.Mining.Chain.{Chain}
use monetarium_stratum.Stratum.Protocol.{
  Json, bool, arr, str, to_list, method_subscribe, method_authorize,
}
use monetarium_stratum.Miner.Session.{
  Panic, Incoming, Miner, HandshakeError, Turn, reads, submits, breaks, handle_notification,
  read_message, submit_share, send_request, next_request_id, reset_connection, new_miner, run_turns,
  wait_reply, record_subscription, read_subscription, read_authorization, subscribe, authorize,
  after_authorize, after_subscribe, connect_and_mine, run_miner, Attempt, dial_failed, connected,
}
use monetarium_stratum.Miner.Session.Tally.{
  tally, submissions, all_submissions, Within, WaitsWithin, EndsWithin, submit_share-tally,
  handle_notification-Within, read_message-Within,
}

Within-le : (r : Result Panic Miner) (a b : ℕ) → a ≤ b → Within a r → Within b r
Within-le (ok m) a b le h = omega arith
Within-le (err p) a b le h = tt

module _ (c : Chain) where
  run_turns-Within :
      (turns : List Turn) (incoming : List Incoming) (m : Miner) (n : ℕ)
      → tally m ≤ n
      → Within (n + submissions turns) (run_turns c turns incoming m)
  unfolding run_turns
  run_turns-Within [] incoming m n le = omega arith
  run_turns-Within (reads ∷ turns) [] m n le = omega arith
  run_turns-Within (reads ∷ turns) (msg ∷ rest) m n le =
      let one = read_message-Within c msg m in
      elim (Result-cases (read_message c msg m)) [
        | inl (m', e) ↦
            let less : tally m' ≤ n =
              let w : tally m' ≤ tally m = subst (Within (tally m)) e one in omega arith in
            rw e (run_turns-Within turns rest m' n less)
        | inr (p, e) ↦ rw e tt
      ]
  run_turns-Within (submits job extra_nonce2 nonce ∷ turns) incoming m n le =
      let more = submit_share-tally job extra_nonce2 nonce m in
      let m' = submit_share job extra_nonce2 nonce m in
      Within-le _ ((n + 1) + submissions turns) (n + suc (submissions turns)) (omega arith)
        (run_turns-Within turns incoming m' (n + 1) (omega (arith, more)))
  run_turns-Within (breaks ∷ turns) incoming m n le =
      run_turns-Within turns incoming (record m { writable = false }) n le

  wait_reply-WaitsWithin :
      (id n : ℕ) (answer : Incoming → Miner → Miner × Option HandshakeError)
      → ((msg : Incoming) (m : Miner) → tally (answer msg m).0 ≡ tally m)
      → (incoming : List Incoming) (m : Miner) → tally m ≤ n
      → WaitsWithin n (wait_reply c id answer incoming m)
  unfolding wait_reply
  wait_reply-WaitsWithin id n answer same [] m le = le
  wait_reply-WaitsWithin id n answer same (msg ∷ rest) m le =
      let one = handle_notification-Within c msg m in
      elim (Bool-cases (eq_bytes msg.method [] && (msg.id == id))) [
        | inl e ↦ rw e (omega (arith, same msg m))
        | inr e ↦ elim (Result-cases (handle_notification c msg m)) [
          | inl (m', f) ↦
              let less : tally m' ≤ n =
                let w : tally m' ≤ tally m = subst (Within (tally m)) f one in omega arith in
              rw (e, f) (wait_reply-WaitsWithin id n answer same rest m' less)
          | inr (p, f) ↦ rw (e, f) tt
        ]
      ]

record_subscription-tally :
    (xs : List Json) (m : Miner) → tally (record_subscription xs m).0 ≡ tally m
unfolding record_subscription
record_subscription-tally (x ∷ y ∷ z ∷ []) m = refl
record_subscription-tally _ m = refl

read_subscription-tally :
    (error result : Option Json) (m : Miner) → tally (read_subscription error result m).0 ≡ tally m
unfolding read_subscription
read_subscription-tally none (some (arr xs)) m = record_subscription-tally (to_list xs) m
read_subscription-tally _ _ m = refl

read_authorization-tally :
    (error result : Option Json) (m : Miner) → tally (read_authorization error result m).0 ≡ tally m
unfolding read_authorization
read_authorization-tally none (some (bool true)) m = refl
read_authorization-tally none (some (bool false)) m = refl
read_authorization-tally _ _ m = refl

send_request-tally :
    (method : Bytes) (params : List Json) (m : Miner)
    → tally (send_request method params m).0 ≡ tally m
unfolding send_request next_request_id
send_request-tally method params m = elim (Bool-cases m.writable) [
  | inl e ↦ rw e refl
  | inr e ↦ rw e refl
]

module _ (c : Chain) where
  subscribe-WaitsWithin :
      (incoming : List Incoming) (m : Miner) (n : ℕ)
      → tally m ≤ n
      → WaitsWithin n (subscribe c incoming m)
  unfolding subscribe
  subscribe-WaitsWithin incoming m n le =
      let agent = str (codes "monetarium-cpuminer/0.1.0") ∷ [] in
      let r = send_request method_subscribe agent m in
      let same = send_request-tally method_subscribe agent m in
      let answer = λ (msg : Incoming). read_subscription msg.error msg.result in
      let kept : (msg : Incoming) (k : Miner) → tally (answer msg k).0 ≡ tally k =
        λ msg k. read_subscription-tally msg.error msg.result k in
      elim (Option-cases r.1) [
        | inl e ↦
            let run : subscribe c incoming m
                ≡ ok (r.0, incoming, some HandshakeError.write_failed) =
              simp (subscribe, e) in
            subst (WaitsWithin n) (sym run) (omega (arith, same))
        | inr (id, e) ↦
            let run : subscribe c incoming m ≡ wait_reply c id answer incoming r.0 =
              simp (subscribe, e) in
            subst (WaitsWithin n) (sym run)
              (wait_reply-WaitsWithin c id n answer kept incoming r.0 (omega (arith, same)))
      ]

  authorize-WaitsWithin :
      (incoming : List Incoming) (m : Miner) (n : ℕ)
      → tally m ≤ n
      → WaitsWithin n (authorize c incoming m)
  unfolding authorize
  authorize-WaitsWithin incoming m n le =
      let login = str m.user ∷ str m.password ∷ [] in
      let r = send_request method_authorize login m in
      let same = send_request-tally method_authorize login m in
      let answer = λ (msg : Incoming). read_authorization msg.error msg.result in
      let kept : (msg : Incoming) (k : Miner) → tally (answer msg k).0 ≡ tally k =
        λ msg k. read_authorization-tally msg.error msg.result k in
      elim (Option-cases r.1) [
        | inl e ↦
            let run : authorize c incoming m
                ≡ ok (r.0, incoming, some HandshakeError.write_failed) =
              simp (authorize, e) in
            subst (WaitsWithin n) (sym run) (omega (arith, same))
        | inr (id, e) ↦
            let run : authorize c incoming m ≡ wait_reply c id answer incoming r.0 =
              simp (authorize, e) in
            subst (WaitsWithin n) (sym run)
              (wait_reply-WaitsWithin c id n answer kept incoming r.0 (omega (arith, same)))
      ]

  module _ (turns : List Turn) (n : ℕ) where
    after_authorize-EndsWithin :
        (m : Miner) (rest : List Incoming) (e : Option HandshakeError)
        → tally m ≤ n
        → EndsWithin (n + submissions turns) (after_authorize c turns (m, rest, e))
    unfolding after_authorize
    after_authorize-EndsWithin m rest (some e) le = omega arith
    after_authorize-EndsWithin m rest none le =
        let all = run_turns-Within c turns rest m n le in
        elim (Result-cases (run_turns c turns rest m)) [
          | inl (m', f) ↦
              let w : tally m' ≤ n + submissions turns =
                subst (Within (n + submissions turns)) f all in
              rw f w
          | inr (p, f) ↦ rw f tt
        ]

    after_subscribe-EndsWithin :
        (m : Miner) (rest : List Incoming) (e : Option HandshakeError)
        → tally m ≤ n
        → EndsWithin (n + submissions turns) (after_subscribe c turns (m, rest, e))
    unfolding after_subscribe
    after_subscribe-EndsWithin m rest (some e) le = omega arith
    after_subscribe-EndsWithin m rest none le =
        let one = authorize-WaitsWithin rest m n le in
        elim (Result-cases (authorize c rest m)) [
          | inl ((m', rest', e), f) ↦
              let w : tally m' ≤ n = subst (WaitsWithin n) f one in
              rw f (after_authorize-EndsWithin m' rest' e w)
          | inr (p, f) ↦ rw f tt
        ]

    connect_and_mine-EndsWithin :
        (incoming : List Incoming) (m : Miner)
        → tally m ≤ n
        → EndsWithin (n + submissions turns) (connect_and_mine c turns incoming m)
    unfolding connect_and_mine reset_connection
    connect_and_mine-EndsWithin incoming m le =
        let m1 = reset_connection c m in
        let one = subscribe-WaitsWithin incoming m1 n (omega arith) in
        elim (Result-cases (subscribe c incoming m1)) [
          | inl ((m', rest, e), f) ↦
              let w : tally m' ≤ n = subst (WaitsWithin n) f one in
              rw f (after_subscribe-EndsWithin m' rest e w)
          | inr (p, f) ↦ rw f tt
        ]

  run_miner-Within :
      (attempts : List Attempt) (m : Miner) (n : ℕ)
      → tally m ≤ n
      → Within (n + all_submissions attempts) (run_miner c attempts m)
  unfolding run_miner
  run_miner-Within [] m n le = omega arith
  run_miner-Within (dial_failed ∷ rest) m n le = run_miner-Within rest m n le
  run_miner-Within (connected incoming turns ∷ rest) m n le =
      let one = connect_and_mine-EndsWithin turns n incoming m le in
      let more = submissions turns in
      elim (Result-cases (connect_and_mine c turns incoming m)) [
        | inl ((m', e), f) ↦
            let w : tally m' ≤ n + more = subst (EndsWithin (n + more)) f one in
            rw f (
              Within-le _ ((n + more) + all_submissions rest) (n + (more + all_submissions rest))
                (omega arith) (run_miner-Within rest m' (n + more) w))
        | inr (p, f) ↦ rw f tt
      ]

  -- Over the whole life of a miner, whatever the pools send on its connections and in whatever order
  -- shares are found, and if the miner does not panic: the shares counted as accepted or rejected and
  -- those that are pending are together no more than those that were submitted.
  pub run_miner-new_miner :
      (user password : Bytes) (attempts : List Attempt) (m : Miner)
      → run_miner c attempts (new_miner user password) ≡ ok m
      → m.accepted + m.rejected + length m.pending ≤ all_submissions attempts
  unfolding new_miner
  run_miner-new_miner user password attempts m run =
      let w = run_miner-Within attempts (new_miner user password) 0 (omega arith) in
      let h : tally m ≤ 0 + all_submissions attempts =
        subst (Within (0 + all_submissions attempts)) run w in
      omega (arith, h)

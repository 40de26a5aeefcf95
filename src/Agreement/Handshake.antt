-- ===== src/Agreement/Handshake.antt =====
-- A miner connects to the pool: what it makes of the messages that the pool sends.
use monetarium_stratum.Prelude.{
  ℕ, ◌+◌, ◌%◌, ◌^◌, ◌≡◌, refl, ap, ◌∙◌, true, false, Option, eq_bytes, none, some, List, [], ◌∷◌,
  ◌++◌, map, arith, ◌==◌, length, All, pos, ok, ◌>>=◌, or_fail,
}
use monetarium_stratum.Bytes.Slice.{Bytes, IsByte}
use monetarium_stratum.Bytes.Text.{codes}
use monetarium_stratum.Bytes.Endian.{le_value}
use monetarium_stratum.Bytes.Hex.{encode}
use monetarium_stratum.Mining.Chain.{Chain}
use monetarium_stratum.Mining.Work.{Work, bits}
use monetarium_stratum.Mining.Work.Solved.{IsBlob}
use monetarium_stratum.Mining.Evaluate.{share_target}
use monetarium_stratum.Stratum.Protocol.{
  Json, Message, bool, str, method_subscribe, method_authorize, response, notification,
  new_response, new_set_difficulty,
}
use monetarium_stratum.Stratum.Server.{Client, Server, work_notification}
use monetarium_stratum.Stratum.Client.{subscription}
use monetarium_stratum.Miner.Job.{to_target_bytes}
use monetarium_stratum.Miner.Session.{
  division_by_zero, write_failed, Incoming, Miner, Turn, run_turns, connect_and_mine,
  after_subscribe, after_authorize, reset_connection, handle_notification, HandshakeError,
  authorize, read_authorization, subscribe, send_request, wait_reply, next_request_id,
  read_subscription, record_subscription,
}
use monetarium_stratum.Agreement.Verdict.{job_of, handle_notify-work}
use monetarium_stratum.Agreement.Greeting.{
  delivered, greeting, handle_notification-new_set_difficulty,
}

abbrev pub subscribe_params : List Json
subscribe_params = str (codes "monetarium-cpuminer/0.1.0") ∷ []

abbrev pub authorize_params : Miner → List Json
authorize_params m = str m.user ∷ str m.password ∷ []

-- A request, as it leaves the miner that waits for the reply.
abbrev pub asked : Bytes → List Json → Miner → Miner
asked method params m = record m {
  next_id = (m.next_id + 1) % 2 ^ 64;
  sent = m.sent ++ record { id = (m.next_id + 1) % 2 ^ 64; method = method; params = params } ∷ [];
}

sends_request :
    (method : Bytes) (params : List Json) (m : Miner)
    → m.writable ≡ true
    → send_request method params m ≡ (asked method params m, some ((m.next_id + 1) % 2 ^ 64))
unfolding send_request next_request_id
sends_request method params m writable = simp writable

subscribe_waits :
    (c : Chain) (m : Miner) (incoming : List Incoming)
    → m.writable ≡ true
    → subscribe c incoming m
      ≡ wait_reply c
          ((m.next_id + 1) % 2 ^ 64)
          (λ msg. read_subscription msg.error msg.result)
          incoming
          (asked method_subscribe subscribe_params m)
unfolding subscribe
subscribe_waits c m incoming writable =
    ap
      (λ (p : Miner × Option ℕ). elim p.1 [
        | none ↦ ok (p.0, incoming, some write_failed)
        | some id ↦ wait_reply c id (λ msg. read_subscription msg.error msg.result) incoming (p.0)
      ])
      (sends_request method_subscribe subscribe_params m writable)

authorize_waits :
    (c : Chain) (m : Miner) (incoming : List Incoming)
    → m.writable ≡ true
    → authorize c incoming m
      ≡ wait_reply c
          ((m.next_id + 1) % 2 ^ 64)
          (λ msg. read_authorization msg.error msg.result)
          incoming
          (asked method_authorize (authorize_params m) m)
unfolding authorize
authorize_waits c m incoming writable =
    ap
      (λ (p : Miner × Option ℕ). elim p.1 [
        | none ↦ ok (p.0, incoming, some write_failed)
        | some id ↦ wait_reply c id (λ msg. read_authorization msg.error msg.result) incoming (p.0)
      ])
      (sends_request method_authorize (authorize_params m) m writable)

wait_reply_answered :
    (c : Chain) (answer : Incoming → Miner → Miner × Option HandshakeError) (msg : Incoming)
    (rest : List Incoming) (m : Miner)
    → msg.method ≡ []
    → wait_reply c msg.id answer (msg ∷ rest) m ≡ ok ((answer msg m).0, rest, (answer msg m).1)
unfolding wait_reply
wait_reply_answered c answer msg rest m e =
    let same : (msg.id == msg.id) ≡ true = ground arith in rw (e, same) refl

wait_reply_notified :
    (c : Chain) (id : ℕ) (answer : Incoming → Miner → Miner × Option HandshakeError)
    (msg : Incoming) (rest : List Incoming) (m m' : Miner)
    → eq_bytes msg.method [] ≡ false
    → handle_notification c msg m ≡ ok m'
    → wait_reply c id answer (msg ∷ rest) m ≡ wait_reply c id answer rest m'
unfolding wait_reply
wait_reply_notified c id answer msg rest m m' e h = rw (e, h) refl

-- The messages of a pool to a miner that connects: the greeting, and the reply to the login.
abbrev pub welcome : ℕ → Client → Server → Work → List Message
welcome id k s w = greeting id k s w ++ response (new_response ((id + 1) % 2 ^ 64) (bool true)) ∷ []

subscribe-greeting :
    (c : Chain) (m : Miner) (k : Client) (s : Server) (w : Work) (later : List Incoming)
    → m.writable ≡ true
    → subscribe c (map delivered (greeting ((m.next_id + 1) % 2 ^ 64) k s w) ++ later) m
      ≡ ok (
        record (asked method_subscribe subscribe_params m) {
          extra_nonce1 = k.extra_nonce1;
          extra_nonce2_len = k.extra_nonce2_length;
        },
        delivered (notification (new_set_difficulty s.share_diff))
            ∷ delivered (notification (work_notification w false))
            ∷ later,
        none,
      )
unfolding read_subscription record_subscription new_response
subscribe-greeting c m k s w later writable =
    let id = (m.next_id + 1) % 2 ^ 64 in
    subscribe_waits c m (map delivered (greeting id k s w) ++ later) writable
    ∙ wait_reply_answered c (λ msg. read_subscription msg.error msg.result)
        (delivered (response (new_response id (subscription k))))
        (delivered (notification (new_set_difficulty s.share_diff))
          ∷ delivered (notification (work_notification w false))
          ∷ later)
        (asked method_subscribe subscribe_params m) refl

module _ (c : Chain) (w : Work) (blob : IsBlob w) (extra_nonce1 : Bytes)
    (sized : length extra_nonce1 ≡ 4) (extra_nonce1_bytes : All IsByte extra_nonce1) (share : ℕ)
    (share_be block_be : Bytes) (share_fits : to_target_bytes (pos share) ≡ some share_be)
    (block_fits : to_target_bytes (c.compact_to_big (le_value (bits w))) ≡ some block_be) where
  -- The miner at the end of the handshake.
  abbrev pub welcomed : Miner → Client → Miner
  welcomed m k =
      let asked_twice =
        asked method_authorize (authorize_params m)
          (asked method_subscribe subscribe_params (reset_connection c m)) in
      record asked_twice {
        extra_nonce1 = k.extra_nonce1;
        extra_nonce2_len = k.extra_nonce2_length;
        target = some share;
        gen = (m.gen + 1) % 2 ^ 64;
        current_job = some (
            job_of c w blob extra_nonce1 sized extra_nonce1_bytes share share_be block_be share_fits
              block_fits);
      }

  reads_difficulty :
      (m : Miner) (s : Server)
      → share_target c s.share_diff ≡ some share
      → handle_notification c (delivered (notification (new_set_difficulty s.share_diff))) m
        ≡ ok (record m { target = some share })
  reads_difficulty m s target =
      handle_notification-new_set_difficulty c s.share_diff m
      ∙ ap (λ t. or_fail t division_by_zero >>= λ x. ok (record m { target = some x })) target

  reads_work :
      (m : Miner)
      → m.extra_nonce1 ≡ encode extra_nonce1
      → m.target ≡ some share
      → handle_notification c (delivered (notification (work_notification w false))) m
        ≡ ok (record m {
          gen = (m.gen + 1) % 2 ^ 64;
          current_job = some (
              job_of c w blob extra_nonce1 sized extra_nonce1_bytes share share_be block_be
                share_fits block_fits);
        })
  unfolding handle_notification work_notification
  reads_work m nonce target =
      handle_notify-work c w blob extra_nonce1 sized extra_nonce1_bytes share share_be block_be
        share_fits block_fits m false nonce target

  authorize-welcome :
      (m : Miner) (s : Server) (later : List Incoming)
      → m.writable ≡ true
      → m.extra_nonce1 ≡ encode extra_nonce1
      → share_target c s.share_diff ≡ some share
      → authorize c
          (delivered (notification (new_set_difficulty s.share_diff))
            ∷ delivered (notification (work_notification w false))
            ∷ delivered (response (new_response ((m.next_id + 1) % 2 ^ 64) (bool true)))
            ∷ later)
          m
        ≡ ok (
          record (asked method_authorize (authorize_params m) m) {
            target = some share;
            gen = (m.gen + 1) % 2 ^ 64;
            current_job = some (
                job_of c w blob extra_nonce1 sized extra_nonce1_bytes share share_be block_be
                  share_fits block_fits);
          },
          later,
          none,
        )
  unfolding read_authorization new_response new_set_difficulty work_notification
  authorize-welcome m s later writable nonce target =
      let id = (m.next_id + 1) % 2 ^ 64 in
      let m1 = asked method_authorize (authorize_params m) m in
      let m2 = record m1 { target = some share } in
      let work = delivered (notification (work_notification w false)) in
      let reply = delivered (response (new_response id (bool true))) in
      let answer = λ (msg : Incoming). read_authorization msg.error msg.result in
      authorize_waits c m
        (delivered (notification (new_set_difficulty s.share_diff)) ∷ work ∷ reply ∷ later) writable
      ∙ wait_reply_notified c id answer (delivered (notification (new_set_difficulty s.share_diff)))
          (work ∷ reply ∷ later) m1 m2 refl (reads_difficulty m1 s target)
      ∙ wait_reply_notified c id answer work (reply ∷ later) m2 _ refl (reads_work m2 nonce refl)
      ∙ wait_reply_answered c answer reply later _ refl

  -- A miner connects to a pool with current work `w` and extra nonce 1 for it of four bytes, whose
  -- share difficulty has a target and where both targets fit 32 bytes. If the pool sends the reply to
  -- the subscription, the difficulty, the work and the reply to the login, the handshake succeeds,
  -- and the connection goes on, with whatever messages come later, from a miner with the extra nonce
  -- 1 and the share target of the pool and with the job of `w`.
  pub connect_and_mine-welcome :
      (turns : List Turn) (later : List Incoming) (m : Miner) (k : Client) (s : Server)
      → k.extra_nonce1 ≡ encode extra_nonce1
      → share_target c s.share_diff ≡ some share
      → connect_and_mine c turns
          (map delivered (welcome ((m.next_id + 1) % 2 ^ 64) k s w) ++ later)
          m
        ≡ (run_turns c turns later (welcomed m k) >>= λ m'. ok (m', none))
  unfolding connect_and_mine after_subscribe after_authorize reset_connection
  connect_and_mine-welcome turns later m k s nonce target =
      let m0 = reset_connection c m in
      let id = (m.next_id + 1) % 2 ^ 64 in
      let m1 = record (asked method_subscribe subscribe_params m0) {
        extra_nonce1 = k.extra_nonce1;
        extra_nonce2_len = k.extra_nonce2_length;
      } in
      let reply = delivered (response (new_response ((id + 1) % 2 ^ 64) (bool true))) in
      ap (λ r. r >>= after_subscribe c turns) (subscribe-greeting c m0 k s w (reply ∷ later) refl)
      ∙ ap (λ r. r >>= after_authorize c turns) (authorize-welcome m1 s later refl nonce target)

-- ===== src/Miner/Gpu/Session/Handshake.antt =====
-- cmd/gpuminer/miner.go: `subscribe`, `authorize` and `connectAndMine`. The schedule of a connection
-- is that of the CPU miner.
use monetarium_stratum.Prelude.{
  ℕ, true, false, ◌&&◌, Option, none, some, List, [], ◌∷◌, ◌==◌, if◌then◌else◌, eq_bytes, Result,
  ok, ◌>>=◌,
}
use monetarium_stratum.Bytes.Slice.{Bytes}
use monetarium_stratum.Bytes.Text.{codes}
use monetarium_stratum.Mining.Chain.{Chain}
use monetarium_stratum.Stratum.Protocol.{
  Json, null, bool, num, str, arr, to_list, method_subscribe, method_authorize,
}
use monetarium_stratum.Miner.Session.{
  Panic, Incoming, HandshakeError, read_failed, write_failed, refused, invalid_result,
  result_length, not_accepted, Turn, reads, submits, breaks,
}
use monetarium_stratum.Miner.Gpu.Session.State.{
  GpuMiner, reset_connection, send_request, handle_notification, read_message, submit_share,
}

-- The result of a handshake beside the miner and the messages still unread.
abbrev Outcome : Type 0
Outcome = GpuMiner × List Incoming × Option HandshakeError

module _ (c : Chain) (id : ℕ)
    (answer : Incoming → GpuMiner → GpuMiner × Option HandshakeError) where
  -- The loop of both handshakes: other messages are handled as notifications.
  unfoldable pub wait_reply : List Incoming → GpuMiner → Result Panic Outcome
  wait_reply [] m = ok (m, [], some read_failed)
  wait_reply (msg ∷ rest) m =
      if eq_bytes msg.method [] && (msg.id == id)
      then (let (m', e) = answer msg m in ok (m', rest, e))
      else (handle_notification c msg m >>= λ m'. wait_reply rest m')

unfoldable pub text_or_empty : Json → Bytes
text_or_empty (str s) = s
text_or_empty _ = []

unfoldable pub whole_or_zero : Json → ℕ
whole_or_zero (num whole _) = whole
whole_or_zero _ = 0

-- The three elements of a subscription result.
unfoldable pub record_subscription : List Json → GpuMiner → GpuMiner × Option HandshakeError
unfolding text_or_empty whole_or_zero
record_subscription (_ ∷ extra_nonce1 ∷ len ∷ []) m = (
  record m { extra_nonce1 = text_or_empty extra_nonce1; extra_nonce2_len = whole_or_zero len },
  none,
)
record_subscription _ m = (m, some result_length)

unfoldable pub read_subscription :
    Option Json → Option Json → GpuMiner → GpuMiner × Option HandshakeError
unfolding record_subscription
read_subscription (some e) result m = (m, some refused)
read_subscription none (some (arr xs)) m = record_subscription (to_list xs) m
read_subscription none (some null) m = (m, some result_length)
read_subscription none _ m = (m, some invalid_result)

unfoldable pub read_authorization :
    Option Json → Option Json → GpuMiner → GpuMiner × Option HandshakeError
read_authorization (some e) result m = (m, some refused)
read_authorization none (some (bool true)) m = (m, none)
read_authorization none (some (bool false)) m = (m, some not_accepted)
read_authorization none (some null) m = (m, some not_accepted)
read_authorization none _ m = (m, some invalid_result)

-- `subscribe`
unfoldable pub subscribe : Chain → List Incoming → GpuMiner → Result Panic Outcome
unfolding wait_reply read_subscription
subscribe c incoming m =
    let (m', sent) =
      send_request method_subscribe (str (codes "monetarium-gpuminer/0.1.0") ∷ []) m in
    elim sent [
      | none ↦ ok (m', incoming, some write_failed)
      | some id ↦ wait_reply c id (λ msg. read_subscription msg.error msg.result) incoming m'
    ]

-- `authorize`
unfoldable pub authorize : Chain → List Incoming → GpuMiner → Result Panic Outcome
unfolding wait_reply read_authorization
authorize c incoming m =
    let (m', sent) = send_request method_authorize (str m.user ∷ str m.password ∷ []) m in
    elim sent [
      | none ↦ ok (m', incoming, some write_failed)
      | some id ↦ wait_reply c id (λ msg. read_authorization msg.error msg.result) incoming m'
    ]

-- The goroutines of a connection.
unfoldable pub run_turns : Chain → List Turn → List Incoming → GpuMiner → Result Panic GpuMiner
run_turns c [] incoming m = ok m
run_turns c (reads ∷ turns) [] m = ok m
run_turns c (reads ∷ turns) (msg ∷ rest) m = read_message c msg m >>= run_turns c turns rest
run_turns c (submits job extra_nonce2 nonce ∷ turns) incoming m =
    run_turns c turns incoming (submit_share job extra_nonce2 nonce m)
run_turns c (breaks ∷ turns) incoming m = run_turns c turns incoming (record m { writable = false })

module _ (c : Chain) (turns : List Turn) where
  unfoldable pub after_authorize :
      GpuMiner × List Incoming × Option HandshakeError
      → Result Panic (GpuMiner × Option HandshakeError)
  after_authorize (m, rest, some e) = ok (m, some e)
  after_authorize (m, rest, none) = run_turns c turns rest m >>= λ m'. ok (m', none)

  unfoldable pub after_subscribe :
      GpuMiner × List Incoming × Option HandshakeError
      → Result Panic (GpuMiner × Option HandshakeError)
  unfolding after_authorize
  after_subscribe (m, rest, some e) = ok (m, some e)
  after_subscribe (m, rest, none) = authorize c rest m >>= after_authorize

  -- `connectAndMine`, on the messages of the connection; the error is that of the handshake.
  unfoldable pub connect_and_mine :
      List Incoming → GpuMiner → Result Panic (GpuMiner × Option HandshakeError)
  unfolding after_subscribe
  connect_and_mine incoming m = subscribe c incoming (reset_connection c m) >>= after_subscribe

-- ===== src/Miner/Session/Handshake.antt =====
-- `subscribe` and `authorize`: a request, and the messages read until its response. The list is what
-- the connection delivers before it drops.
use monetarium_stratum.Prelude.{
  ℕ, true, false, ◌&&◌, Option, none, some, List, [], ◌∷◌, ◌==◌, if◌then◌else◌, eq_bytes, Result,
  ok, ◌>>=◌,
}
use monetarium_stratum.Bytes.Slice.{Bytes}
use monetarium_stratum.Bytes.Text.{codes}
use monetarium_stratum.Mining.Chain.{Chain}
use monetarium_stratum.Stratum.Protocol.{
  Json, null, bool, num, str, arr, to_list, method_subscribe, method_authorize,
}
use monetarium_stratum.Miner.Session.State.{
  Panic, Incoming, Miner, send_request, handle_notification,
}

pub data HandshakeError : Type 0 where
  read_failed write_failed refused invalid_result result_length not_accepted : HandshakeError

-- The result of a handshake beside the miner and the messages still unread.
abbrev Outcome : Type 0
Outcome = Miner × List Incoming × Option HandshakeError

module _ (c : Chain) (id : ℕ) (answer : Incoming → Miner → Miner × Option HandshakeError) where
  -- The loop of both handshakes: other messages are handled as notifications.
  unfoldable pub wait_reply : List Incoming → Miner → Result Panic Outcome
  wait_reply [] m = ok (m, [], some read_failed)
  wait_reply (msg ∷ rest) m =
      if eq_bytes msg.method [] && (msg.id == id)
      then (let (m', e) = answer msg m in ok (m', rest, e))
      else (handle_notification c msg m >>= λ m'. wait_reply rest m')

unfoldable pub text_or_empty : Json → Bytes
text_or_empty (str s) = s
text_or_empty _ = []

unfoldable pub whole_or_zero : Json → ℕ
whole_or_zero (num whole _) = whole
whole_or_zero _ = 0

-- The three elements of a subscription result.
unfoldable pub record_subscription : List Json → Miner → Miner × Option HandshakeError
unfolding text_or_empty whole_or_zero
record_subscription (_ ∷ extra_nonce1 ∷ len ∷ []) m = (
  record m { extra_nonce1 = text_or_empty extra_nonce1; extra_nonce2_len = whole_or_zero len },
  none,
)
record_subscription _ m = (m, some result_length)

unfoldable pub read_subscription : Option Json → Option Json → Miner → Miner × Option HandshakeError
unfolding record_subscription
read_subscription (some e) result m = (m, some refused)
read_subscription none (some (arr xs)) m = record_subscription (to_list xs) m
read_subscription none (some null) m = (m, some result_length)
read_subscription none _ m = (m, some invalid_result)

unfoldable pub read_authorization :
    Option Json → Option Json → Miner → Miner × Option HandshakeError
read_authorization (some e) result m = (m, some refused)
read_authorization none (some (bool true)) m = (m, none)
read_authorization none (some (bool false)) m = (m, some not_accepted)
read_authorization none (some null) m = (m, some not_accepted)
read_authorization none _ m = (m, some invalid_result)

-- `subscribe`
unfoldable pub subscribe : Chain → List Incoming → Miner → Result Panic Outcome
unfolding wait_reply read_subscription
subscribe c incoming m =
    let (m', sent) =
      send_request method_subscribe (str (codes "monetarium-cpuminer/0.1.0") ∷ []) m in
    elim sent [
      | none ↦ ok (m', incoming, some write_failed)
      | some id ↦ wait_reply c id (λ msg. read_subscription msg.error msg.result) incoming m'
    ]

-- `authorize`
unfoldable pub authorize : Chain → List Incoming → Miner → Result Panic Outcome
unfolding wait_reply read_authorization
authorize c incoming m =
    let (m', sent) = send_request method_authorize (str m.user ∷ str m.password ∷ []) m in
    elim sent [
      | none ↦ ok (m', incoming, some write_failed)
      | some id ↦ wait_reply c id (λ msg. read_authorization msg.error msg.result) incoming m'
    ]

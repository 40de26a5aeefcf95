-- ===== src/Miner/Session/Connection.antt =====
-- `connectAndMine` after the dial: the handshake, and then the read loop and the hash workers, whose
-- steps come in the order of a schedule. A schedule that ends is a shutdown; a read without a message
-- is the loss of the connection.
use monetarium_stratum.Prelude.{ℕ, false, Option, none, some, List, [], ◌∷◌, Result, ok, ◌>>=◌}
use monetarium_stratum.Bytes.Slice.{Bytes}
use monetarium_stratum.Mining.Chain.{Chain}
use monetarium_stratum.Miner.Job.{Job}
use monetarium_stratum.Miner.Session.State.{
  Panic, Incoming, Miner, reset_connection, read_message, submit_share,
}
use monetarium_stratum.Miner.Session.Handshake.{HandshakeError, subscribe, authorize}

-- The read loop takes the next message, a hash worker submits a share, or the connection ceases to
-- take writes.
pub data Turn : Type 0 where
  reads : Turn
  submits : Job → Bytes → ℕ → Turn
  breaks : Turn

-- The goroutines of a connection.
unfoldable pub run_turns : Chain → List Turn → List Incoming → Miner → Result Panic Miner
run_turns c [] incoming m = ok m
run_turns c (reads ∷ turns) [] m = ok m
run_turns c (reads ∷ turns) (msg ∷ rest) m = read_message c msg m >>= run_turns c turns rest
run_turns c (submits job extra_nonce2 nonce ∷ turns) incoming m =
    run_turns c turns incoming (submit_share job extra_nonce2 nonce m)
run_turns c (breaks ∷ turns) incoming m = run_turns c turns incoming (record m { writable = false })

module _ (c : Chain) (turns : List Turn) where
  unfoldable pub after_authorize :
      Miner × List Incoming × Option HandshakeError → Result Panic (Miner × Option HandshakeError)
  after_authorize (m, rest, some e) = ok (m, some e)
  after_authorize (m, rest, none) = run_turns c turns rest m >>= λ m'. ok (m', none)

  unfoldable pub after_subscribe :
      Miner × List Incoming × Option HandshakeError → Result Panic (Miner × Option HandshakeError)
  unfolding after_authorize
  after_subscribe (m, rest, some e) = ok (m, some e)
  after_subscribe (m, rest, none) = authorize c rest m >>= after_authorize

  -- `connectAndMine`, on the messages of the connection; the error is that of the handshake.
  unfoldable pub connect_and_mine :
      List Incoming → Miner → Result Panic (Miner × Option HandshakeError)
  unfolding after_subscribe
  connect_and_mine incoming m = subscribe c incoming (reset_connection c m) >>= after_subscribe

-- A round of `Run`: the dial fails, or there is a connection with its messages and its schedule.
pub data Attempt : Type 0 where
  dial_failed : Attempt
  connected : List Incoming → List Turn → Attempt

-- `Run`, until the miner is stopped in the wait that follows the last round.
unfoldable pub run_miner : Chain → List Attempt → Miner → Result Panic Miner
unfolding connect_and_mine
run_miner c [] m = ok m
run_miner c (dial_failed ∷ rest) m = run_miner c rest m
run_miner c (connected incoming turns ∷ rest) m =
    connect_and_mine c turns incoming m >>= λ r. run_miner c rest (r.0)

-- ===== src/Node/Client.antt =====
-- internal/node/client.go: the node's replies, the wait for a node that is not ready, the connection,
-- and the channels on which work and blocks are delivered. A step that is none is one that its
-- goroutine waits for.
use monetarium_stratum.Prelude.{
  ℕ, zero, suc, ◌+◌, Bool, true, false, ◌||◌, Option, none, some, List, [], ◌∷◌, ◌++◌, length, ltb,
  if◌then◌else◌, Result, ok, err, ◌>>=◌, or_fail, ℤ, compare_ℤ, Ordering,
}
use monetarium_stratum.Bytes.Slice.{Bytes}
use monetarium_stratum.Bytes.Hex.{decode}
use monetarium_stratum.Mining.Manager.{reason_new_txns}

abbrev pub work_event_buffer : ℕ
work_event_buffer = 8

abbrev pub block_buffer : ℕ
block_buffer = 1

-- `WorkEvent`
pub record WorkEvent : Type 0 where
  pub data_blob : Bytes
  pub reason : Bytes

-- What the RPC client's `GetWork` returns: hexadecimal data and target, an error of the node with its
-- code, or another error.
pub data NodeAnswer : Type 0 where
  answered : Bytes → Bytes → NodeAnswer
  rpc_error : ℤ → NodeAnswer
  other_error : NodeAnswer

pub data WorkFailure : Type 0 where
  refused : ℤ → WorkFailure
  broken bad_data bad_target : WorkFailure

-- `GetWork`
unfoldable pub get_work : NodeAnswer → Result WorkFailure (Bytes × Bytes)
get_work (answered data_hex target_hex) = do
  blob ← or_fail (decode data_hex) bad_data
  target ← or_fail (decode target_hex) bad_target
  ok (blob, target)
get_work (rpc_error code) = err (refused code)
get_work other_error = err broken

abbrev pub same_code : ℤ → ℤ → Bool
same_code a b = elim (compare_ℤ a b) [ Ordering.eq ↦ true | _ ↦ false ]

-- What `Connect` returns beside nil: the context's error, an error of getwork, or one of the
-- registration.
pub data ConnectError : Type 0 where
  context_done : ConnectError
  no_work : WorkFailure → ConnectError
  not_registered : ConnectError

-- The two error codes of the node that are waited out, ErrRPCClientNotConnected and
-- ErrRPCClientInInitialDownload.
module _ (client_not_connected client_in_initial_download : ℤ) where
  -- The test of `waitForNode`: whether a failure is waited out.
  unfoldable pub is_waited : WorkFailure → Bool
  is_waited (refused code) =
      same_code code client_not_connected || same_code code client_in_initial_download
  is_waited _ = false

  -- `answers i` is the reply to the i-th call, and `done i` whether the context ends in the wait
  -- that follows it.
  module _ (answers : ℕ → NodeAnswer) (done : ℕ → Bool) where
    -- `waitForNode` from its i-th call, as far as `rounds` calls go: the number of calls made and
    -- what it returns.
    unfoldable pub wait_for_node : ℕ → ℕ → Option (ℕ × Result ConnectError (Unit {0}))
    unfolding get_work is_waited
    wait_for_node zero i = none
    wait_for_node (suc rounds) i =
        let rest = wait_for_node rounds (i + 1) in
        elim (get_work (answers i)) [
          | ok work ↦ some (i + 1, ok tt)
          | err e ↦
              if is_waited e
              then if done i then some (i + 1, err context_done) else rest
              else some (i + 1, err (no_work e))
        ]

-- The client: its channels, whether the connection was reported, and whether its context is done.
pub record NodeClient : Type 0 where
  pub work : List WorkEvent
  pub blocks : ℕ
  pub connected : Bool
  pub cancelled : Bool

-- `New`
unfoldable pub new_node_client : NodeClient
new_node_client = record { work = []; blocks = 0; connected = false; cancelled = false }

-- The handler `OnClientConnected`; a second report is dropped.
unfoldable pub on_client_connected : NodeClient → NodeClient
on_client_connected n = record n { connected = true }

-- `handleWork`, the channel taking the event.
unfoldable pub handle_work : Bytes → Bytes → NodeClient → Option NodeClient
handle_work blob reason n =
    if ltb (length n.work) work_event_buffer
    then some (record n { work = n.work ++ record { data_blob = blob; reason = reason } ∷ [] })
    else none

-- `handleBlockConnected`, the channel taking the event.
unfoldable pub handle_block_connected : NodeClient → Option NodeClient
handle_block_connected n =
    if ltb n.blocks block_buffer then some (record n { blocks = n.blocks + 1 }) else none

-- Both handlers, let go by the end of the context.
unfoldable pub drop_event : NodeClient → Option NodeClient
drop_event n = if n.cancelled then some n else none

-- `Shutdown`
unfoldable pub shutdown : NodeClient → NodeClient
shutdown n = record n { cancelled = true }

-- `Connect` after the wait for the node: the registration, and the initial work.
unfoldable pub fetch_initial : Bool → NodeAnswer → Result ConnectError (Bytes × Bytes)
unfolding get_work
fetch_initial registered answer =
    if registered
    then elim (get_work answer) [ ok work ↦ ok work | err e ↦ err (no_work e) ]
    else err not_registered

-- `Connect` at its return, where the channel took the initial work.
abbrev pub stored : Option NodeClient → Option (Result ConnectError NodeClient)
stored none = none
stored (some n) = some (ok n)

-- `Connect` from the result of the wait for the node on: the client with the initial work on its
-- channel, or an error. None where the channel is full.
unfoldable pub after_wait :
    Result ConnectError (Unit {0})
    → Bool
    → NodeAnswer
    → NodeClient
    → Option (Result ConnectError NodeClient)
unfolding fetch_initial handle_work
after_wait (err e) registered answer n = some (err e)
after_wait (ok _) registered answer n = elim (fetch_initial registered answer) [
  | err e ↦ some (err e)
  | ok work ↦ stored (handle_work (work.0) reason_new_txns n)
]

-- `Connect`, as far as `rounds` calls of getwork go: `reported` is whether the connection comes
-- before the context ends, `registered` whether the node takes the registration. The initial work is
-- the reply to the call after those of the wait.
module _ (client_not_connected client_in_initial_download : ℤ) (answers : ℕ → NodeAnswer)
    (done : ℕ → Bool) where
  unfoldable pub connect_node :
      ℕ → Bool → Bool → NodeClient → Option (Result ConnectError NodeClient)
  unfolding wait_for_node after_wait
  connect_node rounds reported registered n =
      if reported
      then elim (wait_for_node client_not_connected client_in_initial_download answers done rounds
          0) [
            | none ↦ none
            | some r ↦ after_wait (r.1) registered (answers (r.0)) (record n { connected = false })
          ]
      else some (err context_done)

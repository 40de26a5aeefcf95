-- ===== src/Stratum/Queue.antt =====
-- internal/stratum/client.go: the channel `sends` of a client and its write loop, one step of a
-- goroutine at a time. A step that is none is one that its goroutine waits for.
use monetarium_stratum.Prelude.{
  ℕ, Bool, true, false, Option, none, some, List, [], ◌∷◌, ◌++◌, length, ltb, if◌then◌else◌,
}
use monetarium_stratum.Stratum.Protocol.{Message}
pub mod Fifo
pub mod Blocks

abbrev pub sends_size : ℕ
sends_size = 128

-- The channel, what went to the connection, a message whose write failed, whether the write loop
-- runs, and whether `quit` is closed.
pub record Pipe : Type 0 where
  pub sends : List Message
  pub written : List Message
  pub lost : List Message
  pub writing : Bool
  pub quit : Bool

-- `newClient` and `start`
unfoldable pub new_pipe : Pipe
new_pipe = record { sends = []; written = []; lost = []; writing = true; quit = false }

-- `enqueue`, the channel taking the message.
unfoldable pub send : Message → Pipe → Option Pipe
send msg p =
    if ltb (length p.sends) sends_size
    then some (record p { sends = p.sends ++ msg ∷ [] })
    else none

-- `enqueue`, and the write loop at its return: either is let go by the closed `quit`.
unfoldable pub discard : Pipe → Option Pipe
discard p = if p.quit then some p else none

-- A round of `writeLoop` with a message, written or not; it returns on an error.
unfoldable pub write_next : Bool → Pipe → Option Pipe
write_next works p =
    if p.writing
    then elim p.sends [
      | [] ↦ none
      | msg ∷ rest ↦
          if works
          then some (record p { sends = rest; written = p.written ++ msg ∷ [] })
          else some (record p { sends = rest; lost = p.lost ++ msg ∷ []; writing = false })
    ]
    else none

-- `writeLoop` returning on `quit`.
unfoldable pub stop_writing : Pipe → Option Pipe
stop_writing p = if p.quit then some (record p { writing = false }) else none

-- `close`, as far as the queue goes.
unfoldable pub close_pipe : Pipe → Pipe
close_pipe p = record p { quit = true }

pub data PipeStep : Type 0 where
  sends : Message → PipeStep
  discards writes fails stops closes : PipeStep

unfoldable pub pipe_step : PipeStep → Pipe → Option Pipe
unfolding send discard write_next stop_writing close_pipe
pipe_step (sends msg) p = send msg p
pipe_step discards p = discard p
pipe_step writes p = write_next true p
pipe_step fails p = write_next false p
pipe_step stops p = stop_writing p
pipe_step closes p = some (close_pipe p)

-- The goroutines of a client in the order of a schedule; none where a step of it has to wait.
unfoldable pub run_pipe : List PipeStep → Pipe → Option Pipe
unfolding pipe_step
run_pipe [] p = some p
run_pipe (e ∷ es) p = elim (pipe_step e p) [ none ↦ none | some p' ↦ run_pipe es p' ]

-- ===== src/Miner/Gpu/Host.antt =====
-- cmd/gpuminer/host.go: the GPU host process as the miner sees it: a pipe for work, and three
-- channels that the read loop fills from its output. A line of the output is its decoded message. A
-- step that is none is one that its goroutine waits for.
pub mod Channels
use monetarium_stratum.Prelude.{
  ℕ, Bool, true, false, Option, none, some, List, [], ◌∷◌, ◌++◌, length, ltb, if◌then◌else◌,
}
use monetarium_stratum.Bytes.Slice.{Bytes}
use monetarium_stratum.Miner.Gpu.Sweep.{HostEvent, progress, searched, solution}

abbrev pub solutions_size : ℕ
solutions_size = 1

abbrev pub progress_size : ℕ
progress_size = 16

abbrev pub searched_size : ℕ
searched_size = 1

-- `solutionMessage`
pub record SolutionMessage : Type 0 where
  pub nonce : ℕ  -- uint32
  pub header : Bytes
  pub nonces_checked : ℕ  -- uint64

-- `workMessage`
pub record WorkMessage : Type 0 where
  pub header : Bytes
  pub target : Bytes

-- A line of the host's output: one of the three messages, or one that is dropped, because it is not
-- JSON, of another type, or has a field of the wrong type.
pub data HostLine : Type 0 where
  solution_line : SolutionMessage → HostLine
  progress_line searched_line : ℕ → HostLine
  other_line : HostLine

-- `gpuHost`, with the work that was sent and the reports that `mineJob` took, in the order in which
-- it took them.
pub record GpuHost : Type 0 where
  pub stdin : Bool
  pub solutions : List SolutionMessage
  pub progress : List ℕ
  pub searched : List ℕ
  pub reading : Bool
  pub sent : List WorkMessage
  pub taken_solutions : List SolutionMessage
  pub taken_searched : List ℕ
  pub events : List HostEvent

-- `startGpuHost`
unfoldable pub start_gpu_host : GpuHost
start_gpu_host = record {
  stdin = true;
  solutions = [];
  progress = [];
  searched = [];
  reading = true;
  sent = [];
  taken_solutions = [];
  taken_searched = [];
  events = [];
}

-- `send`; none is a failed write.
unfoldable pub send_work : WorkMessage → GpuHost → Option GpuHost
send_work msg h = if h.stdin then some (record h { sent = h.sent ++ msg ∷ [] }) else none

-- A round of `readLoop`: a solution and a finished sweep wait for room in their channels, progress is
-- dropped where there is none.
unfoldable pub read_line : HostLine → GpuHost → Option GpuHost
read_line (solution_line msg) h =
    if ltb (length h.solutions) solutions_size
    then some (record h { solutions = h.solutions ++ msg ∷ [] })
    else none
read_line (progress_line n) h =
    if ltb (length h.progress) progress_size
    then some (record h { progress = h.progress ++ n ∷ [] })
    else some h
read_line (searched_line n) h =
    if ltb (length h.searched) searched_size
    then some (record h { searched = h.searched ++ n ∷ [] })
    else none
read_line other_line h = some h

-- `readLoop` at the end of the output.
unfoldable pub end_output : GpuHost → GpuHost
end_output h = record h { reading = false }

-- The cases of the select of `mineJob` that take a report.
unfoldable pub take_solution : GpuHost → Option GpuHost
take_solution h = elim h.solutions [
  | [] ↦ none
  | msg ∷ rest ↦ some (record h {
    solutions = rest;
    taken_solutions = h.taken_solutions ++ msg ∷ [];
    events = h.events ++ solution msg.nonces_checked msg.nonce ∷ [];
  })
]

unfoldable pub take_searched : GpuHost → Option GpuHost
take_searched h = elim h.searched [
  | [] ↦ none
  | n ∷ rest ↦ some (record h {
    searched = rest;
    taken_searched = h.taken_searched ++ n ∷ [];
    events = h.events ++ HostEvent.searched n ∷ [];
  })
]

unfoldable pub take_progress : GpuHost → Option GpuHost
take_progress h = elim h.progress [
  | [] ↦ none
  | n ∷ rest ↦ some (record h { progress = rest; events = h.events ++ HostEvent.progress n ∷ [] })
]

-- `stop`: stdin is closed at once, and the call returns once the read loop has.
unfoldable pub close_stdin : GpuHost → GpuHost
close_stdin h = record h { stdin = false }

unfoldable pub stopped : GpuHost → Option GpuHost
stopped h = if h.reading then none else some h

pub data HostStep : Type 0 where
  prints : HostLine → HostStep
  exits takes_solution takes_searched takes_progress closes stops : HostStep
  works : WorkMessage → HostStep

unfoldable pub host_step : HostStep → GpuHost → Option GpuHost
unfolding read_line end_output take_solution take_searched take_progress close_stdin stopped
    send_work
host_step (prints line) h = if h.reading then read_line line h else none
host_step exits h = some (end_output h)
host_step takes_solution h = take_solution h
host_step takes_searched h = take_searched h
host_step takes_progress h = take_progress h
host_step closes h = some (close_stdin h)
host_step stops h = stopped h
host_step (works msg) h = send_work msg h

-- The read loop and `mineJob` in the order of a schedule; none where a step has to wait.
unfoldable pub run_host : List HostStep → GpuHost → Option GpuHost
unfolding host_step
run_host [] h = some h
run_host (e ∷ es) h = elim (host_step e h) [ none ↦ none | some h' ↦ run_host es h' ]

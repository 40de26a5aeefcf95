-- ===== src/Mining/Manager.antt =====
-- internal/mining/work.go: `WorkManager`. Its lock makes each method one step.
pub mod Registry
pub mod Updates
pub mod History
pub mod Window
use monetarium_stratum.Prelude.{
  ℕ, ◌+◌, ◌%◌, ◌^◌, Bool, false, Option, none, some, List, [], ◌∷◌, ◌++◌, ltb, if◌then◌else◌,
  eq_bytes, length, ok, err,
}
use monetarium_stratum.Bytes.Slice.{Bytes}
use monetarium_stratum.Bytes.Text.{codes}
use monetarium_stratum.Bytes.Dict.{lookup, insert, remove}
use monetarium_stratum.Bytes.Decimal.{format_uint}
use monetarium_stratum.Mining.Work.{Work, new_work}

abbrev pub reason_new_parent : Bytes
reason_new_parent = codes "NewParent"

abbrev pub reason_new_votes : Bytes
reason_new_votes = codes "NewVotes"

abbrev pub reason_new_txns : Bytes
reason_new_txns = codes "NewTxns"

pub record WorkManager : Type 0 where
  pub current : Option Work
  pub jobs : List (Bytes × Work)
  pub order : List Bytes
  pub seq : ℕ  -- uint64
  pub max_jobs : ℕ

-- `NewWorkManager`
unfoldable pub new_work_manager : ℕ → WorkManager
new_work_manager max_jobs = record {
  current = none;
  jobs = [];
  order = [];
  seq = 0;
  max_jobs = max_jobs;
}

-- `m.current != nil && bytes.Equal(m.current.data[:], data)`
abbrev pub is_duplicate : Option Work → Bytes → Bool
is_duplicate none blob = false
is_duplicate (some w) blob = eq_bytes w.data_blob blob

-- The eviction of the oldest job at capacity; `m.order[0]` of an empty order is a panic, `none`.
unfoldable pub evict : WorkManager → Option WorkManager
evict m = if ltb (length m.order) m.max_jobs then some m else elim m.order [
  | [] ↦ none
  | oldest ∷ rest ↦ some (record m { order = rest; jobs = remove oldest m.jobs })
]

-- The registration of a new current job.
unfoldable pub register : WorkManager → Work → WorkManager
register m work = record m {
  order = m.order ++ work.job_id ∷ [];
  jobs = insert work.job_id work m.jobs;
}

-- `SetCurrent`: the new manager, the work returned and the flag for clean jobs; `none` is a panic.
unfoldable pub set_current : WorkManager → Bytes → Bytes → Option (WorkManager × Option Work × Bool)
unfolding evict register
set_current m blob reason =
    if is_duplicate m.current blob
    then some (m, m.current, false)
    else let seq = (m.seq + 1) % 2 ^ 64 in
      elim (new_work blob (format_uint seq)) [
        | err e ↦ some (record m { seq = seq }, m.current, false)
        | ok work ↦ elim (evict (record m { seq = seq; current = some work })) [
          | none ↦ none
          | some m' ↦ some (register m' work, some work, eq_bytes reason reason_new_parent)
        ]
      ]

-- `Current`
unfoldable pub current_work : WorkManager → Option Work
current_work m = m.current

-- `Job`
unfoldable pub job : WorkManager → Bytes → Option Work
job m job_id = lookup job_id m.jobs

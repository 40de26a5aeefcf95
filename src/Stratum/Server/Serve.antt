-- ===== src/Stratum/Server/Serve.antt =====
-- The work that the server serves: notifications, new templates and refreshed ones.
use monetarium_stratum.Prelude.{
  ℕ, ◌+◌, ◌%◌, ◌^◌, Bool, false, Option, none, some, [], leb, if◌then◌else◌, Result, ok, ◌>>=◌,
  or_fail,
}
use monetarium_stratum.Bytes.Slice.{Bytes}
use monetarium_stratum.Bytes.Endian.{le_value}
use monetarium_stratum.Bytes.Hex.{encode}
use monetarium_stratum.Mining.Work.{
  Work, prev_block, partial_header, version, bits, timestamp, refresh_timestamp,
}
use monetarium_stratum.Mining.Manager.{set_current, current_work, reason_new_votes}
use monetarium_stratum.Stratum.Protocol.{Notification, notification, new_notify}
use monetarium_stratum.Stratum.Server.State.{Panic, index_out_of_range, Server, enqueue, broadcast}

-- The notification of `sendWork`.
unfoldable pub work_notification : Work → Bool → Notification
unfolding new_notify
work_notification w clean =
    new_notify w.job_id (encode (prev_block w)) (encode (partial_header w)) [] []
      (encode (version w)) (encode (bits w)) (encode (timestamp w)) clean

-- `sendWork`
unfoldable pub send_work : ℕ → Work → Bool → Server → Server
send_work id w clean s = enqueue id (notification (work_notification w clean)) s

-- The work, if there is some, to every client.
abbrev pub broadcast_to : Option Work → Bool → Server → Server
broadcast_to none clean s = s
broadcast_to (some w) clean s = broadcast (work_notification w clean) s

-- `BroadcastWork`
unfoldable pub broadcast_work : Server → Server
unfolding current_work
broadcast_work s = broadcast_to (current_work s.work_mgr) false s

-- `ProcessWork` on clients that take all that is sent, as one step.
unfoldable pub process_work : Bytes → Bytes → Server → Result Panic Server
process_work blob reason s = do
  (mgr, curr, clean) ← or_fail (set_current s.work_mgr blob reason) index_out_of_range
  ok (broadcast_to curr clean (record s { work_mgr = mgr }))

-- The timestamp that `RefreshWork` takes: the clock, or one second past the old timestamp.
unfoldable pub fresh_timestamp : ℕ → ℕ → ℕ
fresh_timestamp now old = if leb now old then (old + 1) % 2 ^ 32 else now

-- The refreshed data of the current work.
refresh_from : ℕ → Option Work → Server → Result Panic Server
unfolding fresh_timestamp
refresh_from now none s = ok s
refresh_from now (some w) s = do
  (mgr, _, _) ←
      or_fail
        (set_current s.work_mgr (refresh_timestamp w (fresh_timestamp now (le_value (timestamp w))))
          reason_new_votes)
        index_out_of_range
  ok (broadcast_work (record s { work_mgr = mgr }))

-- `RefreshWork`, as one step. (The program holds no lock over it: another goroutine may come between
-- its `Current` and its `SetCurrent`.)
unfoldable pub refresh_work : ℕ → Server → Result Panic Server
unfolding refresh_from current_work
refresh_work now s = refresh_from now (current_work s.work_mgr) s

-- ===== src/Program/Loop.antt =====
-- main.go: `run`, the event loop between the node client's channels and the server, beside the
-- goroutines of the node client and of the miners' connections, one step at a time. The request of a
-- connection is handled as one step.
use monetarium_stratum.Prelude.{
  ℕ, Bool, true, false, ◌&&◌, map, Option, none, some, List, [], ◌∷◌, ◌++◌, ◌-◌, ltb, if◌then◌else◌,
  Result, ok, err, ◌>>=◌, or_fail,
}
use monetarium_stratum.Bytes.Slice.{Bytes}
use monetarium_stratum.Mining.Chain.{Chain}
use monetarium_stratum.Mining.Work.{Work}
use monetarium_stratum.Mining.Manager.{set_current}
use monetarium_stratum.Stratum.Protocol.{Json}
use monetarium_stratum.Stratum.Server.{
  Panic, Server, Node, new_server, connect, remove_client, index_out_of_range, send_work,
  block_stats, stop,
}
use monetarium_stratum.Stratum.Client.{handle_message}
use monetarium_stratum.Node.Client.{
  NodeClient, new_node_client, handle_work, handle_block_connected, drop_event, shutdown,
}

-- The numbers that `logBlockStats` reports.
pub record Stats : Type 0 where
  pub shares : ℕ
  pub found : ℕ
  pub submitted : ℕ
  pub throttled : ℕ

-- How far the loop is with the clients that `ProcessWork` sends work: it is not in that call, it has
-- still to list the clients, or it has still to send to those of a list.
pub data Sending : Type 0 where
  idle : Sending
  listing : Work → Bool → Sending
  sending_to : Work → Bool → List ℕ → Sending

-- The program: whether its loop goes on, how far that is with a broadcast, and what it reported.
pub record Pool : Type 0 where
  pub node : NodeClient
  pub server : Server
  pub running : Bool
  pub sending : Sending
  pub reports : List Stats

-- Why a step does not come to an end: its goroutine waits, or the program panics.
pub data Halt : Type 0 where
  waits : Halt
  panicked : Panic → Halt

-- Events that the node client delivers, those that the loop takes, and those of miners.
pub data PoolStep : Type 0 where
  delivers : Bytes → Bytes → PoolStep
  connects_block drops takes_work tells takes_block ticks signals ends : PoolStep
  joins : PoolStep
  leaves : ℕ → PoolStep
  requests : Node → ℕ → Option Json → PoolStep

-- `main` up to the loop.
unfoldable pub new_pool : ℕ → ℕ → Bytes → ℕ → Pool
new_pool share_difficulty block_submit_divisor pool_password max_clients = record {
  node = new_node_client;
  server = new_server share_difficulty block_submit_divisor pool_password max_clients;
  running = true;
  sending = idle;
  reports = [];
}

-- `logBlockStats`
unfoldable pub log_block_stats : Pool → Pool
log_block_stats p =
    let (found, submitted, throttled) = block_stats p.server in
    record p {
      reports =
          p.reports
          ++ record {
            shares = p.server.share_count;
            found = found;
            submitted = submitted;
            throttled = throttled;
          }
            ∷ [];
    }

-- `NewBlock` only logs.
unfoldable pub new_block : Server → Server
new_block s = s

-- A panic stops the program.
abbrev pub or_panic : {A : Type 0} → Result Panic A → Result Halt A
or_panic (ok a) = ok a
or_panic (err x) = err (panicked x)

-- What is sent of the work that `SetCurrent` returns.
abbrev pub to_list_clients : Option Work → Bool → Sending
to_list_clients none clean = idle
to_list_clients (some w) clean = listing w clean

-- `ProcessWork` up to its broadcast.
unfoldable pub install_work : Bytes → Bytes → Server → Result Panic (Server × Sending)
install_work blob reason s = do
  (mgr, curr, clean) ← or_fail (set_current s.work_mgr blob reason) index_out_of_range
  ok (record s { work_mgr = mgr }, to_list_clients curr clean)

-- The case of the loop that takes work.
unfoldable pub take_work : Pool → Result Halt Pool
take_work p = elim p.node.work [
  | [] ↦ err waits
  | w ∷ rest ↦ or_panic (install_work w.data_blob w.reason p.server) >>= λ r.
      ok (record p { node = record p.node { work = rest }; server = r.0; sending = r.1 })
]

-- The next step of the broadcast of `ProcessWork`; a send waits for as long as the channel of its
-- client is full, which is until the schedule takes the step.
unfoldable pub send_next : Pool → Result Halt Pool
send_next p = elim p.sending [
  | idle ↦ err waits
  | listing w clean ↦
      ok (record p { sending = sending_to w clean (map (λ k. k.id) p.server.clients) })
  | sending_to w clean [] ↦ ok (record p { sending = idle })
  | sending_to w clean (id ∷ ids) ↦
      ok (record p { server = send_work id w clean p.server; sending = sending_to w clean ids })
]

-- The case of the loop that takes a block.
unfoldable pub take_block : Pool → Result Halt Pool
unfolding new_block
take_block p =
    if ltb 0 p.node.blocks
    then ok (record p {
      node = record p.node { blocks = p.node.blocks - 1 };
      server = new_block p.server;
    })
    else err waits

abbrev pub is_idle : Sending → Bool
is_idle idle = true
is_idle _ = false

-- A case of the loop, which takes none once it returned, and none within a `ProcessWork`.
unfoldable pub in_loop : (Pool → Result Halt Pool) → Pool → Result Halt Pool
in_loop f p = if p.running && is_idle p.sending then f p else err waits

-- What the node client does with its state.
unfoldable pub in_node : Option NodeClient → Pool → Result Halt Pool
in_node o p = or_fail o waits >>= λ n. ok (record p { node = n })

-- What a goroutine of the server does with its state.
unfoldable pub in_server : Result Panic Server → Pool → Result Halt Pool
in_server r p = or_panic r >>= λ s. ok (record p { server = s })

module _ (c : Chain) where
  unfoldable pub pool_step : PoolStep → Pool → Result Halt Pool
  unfolding in_loop in_node in_server take_work send_next take_block log_block_stats
  pool_step (delivers blob reason) p = in_node (handle_work blob reason p.node) p
  pool_step connects_block p = in_node (handle_block_connected p.node) p
  pool_step drops p = in_node (drop_event p.node) p
  pool_step takes_work p = in_loop take_work p
  pool_step tells p = send_next p
  pool_step takes_block p = in_loop take_block p
  pool_step ticks p = in_loop (λ q. ok (log_block_stats q)) p
  pool_step signals p = in_loop (λ q. ok (record q { running = false })) p
  pool_step ends p = in_loop (λ q. ok (record q { running = false })) p
  pool_step joins p = in_server (ok (connect p.server)) p
  pool_step (leaves id) p = in_server (ok (remove_client id p.server)) p
  pool_step (requests node id line) p = in_server (handle_message c node id line p.server) p

  -- `run` beside the other goroutines, in the order of a schedule.
  unfoldable pub run : List PoolStep → Pool → Result Halt Pool
  run [] p = ok p
  run (e ∷ es) p = pool_step e p >>= run es

-- `main` after the loop.
unfoldable pub finish : Pool → Pool
finish p = record p { server = stop p.server; node = shutdown p.node }

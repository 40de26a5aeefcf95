-- ===== src/Examples/PoolAt.antt =====
-- The pool's handlers and steps at concrete inputs.
use monetarium_stratum.Prelude.{
  ℕ, ◌≤◌, ◌≡◌, false, ◌≢◌, ◌⊎◌, refl, true, Option, some, List, [], ◌∷◌, map, arith, length,
  Distinct, ok, replicate, eq_bytes,
}
use monetarium_stratum.Bytes.Slice.{Bytes}
use monetarium_stratum.Bytes.Text.{codes}
use monetarium_stratum.Mining.Evaluate.{share_target}
use monetarium_stratum.Mining.Manager.{reason_new_parent, is_duplicate}
use monetarium_stratum.Mining.Manager.Updates.{Installed}
use monetarium_stratum.Mining.Work.{getwork_data_len}
use monetarium_stratum.Stratum.Protocol.{
  Json, bool, response, new_response, new_error_response, err_unauthorized, string_params,
  string_of, str,
}
use monetarium_stratum.Stratum.Server.{
  Server, Node, connect, new_server, process_work, broadcast_work, broadcast, work_notification,
  client_count, find_client, find_in, queue,
}
use monetarium_stratum.Stratum.Server.Work.{Refreshed, refresh_work_lem, process_work_lem}
use monetarium_stratum.Stratum.Client.{
  handle_message, handle_submit, handle_authorize, log_in, two_params,
}
use monetarium_stratum.Stratum.Client.Login.{MayLogIn, handle_authorize_lem}
use monetarium_stratum.Stratum.Client.Blocks.{BlockSent, handle_submit-node_calls}
use monetarium_stratum.Stratum.Client.Health.{handle_submit-Succeeds}
use monetarium_stratum.Stratum.Server.Health.{IsHealthy}
use monetarium_stratum.Bytes.Endian.{le_bytes}
use monetarium_stratum.Stratum.Reachable.{
  IsReachable, started, connected, reachable_clients, reachable_runs,
}
use monetarium_stratum.Miner.Session.{submit_params}
use monetarium_stratum.Examples.Base.{
  toy_chain, toy_work, toy_work-IsBlob, toy_manager, toy_manager-IsRegistry, toy_client, toy_server,
  toy_node,
}

abbrev ones : Bytes
ones = replicate 192 1

refresh_work_lem_example : Refreshed 1700000000 toy_work toy_server
refresh_work_lem_example =
    refresh_work_lem toy_server toy_manager-IsRegistry (omega arith) (omega arith) 1700000000
      toy_work refl (omega arith) toy_work-IsBlob.bytes

process_work_lem_example :
    ((is_duplicate toy_manager.current ones ≡ true)
      × (process_work ones reason_new_parent toy_server ≡ ok (broadcast_work toy_server)))
    ⊎ ((is_duplicate toy_manager.current ones ≡ false)
        × (length ones ≢ getwork_data_len)
        × (process_work ones reason_new_parent toy_server
            ≡ ok
                (broadcast_work (record toy_server { work_mgr = record toy_manager { seq = 2 } }))))
    ⊎ ((i : Installed toy_manager ones reason_new_parent) × (process_work ones reason_new_parent
            toy_server
          ≡ ok (
              broadcast
                (work_notification i.work (eq_bytes reason_new_parent reason_new_parent))
                (record toy_server { work_mgr = i.after }))))
process_work_lem_example =
    process_work_lem toy_server toy_manager-IsRegistry (omega arith) (omega arith) ones
      reason_new_parent

-- A share at nonce 3, which is a block: the node is called once.
abbrev block_params : List Json
block_params =
    submit_params toy_client.worker toy_work.job_id (replicate 8 0) (replicate 4 0)
      (3 ∷ 0 ∷ 0 ∷ 0 ∷ [])

toy_server-IsHealthy : IsHealthy 1 10 toy_server
unfolding le_bytes
toy_server-IsHealthy = record {
  registry = toy_manager-IsRegistry;
  capacity = omega arith;
  jobs_counted = omega arith;
  clients_counted = omega arith;
  same_counter = refl;
  ascending = (omega arith, tt, tt);
  nonces = (refl, tt);
  limited = omega arith;
  same_share = refl;
}

-- What the pool does with that submission.
block_handled :
    (s' : Server) × (handle_submit toy_chain toy_node 1 7 toy_client block_params toy_server
      ≡ ok s')
    × IsHealthy 2 10 s'
unfolding share_target
block_handled =
    handle_submit-Succeeds toy_chain toy_node 1 10 100 refl (omega arith) 1 7 toy_client
      block_params toy_server toy_server-IsHealthy

handle_submit-node_calls_example :
    ((block_handled.0).node_calls ≡ [])
    ⊎ BlockSent toy_chain toy_node 1 7 toy_client block_params toy_server (block_handled.0)
handle_submit-node_calls_example =
    handle_submit-node_calls toy_chain toy_node 1 7 toy_client block_params toy_server
      (block_handled.0) (block_handled.1)

-- A fresh server with two connections.
abbrev two_clients : Server
two_clients = connect (connect (new_server 10 1 [] 16))

two_clients-IsReachable : IsReachable toy_chain 10 1 [] 16 2 two_clients
two_clients-IsReachable = connected 1 _ (connected 0 _ started)

reachable_clients_example :
    (client_count two_clients ≤ two_clients.max_clients)
    × Distinct (map (λ k. k.extra_nonce1) two_clients.clients)
unfolding share_target
reachable_clients_example =
    reachable_clients toy_chain 10 1 [] 16 100 refl 2 two_clients (omega arith)
      two_clients-IsReachable

reachable_runs_example :
    ((node : Node) (id : ℕ) (line : Option Json)
      → (s' : Server) × (handle_message toy_chain node id line two_clients ≡ ok s'))
    × ((blob reason : Bytes) → (s' : Server) × (process_work blob reason two_clients ≡ ok s'))
unfolding share_target
reachable_runs_example =
    reachable_runs toy_chain 10 1 [] 16 100 refl 2 two_clients (omega arith) two_clients-IsReachable

abbrev login_params : List Json
login_params = str (codes "w") ∷ str (codes "x") ∷ []

handle_authorize_lem_example :
    (MayLogIn toy_server (codes "w") (codes "x")
      × (find_client 1 (handle_authorize 4 toy_client login_params toy_server)
          ≡ some (queue (response (new_response 4 (bool true))) (log_in (codes "w") toy_client))))
    ⊎ ((¬ MayLogIn toy_server (codes "w") (codes "x"))
        × (find_client 1 (handle_authorize 4 toy_client login_params toy_server)
            ≡ some (
                queue
                  (response (new_error_response 4 err_unauthorized (codes "unauthorized worker")))
                  toy_client)))
unfolding find_client find_in two_params string_params string_of
handle_authorize_lem_example =
    handle_authorize_lem 4 toy_client login_params toy_server (codes "w") (codes "x") refl refl

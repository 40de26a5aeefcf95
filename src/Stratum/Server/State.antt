-- ===== src/Stratum/Server/State.antt =====
-- The records of server.go and client.go, and the operations on clients. The server's lock and the
-- atomic counters make each operation one step. A client's queue is the list of all that was put on
-- it, oldest first; a client stands in the map from its registration to its removal.
use monetarium_stratum.Prelude.{
  ℕ, ◌+◌, ◌%◌, ◌^◌, Bool, true, false, Option, none, some, List, [], ◌∷◌, ◌++◌, map, ◌==◌, leb,
  if◌then◌else◌, eq_bytes, length,
}
use monetarium_stratum.Bytes.Slice.{Bytes}
use monetarium_stratum.Bytes.Endian.{le_bytes}
use monetarium_stratum.Bytes.Hex.{encode}
use monetarium_stratum.Mining.Throttle.{BlockThrottle, new_block_throttle, stats}
use monetarium_stratum.Mining.Manager.{WorkManager, new_work_manager}
use monetarium_stratum.Stratum.Protocol.{
  Json, Message, response, notification, Notification, new_response, new_error_response,
}

-- A run-time panic, which ends the process.
pub data Panic : Type 0 where
  division_by_zero index_out_of_range : Panic

-- `Client`, less its connection and its goroutines.
pub record Client : Type 0 where
  pub id : ℕ  -- uint64
  pub extra_nonce1 : Bytes  -- hexadecimal
  pub extra_nonce2_length : ℕ
  pub worker : Bytes
  pub authorized : Bool
  pub sends : List Message
  pub submissions : ℕ

-- `Server` with the fields of its `Config` that it reads, and the calls that it made of the node.
pub record Server : Type 0 where
  pub share_diff : ℕ  -- uint32
  pub pool_password : Bytes
  pub max_clients : ℕ
  pub work_mgr : WorkManager
  pub throttle : BlockThrottle
  pub extra_nonce2_length : ℕ
  pub clients : List Client
  pub client_id : ℕ  -- uint64
  pub nonce1 : ℕ  -- uint32
  pub share_count : ℕ  -- uint64
  pub node_calls : List Bytes

-- What `SubmitWork` returns: the node's verdict, or an error.
pub data NodeReply : Type 0 where
  replied : Bool → NodeReply
  failed : Bytes → NodeReply

-- The node and the clock, as one call of a handler meets them; `now` is `uint32(time.Now().Unix())`.
pub record Node : Type 0 where
  pub submit_work : Bytes → NodeReply
  pub now : ℕ

-- `NewServer`
unfoldable pub new_server : ℕ → ℕ → Bytes → ℕ → Server
new_server share_difficulty block_submit_divisor pool_password max_clients = record {
  share_diff = share_difficulty;
  pool_password = pool_password;
  max_clients = max_clients;
  work_mgr = new_work_manager 1000;
  throttle = new_block_throttle block_submit_divisor;
  extra_nonce2_length = 8;
  clients = [];
  client_id = 0;
  nonce1 = 0;
  share_count = 0;
  node_calls = [];
}

-- A change of the client with an identifier, wherever it stands.
unfoldable pub update_client : ℕ → (Client → Client) → Server → Server
update_client id f s = record s { clients = map (λ c. if c.id == id then f c else c) s.clients }

unfoldable pub find_in : ℕ → List Client → Option Client
find_in id [] = none
find_in id (c ∷ cs) = if c.id == id then some c else find_in id cs

unfoldable pub find_client : ℕ → Server → Option Client
unfolding find_in
find_client id s = find_in id s.clients

abbrev pub queue : Message → Client → Client
queue m c = record c { sends = c.sends ++ m ∷ [] }

-- `enqueue`
unfoldable pub enqueue : ℕ → Message → Server → Server
unfolding update_client
enqueue id m s = update_client id (queue m) s

-- `sendResult`
unfoldable pub send_result : ℕ → ℕ → Json → Server → Server
unfolding enqueue
send_result id req_id result s = enqueue id (response (new_response req_id result)) s

-- `sendError`
unfoldable pub send_error : ℕ → ℕ → ℕ → Bytes → Server → Server
unfolding enqueue
send_error id req_id code message s =
    enqueue id (response (new_error_response req_id code message)) s

-- One notification to every client.
unfoldable pub broadcast : Notification → Server → Server
broadcast n s = record s { clients = map (queue (notification n)) s.clients }

-- `nextClientID`
unfoldable pub next_client_id : Server → Server × ℕ
next_client_id s = let n = (s.client_id + 1) % 2 ^ 64 in (record s { client_id = n }, n)

-- `assignExtraNonce1`
unfoldable pub assign_extra_nonce1 : Server → Server × Bytes
assign_extra_nonce1 s =
    let n = (s.nonce1 + 1) % 2 ^ 32 in (record s { nonce1 = n }, encode (le_bytes 4 n))

-- `newClient`
unfoldable pub new_client : Server → Server × Client
unfolding next_client_id assign_extra_nonce1
new_client s =
    let (s1, id) = next_client_id s in
    let (s2, extra_nonce1) = assign_extra_nonce1 s1 in
    (
      s2,
      record {
        id = id;
        extra_nonce1 = extra_nonce1;
        extra_nonce2_length = s.extra_nonce2_length;
        worker = [];
        authorized = false;
        sends = [];
        submissions = 0;
      },
    )

unfoldable pub drop_client : ℕ → List Client → List Client
drop_client id [] = []
drop_client id (c ∷ cs) = let rest = drop_client id cs in if c.id == id then rest else c ∷ rest

-- `addClient`: a map entry, which replaces one with the same key.
unfoldable pub add_client : Client → Server → Server
unfolding drop_client
add_client c s = record s { clients = drop_client c.id s.clients ++ c ∷ [] }

-- `removeClient`
unfoldable pub remove_client : ℕ → Server → Server
unfolding drop_client
remove_client id s = record s { clients = drop_client id s.clients }

-- `clientCount`
unfoldable pub client_count : Server → ℕ
client_count s = length s.clients

-- One round of `acceptLoop` with a connection: refused at the limit, registered below it.
unfoldable pub connect : Server → Server
unfolding client_count new_client add_client
connect s =
    if leb s.max_clients (client_count s) then s else let (s', c) = new_client s in add_client c s'

-- `authorize`; the user is not looked at.
unfoldable pub authorize : Server → Bytes → Bytes → Bool
authorize s user pass = if eq_bytes s.pool_password [] then true else eq_bytes pass s.pool_password

-- `recordShare`
unfoldable pub record_share : Server → Server
record_share s = record s { share_count = (s.share_count + 1) % 2 ^ 64 }

-- `BlockStats`
unfoldable pub block_stats : Server → ℕ × ℕ × ℕ
block_stats s = stats s.throttle

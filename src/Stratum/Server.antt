-- ===== src/Stratum/Server.antt =====
-- internal/stratum/server.go: the server's state, its clients, and the work that it serves.
mod State
mod Serve
pub mod Health
pub mod Accept
pub mod Find
pub mod Work
pub mod Stop
pub use State.{
  Panic, division_by_zero, index_out_of_range, Client, Server, Node, NodeReply, replied, failed,
}
unfoldable pub use State.{
  new_server, update_client, find_client, enqueue, send_result, send_error, broadcast,
  next_client_id, assign_extra_nonce1, new_client, add_client, queue, find_in, drop_client,
  remove_client, client_count, authorize, record_share, block_stats, connect,
}
unfoldable pub use Serve.{
  work_notification, send_work, broadcast_work, process_work, refresh_work, fresh_timestamp,
  broadcast_to,
}
unfoldable pub use Stop.{close_clients, stop}

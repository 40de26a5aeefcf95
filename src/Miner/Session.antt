-- ===== src/Miner/Session.antt =====
-- cmd/cpuminer/stratum.go: the miner's side of the protocol. The connection, its threads and their
-- timers are not modelled; a message is its decoded JSON object.
mod State
mod Handshake
mod Connection
pub mod Panics
pub mod Accounting
pub mod Tally
pub mod Lifetime
pub use State.{Panic, division_by_zero, fill_bytes, Incoming, Sent, Miner}
unfoldable pub use State.{
  new_miner, reset_connection, next_request_id, send_request, set_difficulty, miner_share_target,
  param_string, difficulty_of, handle_notify, handle_notification, handle_response, submit_params,
  submit_share, read_message, read_loop, nine_params, install_job, has, drop_id,
}
pub use Handshake.{
  HandshakeError, read_failed, write_failed, refused, invalid_result, result_length, not_accepted,
}
unfoldable pub use Handshake.{
  wait_reply, read_subscription, read_authorization, subscribe, authorize, record_subscription,
  text_or_empty, whole_or_zero,
}
pub use Connection.{Turn, reads, submits, breaks, Attempt, dial_failed, connected}
unfoldable pub use Connection.{
  run_turns, after_authorize, after_subscribe, connect_and_mine, run_miner,
}

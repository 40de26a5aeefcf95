-- ===== src/Miner/Gpu/Session.antt =====
-- cmd/gpuminer/miner.go: the session of the GPU miner. The types of messages, panics and handshake
-- errors are declared as in the CPU miner, and are its types here.
mod State
mod Handshake
pub mod Forget
pub mod Refines
pub mod Connects
pub mod Awaited
pub use State.{GpuMiner}
unfoldable pub use State.{
  new_miner, reset_connection, next_request_id, send_request, set_difficulty, miner_share_target,
  param_string, difficulty_of, install_job, nine_params, handle_notify, handle_notification,
  handle_response, read_message, submit_params, submit_share,
}
unfoldable pub use Handshake.{
  wait_reply, text_or_empty, whole_or_zero, record_subscription, read_subscription,
  read_authorization, subscribe, authorize, run_turns, after_authorize, after_subscribe,
  connect_and_mine,
}

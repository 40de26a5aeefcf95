-- ===== src/Stratum/Client.antt =====
-- internal/stratum/client.go: the handlers of a client's requests.
mod Submit
mod Handlers
pub mod Laws
pub mod Blocks
pub mod Health
pub mod Login
pub use Submit.{
  Rejection, invalid_submit_params, worker_mismatch, job_not_found, bad_extra_nonce2, bad_timestamp,
  bad_nonce, bad_extra_nonce1, invalid_submission, low_difficulty, unserializable,
  submission_failed, rejected_by_node, Submission, Validated,
}
unfoldable pub use Submit.{
  code_of, message_of, five_params, validate, decide, call_node, submit_block_data, throttle_block,
  submit_found, judge, handle_submit, reject, count_submission,
}
unfoldable pub use Handlers.{
  handle_subscribe, two_params, accepts_login, handle_authorize, handle_message, log_in, dispatch,
  send_current, subscription,
}

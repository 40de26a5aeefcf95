-- ===== src/Stratum/Protocol.antt =====
-- internal/stratum/protocol.go: messages. A line is the JSON value that it holds; what
-- encoding/json does with the value is modelled, the JSON syntax is not.
mod Values
mod Messages
pub mod Reads
pub use Values.{
  Json, Items, Fields, null, bool, num, str, arr, obj, no_items, item, no_fields, field, to_list,
  of_list,
}
unfoldable pub use Values.{string_of, uint64_of, string_params, fold_key}
pub use Messages.{
  Request, StratumError, Response, Notification, Message, response, notification, method_subscribe,
  method_authorize, method_submit, method_suggest_difficulty, method_notify, method_set_difficulty,
  method_set_extra_nonce, err_low_difficulty, err_unknown, err_stale_share, err_duplicate_share,
  err_unauthorized,
}
unfoldable pub use Messages.{
  parse_request, new_response, new_error_response, new_notify, new_set_difficulty,
  new_set_extra_nonce,
}

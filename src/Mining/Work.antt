-- ===== src/Mining/Work.antt =====
-- internal/mining/header.go: a getwork blob as a pool job, and the header that a submission solves.
mod Layout
pub mod Fields
pub mod Solved
pub use Layout.{
  getwork_data_len, height_offset, timestamp_offset, nonce_offset, extra_data_offset,
  extra_nonce1_size, extra_nonce2_size, Work, WorkError, invalid_length, extra_nonce1_too_large,
  extra_nonce2_length, timestamp_length, nonce_length, wire_error,
}
unfoldable pub use Layout.{
  u32_le, u32_le_put, new_work, prev_block, partial_header, version, bits, timestamp,
  refresh_timestamp, apply_submission, build_solved_header, solved_header_data,
}

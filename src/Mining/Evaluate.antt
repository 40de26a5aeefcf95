-- ===== src/Mining/Evaluate.antt =====
-- internal/mining/difficulty.go and evaluate.go: targets, and the decision on a solved header.
mod Decide
pub mod Laws
unfoldable pub use Decide.{
  share_target, block_target, hash_target, calc_work, evaluate_submit, evaluate_header,
  header_hash_target,
}
pub use Decide.{Ratio, Decision, rejected, accepted_share, submit_block}

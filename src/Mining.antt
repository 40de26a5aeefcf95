-- ===== src/Mining.antt =====
-- internal/mining: the pool's jobs, the block throttle, the job registry and the decision on a
-- submitted header.
pub mod Chain
pub mod Work
pub mod Evaluate
pub mod Throttle
pub mod Manager

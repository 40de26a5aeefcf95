-- ===== src/Agreement.antt =====
-- The pool and the miner together: the notification that the pool sends, the job that the miner
-- makes of it, and the submission that comes back.
pub mod Header
pub mod Verdict
pub mod Accepted
pub mod Gpu
pub mod Disjoint
pub mod Greeting
pub mod Handshake
pub mod Connected
pub mod Requests
pub mod Submitted

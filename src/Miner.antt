-- ===== src/Miner.antt =====
-- cmd/cpuminer: the CPU stratum miner.
pub mod Job
pub mod Search
pub mod Session
pub mod Worker
pub mod Gpu

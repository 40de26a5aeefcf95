-- ===== src/Miner/Gpu.antt =====
-- cmd/gpuminer: the GPU stratum miner and its host process.
pub mod Job
pub mod Sweep
pub mod Copies
pub mod Session
pub mod Checks
pub mod Fresh
pub mod Lag
pub mod Host

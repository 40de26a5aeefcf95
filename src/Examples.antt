-- ===== src/Examples.antt =====
-- The theorems at concrete inputs: a small chain, a pool with one job, and a miner.
pub mod Base
mod RulesAt
mod MiningAt
mod PoolAt
mod MinerAt
mod Pair
mod AgreementAt
mod GpuAt
mod ProgramAt

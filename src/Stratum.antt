-- ===== src/Stratum.antt =====
-- internal/stratum: the pool server and its clients.
pub mod Protocol
pub mod Server
pub mod Client
pub mod Queue
pub mod Reachable

-- ===== src/Node.antt =====
-- internal/node: the client of the node's RPC server, whose replies are a parameter.
pub mod Client
pub mod Retries

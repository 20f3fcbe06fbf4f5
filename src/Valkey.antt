-- ===== src/Valkey.antt =====
-- internal/valkey/node.go: what a node makes of a server's answers.
pub mod Cluster
pub mod Ping
pub mod State

-- ===== src/Dcs.antt =====
-- internal/dcs: the client of ZooKeeper.
pub mod Lock
pub mod Path

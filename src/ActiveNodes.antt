-- ===== src/ActiveNodes.antt =====
-- internal/app/active_nodes.go: the list of active nodes, and the number and set of replicas that
-- the master waits for.
pub mod Transition
pub mod Calc
pub mod Update

-- ===== src/Tests.antt =====
-- Tests of the definitions, and the theorems at concrete inputs.
mod Data
mod Active
mod Decisions
mod Switch
mod Servers
mod Hosts
mod Moves
mod Nodes
mod Locks
mod Caches
mod Turns

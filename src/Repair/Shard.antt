-- ===== src/Repair/Shard.antt =====
-- internal/app/repair.go: `repairShard`, the repair of all hosts by the manager. That a node is the
-- local one is by its name.
pub mod Bounds
use rdsync.Base.{
  ℕ, suc, ltb, String, str_eq, Bool, true, false, not, ◌&&◌, ◌||◌, Option, none, some, List, [],
  ◌∷◌, if◌then◌else◌,
}
use rdsync.Base.Int.{ℤ, pos, ltb_ℤ}
use rdsync.Base.Hosts
use rdsync.Types.{HostState, ReplicaState, ShardState}
use rdsync.Replication.{replicates}
use rdsync.Actions.{Act, ret, ◌>>=◌, ◌>>◌, call, Settings, set_read_only}
use rdsync.Repair.{repair_replica}
use rdsync.Switchover.Perform.{repair_master}

-- The replica takes a full resynchronisation from the master.
unfoldable pub is_syncing : Settings → Option HostState → String → String → HostState → Bool
is_syncing c ms master host s = elim s.replica_state [
  | none ↦ false
  | some rs ↦
      rs.master_sync_in_progress && replicates c.parse_ip ms (some rs) host (c.node master) true
]

abbrev pub add_if : Bool → ℕ → ℕ
add_if true n = suc n
add_if false n = n

abbrev with_host : String → HostState → Bool → ℕ × ShardState → ℕ × ShardState
with_host host s syncing (n, replicas) = (add_if syncing n, (host, s) ∷ replicas)

-- The first loop: the master is repaired, the replicas that answer are collected, and those that
-- synchronise counted.
unfoldable pub collect :
    Settings → Option HostState → List String → String → ShardState → Act (ℕ × ShardState)
collect c ms active master [] = ret (0, [])
collect c ms active master ((host, s) ∷ rest) =
    if not s.ping_ok
    then collect c ms active master rest
    else if str_eq host master
    then repair_master master active s >> collect c ms active master rest
    else (do
      found ← collect c ms active master rest
      ret (with_host host s (is_syncing c ms master host s) found))

-- The replica does not follow the master as it should.
unfoldable pub is_broken : Settings → Option HostState → String → String → HostState → Bool
is_broken c ms master host s =
    s.is_repl_paused || not (replicates c.parse_ip ms s.replica_state host (c.node master) true)

-- The second loop, from the number of replicas that synchronise.
unfoldable pub repair_replicas :
    Settings → Option HostState → String → ℕ → ShardState → Act (Unit {0})
repair_replicas c ms master syncing [] = ret tt
repair_replicas c ms master syncing ((host, s) ∷ rest) = do
  if s.is_read_only then ret tt else (call (set_read_only host false) >> ret tt)
  if is_broken c ms master host s && ltb_ℤ (pos syncing) c.max_parallel_syncs
      then repair_replica c host master ms s >> repair_replicas c ms master (suc syncing) rest
      else repair_replicas c ms master syncing rest

-- `repairShard`: every error is logged.
unfoldable pub repair_shard : Settings → ShardState → List String → String → Act (Unit {0})
repair_shard c state active master = do
  let ms = Hosts.get state master
  (syncing, replicas) ← collect c ms active master state
  repair_replicas c ms master syncing replicas

-- ===== src/Repair.antt =====
-- internal/app/repair.go: `repairReplica`, which makes a host follow a master.
pub mod Shard
pub mod Watchdog
pub mod Local
use rdsync.Base.{String, str_eq, Bool, true, false, not, ◌&&◌, Option, ok, err, if◌then◌else◌}
use rdsync.Base.Int.{ltb_ℤ}
use rdsync.Types.{Time, since, is_zero, HostState, AppMode, mode_sentinel, mode_cluster}
use rdsync.Replication.{replicates}
use rdsync.Actions.{
  now, get_repl_fail_time, set_repl_fail_time, run_destructive_repair, sentinel_make_replica,
  is_cluster_node_alone, get_ip, cluster_meet, cluster_get_id, cluster_make_replica,
  resume_replication, Done, Act, ret, ◌>>=◌, ◌>>◌, attempt, call, check, Settings,
}

-- The destructive repair's end: once it has succeeded, the time of failure starts anew.
unfoldable pub if_repaired : Done → Act (Unit {0})
if_repaired (err e) = ret tt
if_repaired (ok _) = do t ← call now; call (set_repl_fail_time t)

-- The time since which the local replication has failed is `app.replFailTime`.
unfoldable pub note_failure : Act Time
note_failure = do
  t ← call get_repl_fail_time
  if not (is_zero t) then ret t else do t' ← call now; call (set_repl_fail_time t'); ret t'

-- The repair of a local replica that has failed for too long.
unfoldable pub repair_destructively : Settings → Act (Unit {0})
repair_destructively c = do
  failed ← note_failure
  t ← call now
  if ltb_ℤ c.destructive_replication_repair_timeout (since t failed)
        && c.has_destructive_replication_repair_command
      then call run_destructive_repair >>= if_repaired
      else ret tt

unfoldable pub meet_if : Bool → String → String → Act (Unit {0})
meet_if false host master = ret tt
meet_if true host master = do
  r ← call (get_ip master)
  ip ← check r
  r' ← call (cluster_meet host ip)
  check r'

-- An error here ends the repair, except for one of the last command.
unfoldable pub make_replica : AppMode → String → String → Act (Unit {0})
make_replica mode_sentinel host master = call (sentinel_make_replica host master) >> ret tt
make_replica mode_cluster host master = do
  r ← call (is_cluster_node_alone host)
  alone ← check r
  meet_if alone host master
  r' ← call (cluster_get_id master)
  id ← check r'
  call (cluster_make_replica host id)
  ret tt

unfoldable pub follow_and_resume :
    Settings → String → String → Option HostState → HostState → Act (Unit {0})
follow_and_resume c host master ms s = do
  if not (replicates c.parse_ip ms s.replica_state host (c.node master) true)
      then make_replica c.mode host master
      else ret tt
  if s.is_repl_paused then call (resume_replication host) >> ret tt else ret tt

-- `repairReplica`: errors are logged.
unfoldable pub repair_replica :
    Settings → String → String → Option HostState → HostState → Act (Unit {0})
repair_replica c host master ms s = do
  if str_eq host c.hostname then repair_destructively c else ret tt
  attempt (follow_and_resume c host master ms s)
  ret tt

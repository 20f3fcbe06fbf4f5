-- ===== src/Repair/Local.antt =====
-- internal/app/repair.go: `repairLocalNode`, which restarts, closes or opens the local node. The
-- reply says whether the active nodes may be updated after it.
pub mod Opens
pub mod Opening
pub mod Busy
use text.Mathlib.Text.{starts_with}
use rdsync.Base.{
  ℕ, suc, ltb, String, str_eq, contains, Bool, true, false, not, ◌&&◌, ◌||◌, ◌==◌, Option, none,
  some, List, [], ◌∷◌, length, Error, Result, ok, err, HostMap, or_zero, if◌then◌else◌,
}
use rdsync.Base.Int.{ℤ, pos, ltb_ℤ}
use rdsync.Base.Hosts
use rdsync.Types.{
  Time, Duration, zero_time, is_zero, since, HostState, ReplicaState, ShardState, NodeState,
}
use rdsync.Lag.{get_offset}
use rdsync.Failover.{get_num_replicas_to_write}
use rdsync.Replication.{replicates}
use rdsync.Replication.Close.{is_recent, clear_diverge_time, close_stale_replica}
use rdsync.Actions.{
  Act, ret, crash, ◌>>=◌, ◌>>◌, attempt, call, deref, get_shard_state_from_db, Settings, Done, now,
  get_fail_times, set_fail_times, get_state, script_kill, restart, set_online,
  get_num_quorum_replicas, set_num_quorum_replicas,
}
use rdsync.Availability.{is_stale, get_shard_state_from_dcs, read_active_nodes, adjust_aof_mode}
use rdsync.Master.{promote}
use rdsync.Repair.{repair_replica}
use rdsync.Repair.Watchdog.{reserved_connections_watchdog}
use rdsync.Switchover.{message_of}

-- app.nodeFailTime[host], set where it is not.
unfoldable pub note_fail_time : String → Act Time
note_fail_time host = do
  fails ← call get_fail_times
  let t = or_zero zero_time (Hosts.get fails host)
  if not (is_zero t)
      then ret t
      else do t' ← call now; call (set_fail_times (Hosts.put fails host t')); ret t'

unfoldable pub forget_fail_time : String → Act (Unit {0})
forget_fail_time host = do
  fails ← call get_fail_times
  call (set_fail_times (Hosts.delete fails host))

-- The time of failure starts anew.
unfoldable pub renew_fail_time : String → Act (Unit {0})
renew_fail_time host = do
  fails ← call get_fail_times
  t ← call now
  call (set_fail_times (Hosts.put fails host t))

-- The error after SCRIPT KILL is its own; where there is none, its message is read all the same.
unfoldable pub after_kill : Done → Act String
after_kill (err e) = ret (message_of e)
after_kill (ok _) = crash

-- The message of the error that the next test reads.
unfoldable pub kill_if_busy : Settings → Duration → String → Act String
kill_if_busy c failed_time message =
    if ltb_ℤ c.busy_timeout failed_time && starts_with message "BUSY "
    then (do r ← call (script_kill c.hostname); after_kill r)
    else ret message

unfoldable pub restart_if_late : Settings → Duration → String → Act (Unit {0})
restart_if_late c failed_time message =
    if starts_with message "LOADING "
    then renew_fail_time c.hostname
    else if ltb_ℤ c.restart_timeout failed_time
    then (do renew_fail_time c.hostname; call (restart c.hostname); ret tt)
    else ret tt

-- The local node's state could not be read.
unfoldable pub handle_failure : Settings → String → Act (Unit {0})
handle_failure c message = do
  failed ← note_fail_time c.hostname
  t ← call now
  let failed_time = since t failed
  message' ← kill_if_busy c failed_time message
  restart_if_late c failed_time message'

unfoldable pub note_state : Settings → Bool → Option String → Act (Unit {0})
note_state c offline (some message) = handle_failure c message
note_state c true none = ret tt
note_state c false none = forget_fail_time c.hostname

-- The node is online: errors are logged.
unfoldable pub tend_online : Settings → String → HostMap String → Act Bool
tend_online c master info = do
  attempt (adjust_aof_mode c master)
  attempt (close_stale_replica c master)
  attempt (reserved_connections_watchdog c info)
  ret true

-- Another active host is ahead of the local master.
unfoldable pub any_ahead : String → ℤ → List String → ShardState → Bool
any_ahead master base active [] = false
any_ahead master base active ((h, s) ∷ rest) =
    let others = any_ahead master base active rest in
    if str_eq h master
    then others
    else if ltb_ℤ base (get_offset (some s)) && contains active h
    then true
    else others

-- An early return, with its value.
abbrev pub Return : Type 0
Return = Option Bool

unfoldable pub if_active : String → HostState → ShardState → Result (List String) → Act Return
if_active master s state (err e) = ret (some true)
if_active master s state (ok active) =
    ret (if any_ahead master (get_offset (some s)) active state then some false else none)

unfoldable pub if_promoted : Done → Act Return
if_promoted (err e) = ret (some false)
if_promoted (ok _) = ret none

unfoldable pub promote_alone : Settings → String → HostState → ShardState → Act Return
promote_alone c master s state =
    if s.is_master
    then ret none
    else do t ← call now; r ← attempt (promote c master master state t); if_promoted r

abbrev pub states_of : Result ShardState → ShardState
states_of (ok s) = s
states_of (err e) = []

unfoldable pub count_syncing : String → ShardState → ℕ
count_syncing master [] = 0
count_syncing master ((h, s) ∷ rest) =
    let n = count_syncing master rest in
    if s.ping_ok
      && not (str_eq h master)
      && elim s.replica_state [ none ↦ false | some rs ↦ rs.master_sync_in_progress ]
    then suc n
    else n

unfoldable pub repair_if_broken : Settings → String → Bool → HostState → ShardState → Act (Unit {0})
repair_if_broken c master paused s dcs =
    if paused
      || not (replicates c.parse_ip (Hosts.get dcs master) s.replica_state c.hostname none true)
    then (if ltb_ℤ (pos (count_syncing master dcs)) c.max_parallel_syncs
        then repair_replica c c.hostname master (Hosts.get dcs master) s
        else ret tt)
    else ret tt

-- The local node is a stale replica, which stays offline while the master is known to be alive.
-- With no state from the DCS the master's is a nil pointer.
unfoldable pub hold_stale : Settings → String → Bool → HostState → Act Return
hold_stale c master paused s = do
  r ← attempt get_shard_state_from_dcs
  let dcs = states_of r
  repair_if_broken c master paused s dcs
  m ← deref (Hosts.get dcs master)
  t ← call now
  ret (if is_recent c t m then some false else none)

unfoldable pub hold_replica : Settings → String → Bool → HostState → Act Return
hold_replica c master paused s = do
  stale ← is_stale c s.replica_state true
  if stale then hold_stale c master paused s else ret none

-- Whether the offline local node may go online.
unfoldable pub may_open : Settings → String → Bool → ShardState → Option HostState → Act Return
may_open c master paused state none = ret (some true)
may_open c master paused state (some s) =
    if str_eq master c.hostname
    then (if not (length state == 1)
        then (do r ← attempt read_active_nodes; if_active master s state r)
        else promote_alone c master s state)
    else hold_replica c master paused s

unfoldable pub if_set : Done → Act Return
if_set (err e) = ret (some false)
if_set (ok _) = ret none

unfoldable pub raise_quorum : Settings → List String → Result ℕ → Act Return
raise_quorum c active (err e) = ret (some false)
raise_quorum c active (ok actual) =
    if ltb actual (get_num_replicas_to_write active)
    then (do
      (e, _) ← call (set_num_quorum_replicas c.hostname (get_num_replicas_to_write active))
      if_set e)
    else ret none

unfoldable pub raise_for : Settings → Result (List String) → Act Return
raise_for c (err e) = ret (some false)
raise_for c (ok active) = do r ← call (get_num_quorum_replicas c.hostname); raise_quorum c active r

-- A master waits for enough replicas before it goes online.
unfoldable pub prepare_open : Settings → String → Act Return
prepare_open c master =
    if str_eq master c.hostname then (do r ← attempt read_active_nodes; raise_for c r) else ret none

unfoldable pub if_online : Done → Act Bool
if_online (err e) = ret false
if_online (ok _) = clear_diverge_time >> ret true

unfoldable pub go_online : Settings → Act Bool
go_online c = do r ← call (set_online c.hostname); if_online r

unfoldable pub unless_returned : Return → Act Bool → Act Bool
unless_returned (some b) k = ret b
unless_returned none k = k

unfoldable pub tend_offline : Settings → String → Bool → Act Bool
tend_offline c master paused = do
  state ← get_shard_state_from_db
  o ← may_open c master paused state (Hosts.get state c.hostname)
  unless_returned o
      (do forget_fail_time c.hostname; p ← prepare_open c master; unless_returned p (go_online c))

-- `repairLocalNode`.
unfoldable pub repair_local_node : Settings → String → Act Bool
repair_local_node c master = do
  n ← call (get_state c.hostname)
  note_state c n.is_offline n.failure
  if n.is_offline then tend_offline c master n.is_repl_paused else tend_online c master n.info

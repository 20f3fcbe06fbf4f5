-- ===== src/Lost.antt =====
-- internal/app/lost.go and init.go: a turn of a process that has lost the DCS, and one of a process
-- that has just started.
pub mod Fence
pub mod Safety
use rdsync.Base.{
  ◌==◌, String, str_eq, Bool, true, false, not, ◌&&◌, length, Result, ok, err, if◌then◌else◌,
}
use rdsync.Base.Int.{leb_ℤ}
use rdsync.Base.Hosts
use rdsync.Base.{some}
use rdsync.Types.{
  Time, is_zero, since, ShardState, AppState, state_init, state_lost, state_candidate,
  state_manager, state_maintenance,
}
use rdsync.Replication.{replicates}
use rdsync.Actions.{
  Act, ret, ◌>>=◌, ◌>>◌, attempt, call, deref, get_shard_state_from_db, Settings, now, hosts,
  host_state, dcs_is_connected, dcs_reconnect, get_lost_since, set_lost_since, is_offline,
  set_online, set_offline, dcs_wait_connected, dcs_initialize, maintenance_file_exists,
  acquire_manager_lock,
}
use rdsync.Availability.{is_stale, check_ha_replicas_running}
use rdsync.Master.Current.{get_master_host}

-- A new attempt to connect; the time of the loss starts anew, also when it fails.
unfoldable pub reconnect : Act AppState
reconnect = do call dcs_reconnect; t ← call now; call (set_lost_since t); ret state_lost

-- Sets the local node online if it is offline. That the turn ends is the reply.
unfoldable pub online_if : Settings → Result Bool → Act Bool
online_if c (err e) = ret true
online_if c (ok true) = call (set_online c.hostname) >> ret true
online_if c (ok false) = ret true

-- The local node is a master: it stays online while enough replicas follow it.
unfoldable pub keep_master : Settings → Act Bool
keep_master c = do
  runs ← check_ha_replicas_running c
  if runs then (do r ← call (is_offline c.hostname); online_if c r) else ret false

-- Whether the local node replicates from a master that answers; a host that is not in the state is
-- a nil pointer.
unfoldable pub link_alive : Settings → ShardState → String → Act Bool
link_alive c state master = do
  m ← deref (Hosts.get state master)
  if not (m.ping_ok && m.ping_stable) then ret false else do
    l ← deref (Hosts.get state c.hostname)
    if not (replicates c.parse_ip (some m) l.replica_state c.hostname (c.node master) false)
        then ret false
        else (do stale ← is_stale c l.replica_state false; ret (not stale))

unfoldable pub keep_linked : Settings → ShardState → String → Result Bool → Act Bool
keep_linked c state master (err e) = ret true
keep_linked c state master (ok off) = do
  alive ← link_alive c state master
  if alive then online_if c (ok off) else ret false

unfoldable pub keep_with : Settings → ShardState → Result String → Act Bool
keep_with c state (err e) = ret false
keep_with c state (ok master) =
    if str_eq master ""
    then ret false
    else do r ← call (is_offline c.hostname); keep_linked c state master r

-- The local node is a replica: it stays online while it replicates.
unfoldable pub keep_replica : Settings → Act Bool
keep_replica c = do
  state ← get_shard_state_from_db
  r ← attempt (get_master_host c state)
  keep_with c state r

unfoldable pub fence_if : Settings → Result Bool → Act AppState
fence_if c (err e) = ret state_lost
fence_if c (ok true) = ret state_lost
fence_if c (ok false) = call (set_offline c.hostname) >> ret state_lost

-- The end of the turn: the local node goes offline.
unfoldable pub fence : Settings → Act AppState
fence c = do r ← call (is_offline c.hostname); fence_if c r

unfoldable pub keep_or_fence : Settings → Act AppState
keep_or_fence c = do
  local ← call (host_state c.hostname)
  kept ← if local.is_master then keep_master c else keep_replica c
  if kept then ret state_lost else fence c

-- The attempt to connect is due.
abbrev pub is_due : Settings → Time → Time → Bool
is_due c lost_since t =
    not (is_zero lost_since) && leb_ℤ c.dcs_reconnect_timeout (since t lost_since)

-- `stateLost`: the next state.
unfoldable pub lost : Settings → Act AppState
lost c = do
  connected ← call dcs_is_connected
  if connected then ret state_candidate else do
    lost_since ← call get_lost_since
    t ← call now
    if is_due c lost_since t
        then reconnect
        else do hs ← call hosts; if length hs == 1 then ret state_lost else keep_or_fence c

-- `stateInit`: the next state.
unfoldable pub init : Act AppState
init = do
  connected ← call dcs_wait_connected
  if not connected
      then (do
        there ← call maintenance_file_exists
        ret (if there then state_maintenance else state_init))
      else do
        call dcs_initialize
        locked ← call acquire_manager_lock
        ret (if locked then state_manager else state_candidate)

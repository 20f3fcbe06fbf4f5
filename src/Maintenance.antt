-- ===== src/Maintenance.antt =====
-- internal/app/maintenance.go: entering maintenance, a turn in it, and leaving it.
pub mod Order
pub mod Leave
use rdsync.Base.{
  String, Bool, true, false, not, ◌||◌, ◌==◌, Option, none, some, List, [], ◌∷◌, length, Error,
  not_found, Result, ok, err, if◌then◌else◌,
}
use rdsync.Types.{Maintenance, AppState, state_maintenance, state_manager, state_candidate}
use rdsync.Actions.{
  Act, ret, ◌>>=◌, ◌>>◌, attempt, call, check, found, raise_if, get_shard_state_from_db, Settings,
  set_num_quorum_replicas, delete_active_nodes, set_maintenance, update_hosts_info,
  delete_maintenance, maintenance_file_exists, create_maintenance_file, remove_maintenance_file,
  get_maintenance, acquire_manager_lock,
}
use rdsync.Availability.{get_shard_state_from_dcs, read_active_nodes}
use rdsync.ActiveNodes.Update.{update_active_nodes}
use rdsync.Master.Current.{ensure_current_master}
use rdsync.Repair.Shard.{repair_shard}

-- `enterMaintenance`: here an error of the rewrite is one too.
unfoldable pub enter_maintenance : Maintenance → String → Act (Unit {0})
enter_maintenance m master = do
  (e, rewrite) ← call (set_num_quorum_replicas master 0)
  check e
  check rewrite
  r ← call delete_active_nodes
  check r
  r' ← call (set_maintenance (record m { rdsync_paused = true }))
  check r'

-- `leaveMaintenance`.
unfoldable pub leave_maintenance : Settings → Act (Unit {0})
leave_maintenance c = do
  r ← call update_hosts_info
  check r
  state ← get_shard_state_from_db
  master ← ensure_current_master c state
  dcs ← get_shard_state_from_dcs
  state' ← get_shard_state_from_db
  update_active_nodes c state' dcs [] master
  active ← read_active_nodes
  raise_if (length active == 0) "no active nodes"
  repair_shard c state' active master
  r' ← call delete_maintenance
  check r'

unfoldable pub if_left : Result (Unit {0}) → Act AppState
if_left (err e) = ret state_maintenance
if_left (ok _) = call remove_maintenance_file >> ret state_manager

-- With the lock, the process leaves maintenance for the others.
unfoldable pub try_leave : Settings → Act AppState
try_leave c = do
  locked ← call acquire_manager_lock
  if locked
      then (do r ← attempt (leave_maintenance c); if_left r)
      else call remove_maintenance_file >> ret state_candidate

abbrev pub has_ended : Option Maintenance → Bool
has_ended none = true
has_ended (some m) = m.should_leave

unfoldable pub maintenance_turn : Settings → Act AppState
maintenance_turn c = do
  there ← call maintenance_file_exists
  if there then ret tt else call create_maintenance_file
  r ← call get_maintenance
  m ← found r
  if has_ended m then try_leave c else ret state_maintenance

abbrev pub or_maintenance : Result AppState → AppState
or_maintenance (ok s) = s
or_maintenance (err e) = state_maintenance

-- `stateMaintenance`: the next state.
unfoldable pub maintenance : Settings → Act AppState
maintenance c = do r ← attempt (maintenance_turn c); ret (or_maintenance r)

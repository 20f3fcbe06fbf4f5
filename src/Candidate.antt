-- ===== src/Candidate.antt =====
-- internal/app/candidate.go: a turn of a process that is not the manager.
pub mod Turn
use rdsync.Base.{
  String, str_eq, Bool, true, false, not, Option, none, some, Result, ok, err, if◌then◌else◌,
}
use rdsync.Types.{
  AppState, state_lost, state_maintenance, state_candidate, state_manager, Maintenance, PoisonPill,
}
use rdsync.Actions.{
  Call, dcs_is_connected, update_hosts_info, get_maintenance, get_poison_pill, get_master_node,
  acquire_manager_lock, Act, ret, ◌>>=◌, ◌>>◌, attempt, call, check, found, get_shard_state_from_db,
  Settings,
}
use rdsync.Pill.{apply_poison_pill}
use rdsync.Repair.Local.{repair_local_node}

abbrev is_paused : Option Maintenance → Bool
is_paused none = false
is_paused (some m) = m.rdsync_paused

abbrev or_empty : Option String → String
or_empty none = ""
or_empty (some s) = s

-- Applies a pill that is there, and says whether it is for the local host.
unfoldable pub apply_found : Settings → Option PoisonPill → Act Bool
apply_found c none = ret false
apply_found c (some p) = do
  (_, e) ← apply_poison_pill c p
  check e
  ret (str_eq p.target_host c.hostname)

-- With no pill for the local host: the repair, and the attempt to become the manager.
unfoldable pub try_lock : Settings → Act AppState
try_lock c = do
  r ← call get_master_node
  master ← found r
  repair_local_node c (or_empty master)
  locked ← call acquire_manager_lock
  ret (if locked then state_manager else state_candidate)

-- The turn, where an error stands for an early return of `stateCandidate`.
unfoldable pub candidate_turn : Settings → Act AppState
candidate_turn c = do
  connected ← call dcs_is_connected
  if not connected then ret state_lost else do
    r ← call update_hosts_info
    check r
    get_shard_state_from_db
    m ← call get_maintenance
    maintenance ← found m
    if is_paused maintenance then ret state_maintenance else do
      p ← call get_poison_pill
      pill ← found p
      mine ← apply_found c pill
      if mine then ret state_candidate else try_lock c

abbrev or_candidate : Result AppState → AppState
or_candidate (ok s) = s
or_candidate (err e) = state_candidate

-- `stateCandidate`: the next state.
unfoldable pub candidate : Settings → Act AppState
candidate c = do r ← attempt (candidate_turn c); ret (or_candidate r)

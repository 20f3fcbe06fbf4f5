-- ===== src/Switchover/Freeze.antt =====
-- The first two phases of `performSwitchover` of internal/app/switchover.go: the active nodes become
-- read-only, a dead master is fenced, and replication stops.
use rdsync.Base.{
  ℕ, ltb, ◌==◌, String, str_eq, contains, Bool, true, false, not, ◌&&◌, Option, none, some, List,
  [], ◌∷◌, length, HostMap, ok, err, if◌then◌else◌,
}
use rdsync.Base.Hosts
use rdsync.Types.{ReplicaState, ShardState, Switchover, SwitchoverProgress, PoisonPill, cause_auto}
use rdsync.Actions.{
  set_read_only, pause_replication, get_poison_pill, Done, Act, ret, ◌>>=◌, ◌>>◌, call, check,
  deref, raise_if, found, run_parallel, Settings,
}
use rdsync.Pill.{issue_poison_pill, clear_poison_pill, wait_poison_pill}
use rdsync.Switchover.{update_switchover, filter_out}

abbrev pub switchover_version : ℕ
switchover_version = 1

abbrev pub first_progress : SwitchoverProgress
first_progress = record {
  new_master = "";
  most_recent = "";
  version = switchover_version;
  phase = 1;
}

-- The progress is stored with the switchover.
unfoldable pub store_progress : Switchover → SwitchoverProgress → Act (Unit {0})
store_progress sw p = update_switchover (record sw { progress = some p })

unfoldable pub begin_progress : Switchover → Option SwitchoverProgress → Act SwitchoverProgress
begin_progress sw none = store_progress sw first_progress >> ret first_progress
begin_progress sw (some p) =
    raise_if (not (p.version == switchover_version)) "got incompatible switchover version" >> ret p

unfoldable pub check_target : Switchover → List String → Act (Unit {0})
check_target sw active =
    raise_if (not (str_eq sw.to "") && not (contains active sw.to))
      "switchover: failed: replica is not active, can't switch to it"

-- The nodes that take part: a failover leaves out the old master.
unfoldable pub taking_part : Switchover → String → List String → List String
taking_part sw old active =
    if str_eq sw.cause cause_auto && str_eq sw.from old
    then filter_out active (old ∷ [])
    else active

-- Phase 1 on one host.
unfoldable pub make_read_only : ShardState → String → String → Act (Unit {0})
make_read_only state old host = do
  s ← deref (Hosts.get state host)
  raise_if (not s.ping_ok) "host is not healthy"
  (e, _) ← call (set_read_only host (str_eq host old))
  check e

abbrev pub passed : HostMap Done → String → Bool
passed errs host = elim (Hosts.get errs host) [
  | none ↦ true
  | some e ↦ elim e [ ok _ ↦ true | err _ ↦ false ]
]

unfoldable pub check_old_read_only : ShardState → String → HostMap Done → Act (Unit {0})
check_old_read_only state old errs =
    if passed errs old
    then ret tt
    else do s ← deref (Hosts.get state old); raise_if s.ping_ok "failed to set old master read-only"

-- The pill for the old master, unless it is there; a pill for another host goes.
unfoldable pub settle_pill : Settings → String → Option PoisonPill → Act (Unit {0})
settle_pill c old none = issue_poison_pill c old
settle_pill c old (some p) =
    if str_eq p.target_host old then ret tt else clear_poison_pill >> issue_poison_pill c old

unfoldable pub wait_unless_auto : Settings → Switchover → Act (Unit {0})
wait_unless_auto c sw =
    if not (str_eq sw.cause cause_auto)
    then wait_poison_pill c c.wait_poison_pill_timeout
    else ret tt

unfoldable pub fence_dead_master : Settings → ShardState → Switchover → String → Act (Unit {0})
fence_dead_master c state sw old = do
  r ← call get_poison_pill
  pill ← found r
  s ← deref (Hosts.get state old)
  if s.ping_ok then ret tt else settle_pill c old pill >> wait_unless_auto c sw

abbrev has_link : Option ReplicaState → Bool
has_link none = false
has_link (some rs) = rs.master_link_state

-- Phase 2 on one host.
unfoldable pub stop_replication : Settings → ShardState → String → Act (Unit {0})
stop_replication c state host = do
  s ← deref (Hosts.get state host)
  raise_if (not s.ping_ok) "host is not healthy"
  if not (has_link s.replica_state) && not c.turn_before_switchover
      then ret tt
      else do r ← call (pause_replication host); check r

-- The nodes on which both phases succeeded.
unfoldable pub alive_nodes : HostMap Done → HostMap Done → List String → List String
alive_nodes errs_ro errs_pause [] = []
alive_nodes errs_ro errs_pause (h ∷ hs) =
    let rest = alive_nodes errs_ro errs_pause hs in
    if passed errs_ro h && passed errs_pause h then h ∷ rest else rest

-- Phases 1 and 2: the nodes that are read-only and whose replication has stopped.
unfoldable pub stop_writes :
    Settings → ShardState → List String → ℕ → Switchover → String → Act (List String)
stop_writes c state active quorum sw old = do
  errs_ro ← run_parallel (make_read_only state old) active
  check_old_read_only state old errs_ro
  fence_dead_master c state sw old
  errs_pause ← run_parallel (stop_replication c state) active
  let alive = alive_nodes errs_ro errs_pause active
  raise_if (ltb (length alive) quorum) "no failover quorum reached"
  ret alive

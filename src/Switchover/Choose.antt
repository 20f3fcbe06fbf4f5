-- ===== src/Switchover/Choose.antt =====
-- Phases 3 and 4 of `performSwitchover`: the new master is chosen, and catches up.
use rdsync.Base.{ltb, String, str_eq, not, ◌&&◌, List, failed, Result, ok, err, if◌then◌else◌}
use rdsync.Base.Int.{eqb_ℤ}
use rdsync.Base.Hosts
use rdsync.Types.{ShardState, Switchover, SwitchoverProgress}
use rdsync.Lag.{get_offset, find_most_recent_node, get_most_desirable_node}
use rdsync.Actions.{
  pause_replication, resume_replication, get_priorities, Act, ret, raise, ◌>>=◌, ◌>>◌, call, check,
  deref, raise_if, run_parallel, Settings,
}
use rdsync.Master.{change_master, wait_for_catchup}
use rdsync.Switchover.Freeze.{store_progress}

unfoldable pub resume_on : ShardState → String → Act (Unit {0})
resume_on state host = do
  s ← deref (Hosts.get state host)
  raise_if (not s.ping_ok) "host is not healthy"
  r ← call (resume_replication host)
  check r

-- The most desirable node, or replication goes on and the switchover fails.
unfoldable pub desired : ShardState → List String → Result String → Act String
desired state active (ok host) = ret host
desired state active (err e) =
    run_parallel (resume_on state) active >> raise (failed "get desirable node for switchover")

-- The priorities are what the DCS answers for each host.
unfoldable pub choose_desirable : ShardState → ShardState → List String → String → Act String
choose_desirable state states active from = do
  priorities ← call get_priorities
  desired state active (get_most_desirable_node priorities states from)

unfoldable pub choose_new_master :
    ShardState → ShardState → List String → Switchover → String → Act String
choose_new_master state states active sw most_recent =
    if not (str_eq sw.to "")
    then ret sw.to
    else if not (str_eq sw.from "")
    then choose_desirable state states active sw.from
    else ret most_recent

-- Phase 3: what has been chosen before is kept.
unfoldable pub choose_master :
    ShardState → ShardState → List String → Switchover → SwitchoverProgress → Act SwitchoverProgress
choose_master state states active sw p = if not (ltb p.phase 3) then ret p else do
  let most_recent = find_most_recent_node states
  new_master ← choose_new_master state states active sw most_recent
  let p' = record p { most_recent = most_recent; new_master = new_master; phase = 3 }
  store_progress sw p'
  ret p'

-- Phase 4.
unfoldable pub catch_up : Settings → ShardState → SwitchoverProgress → Act (Unit {0})
catch_up c states p =
    if ltb p.phase 5
      && (not (str_eq p.new_master p.most_recent)
          && not (
              eqb_ℤ (get_offset (Hosts.get states p.new_master))
                (get_offset (Hosts.get states p.most_recent))))
    then (do
      r ← call (pause_replication p.most_recent)
      check r
      change_master c p.new_master p.most_recent
      wait_for_catchup c p.new_master p.most_recent)
    else ret tt

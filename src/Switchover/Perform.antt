-- ===== src/Switchover/Perform.antt =====
-- Phase 6 of `performSwitchover`, and the whole of it.
use rdsync.Base.{
  ℕ, ltb, ◌==◌, String, str_eq, not, ◌||◌, List, [], ◌∷◌, ◌++◌, Result, ok, err, if◌then◌else◌,
}
use rdsync.Base.Int.{pos, eqb_ℤ}
use rdsync.Base.Text.{sort_strings}
use rdsync.Base.Hosts
use rdsync.Types.{
  HostState, ShardState, Switchover, SwitchoverProgress, AppMode, mode_sentinel, mode_cluster,
}
use rdsync.Failover.{get_num_replicas_to_write, get_failover_quorum}
use rdsync.Actions.{
  Done, set_read_write, resume_replication, get_num_quorum_replicas, set_num_quorum_replicas,
  set_active_nodes, update_cache, enter_critical, exit_critical, Act, ret, ◌>>=◌, ◌>>◌, attempt,
  call, check, deref, or_fail, raise_if, get_shard_state_from_db, run_parallel, combine_errors,
  Settings,
}
use rdsync.Switchover.Freeze.{
  store_progress, begin_progress, check_target, taking_part, stop_writes,
}
use rdsync.Switchover.Choose.{choose_master, catch_up}
use rdsync.Switchover.Promotion.{psync_nodes, turn_if_alive, promotion}

-- The end of `repairMaster` of internal/app/repair.go: writes are let through, replication resumes.
unfoldable pub open_master : String → HostState → Act (Unit {0})
open_master master s = do
  if s.is_read_only || not (eqb_ℤ s.min_replicas_to_write (pos 0))
      then call (set_read_write master) >> ret tt
      else ret tt
  if s.is_repl_paused then call (resume_replication master) >> ret tt else ret tt

-- What follows the change of the number: an error is logged.
unfoldable pub if_raised : String → HostState → Done → Act (Unit {0})
if_raised master s (err e) = ret tt
if_raised master s (ok _) = open_master master s

-- What follows the reading of the number.
unfoldable pub if_known : String → List String → HostState → Result ℕ → Act (Unit {0})
if_known master active s (err e) = ret tt
if_known master active s (ok actual) =
    if ltb actual (get_num_replicas_to_write active)
    then (do
      (e, _) ← call (set_num_quorum_replicas master (get_num_replicas_to_write active))
      if_raised master s e)
    else open_master master s

-- `repairMaster`: the number of replicas is raised but never lowered.
unfoldable pub repair_master : String → List String → HostState → Act (Unit {0})
repair_master master active s = do
  r ← call (get_num_quorum_replicas master)
  if_known master active s r

-- The caches of Sentinel mode are told; errors are logged.
unfoldable pub notify_caches : AppMode → ShardState → List String → Act ShardState
notify_caches mode_cluster state active = ret state
notify_caches mode_sentinel state active = do
  state' ← get_shard_state_from_db
  run_parallel (λ host. call (update_cache host state') >>= check) active
  ret state'

unfoldable pub turn_unless_master : Settings → ShardState → String → String → Act (Unit {0})
turn_unless_master c state master host =
    if str_eq host master then ret tt else turn_if_alive c state master host

-- Phase 6.
unfoldable pub turn_replicas :
    Settings → ShardState → List String → List String → String → Act (Unit {0})
turn_replicas c state active alive master = do
  let nodes = sort_strings (psync_nodes state master alive ++ (master ∷ []))
  r ← call (set_active_nodes nodes)
  or_fail "unable to update active nodes in dcs" r
  s ← deref (Hosts.get state master)
  repair_master master nodes s
  state' ← notify_caches c.mode state active
  errs ← run_parallel (turn_unless_master c state' master) nodes
  check (combine_errors errs)

-- Phase 5, unless a run before has come to phase 6.
unfoldable pub promotion_unless_done :
    Settings → ShardState → List String → Switchover → SwitchoverProgress → String → Act ShardState
promotion_unless_done c state alive sw p old =
    if p.phase == 6 then ret state else promotion c state alive sw p old

-- The whole procedure, between the critical section's ends.
unfoldable pub switch_over :
    Settings → ShardState → List String → Switchover → String → Act (Unit {0})
switch_over c state active sw old = do
  p ← begin_progress sw sw.progress
  check_target sw active
  let nodes = taking_part sw old active
  alive ← stop_writes c state nodes (get_failover_quorum c.failover active) sw old
  states ← get_shard_state_from_db
  p' ← choose_master state states nodes sw p
  catch_up c states p'
  state' ← get_shard_state_from_db
  s ← deref (Hosts.get state' p'.new_master)
  raise_if (not s.ping_ok) "new master suddenly became not available during switchover"
  state'' ← promotion_unless_done c state' alive sw p' old
  store_progress sw (record p' { phase = 6 })
  turn_replicas c state'' nodes alive p'.new_master

-- `performSwitchover`: an error comes back after the critical section is left.
unfoldable pub perform_switchover :
    Settings → ShardState → List String → Switchover → String → Act (Unit {0})
perform_switchover c state active sw old = do
  call enter_critical
  r ← attempt (switch_over c state active sw old)
  call exit_critical
  check r

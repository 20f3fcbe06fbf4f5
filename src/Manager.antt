-- ===== src/Manager.antt =====
-- internal/app/manager.go: a turn of the process that holds the manager's lock.
pub mod Lock
pub mod Named
pub mod Turn
pub mod Safety
use rdsync.Base.{
  ℕ, zero, suc, ltb, leb, ◌/◌, String, str_eq, Bool, true, false, not, ◌&&◌, ◌||◌, Option, none,
  some, List, [], ◌∷◌, length, count_if, Error, not_found, exists, malformed, failed, Result, ok,
  err, if◌then◌else◌, or_zero,
}
use rdsync.Base.Int.{pos, pos_part, ltb_ℤ}
use rdsync.Base.Hosts
use rdsync.Types.{
  Time, Duration, zero_time, is_zero, since, HostState, ShardState, Switchover, Maintenance,
  PoisonPill, AppState, state_lost, state_candidate, state_manager, state_maintenance,
}
use rdsync.Failover.{approve_failover, approve_switchover}
use rdsync.Actions.{
  Act, ret, raise, hang, ◌>>=◌, ◌>>◌, attempt, call, check, found, deref, get_shard_state_from_db,
  Settings, Done, is_before, now, sleep, hosts, dcs_is_connected, acquire_manager_lock,
  release_manager_lock, get_manager_lock, update_hosts_info, get_maintenance, get_current_switch,
  get_poison_pill, get_last_switch, get_fail_times, set_fail_times, get_split_times,
  set_split_times,
}
use rdsync.Availability.{get_shard_state_from_dcs, read_active_nodes}
use rdsync.ActiveNodes.Update.{update_active_nodes}
use rdsync.Maintenance.{enter_maintenance}
use rdsync.Master.Current.{get_current_master}
use rdsync.Pill.{clear_poison_pill}
use rdsync.Repair.Local.{note_fail_time, forget_fail_time, repair_local_node}
use rdsync.Repair.Shard.{repair_shard}
use rdsync.Switchover.{perform_failover, start_switchover, fail_switchover, finish_switchover}
use rdsync.Switchover.Perform.{perform_switchover}

-- How a switchover that was performed is reported; one that is no longer stored was aborted.
unfoldable pub report : Switchover → Done → Act (Unit {0})
report sw (ok _) = attempt (finish_switchover sw none) >> ret tt
report sw (err e) = attempt (fail_switchover sw e) >> ret tt

unfoldable pub report_unless_aborted : Switchover → Done → Result Switchover → Act (Unit {0})
report_unless_aborted sw r (err not_found) = ret tt
report_unless_aborted sw r (err exists) = report sw r
report_unless_aborted sw r (err malformed) = report sw r
report_unless_aborted sw r (err (failed m)) = report sw r
report_unless_aborted sw r (ok stored) = report sw r

-- The progress that `performSwitchover` leaves in the record is cleared by either report.
unfoldable pub perform_approved :
    Settings → ShardState → List String → Switchover → String → Done → Act (Unit {0})
perform_approved c state active sw master (err e) =
    attempt (finish_switchover sw (some e)) >> ret tt
perform_approved c state active sw master (ok _) = do
  (sw', e) ← start_switchover c sw
  check e
  r ← attempt (perform_switchover c state active sw' master)
  q ← call get_current_switch
  report_unless_aborted sw' r q

unfoldable pub run_switchover :
    Settings → ShardState → List String → Switchover → String → Act (Unit {0})
run_switchover c state active sw master = do
  t ← call now
  if not (is_zero sw.initiated_at) && ltb_ℤ c.switchover_timeout (since t sw.initiated_at)
      then attempt (finish_switchover sw (some (failed "switchover timed out"))) >> ret tt
      else perform_approved c state active sw master (approve_switchover c.failover sw active state)

unfoldable pub clear_if : Option PoisonPill → Act (Unit {0})
clear_if none = ret tt
clear_if (some p) = clear_poison_pill

-- How many hosts answer.
unfoldable pub count_alive : ShardState → ℕ
count_alive [] = 0
count_alive ((h, s) ∷ rest) = let n = count_alive rest in if s.ping_ok then suc n else n

-- The master has failed: by what the hosts answer, and by what the DCS says of it.
unfoldable pub has_failed : ℕ → ShardState → HostState → HostState → Bool
has_failed n state dcs_master master =
    (dcs_master.ping_ok && not master.ping_ok && ltb (n / 2) (count_alive state))
    || (not dcs_master.ping_ok && not master.ping_ok)
    || dcs_master.is_offline

unfoldable pub if_approved : Settings → String → Result (Unit {0}) → Act AppState
if_approved c master (err e) = ret state_manager
if_approved c master (ok _) = attempt (perform_failover c master) >> ret state_manager

-- The last switchover is read before the checks here.
unfoldable pub fail_over : Settings → ShardState → List String → String → Act AppState
fail_over c state active master = do
  since_when ← note_fail_time master
  t ← call now
  t' ← call now
  last ← call get_last_switch
  if_approved c master (approve_failover c.failover state active since_when t t' last)

unfoldable pub forget_split_time : String → Act (Unit {0})
forget_split_time host = do
  splits ← call get_split_times
  call (set_split_times (Hosts.delete splits host))

unfoldable pub note_split_time : String → Act Time
note_split_time host = do
  splits ← call get_split_times
  let t = or_zero zero_time (Hosts.get splits host)
  if not (is_zero t)
      then ret t
      else do t' ← call now; call (set_split_times (Hosts.put splits host t')); ret t'

abbrev pub is_other : String → Result String → Bool
is_other hostname (ok owner) = not (str_eq owner hostname)
is_other hostname (err e) = false

-- One tick after another, until another process has the lock or the time is over.
unfoldable pub wait_manager : Settings → ℕ → Time → Act (Unit {0})
wait_manager c zero start = hang
wait_manager c (suc n) start = do
  call (sleep c.tick_interval)
  t ← call now
  if not (is_before t start c.failover.failover_timeout) then ret tt else do
    r ← call get_manager_lock
    if is_other c.hostname r then ret tt else wait_manager c n start

-- The ticks of the timeout, and the one that sees the deadline.
abbrev pub ticks : Settings → ℕ
ticks c = suc (suc (pos_part c.failover.failover_timeout / pos_part c.tick_interval))

unfoldable pub give_up : Settings → String → Act AppState
give_up c master = do
  forget_split_time master
  call release_manager_lock
  start ← call now
  wait_manager c (ticks c) start
  ret state_candidate

-- The majority answers to the DCS but not to this process.
unfoldable pub is_split : ℕ → ShardState → ShardState → Bool
is_split n state dcs = leb (count_alive state) (n / 2) && ltb (n / 2) (count_alive dcs)

unfoldable pub give_up_if_late : Settings → String → Act AppState
give_up_if_late c master = do
  since_when ← note_split_time master
  t ← call now
  if ltb_ℤ (pos 0) c.failover.failover_timeout
        && ltb_ℤ (since t since_when) c.failover.failover_timeout
      then ret state_manager
      else give_up c master

-- Nothing is wrong: the shard is repaired, and the active nodes brought up to date.
unfoldable pub tend_shard :
    Settings → ShardState → ShardState → List String → String → Bool → Act AppState
tend_shard c state dcs active master update = do
  forget_fail_time master
  forget_split_time master
  repair_shard c state active master
  if update then attempt (update_active_nodes c state dcs active master) >> ret tt else ret tt
  ret state_manager

unfoldable pub with_alive_master :
    Settings → ℕ → ShardState → ShardState → List String → String → HostState → Bool → Act AppState
with_alive_master c n state dcs active master s update =
    if ltb 2 n
    then (if is_split n state dcs
        then give_up_if_late c master
        else tend_shard c state dcs active master update)
    else if not (str_eq master c.hostname) && not s.ping_ok
    then ret state_manager
    else tend_shard c state dcs active master update

unfoldable pub without_switchover :
    Settings → ShardState → ShardState → List String → String → Bool → Act AppState
without_switchover c state dcs active master update = do
  r ← call get_poison_pill
  pill ← found r
  clear_if pill
  hs ← call hosts
  d ← deref (Hosts.get dcs master)
  s ← deref (Hosts.get state master)
  if has_failed (length hs) state d s
      then fail_over c state active master
      else with_alive_master c (length hs) state dcs active master s update

unfoldable pub with_switchover :
    Settings
    → ShardState
    → ShardState
    → List String
    → String
    → Bool
    → Option Switchover
    → Act AppState
with_switchover c state dcs active master update (some sw) =
    run_switchover c state active sw master >> ret state_manager
with_switchover c state dcs active master update none =
    without_switchover c state dcs active master update

unfoldable pub with_maintenance :
    Settings → ShardState → ShardState → List String → String → Option Maintenance → Act AppState
with_maintenance c state dcs active master (some m) =
    if m.rdsync_paused
    then ret state_maintenance
    else enter_maintenance m master >> ret state_maintenance
with_maintenance c state dcs active master none = do
  update ← repair_local_node c master
  r ← call get_current_switch
  sw ← found r
  with_switchover c state dcs active master update sw

-- The turn with the lock, where an error stands for an early return of `stateManager`.
unfoldable pub manager_turn : Settings → Act AppState
manager_turn c = do
  call update_hosts_info
  state ← get_shard_state_from_db
  dcs ← get_shard_state_from_dcs
  master ← get_current_master c state
  active ← read_active_nodes
  r ← call get_maintenance
  m ← found r
  with_maintenance c state dcs active master m

abbrev pub or_manager : Result AppState → AppState
or_manager (ok s) = s
or_manager (err e) = state_manager

-- `stateManager`: the next state.
unfoldable pub manager : Settings → Act AppState
manager c = do
  connected ← call dcs_is_connected
  if not connected then ret state_lost else do
    locked ← call acquire_manager_lock
    if not locked then ret state_candidate else do r ← attempt (manager_turn c); ret (or_manager r)

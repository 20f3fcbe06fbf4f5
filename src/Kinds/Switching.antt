-- ===== src/Kinds/Switching.antt =====
-- The switchover as a whole, and what the manager does beside it, make steady calls alone.
use rdsync.Kinds.Slots.{get_master_host-AsksSlots, asks_slots}
use rdsync.Kinds.{is_steady}
use rdsync.Kinds.Shard.{repair_master-IsTending}
use rdsync.Kinds.Tending.{promote-IsTending}
use rdsync.Master.{promote}
use rdsync.Manager.{perform_approved, report_unless_aborted, run_switchover, report}
use rdsync.Switchover.Promotion.{
  psync_nodes_if_paused, prepare_master, promote_turns, turn_before, if_others, turn_if_alive, both,
  promotion,
}
use rdsync.Kinds.Steady.{
  catch_up-IsSteady, choose_master-IsSteady, wait_unless_auto-IsSteady, stop_writes-IsSteady,
  steady, check_target-IsSteady, settle_pill-IsSteady, get_state-IsSteady, store_progress-IsSteady,
  change_master-IsSteady, begin_progress-IsSteady, IsSteady,
}
use rdsync.Master.Current.{ensure_current_master, store_master, get_master_host}
use rdsync.Switchover.{fail_switchover, finish_switchover, start_switchover}
use rdsync.Switchover.Perform.{
  repair_master, turn_unless_master, promotion_unless_done, notify_caches, turn_replicas,
  switch_over, perform_switchover,
}
use rdsync.Base.{
  arith, ℕ, zero, suc, String, Option, none, some, List, [], ◌∷◌, Result, ok, err, Error, not_found,
  exists, malformed, failed,
}
use rdsync.Types.{
  Time, HostState, ShardState, Switchover, SwitchoverProgress, AppMode, mode_sentinel, mode_cluster,
}
use rdsync.Actions.{Settings, Done}
use rdsync.Actions.Only.{Only-mono, only_rules}

both-IsSteady : (m : String) (r : Done × Done) → IsSteady (both m r)
unfolding both
both-IsSteady m r = search (only_rules) depth 8

prepare_master-IsSteady :
    (c : Settings) (hs : List String) (h : String) → IsSteady (prepare_master c hs h)
unfolding prepare_master
prepare_master-IsSteady c hs h = search (only_rules, both-IsSteady) depth 15

turn_if_alive-IsSteady :
    (c : Settings) (state : ShardState) (master host : String)
    → IsSteady (turn_if_alive c state master host)
unfolding turn_if_alive
turn_if_alive-IsSteady c state master host = search (only_rules, change_master-IsSteady) depth 10

if_others-IsSteady :
    (state : ShardState) (master : String) (hs ys : List String)
    → IsSteady (if_others state master hs ys)
unfolding if_others
if_others-IsSteady state master hs [] = search (only_rules)
if_others-IsSteady state master hs (x ∷ xs) = search (only_rules) depth 8

turn_before-IsSteady :
    (c : Settings) (state : ShardState) (hs : List String) (master : String)
    → IsSteady (turn_before c state hs master)
unfolding turn_before psync_nodes_if_paused
turn_before-IsSteady c state hs master =
    search (only_rules, if_others-IsSteady, turn_if_alive-IsSteady) depth 15

promote-IsSteady :
    (c : Settings) (master old : String) (state : ShardState) (start : Time)
    → IsSteady (promote c master old state start)
promote-IsSteady c master old state start = steady (promote-IsTending c master old state start)

promote_turns-IsSteady :
    (c : Settings) (master old : String) (n : ℕ) (start force : Time) (state : ShardState)
    → IsSteady (promote_turns c master old n start force state)
unfolding promote_turns
promote_turns-IsSteady c master old zero start force state = search (only_rules)
promote_turns-IsSteady c master old (suc n) start force state =
    search (only_rules, promote-IsSteady, get_state-IsSteady, promote_turns-IsSteady c master old n)
      depth 25

promotion-IsSteady :
    (c : Settings) (state : ShardState) (hs : List String) (sw : Switchover)
    (p : SwitchoverProgress) (old : String)
    → IsSteady (promotion c state hs sw p old)
unfolding promotion
promotion-IsSteady c state hs sw p old =
    search
      (
        only_rules, store_progress-IsSteady, settle_pill-IsSteady, wait_unless_auto-IsSteady,
        prepare_master-IsSteady, turn_before-IsSteady, promote_turns-IsSteady,
      )
      depth 30

notify_caches-IsSteady :
    (mode : AppMode) (state : ShardState) (hs : List String)
    → IsSteady (notify_caches mode state hs)
unfolding notify_caches
notify_caches-IsSteady mode_cluster state hs = search (only_rules)
notify_caches-IsSteady mode_sentinel state hs = search (only_rules, get_state-IsSteady) depth 12

turn_unless_master-IsSteady :
    (c : Settings) (state : ShardState) (master host : String)
    → IsSteady (turn_unless_master c state master host)
unfolding turn_unless_master
turn_unless_master-IsSteady c state master host =
    search (only_rules, turn_if_alive-IsSteady) depth 8

repair_master-IsSteady :
    (h : String) (hs : List String) (s : HostState) → IsSteady (repair_master h hs s)
repair_master-IsSteady h hs s = steady (repair_master-IsTending h hs s)

turn_replicas-IsSteady :
    (c : Settings) (state : ShardState) (hs alive : List String) (master : String)
    → IsSteady (turn_replicas c state hs alive master)
unfolding turn_replicas
turn_replicas-IsSteady c state hs alive master =
    search (only_rules, repair_master-IsSteady, notify_caches-IsSteady, turn_unless_master-IsSteady)
      depth 20

promotion_unless_done-IsSteady :
    (c : Settings) (state : ShardState) (hs : List String) (sw : Switchover)
    (p : SwitchoverProgress) (old : String)
    → IsSteady (promotion_unless_done c state hs sw p old)
unfolding promotion_unless_done
promotion_unless_done-IsSteady c state hs sw p old = search (only_rules, promotion-IsSteady) depth 8

switch_over-IsSteady :
    (c : Settings) (state : ShardState) (hs : List String) (sw : Switchover) (old : String)
    → IsSteady (switch_over c state hs sw old)
unfolding switch_over
switch_over-IsSteady c state hs sw old =
    search
      (
        only_rules, begin_progress-IsSteady, check_target-IsSteady, stop_writes-IsSteady,
        get_state-IsSteady, choose_master-IsSteady, catch_up-IsSteady,
        promotion_unless_done-IsSteady, store_progress-IsSteady, turn_replicas-IsSteady,
      )
      depth 30

pub perform_switchover-IsSteady :
    (c : Settings) (state : ShardState) (hs : List String) (sw : Switchover) (old : String)
    → IsSteady (perform_switchover c state hs sw old)
unfolding perform_switchover
perform_switchover-IsSteady c state hs sw old = search (only_rules, switch_over-IsSteady) depth 12

pub start_switchover-IsSteady : (c : Settings) (sw : Switchover) → IsSteady (start_switchover c sw)
unfolding start_switchover
start_switchover-IsSteady c sw = search (only_rules) depth 8

fail_switchover-IsSteady : (sw : Switchover) (e : Error) → IsSteady (fail_switchover sw e)
unfolding fail_switchover
fail_switchover-IsSteady sw e = search (only_rules) depth 8

pub finish_switchover-IsSteady :
    (sw : Switchover) (e : Option Error) → IsSteady (finish_switchover sw e)
unfolding finish_switchover
finish_switchover-IsSteady sw none = search (only_rules) depth 15
finish_switchover-IsSteady sw (some x) = search (only_rules) depth 15

get_master_host-IsSteady : (c : Settings) (state : ShardState) → IsSteady (get_master_host c state)
get_master_host-IsSteady c state =
    Only-mono asks_slots is_steady (λ call e. ground arith) (get_master_host-AsksSlots c state)

store_master-IsSteady : (h : String) → IsSteady (store_master h)
unfolding store_master
store_master-IsSteady h = search (only_rules) depth 12

pub ensure_current_master-IsSteady :
    (c : Settings) (state : ShardState) → IsSteady (ensure_current_master c state)
unfolding ensure_current_master
ensure_current_master-IsSteady c state =
    search (only_rules, get_master_host-IsSteady, store_master-IsSteady) depth 8

report-IsSteady : (sw : Switchover) (r : Done) → IsSteady (report sw r)
unfolding report
report-IsSteady sw (ok x) = search (only_rules, finish_switchover-IsSteady) depth 10
report-IsSteady sw (err e) = search (only_rules, fail_switchover-IsSteady) depth 10

report_unless_aborted-IsSteady :
    (sw : Switchover) (r : Done) (q : Result Switchover) → IsSteady (report_unless_aborted sw r q)
unfolding report_unless_aborted
report_unless_aborted-IsSteady sw r (err not_found) = search (only_rules)
report_unless_aborted-IsSteady sw r (err exists) = search (only_rules, report-IsSteady)
report_unless_aborted-IsSteady sw r (err malformed) = search (only_rules, report-IsSteady)
report_unless_aborted-IsSteady sw r (err (failed m)) = search (only_rules, report-IsSteady)
report_unless_aborted-IsSteady sw r (ok x) = search (only_rules, report-IsSteady)

perform_approved-IsSteady :
    (c : Settings) (state : ShardState) (hs : List String) (sw : Switchover) (master : String)
    (r : Done)
    → IsSteady (perform_approved c state hs sw master r)
unfolding perform_approved
perform_approved-IsSteady c state hs sw master (err e) =
    search (only_rules, finish_switchover-IsSteady) depth 10
perform_approved-IsSteady c state hs sw master (ok x) =
    search
      (
        only_rules, start_switchover-IsSteady, perform_switchover-IsSteady,
        report_unless_aborted-IsSteady,
      )
      depth 20

pub run_switchover-IsSteady :
    (c : Settings) (state : ShardState) (hs : List String) (sw : Switchover) (master : String)
    → IsSteady (run_switchover c state hs sw master)
unfolding run_switchover
run_switchover-IsSteady c state hs sw master =
    search (only_rules, finish_switchover-IsSteady, perform_approved-IsSteady) depth 12

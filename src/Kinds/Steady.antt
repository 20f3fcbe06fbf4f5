-- ===== src/Kinds/Steady.antt =====
-- The parts of a switchover make steady calls alone: those before a new master is chosen.
use rdsync.Kinds.Tending.{repair_replica-IsTending, IsTending}
use rdsync.Switchover.{update_switchover, update_with}
use rdsync.Repair.{repair_replica}
use rdsync.Switchover.Choose.{
  desired, choose_new_master, resume_on, choose_desirable, catch_up, choose_master,
}
use rdsync.Pill.{
  wait_poison_pill, apply_poison_pill, mark_applied, clear_poison_pill, issue_poison_pill, if_set,
  wait_ticks, if_offline,
}
use rdsync.Master.{link_turns, wait_for_catchup, change_master, catchup_turns}
use rdsync.Switchover.Freeze.{
  begin_progress, stop_replication, wait_unless_auto, check_old_read_only, make_read_only,
  settle_pill, check_target, stop_writes, fence_dead_master, store_progress,
}
use rdsync.Kinds.{is_tending, is_steady}
use rdsync.Base.{
  arith, ℕ, zero, suc, String, Bool, true, false, Option, none, some, List, Result, ok, err,
  HostMap,
}
use rdsync.Types.{Time, Duration, HostState, ShardState, Switchover, SwitchoverProgress, PoisonPill}
use rdsync.Actions.{Act, Settings, Done, get_shard_state_from_db}
use rdsync.Actions.Only.{Only-mono, Only, only_rules}

abbrev pub IsSteady : {A : Type 0} → Act A → Type 0
IsSteady m = Only is_steady m

pub steady : {A : Type 0} {m : Act A} → IsTending m → IsSteady m
steady h = Only-mono is_tending is_steady (λ c e. ground arith) h

pub get_state-IsSteady : IsSteady get_shard_state_from_db
unfolding get_shard_state_from_db
get_state-IsSteady = search (only_rules)

issue_poison_pill-IsSteady : (c : Settings) (h : String) → IsSteady (issue_poison_pill c h)
unfolding issue_poison_pill
issue_poison_pill-IsSteady c h = search (only_rules) depth 12

pub clear_poison_pill-IsSteady : IsSteady clear_poison_pill
unfolding clear_poison_pill
clear_poison_pill-IsSteady = search (only_rules) depth 8

mark_applied-IsSteady : (p : PoisonPill) → IsSteady (mark_applied p)
unfolding mark_applied
mark_applied-IsSteady p = search (only_rules) depth 8

if_set-IsSteady : (p : PoisonPill) (r : Done) → IsSteady (if_set p r)
unfolding if_set
if_set-IsSteady p (err e) = search (only_rules)
if_set-IsSteady p (ok x) = search (only_rules, mark_applied-IsSteady)

if_offline-IsSteady :
    (c : Settings) (p : PoisonPill) (r : Result Bool) → IsSteady (if_offline c p r)
unfolding if_offline
if_offline-IsSteady c p (err e) = search (only_rules)
if_offline-IsSteady c p (ok true) = search (only_rules, mark_applied-IsSteady)
if_offline-IsSteady c p (ok false) = search (only_rules, if_set-IsSteady) depth 8

pub apply_poison_pill-IsSteady : (c : Settings) (p : PoisonPill) → IsSteady (apply_poison_pill c p)
unfolding apply_poison_pill
apply_poison_pill-IsSteady c p = search (only_rules, if_offline-IsSteady) depth 10

wait_ticks-IsSteady :
    (c : Settings) (n : ℕ) (start : Time) (d : Duration) (p : PoisonPill)
    → IsSteady (wait_ticks c n start d p)
unfolding wait_ticks
wait_ticks-IsSteady c zero start d p = search (only_rules)
wait_ticks-IsSteady c (suc n) start d p =
    search (only_rules, apply_poison_pill-IsSteady, wait_ticks-IsSteady c n) depth 25

wait_poison_pill-IsSteady : (c : Settings) (d : Duration) → IsSteady (wait_poison_pill c d)
unfolding wait_poison_pill
wait_poison_pill-IsSteady c d = search (only_rules, wait_ticks-IsSteady) depth 10

update_with-IsSteady :
    (sw : Switchover) (o : Option SwitchoverProgress) → IsSteady (update_with sw o)
unfolding update_with
update_with-IsSteady sw none = search (only_rules)
update_with-IsSteady sw (some p) = search (only_rules) depth 8

pub store_progress-IsSteady :
    (sw : Switchover) (p : SwitchoverProgress) → IsSteady (store_progress sw p)
unfolding store_progress update_switchover
store_progress-IsSteady sw p = search (only_rules, update_with-IsSteady)

pub begin_progress-IsSteady :
    (sw : Switchover) (o : Option SwitchoverProgress) → IsSteady (begin_progress sw o)
unfolding begin_progress
begin_progress-IsSteady sw none = search (only_rules, store_progress-IsSteady) depth 8
begin_progress-IsSteady sw (some p) = search (only_rules) depth 8

pub check_target-IsSteady : (sw : Switchover) (hs : List String) → IsSteady (check_target sw hs)
unfolding check_target
check_target-IsSteady sw hs = search (only_rules)

make_read_only-IsSteady :
    (state : ShardState) (old host : String) → IsSteady (make_read_only state old host)
unfolding make_read_only
make_read_only-IsSteady state old host = search (only_rules) depth 15

check_old_read_only-IsSteady :
    (state : ShardState) (old : String) (errs : HostMap Done)
    → IsSteady (check_old_read_only state old errs)
unfolding check_old_read_only
check_old_read_only-IsSteady state old errs = search (only_rules) depth 10

pub settle_pill-IsSteady :
    (c : Settings) (old : String) (o : Option PoisonPill) → IsSteady (settle_pill c old o)
unfolding settle_pill
settle_pill-IsSteady c old none = search (only_rules, issue_poison_pill-IsSteady)
settle_pill-IsSteady c old (some p) =
    search (only_rules, issue_poison_pill-IsSteady, clear_poison_pill-IsSteady) depth 8

pub wait_unless_auto-IsSteady : (c : Settings) (sw : Switchover) → IsSteady (wait_unless_auto c sw)
unfolding wait_unless_auto
wait_unless_auto-IsSteady c sw = search (only_rules, wait_poison_pill-IsSteady) depth 8

fence_dead_master-IsSteady :
    (c : Settings) (state : ShardState) (sw : Switchover) (old : String)
    → IsSteady (fence_dead_master c state sw old)
unfolding fence_dead_master
fence_dead_master-IsSteady c state sw old =
    search (only_rules, settle_pill-IsSteady, wait_unless_auto-IsSteady) depth 15

stop_replication-IsSteady :
    (c : Settings) (state : ShardState) (host : String) → IsSteady (stop_replication c state host)
unfolding stop_replication
stop_replication-IsSteady c state host = search (only_rules) depth 15

pub stop_writes-IsSteady :
    (c : Settings) (state : ShardState) (hs : List String) (n : ℕ) (sw : Switchover) (old : String)
    → IsSteady (stop_writes c state hs n sw old)
unfolding stop_writes
stop_writes-IsSteady c state hs n sw old =
    search
      (
        only_rules, make_read_only-IsSteady, check_old_read_only-IsSteady,
        fence_dead_master-IsSteady, stop_replication-IsSteady,
      )
      depth 20

repair_replica-IsSteady :
    (c : Settings) (host master : String) (ms : Option HostState) (s : HostState)
    → IsSteady (repair_replica c host master ms s)
repair_replica-IsSteady c host master ms s = steady (repair_replica-IsTending c host master ms s)

link_turns-IsSteady :
    (c : Settings) (host master : String) (n : ℕ) (start : Time) (ms s : HostState)
    → IsSteady (link_turns c host master n start ms s)
unfolding link_turns
link_turns-IsSteady c host master zero start ms s = search (only_rules)
link_turns-IsSteady c host master (suc n) start ms s =
    search (only_rules, repair_replica-IsSteady, link_turns-IsSteady c host master n) depth 25

pub change_master-IsSteady :
    (c : Settings) (host master : String) → IsSteady (change_master c host master)
unfolding change_master
change_master-IsSteady c host master =
    search (only_rules, repair_replica-IsSteady, link_turns-IsSteady) depth 25

catchup_turns-IsSteady :
    (c : Settings) (host master : String) (n : ℕ) (start : Time)
    → IsSteady (catchup_turns c host master n start)
unfolding catchup_turns
catchup_turns-IsSteady c host master zero start = search (only_rules)
catchup_turns-IsSteady c host master (suc n) start =
    search (only_rules, catchup_turns-IsSteady c host master n) depth 25

wait_for_catchup-IsSteady :
    (c : Settings) (host master : String) → IsSteady (wait_for_catchup c host master)
unfolding wait_for_catchup
wait_for_catchup-IsSteady c host master = search (only_rules, catchup_turns-IsSteady) depth 25

resume_on-IsSteady : (state : ShardState) (host : String) → IsSteady (resume_on state host)
unfolding resume_on
resume_on-IsSteady state host = search (only_rules) depth 15

desired-IsSteady :
    (state : ShardState) (hs : List String) (r : Result String) → IsSteady (desired state hs r)
unfolding desired
desired-IsSteady state hs (ok h) = search (only_rules)
desired-IsSteady state hs (err e) = search (only_rules, resume_on-IsSteady) depth 8

choose_desirable-IsSteady :
    (state states : ShardState) (hs : List String) (from : String)
    → IsSteady (choose_desirable state states hs from)
unfolding choose_desirable
choose_desirable-IsSteady state states hs from = search (only_rules, desired-IsSteady) depth 8

choose_new_master-IsSteady :
    (state states : ShardState) (hs : List String) (sw : Switchover) (h : String)
    → IsSteady (choose_new_master state states hs sw h)
unfolding choose_new_master
choose_new_master-IsSteady state states hs sw h =
    search (only_rules, choose_desirable-IsSteady) depth 8

pub choose_master-IsSteady :
    (state states : ShardState) (hs : List String) (sw : Switchover) (p : SwitchoverProgress)
    → IsSteady (choose_master state states hs sw p)
unfolding choose_master
choose_master-IsSteady state states hs sw p =
    search (only_rules, choose_new_master-IsSteady, store_progress-IsSteady) depth 12

pub catch_up-IsSteady :
    (c : Settings) (states : ShardState) (p : SwitchoverProgress) → IsSteady (catch_up c states p)
unfolding catch_up
catch_up-IsSteady c states p =
    search (only_rules, change_master-IsSteady, wait_for_catchup-IsSteady) depth 12

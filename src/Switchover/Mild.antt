-- ===== src/Switchover/Mild.antt =====
-- The parts of a switchover that lose nothing of what is known, and promote no host.
use rdsync.Repair.{
  if_repaired, note_failure, repair_destructively, meet_if, make_replica, follow_and_resume,
  repair_replica,
}
use rdsync.Base.{
  Option, none, some, some, Option, ℕ, suc, zero, String, Bool, true, false, List, [], ◌∷◌, Result,
  ok, err, ◌≡◌, arith,
}
use rdsync.Types.{
  AppMode, mode_sentinel, mode_cluster, Time, Duration, HostState, ShardState, PoisonPill,
  Switchover, SwitchoverProgress,
}
use rdsync.Actions.{Call, Act, call, Settings, get_shard_state_from_db}
use rdsync.Actions.Hoare.{Keeps}
use rdsync.Actions.Only.{Only, Only-Keeps, only_rules}
use rdsync.Pill.{
  issue_poison_pill, if_set, if_offline, mark_applied, apply_poison_pill, wait_ticks,
  wait_poison_pill,
}
use rdsync.Master.{link_turns, change_master, catchup_turns, wait_for_catchup}
use rdsync.Switchover.{update_with, update_switchover}
use rdsync.Switchover.Freeze.{store_progress, begin_progress, stop_replication, wait_unless_auto}
use rdsync.Switchover.Choose.{
  desired, resume_on, choose_desirable, choose_new_master, choose_master, catch_up,
}
use rdsync.Switchover.Promotion.{
  if_others, others, turn_if_alive, turn_before, psync_nodes_if_paused,
}
use rdsync.Switchover.Known.{Known, is_mild, Allowed, promotion_rules, ◌⊑◌, ⊑-refl, learn_mild}

abbrev pub IsMild : {A : Type 0} → Act A → Type 0
IsMild m = Only is_mild m

-- After a mild program what was known still is.
pub IsMild-Keeps :
    (c : Settings) (active : List String) (old : String) {A : Type 0} (m : Act A) (k : Known)
    → IsMild m
    → Keeps (promotion_rules c active old) m k (λ r t. k ⊑ t)
IsMild-Keeps c active old m k =
    Only-Keeps is_mild (promotion_rules c active old) tt (λ t. k ⊑ t) allowed
      (λ s call r. learn_mild old k s call r) (⊑-refl k)
  where
    allowed : (s : Known) (call : Call) → is_mild call ≡ true → k ⊑ s → Allowed c active s call
    allowed s call h i host e = ground arith

pub get_shard_state-IsMild : IsMild get_shard_state_from_db
unfolding get_shard_state_from_db
get_shard_state-IsMild = search (only_rules)

if_repaired-IsMild : (r : Result (Unit {0})) → IsMild (if_repaired r)
unfolding if_repaired
if_repaired-IsMild (ok _) = search (only_rules)
if_repaired-IsMild (err e) = search (only_rules)

meet_if-IsMild : (b : Bool) (host master : String) → IsMild (meet_if b host master)
unfolding meet_if
meet_if-IsMild true host master = search (only_rules) depth 10
meet_if-IsMild false host master = search (only_rules)

make_replica-IsMild :
    (mode : AppMode) (host master : String) → IsMild (make_replica mode host master)
unfolding make_replica
make_replica-IsMild mode_sentinel host master = search (only_rules)
make_replica-IsMild mode_cluster host master = search (only_rules, meet_if-IsMild) depth 15

note_failure-IsMild : IsMild note_failure
unfolding note_failure
note_failure-IsMild = search (only_rules) depth 10

module _ (c : Settings) where
  destructive-IsMild : IsMild (repair_destructively c)
  unfolding repair_destructively
  destructive-IsMild = search (only_rules, note_failure-IsMild, if_repaired-IsMild) depth 10

  follow-IsMild :
      (host master : String) (ms : Option HostState) (s : HostState)
      → IsMild (follow_and_resume c host master ms s)
  unfolding follow_and_resume
  follow-IsMild host master ms s = search (only_rules, make_replica-IsMild) depth 10

  repair_replica-IsMild :
      (host master : String) (ms : Option HostState) (s : HostState)
      → IsMild (repair_replica c host master ms s)
  unfolding repair_replica
  repair_replica-IsMild host master ms s =
      search (only_rules, destructive-IsMild, follow-IsMild) depth 10

  link_turns-IsMild :
      (host master : String) (n : ℕ) (start : Time) (ms s : HostState)
      → IsMild (link_turns c host master n start ms s)
  unfolding link_turns
  link_turns-IsMild host master zero start ms s = search (only_rules)
  link_turns-IsMild host master (suc n) start ms s =
      search (only_rules, repair_replica-IsMild, link_turns-IsMild host master n) depth 25

  pub change_master-IsMild : (host master : String) → IsMild (change_master c host master)
  unfolding change_master
  change_master-IsMild host master =
      search (only_rules, repair_replica-IsMild, link_turns-IsMild) depth 25

  catchup_turns-IsMild :
      (host master : String) (n : ℕ) (start : Time) → IsMild (catchup_turns c host master n start)
  unfolding catchup_turns
  catchup_turns-IsMild host master zero start = search (only_rules)
  catchup_turns-IsMild host master (suc n) start =
      search (only_rules, catchup_turns-IsMild host master n) depth 25

  pub wait_for_catchup-IsMild : (host master : String) → IsMild (wait_for_catchup c host master)
  unfolding wait_for_catchup
  wait_for_catchup-IsMild host master = search (only_rules, catchup_turns-IsMild) depth 25

  mark_applied-IsMild : (pill : PoisonPill) → IsMild (mark_applied pill)
  unfolding mark_applied
  mark_applied-IsMild pill = search (only_rules)

  if_set-IsMild : (pill : PoisonPill) (r : Result (Unit {0})) → IsMild (if_set pill r)
  unfolding if_set
  if_set-IsMild pill (err e) = search (only_rules)
  if_set-IsMild pill (ok _) = mark_applied-IsMild pill

  if_offline-IsMild : (pill : PoisonPill) (r : Result Bool) → IsMild (if_offline c pill r)
  unfolding if_offline
  if_offline-IsMild pill (err e) = search (only_rules)
  if_offline-IsMild pill (ok true) = mark_applied-IsMild pill
  if_offline-IsMild pill (ok false) = search (only_rules, if_set-IsMild)

  apply_poison_pill-IsMild : (pill : PoisonPill) → IsMild (apply_poison_pill c pill)
  unfolding apply_poison_pill
  apply_poison_pill-IsMild pill = search (only_rules, if_offline-IsMild) depth 10

  wait_ticks-IsMild :
      (n : ℕ) (start : Time) (timeout : Duration) (pill : PoisonPill)
      → IsMild (wait_ticks c n start timeout pill)
  unfolding wait_ticks
  wait_ticks-IsMild zero start timeout pill = search (only_rules)
  wait_ticks-IsMild (suc n) start timeout pill =
      search (only_rules, apply_poison_pill-IsMild, wait_ticks-IsMild n) depth 25

  pub wait_unless_auto-IsMild : (sw : Switchover) → IsMild (wait_unless_auto c sw)
  unfolding wait_unless_auto wait_poison_pill
  wait_unless_auto-IsMild sw = search (only_rules, wait_ticks-IsMild) depth 10

  pub issue_poison_pill-IsMild : (target : String) → IsMild (issue_poison_pill c target)
  unfolding issue_poison_pill
  issue_poison_pill-IsMild target = search (only_rules) depth 10

  pub stop_replication-IsMild :
      (state : ShardState) (host : String) → IsMild (stop_replication c state host)
  unfolding stop_replication
  stop_replication-IsMild state host = search (only_rules) depth 15

  pub turn_if_alive-IsMild :
      (state : ShardState) (master host : String) → IsMild (turn_if_alive c state master host)
  unfolding turn_if_alive
  turn_if_alive-IsMild state master host = search (only_rules, change_master-IsMild) depth 10

  if_others-IsMild :
      (state : ShardState) (master : String) (alive os : List String)
      → IsMild (if_others state master alive os)
  unfolding if_others
  if_others-IsMild state master alive [] = search (only_rules)
  if_others-IsMild state master alive (x ∷ xs) = search (only_rules)

  psync_nodes_if_paused-IsMild :
      (state : ShardState) (master : String) (alive : List String)
      → IsMild (psync_nodes_if_paused state master alive)
  unfolding psync_nodes_if_paused
  psync_nodes_if_paused-IsMild state master alive =
      if_others-IsMild state master alive (others master alive)

  pub turn_before-IsMild :
      (state : ShardState) (alive : List String) (master : String)
      → IsMild (turn_before c state alive master)
  unfolding turn_before
  turn_before-IsMild state alive master =
      search (only_rules, psync_nodes_if_paused-IsMild, turn_if_alive-IsMild) depth 10

  pub catch_up-IsMild :
      (states : ShardState) (p : SwitchoverProgress) → IsMild (catch_up c states p)
  unfolding catch_up
  catch_up-IsMild states p =
      search (only_rules, change_master-IsMild, wait_for_catchup-IsMild) depth 15

update_with-IsMild : (sw : Switchover) (o : Option SwitchoverProgress) → IsMild (update_with sw o)
unfolding update_with
update_with-IsMild sw none = search (only_rules)
update_with-IsMild sw (some p) = search (only_rules)

pub store_progress-IsMild :
    (sw : Switchover) (p : SwitchoverProgress) → IsMild (store_progress sw p)
unfolding store_progress update_switchover
store_progress-IsMild sw p = update_with-IsMild (record sw { progress = some p }) (some p)

pub begin_progress-IsMild :
    (sw : Switchover) (o : Option SwitchoverProgress) → IsMild (begin_progress sw o)
unfolding begin_progress
begin_progress-IsMild sw none = search (only_rules, store_progress-IsMild)
begin_progress-IsMild sw (some p) = search (only_rules)

module _ (state states : ShardState) (active : List String) where
  resume_on-IsMild : (host : String) → IsMild (resume_on state host)
  unfolding resume_on
  resume_on-IsMild host = search (only_rules) depth 10

  desired-IsMild : (r : Result String) → IsMild (desired state active r)
  unfolding desired
  desired-IsMild (ok host) = search (only_rules)
  desired-IsMild (err e) = search (only_rules, resume_on-IsMild)

  choose_desirable-IsMild : (from : String) → IsMild (choose_desirable state states active from)
  unfolding choose_desirable
  choose_desirable-IsMild from = search (only_rules, desired-IsMild)

  pub choose_master-IsMild :
      (sw : Switchover) (p : SwitchoverProgress) → IsMild (choose_master state states active sw p)
  unfolding choose_master choose_new_master
  choose_master-IsMild sw p =
      search (only_rules, store_progress-IsMild, choose_desirable-IsMild) depth 20

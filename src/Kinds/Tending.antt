-- ===== src/Kinds/Tending.antt =====
-- The repairs, and the update of the active nodes, make the calls of their kind alone.
use rdsync.Master.{promote, promote_with, promote_by_majority, promote_in_cluster}
use rdsync.Repair.Watchdog.{int_field, parsed, parse_field, reserved_connections_watchdog}
use rdsync.Repair.{
  follow_and_resume, meet_if, repair_destructively, note_failure, if_repaired, make_replica,
  repair_replica,
}
use rdsync.Availability.{
  adjust_to, adjust_aof_mode, read_active_nodes, target_mode, is_stale, get_shard_state_from_dcs,
  get_healths, health_of, set_mode, check_ha_replicas_running, remove_old_aof, read_active,
}
use rdsync.Replication.Close.{
  close_if, count_stale, close_if_stale, close_stale_replica, clear_diverge_time,
  close_unless_switched, local_has_slots, clear_repl_fail_time, close_with,
}
use rdsync.Kinds.{is_tending}
use rdsync.Base.{
  str_eq, String, Bool, true, false, Option, none, some, List, [], ◌∷◌, Result, ok, err, not_found,
  exists, malformed, failed, HostMap,
}
use rdsync.Types.{
  Time, HostState, ReplicaState, ShardState, Switchover, AppMode, mode_sentinel, mode_cluster,
  AofMode, mode_unspecified, mode_on, mode_off, mode_on_replicas,
}
use rdsync.Base.Int.{ℤ}
use rdsync.Actions.{Act, Settings, Done, get_shard_state_from_db}
use rdsync.Actions.Only.{Only->>=, Only-if, Only, only_rules}

abbrev pub IsTending : {A : Type 0} → Act A → Type 0
IsTending m = Only is_tending m

pub get_state-IsTending : IsTending get_shard_state_from_db
unfolding get_shard_state_from_db
get_state-IsTending = search (only_rules)

pub is_stale-IsTending :
    (c : Settings) (rs : Option ReplicaState) (b : Bool) → IsTending (is_stale c rs b)
unfolding is_stale
is_stale-IsTending c rs b = search (only_rules) depth 10

health_of-IsTending : (r : Result HostState) → IsTending (health_of r)
unfolding health_of
health_of-IsTending (ok s) = search (only_rules)
health_of-IsTending (err not_found) = search (only_rules)
health_of-IsTending (err exists) = search (only_rules)
health_of-IsTending (err malformed) = search (only_rules)
health_of-IsTending (err (failed m)) = search (only_rules)

pub get_healths-IsTending : (hs : List String) → IsTending (get_healths hs)
unfolding get_healths
get_healths-IsTending [] = search (only_rules)
get_healths-IsTending (h ∷ hs) = Only->>= is_tending (search (only_rules)) (λ r.
    Only->>= is_tending (health_of-IsTending r)
      (λ s. Only->>= is_tending (get_healths-IsTending hs) (λ rest. search (only_rules))))

pub get_shard_state_from_dcs-IsTending : IsTending get_shard_state_from_dcs
unfolding get_shard_state_from_dcs
get_shard_state_from_dcs-IsTending = search (only_rules, get_healths-IsTending)

read_active-IsTending : (r : Result (List String)) → IsTending (read_active r)
unfolding read_active
read_active-IsTending (ok s) = search (only_rules)
read_active-IsTending (err not_found) = search (only_rules)
read_active-IsTending (err exists) = search (only_rules)
read_active-IsTending (err malformed) = search (only_rules)
read_active-IsTending (err (failed m)) = search (only_rules)

pub read_active_nodes-IsTending : IsTending read_active_nodes
unfolding read_active_nodes
read_active_nodes-IsTending = search (only_rules, read_active-IsTending)

pub check_ha_replicas_running-IsTending : (c : Settings) → IsTending (check_ha_replicas_running c)
unfolding check_ha_replicas_running
check_ha_replicas_running-IsTending c = search (only_rules, get_state-IsTending) depth 12

target_mode-IsTending :
    (mode : AofMode) (c : Settings) (master : String) → IsTending (target_mode mode c master)
unfolding target_mode
target_mode-IsTending mode_off c master = search (only_rules)
target_mode-IsTending mode_on c master = search (only_rules)
target_mode-IsTending mode_unspecified c master = search (only_rules)
target_mode-IsTending mode_on_replicas c master =
    search (only_rules, check_ha_replicas_running-IsTending) depth 10

remove_old_aof-IsTending : (c : Settings) (b : Bool) → IsTending (remove_old_aof c b)
unfolding remove_old_aof
remove_old_aof-IsTending c b = search (only_rules) depth 12

set_mode-IsTending : (c : Settings) (b : Bool) → IsTending (set_mode c b)
unfolding set_mode
set_mode-IsTending c b = search (only_rules, remove_old_aof-IsTending) depth 15

adjust_to-IsTending :
    (mode : AofMode) (c : Settings) (master : String) → IsTending (adjust_to mode c master)
unfolding adjust_to
adjust_to-IsTending mode_unspecified c master = search (only_rules)
adjust_to-IsTending mode_on c master =
    search (only_rules, target_mode-IsTending, set_mode-IsTending)
adjust_to-IsTending mode_off c master =
    search (only_rules, target_mode-IsTending, set_mode-IsTending)
adjust_to-IsTending mode_on_replicas c master =
    search (only_rules, target_mode-IsTending, set_mode-IsTending)

pub adjust_aof_mode-IsTending :
    (c : Settings) (master : String) → IsTending (adjust_aof_mode c master)
unfolding adjust_aof_mode
adjust_aof_mode-IsTending c master = adjust_to-IsTending c.aof_mode c master

local_has_slots-IsTending : (mode : AppMode) (h : String) → IsTending (local_has_slots mode h)
unfolding local_has_slots
local_has_slots-IsTending mode_sentinel h = search (only_rules)
local_has_slots-IsTending mode_cluster h = search (only_rules) depth 8

count_stale-IsTending :
    (c : Settings) (master : String) (state : ShardState) → IsTending (count_stale c master state)
unfolding count_stale
count_stale-IsTending c master [] = search (only_rules)
count_stale-IsTending c master ((h, s) ∷ rest) =
    Only-if is_tending (str_eq h master) (count_stale-IsTending c master rest) (
      Only->>= is_tending (search (only_rules, is_stale-IsTending)) (λ stale.
        Only->>= is_tending (count_stale-IsTending c master rest) (λ r. search (only_rules))))

close_if-IsTending : (c : Settings) (b : Bool) → IsTending (close_if c b)
unfolding close_if
close_if-IsTending c true = search (only_rules)
close_if-IsTending c false = search (only_rules)

close_with-IsTending :
    (c : Settings) (master : String) (state : ShardState) (o : Option HostState)
    → IsTending (close_with c master state o)
unfolding close_with
close_with-IsTending c master state none = search (only_rules)
close_with-IsTending c master state (some m) =
    search (only_rules, count_stale-IsTending, close_if-IsTending) depth 20

close_unless_switched-IsTending :
    (c : Settings) (master : String) (r : Result Switchover)
    → IsTending (close_unless_switched c master r)
unfolding close_unless_switched
close_unless_switched-IsTending c master (ok s) = search (only_rules)
close_unless_switched-IsTending c master (err not_found) =
    search (only_rules, get_shard_state_from_dcs-IsTending, close_with-IsTending) depth 10
close_unless_switched-IsTending c master (err exists) = search (only_rules)
close_unless_switched-IsTending c master (err malformed) = search (only_rules)
close_unless_switched-IsTending c master (err (failed m)) = search (only_rules)

clear_repl_fail_time-IsTending : IsTending clear_repl_fail_time
unfolding clear_repl_fail_time
clear_repl_fail_time-IsTending = search (only_rules) depth 10

pub clear_diverge_time-IsTending : IsTending clear_diverge_time
unfolding clear_diverge_time
clear_diverge_time-IsTending = search (only_rules) depth 10

close_if_stale-IsTending : (c : Settings) (master : String) → IsTending (close_if_stale c master)
unfolding close_if_stale
close_if_stale-IsTending c master =
    search
      (
        only_rules, is_stale-IsTending, close_unless_switched-IsTending,
        clear_repl_fail_time-IsTending,
      )
      depth 15

pub close_stale_replica-IsTending :
    (c : Settings) (master : String) → IsTending (close_stale_replica c master)
unfolding close_stale_replica
close_stale_replica-IsTending c master =
    search
      (
        only_rules, clear_diverge_time-IsTending, local_has_slots-IsTending,
        close_if_stale-IsTending,
      )
      depth 20

parsed-IsTending : (o : Option ℤ) → IsTending (parsed o)
unfolding parsed
parsed-IsTending none = search (only_rules)
parsed-IsTending (some n) = search (only_rules)

parse_field-IsTending : (c : Settings) (o : Option String) → IsTending (parse_field c o)
unfolding parse_field
parse_field-IsTending c none = search (only_rules)
parse_field-IsTending c (some text) = search (only_rules, parsed-IsTending)

pub reserved_connections_watchdog-IsTending :
    (c : Settings) (info : HostMap String) → IsTending (reserved_connections_watchdog c info)
unfolding reserved_connections_watchdog int_field
reserved_connections_watchdog-IsTending c info = search (only_rules, parse_field-IsTending) depth 25

if_repaired-IsTending : (r : Done) → IsTending (if_repaired r)
unfolding if_repaired
if_repaired-IsTending (ok x) = search (only_rules)
if_repaired-IsTending (err e) = search (only_rules)

note_failure-IsTending : IsTending note_failure
unfolding note_failure
note_failure-IsTending = search (only_rules) depth 12

repair_destructively-IsTending : (c : Settings) → IsTending (repair_destructively c)
unfolding repair_destructively
repair_destructively-IsTending c =
    search (only_rules, note_failure-IsTending, if_repaired-IsTending) depth 12

meet_if-IsTending : (b : Bool) (host master : String) → IsTending (meet_if b host master)
unfolding meet_if
meet_if-IsTending true host master = search (only_rules) depth 10
meet_if-IsTending false host master = search (only_rules)

make_replica-IsTending :
    (mode : AppMode) (host master : String) → IsTending (make_replica mode host master)
unfolding make_replica
make_replica-IsTending mode_sentinel host master = search (only_rules)
make_replica-IsTending mode_cluster host master = search (only_rules, meet_if-IsTending) depth 15

follow_and_resume-IsTending :
    (c : Settings) (host master : String) (ms : Option HostState) (s : HostState)
    → IsTending (follow_and_resume c host master ms s)
unfolding follow_and_resume
follow_and_resume-IsTending c host master ms s =
    search (only_rules, make_replica-IsTending) depth 10

pub repair_replica-IsTending :
    (c : Settings) (host master : String) (ms : Option HostState) (s : HostState)
    → IsTending (repair_replica c host master ms s)
unfolding repair_replica
repair_replica-IsTending c host master ms s =
    search (only_rules, repair_destructively-IsTending, follow_and_resume-IsTending) depth 10

promote_by_majority-IsTending : (master : String) → IsTending (promote_by_majority master)
unfolding promote_by_majority
promote_by_majority-IsTending master = search (only_rules) depth 12

promote_in_cluster-IsTending :
    (c : Settings) (master old : String) (state : ShardState) (start : Time)
    → IsTending (promote_in_cluster c master old state start)
unfolding promote_in_cluster
promote_in_cluster-IsTending c master old state start =
    search (only_rules, promote_by_majority-IsTending) depth 15

promote_with-IsTending :
    (mode : AppMode) (c : Settings) (master old : String) (state : ShardState) (start : Time)
    → IsTending (promote_with mode c master old state start)
unfolding promote_with
promote_with-IsTending mode_sentinel c master old state start = search (only_rules) depth 8
promote_with-IsTending mode_cluster c master old state start =
    search (only_rules, promote_in_cluster-IsTending)

pub promote-IsTending :
    (c : Settings) (master old : String) (state : ShardState) (start : Time)
    → IsTending (promote c master old state start)
unfolding promote
promote-IsTending c master old state start = search (only_rules, promote_with-IsTending) depth 12

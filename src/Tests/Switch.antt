-- ===== src/Tests/Switch.antt =====
-- A failover of the shard of three hosts: the run, and the theorems at concrete inputs.
use rdsync.Repair.Watchdog.{parse_field, int_field, reserved_connections_watchdog}
use rdsync.Replication.Close.{clear_diverge_time, local_has_slots, close_stale_replica}
use rdsync.Availability.{adjust_to, adjust_aof_mode}
use rdsync.Repair.Local.{tend_online, forget_fail_time, note_state, repair_local_node}
use rdsync.Tests.Servers.{failover, options, answer}
use rdsync.Master.Ends.{clock_rules, wait_for_catchup-Keeps}
use rdsync.Repair.{
  if_repaired, note_failure, repair_destructively, meet_if, make_replica, follow_and_resume,
  repair_replica,
}
use rdsync.Master.Current.{get_current_master}
use rdsync.Master.Recorded.{master_rules, IsMaster, get_current_master-Keeps}
use rdsync.Candidate.{apply_found, try_lock, candidate_turn, candidate}
use rdsync.Candidate.Turn.{candidate_rules, nothing_heard, GoesBy, candidate-Keeps}
use rdsync.Base.{false, none, [], ◌∷◌, ok, ◌≡◌, refl}
use rdsync.Pill.Apply.{pill_rules, apply_poison_pill-Keeps}
use rdsync.Types.{state_manager, PoisonPill}
use rdsync.Actions.Hoare.{Keeps}
use rdsync.Actions.Run.{returned, run}
use rdsync.Switchover.Perform.{perform_switchover}
use rdsync.Switchover.Known.{nothing_known, promotion_rules}
use rdsync.Switchover.Safety.{perform_switchover-Keeps}
use rdsync.Actions.{
  check, deref, or_fail, raise_if, found, get_host_states, get_shard_state_from_db, run_parallel,
  combine_errors,
}
use rdsync.Pill.{
  issue_poison_pill, clear_poison_pill, mark_applied, if_set, if_offline, apply_poison_pill,
  wait_ticks, wait_poison_pill,
}
use rdsync.Master.{
  link_turns, change_master, source_offset, has_caught_up, catchup_turns, wait_for_catchup,
  promote_by_majority, promote_in_cluster, promote_with, promote,
}
use rdsync.Switchover.{
  get_last_switchover, perform_failover, start_switchover, fail_switchover, update_with,
  update_switchover, finish_switchover, filter_out,
}
use rdsync.Switchover.Freeze.{
  store_progress, begin_progress, check_target, taking_part, make_read_only, check_old_read_only,
  settle_pill, wait_unless_auto, fence_dead_master, stop_replication, alive_nodes, stop_writes,
}
use rdsync.Switchover.Choose.{
  resume_on, desired, choose_desirable, choose_new_master, choose_master, catch_up,
}
use rdsync.Switchover.Promotion.{
  both, prepare_master, psync_nodes, others, turn_if_alive, if_others, psync_nodes_if_paused,
  turn_before, promote_turns, promotion,
}
use rdsync.Switchover.Perform.{
  open_master, if_raised, if_known, repair_master, notify_caches, turn_unless_master, turn_replicas,
  promotion_unless_done, switch_over, perform_switchover,
}
use rdsync.Lag.{
  get_offset, psync_from, is_partial_sync_possible, most_recent_from, find_most_recent_node,
  get_node_configuration, recent_nodes, better, choose_from, choose, get_most_desirable_node,
}
use rdsync.Failover.{
  get_num_replicas_to_write, get_failover_quorum, is_running_replica, count_running_ha_replicas,
  is_alive_replica, count_alive_ha_replicas_within_nodes, check_quorum, check_last, check_timeout,
  approve_failover, approve_switchover, failover_of,
}
use rdsync.Replication.{match_host, is_connected, matches, replicates, is_lagging, is_replica_stale}
use rdsync.Base.Text.{leb_text, insert_sorted, sort_strings}
use rdsync.Base.Hosts
use rdsync.Base.Int.{◌+ℤ◌, add64}
use rdsync.Base.{count_if}
use rdsync.Tests.Data.{healthy, headless, three}

-- The failover ends well, and one host has been promoted: the one with the greater offset.
failed_over :
    run answer (perform_switchover options headless three failover "a") []
    ≡ (returned (ok tt), "b" ∷ [])
unfolding if_repaired note_failure repair_destructively meet_if make_replica follow_and_resume
    repair_replica run Hosts.get ◌+ℤ◌ add64 count_if check deref or_fail raise_if found
    get_host_states get_shard_state_from_db run_parallel combine_errors issue_poison_pill
    clear_poison_pill mark_applied if_set if_offline apply_poison_pill wait_ticks wait_poison_pill
    link_turns change_master source_offset has_caught_up catchup_turns wait_for_catchup
    promote_by_majority promote_in_cluster promote_with promote get_last_switchover perform_failover
    start_switchover fail_switchover update_with update_switchover finish_switchover filter_out
    store_progress begin_progress check_target taking_part make_read_only check_old_read_only
    settle_pill wait_unless_auto fence_dead_master stop_replication alive_nodes stop_writes
    resume_on desired choose_desirable choose_new_master choose_master catch_up both prepare_master
    psync_nodes others turn_if_alive if_others psync_nodes_if_paused turn_before promote_turns
    promotion open_master if_raised if_known repair_master notify_caches turn_unless_master
    turn_replicas promotion_unless_done switch_over perform_switchover get_offset psync_from
    is_partial_sync_possible most_recent_from find_most_recent_node get_node_configuration
    recent_nodes better choose_from choose get_most_desirable_node get_num_replicas_to_write
    get_failover_quorum is_running_replica count_running_ha_replicas is_alive_replica
    count_alive_ha_replicas_within_nodes check_quorum check_last check_timeout approve_failover
    approve_switchover failover_of match_host is_connected matches replicates is_lagging
    is_replica_stale leb_text insert_sorted sort_strings
failed_over = refl

perform_switchover-Keeps_example :
    Keeps
      (promotion_rules options three "a")
      (perform_switchover options headless three failover "a")
      nothing_known
      (λ r t. Unit {0})
perform_switchover-Keeps_example = perform_switchover-Keeps options headless three failover "a"

-- A pill for the local host.
abbrev pill : PoisonPill
pill = record {
  initiated_at = 1;
  initiated_by = "c";
  target_host = "b";
  cause = "";
  applied = false;
}

apply_poison_pill-Keeps_example :
    Keeps (pill_rules options.hostname) (apply_poison_pill options pill) none (λ r t. Unit {0})
apply_poison_pill-Keeps_example = apply_poison_pill-Keeps options pill

candidate-Keeps_example :
    Keeps (candidate_rules options.hostname) (candidate options) nothing_heard GoesBy
candidate-Keeps_example = candidate-Keeps options

-- These servers have no maintenance on and give the lock.
elected : run answer (candidate options) [] ≡ (returned (ok state_manager), [])
unfolding run candidate candidate_turn apply_found try_lock check found get_shard_state_from_db
    repair_local_node note_state forget_fail_time tend_online adjust_aof_mode adjust_to
    close_stale_replica local_has_slots clear_diverge_time reserved_connections_watchdog int_field
    parse_field Hosts.get Hosts.delete get_host_states
elected = refl

get_current_master-Keeps_example :
    Keeps (master_rules healthy) (get_current_master options healthy) none (IsMaster healthy)
get_current_master-Keeps_example = get_current_master-Keeps options healthy

wait_for_catchup-Keeps_example :
    Keeps clock_rules (wait_for_catchup options "b" "c") 0 (λ r t. Unit {0})
wait_for_catchup-Keeps_example = wait_for_catchup-Keeps options "b" "c" 0

-- ===== src/Tests/Servers.antt =====
-- Servers and a DCS for the tests: a shard of three hosts, whose master may be dead.
use rdsync.Base.{
  String, str_eq, true, false, none, List, [], ◌∷◌, ok, err, not_found, if◌then◌else◌,
}
use rdsync.Base.Int.{pos}
use rdsync.Types.{
  NodeState, HostState, Switchover, mode_sentinel, mode_unspecified, zero_switchover, zero_state,
  cause_auto,
}
use rdsync.Actions.{Call, Reply, Settings}
use rdsync.Tests.Data.{no_ip, orphan_at, master_at, replica_at, three}

abbrev pub options : Settings
options = record {
  hostname = "b";
  mode = mode_sentinel;
  failover = record {
    failover_timeout = pos 30;
    failover_cooldown = pos 1000;
    allow_data_loss = false;
  };
  turn_before_switchover = false;
  destructive_replication_repair_timeout = pos 5;
  has_destructive_replication_repair_command = false;
  wait_poison_pill_timeout = pos 5;
  wait_replication_timeout = pos 5;
  wait_catchup_timeout = pos 5;
  wait_promote_timeout = pos 5;
  wait_promote_force_timeout = pos 5;
  dcs_reconnect_timeout = pos 60;
  switchover_timeout = pos 600;
  busy_timeout = pos 5;
  restart_timeout = pos 300;
  health_check_interval = pos 5;
  inactivation_delay = pos 30;
  tick_interval = pos 5;
  lag = record { stale_replica_lag_close = pos 90; stale_replica_lag_open = pos 10 };
  aof_mode = mode_unspecified;
  has_aof_path = false;
  max_parallel_syncs = pos 1;
  reserved_connections = pos 10;
  port = "6379";
  parse_int = λ s. none;
  node = λ h. none;
  parse_ip = no_ip;
}

abbrev pub failover : Switchover
failover = record zero_switchover { from = "a"; cause = cause_auto }

-- The hosts as they answer when those in the list have been promoted.
abbrev pub state_of : List String → String → HostState
state_of [] h =
    if str_eq h "a" then zero_state else if str_eq h "b" then orphan_at 70 else orphan_at 60
state_of (x ∷ xs) h =
    if str_eq h "a" then zero_state else if str_eq h "b" then master_at 70 else replica_at 60

-- The local node is online, and its INFO is empty.
abbrev local_state : NodeState
local_state = record {
  info = [];
  min_replicas_to_write = pos 0;
  is_read_only = false;
  is_offline = false;
  is_repl_paused = false;
  failure = none;
}

-- Servers and a DCS that do all that they are asked, and the hosts that were promoted.
abbrev pub answer : (c : Call) → List String → Reply c × List String
answer Call.now s = (0, s)
answer (Call.sleep d) s = (tt, s)
answer Call.hosts s = (three, s)
answer (Call.host_state h) s = (state_of s h, s)
answer Call.dcs_is_connected s = (true, s)
answer Call.update_hosts_info s = (ok tt, s)
answer Call.get_active_nodes s = (err not_found, s)
answer Call.get_poison_pill s = (err not_found, s)
answer Call.get_maintenance s = (err not_found, s)
answer Call.get_master_node s = (err not_found, s)
answer Call.get_last_switch s = (err not_found, s)
answer Call.get_last_rejected_switch s = (err not_found, s)
answer Call.get_priorities s = ((λ h. ok (pos 100)), s)
answer (Call.create_poison_pill p) s = (ok tt, s)
answer (Call.set_poison_pill p) s = (ok tt, s)
answer Call.delete_poison_pill s = (ok tt, s)
answer (Call.create_current_switch x) s = (ok tt, s)
answer (Call.set_current_switch x) s = (ok tt, s)
answer Call.delete_current_switch s = (ok tt, s)
answer (Call.set_last_switch x) s = (ok tt, s)
answer (Call.set_last_rejected_switch x) s = (ok tt, s)
answer (Call.set_master_node h) s = (ok tt, s)
answer (Call.set_active_nodes hs) s = (ok tt, s)
answer Call.delete_active_nodes s = (ok tt, s)
answer (Call.set_maintenance m) s = (ok tt, s)
answer Call.acquire_manager_lock s = (true, s)
answer Call.enter_critical s = (tt, s)
answer Call.exit_critical s = (tt, s)
answer (Call.is_offline h) s = (ok true, s)
answer (Call.set_offline h) s = (ok tt, s)
answer (Call.restart h) s = (ok tt, s)
answer (Call.set_read_only h d) s = ((ok tt, ok tt), s)
answer (Call.set_read_write h) s = ((ok tt, ok tt), s)
answer (Call.pause_replication h) s = (ok tt, s)
answer (Call.resume_replication h) s = (ok tt, s)
answer (Call.get_num_quorum_replicas h) s = (ok 0, s)
answer (Call.set_num_quorum_replicas h n) s = ((ok tt, ok tt), s)
answer (Call.sentinel_promote h) s = (ok tt, h ∷ s)
answer (Call.cluster_promote_force h) s = (ok tt, h ∷ s)
answer (Call.cluster_promote_takeover h) s = (ok tt, h ∷ s)
answer (Call.is_cluster_majority_alive h) s = (ok true, s)
answer (Call.has_cluster_slots h) s = (ok true, s)
answer Call.get_repl_fail_time s = (0, s)
answer (Call.set_repl_fail_time t) s = (tt, s)
answer Call.run_destructive_repair s = (ok tt, s)
answer (Call.sentinel_make_replica h m) s = (ok tt, s)
answer (Call.is_cluster_node_alone h) s = (ok false, s)
answer (Call.get_ip h) s = (err not_found, s)
answer (Call.cluster_meet h ip) s = (ok tt, s)
answer (Call.cluster_get_id h) s = (ok "1", s)
answer (Call.cluster_make_replica h id) s = (ok tt, s)
answer Call.dcs_wait_connected s = (true, s)
answer Call.dcs_initialize s = (tt, s)
answer Call.dcs_reconnect s = (ok tt, s)
answer (Call.get_health h) s = (err not_found, s)
answer Call.get_current_switch s = (err not_found, s)
answer Call.get_manager_lock s = (ok "c", s)
answer Call.release_manager_lock s = (tt, s)
answer Call.delete_maintenance s = (ok tt, s)
answer Call.maintenance_file_exists s = (false, s)
answer Call.create_maintenance_file s = (tt, s)
answer Call.remove_maintenance_file s = (tt, s)
answer Call.get_lost_since s = (0, s)
answer (Call.set_lost_since t) s = (tt, s)
answer Call.get_diverge_time s = (0, s)
answer (Call.set_diverge_time t) s = (tt, s)
answer Call.get_fail_times s = ([], s)
answer (Call.set_fail_times m) s = (tt, s)
answer Call.get_split_times s = ([], s)
answer (Call.set_split_times m) s = (tt, s)
answer (Call.get_state h) s = (local_state, s)
answer (Call.is_repl_paused h) s = (ok true, s)
answer (Call.set_online h) s = (ok tt, s)
answer (Call.script_kill h) s = (ok tt, s)
answer (Call.disconnect_clients h kind) s = (ok tt, s)
answer (Call.get_appendonly h) s = (ok true, s)
answer (Call.set_appendonly h b) s = (ok tt, s)
answer Call.aof_exists s = (false, s)
answer Call.remove_aof s = (ok tt, s)
answer (Call.get_ips h) s = ([], s)
answer (Call.get_quorum_replicas h) s = (ok "", s)
answer (Call.set_quorum_replicas h x) s = ((ok tt, ok tt), s)
answer (Call.update_cache h x) s = (ok tt, s)

-- ===== src/Actions/Calls.antt =====
-- What rdsync asks of the servers, of the DCS, of the clock and of its own memory, and the replies:
-- the methods of internal/valkey/node.go, the paths of internal/dcs, and the fields of App.
use rdsync.Base.{ℕ, String, Bool, List, Result, HostMap}
use rdsync.Base.Int.{ℤ}
use rdsync.Types.{
  Time, Duration, HostState, NodeState, Switchover, PoisonPill, Maintenance, ShardState,
}

-- One constructor for each command, and for each path of the DCS that is read or written.
pub data Call : Type 0 where
  now : Call
  sleep : Duration → Call
  hosts : Call
  host_state : String → Call
  dcs_is_connected : Call
  update_hosts_info : Call
  get_active_nodes : Call
  get_poison_pill : Call
  get_maintenance : Call
  get_master_node : Call
  get_last_switch : Call
  get_last_rejected_switch : Call
  get_priorities : Call
  create_poison_pill : PoisonPill → Call
  set_poison_pill : PoisonPill → Call
  delete_poison_pill : Call
  create_current_switch : Switchover → Call
  set_current_switch : Switchover → Call
  delete_current_switch : Call
  set_last_switch : Switchover → Call
  set_last_rejected_switch : Switchover → Call
  set_master_node : String → Call
  set_active_nodes : List String → Call
  delete_active_nodes : Call
  set_maintenance : Maintenance → Call
  acquire_manager_lock : Call
  enter_critical : Call
  exit_critical : Call
  is_offline : String → Call
  set_offline : String → Call
  restart : String → Call
  set_read_only : String → Bool → Call
  set_read_write : String → Call
  pause_replication : String → Call
  resume_replication : String → Call
  get_num_quorum_replicas : String → Call
  set_num_quorum_replicas : String → ℕ → Call
  sentinel_promote : String → Call
  cluster_promote_force : String → Call
  cluster_promote_takeover : String → Call
  is_cluster_majority_alive : String → Call
  has_cluster_slots : String → Call
  get_repl_fail_time : Call
  set_repl_fail_time : Time → Call
  run_destructive_repair : Call
  sentinel_make_replica : String → String → Call
  is_cluster_node_alone : String → Call
  get_ip : String → Call
  cluster_meet : String → String → Call
  cluster_get_id : String → Call
  cluster_make_replica : String → String → Call
  dcs_wait_connected : Call
  dcs_initialize : Call
  dcs_reconnect : Call
  get_health : String → Call
  get_current_switch : Call
  get_manager_lock : Call
  release_manager_lock : Call
  delete_maintenance : Call
  maintenance_file_exists : Call
  create_maintenance_file : Call
  remove_maintenance_file : Call
  get_lost_since : Call
  set_lost_since : Time → Call
  get_diverge_time : Call
  set_diverge_time : Time → Call
  get_fail_times : Call
  set_fail_times : HostMap Time → Call
  get_split_times : Call
  set_split_times : HostMap Time → Call
  get_state : String → Call
  is_repl_paused : String → Call
  set_online : String → Call
  script_kill : String → Call
  disconnect_clients : String → String → Call
  get_appendonly : String → Call
  set_appendonly : String → Bool → Call
  aof_exists : Call
  remove_aof : Call
  get_ips : String → Call
  get_quorum_replicas : String → Call
  set_quorum_replicas : String → String → Call
  update_cache : String → ShardState → Call

-- What a command that returns an error alone replies.
abbrev pub Done : Type 0
Done = Result (Unit {0})

-- A command that also rewrites the server's configuration returns two errors.
abbrev pub Reply : Call → Type 0
Reply now = Time
Reply (sleep d) = Unit {0}
Reply hosts = List String
Reply (host_state h) = HostState
Reply dcs_is_connected = Bool
Reply update_hosts_info = Done
Reply get_active_nodes = Result (List String)
Reply get_poison_pill = Result PoisonPill
Reply get_maintenance = Result Maintenance
Reply get_master_node = Result String
Reply get_last_switch = Result Switchover
Reply get_last_rejected_switch = Result Switchover
Reply get_priorities = String → Result ℤ
Reply (create_poison_pill p) = Done
Reply (set_poison_pill p) = Done
Reply delete_poison_pill = Done
Reply (create_current_switch s) = Done
Reply (set_current_switch s) = Done
Reply delete_current_switch = Done
Reply (set_last_switch s) = Done
Reply (set_last_rejected_switch s) = Done
Reply (set_master_node h) = Done
Reply (set_active_nodes hs) = Done
Reply delete_active_nodes = Done
Reply (set_maintenance m) = Done
Reply acquire_manager_lock = Bool
Reply enter_critical = Unit {0}
Reply exit_critical = Unit {0}
Reply (is_offline h) = Result Bool
Reply (set_offline h) = Done
Reply (restart h) = Done
Reply (set_read_only h d) = Done × Done
Reply (set_read_write h) = Done × Done
Reply (pause_replication h) = Done
Reply (resume_replication h) = Done
Reply (get_num_quorum_replicas h) = Result ℕ
Reply (set_num_quorum_replicas h n) = Done × Done
Reply (sentinel_promote h) = Done
Reply (cluster_promote_force h) = Done
Reply (cluster_promote_takeover h) = Done
Reply (is_cluster_majority_alive h) = Result Bool
Reply (has_cluster_slots h) = Result Bool
Reply get_repl_fail_time = Time
Reply (set_repl_fail_time t) = Unit {0}
Reply run_destructive_repair = Done
Reply (sentinel_make_replica h m) = Done
Reply (is_cluster_node_alone h) = Result Bool
Reply (get_ip h) = Result String
Reply (cluster_meet h ip) = Done
Reply (cluster_get_id h) = Result String
Reply (cluster_make_replica h id) = Done
Reply dcs_wait_connected = Bool
Reply dcs_initialize = Unit {0}
Reply dcs_reconnect = Done
Reply (get_health h) = Result HostState
Reply get_current_switch = Result Switchover
Reply get_manager_lock = Result String
Reply release_manager_lock = Unit {0}
Reply delete_maintenance = Done
Reply maintenance_file_exists = Bool
Reply create_maintenance_file = Unit {0}
Reply remove_maintenance_file = Unit {0}
Reply get_lost_since = Time
Reply (set_lost_since t) = Unit {0}
Reply get_diverge_time = Time
Reply (set_diverge_time t) = Unit {0}
Reply get_fail_times = HostMap Time
Reply (set_fail_times m) = Unit {0}
Reply get_split_times = HostMap Time
Reply (set_split_times m) = Unit {0}
Reply (get_state h) = NodeState
Reply (is_repl_paused h) = Result Bool
Reply (set_online h) = Done
Reply (script_kill h) = Done
Reply (disconnect_clients h kind) = Done
Reply (get_appendonly h) = Result Bool
Reply (set_appendonly h b) = Done
Reply aof_exists = Bool
Reply remove_aof = Done
Reply (get_ips h) = List String
Reply (get_quorum_replicas h) = Result String
Reply (set_quorum_replicas h s) = Done × Done
Reply (update_cache h s) = Done

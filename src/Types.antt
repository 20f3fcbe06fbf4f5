-- ===== src/Types.antt =====
-- internal/app/types.go: the states and modes of the process, what a health check records of a
-- host, and the records that the processes exchange through the DCS.
-- Times are numbers of nanoseconds, 0 for Go's zero time; durations are integers.
pub mod Names
use rdsync.Base.{ℕ, ◌==◌, String, Bool, false, true, Option, none, List, [], HostMap}
use rdsync.Base.Int.{ℤ, pos, sub_ℕ}

-- A `time.Time`.
abbrev pub Time : Type 0
Time = ℕ

abbrev pub zero_time : Time
zero_time = 0

-- t.IsZero()
abbrev pub is_zero : Time → Bool
is_zero t = t == 0

-- A `time.Duration`.
abbrev pub Duration : Type 0
Duration = ℤ

-- time.Since(t) where the clock shows `now`. (Go's saturation at 292 years is left out.)
abbrev pub since : Time → Time → Duration
since now t = sub_ℕ now t

pub data AppState : Type 0 where
  state_init state_manager state_candidate state_lost state_maintenance : AppState

pub AppState-discrete : Discrete AppState
AppState-discrete = hlevel

pub data AppMode : Type 0 where
  mode_sentinel mode_cluster : AppMode

pub data AofMode : Type 0 where
  mode_unspecified mode_on mode_off mode_on_replicas : AofMode

pub record ReplicaState : Type 0 where
  pub master_host : String
  pub master_link_down_time : ℤ
  pub replication_offset : ℤ
  pub master_last_io_seconds : ℤ
  pub master_link_state : Bool
  pub master_sync_in_progress : Bool

pub record SentiCacheInfo : Type 0 where
  pub name : String
  pub run_id : String

pub record HostState : Type 0 where
  pub check_at : Time
  pub replica_state : Option ReplicaState
  pub senticache_state : Option SentiCacheInfo
  pub replication_id : String
  pub ip : String
  pub run_id : String
  pub error : String
  pub replication_id2 : String
  pub check_by : String
  pub connected_replicas : List String
  pub replication_backlog_start : ℤ
  pub second_replication_offset : ℤ
  pub master_replication_offset : ℤ
  pub replication_backlog_size : ℤ
  pub min_replicas_to_write : ℤ
  pub is_repl_paused : Bool
  pub is_read_only : Bool
  pub is_offline : Bool
  pub is_master : Bool
  pub ping_stable : Bool
  pub ping_ok : Bool

-- The zero value of the struct.
abbrev pub zero_state : HostState
zero_state = record {
  check_at = zero_time;
  replica_state = none;
  senticache_state = none;
  replication_id = "";
  ip = "";
  run_id = "";
  error = "";
  replication_id2 = "";
  check_by = "";
  connected_replicas = [];
  replication_backlog_start = pos 0;
  second_replication_offset = pos 0;
  master_replication_offset = pos 0;
  replication_backlog_size = pos 0;
  min_replicas_to_write = pos 0;
  is_repl_paused = false;
  is_read_only = false;
  is_offline = false;
  is_master = false;
  ping_stable = false;
  ping_ok = false;
}

-- A shard's state: the hosts that were asked, each with what it answered.
abbrev pub ShardState : Type 0
ShardState = HostMap HostState

-- CauseManual, CauseWorker, CauseAuto.
abbrev pub cause_manual : String
cause_manual = "manual"

abbrev pub cause_worker : String
cause_worker = "worker"

abbrev pub cause_auto : String
cause_auto = "auto"

pub record SwitchoverResult : Type 0 where
  pub finished_at : Time
  pub error : String
  pub is_ok : Bool

pub record SwitchoverProgress : Type 0 where
  pub new_master : String
  pub most_recent : String
  pub version : ℕ
  pub phase : ℕ

pub record Switchover : Type 0 where
  pub initiated_at : Time
  pub started_at : Time
  pub result : Option SwitchoverResult
  pub progress : Option SwitchoverProgress
  pub from : String
  pub to : String
  pub cause : String
  pub initiated_by : String
  pub started_by : String
  pub run_count : ℕ

abbrev pub zero_switchover : Switchover
zero_switchover = record {
  initiated_at = zero_time;
  started_at = zero_time;
  result = none;
  progress = none;
  from = "";
  to = "";
  cause = "";
  initiated_by = "";
  started_by = "";
  run_count = 0;
}

pub record Maintenance : Type 0 where
  pub initiated_at : Time
  pub initiated_by : String
  pub rdsync_paused : Bool
  pub should_leave : Bool

pub record PoisonPill : Type 0 where
  pub initiated_at : Time
  pub initiated_by : String
  pub target_host : String
  pub cause : String
  pub applied : Bool

-- What `GetState` of internal/valkey/node.go returns: the fields of INFO, and what the configuration
-- says, with the error's message.
pub record NodeState : Type 0 where
  pub info : HostMap String
  pub min_replicas_to_write : ℤ
  pub is_read_only : Bool
  pub is_offline : Bool
  pub is_repl_paused : Bool
  pub failure : Option String

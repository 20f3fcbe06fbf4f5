-- ===== src/Tests/Data.antt =====
-- A shard of three hosts for the tests.
use rdsync.Base.{String, Option, none, some, List, [], ◌∷◌, true, false, ℕ}
use rdsync.Base.Int.{pos, negsuc}
use rdsync.Types.{HostState, ReplicaState, ShardState, zero_state}

abbrev pub no_ip : String → Option ℕ
no_ip s = none

abbrev pub following : String → ℕ → ReplicaState
following master offset = record {
  master_host = master;
  master_link_down_time = pos 0;
  replication_offset = pos offset;
  master_last_io_seconds = pos 1;
  master_link_state = true;
  master_sync_in_progress = false;
}

abbrev pub replica_at : ℕ → HostState
replica_at offset = record zero_state {
  replica_state = some (following "a" offset);
  replication_id = "r";
  ping_ok = true;
  ping_stable = true;
}

abbrev pub master_at : ℕ → HostState
master_at offset = record zero_state {
  replication_id = "r";
  connected_replicas = "b" ∷ "c" ∷ [];
  replication_backlog_start = pos 1;
  replication_backlog_size = pos offset;
  second_replication_offset = negsuc 0;
  master_replication_offset = pos offset;
  is_master = true;
  ping_ok = true;
  ping_stable = true;
}

abbrev pub healthy : ShardState
healthy = ("a", master_at 70) ∷ ("b", replica_at 70) ∷ ("c", replica_at 60) ∷ []

-- A replica that has lost its master.
abbrev pub orphan_at : ℕ → HostState
orphan_at offset = record (replica_at offset) {
  replica_state = some (record (following "a" offset) { master_link_state = false });
  replication_backlog_start = pos 1;
  replication_backlog_size = pos offset;
}

-- The master does not answer.
abbrev pub headless : ShardState
headless = ("a", zero_state) ∷ ("b", orphan_at 70) ∷ ("c", orphan_at 60) ∷ []

abbrev pub three : List String
three = "a" ∷ "b" ∷ "c" ∷ []

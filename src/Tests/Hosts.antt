-- ===== src/Tests/Hosts.antt =====
-- What a server answers, as `getHostState` reads it.
use rdsync.State.Complete.{IsRead, get_host_state-IsRead}
use rdsync.State.{
  read_all, read_replication, or_stop, number, read_role, read_replica, read_times, replica_number,
  read_config, check_lookup, read_ip, between, Answers, get_host_state, first_state, address_of,
}
use rdsync.Base.{String, true, false, none, some, [], ◌∷◌, ok, HostMap, ◌≡◌, refl}
use rdsync.Base.Int.{pos, negsuc}
use rdsync.Base.Hosts
use rdsync.Base.Text.Numbers
use rdsync.Base.Int
use rdsync.Types.{HostState, mode_cluster, zero_state}

abbrev info : HostMap String
info =
    ("run_id", "r1")
    ∷ ("master_replid", "x")
    ∷ ("master_replid2", "y")
    ∷ ("master_repl_offset", "70")
    ∷ ("second_repl_offset", "-1")
    ∷ ("repl_backlog_first_byte_offset", "1")
    ∷ ("repl_backlog_histlen", "70")
    ∷ ("role", "slave")
    ∷ ("master_host", "a")
    ∷ ("master_link_status", "down")
    ∷ ("master_sync_in_progress", "0")
    ∷ ("master_link_down_since_seconds", "3")
    ∷ ("slave_repl_offset", "60")
    ∷ []

abbrev pub answers : Answers
answers = record {
  state = record {
    info = info;
    min_replicas_to_write = pos 1;
    is_read_only = true;
    is_offline = false;
    is_repl_paused = false;
    failure = none;
  };
  ping_ok = true;
  ping_stable = true;
  refreshed = ok tt;
  address = ok "10.0.0.2";
}

abbrev pub replica : HostState
replica = record zero_state {
  check_at = 5;
  check_by = "b";
  ping_ok = true;
  ping_stable = true;
  run_id = "r1";
  replication_id = "x";
  replication_id2 = "y";
  master_replication_offset = pos 70;
  second_replication_offset = negsuc 0;
  replication_backlog_start = pos 1;
  replication_backlog_size = pos 70;
  replica_state = some (record {
    master_host = "a";
    master_link_down_time = pos 3000;
    replication_offset = pos 60;
    master_last_io_seconds = pos 0;
    master_link_state = false;
    master_sync_in_progress = false;
  });
  min_replicas_to_write = pos 1;
  is_read_only = true;
  ip = "10.0.0.2";
}

abbrev pub first : HostState
first = first_state mode_cluster "b" (record { name = ""; run_id = "" }) "b" 5

pub is_replica : get_host_state first answers ≡ some replica
unfolding get_host_state first_state read_all read_replication or_stop Hosts.get number
    Numbers.parse_int read_role read_replica read_times replica_number read_config check_lookup
    read_ip Int.mul64
is_replica = refl

-- A replica's line gives its address; one without a comma is a panic.
addresses :
    (address_of "ip=10.0.0.3,port=6379" ≡ some "10.0.0.3") × (address_of "ip=10.0.0.3" ≡ none)
unfolding address_of between
addresses = (refl, refl)

get_host_state-IsRead_example : IsRead answers replica
get_host_state-IsRead_example = get_host_state-IsRead first answers replica refl is_replica refl

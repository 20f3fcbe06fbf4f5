-- ===== src/Kinds.antt =====
-- The kinds of calls that the parts of a turn make, for what no such part does.
pub mod Tending
pub mod Local
pub mod Shard
pub mod Slots
pub mod Steady
pub mod Switching
use rdsync.Base.{Bool, true, false}
use rdsync.Actions.{Call}

-- What the repairs and the update of the active nodes may call: nothing that decides on the roles of
-- the process, on maintenance, or on switchovers.
abbrev pub is_tending : Call → Bool
is_tending Call.dcs_is_connected = false
is_tending Call.dcs_wait_connected = false
is_tending Call.dcs_initialize = false
is_tending Call.dcs_reconnect = false
is_tending Call.acquire_manager_lock = false
is_tending Call.release_manager_lock = false
is_tending Call.get_manager_lock = false
is_tending Call.get_maintenance = false
is_tending (Call.set_maintenance m) = false
is_tending Call.delete_maintenance = false
is_tending Call.maintenance_file_exists = false
is_tending Call.create_maintenance_file = false
is_tending Call.remove_maintenance_file = false
is_tending Call.get_poison_pill = false
is_tending (Call.create_poison_pill p) = false
is_tending (Call.set_poison_pill p) = false
is_tending Call.delete_poison_pill = false
is_tending (Call.create_current_switch s) = false
is_tending (Call.set_current_switch s) = false
is_tending Call.delete_current_switch = false
is_tending (Call.set_last_switch s) = false
is_tending (Call.set_last_rejected_switch s) = false
is_tending Call.get_last_switch = false
is_tending Call.get_last_rejected_switch = false
is_tending (Call.set_master_node h) = false
is_tending Call.delete_active_nodes = false
is_tending Call.get_lost_since = false
is_tending (Call.set_lost_since t) = false
is_tending (Call.set_split_times m) = false
is_tending (Call.script_kill h) = false
is_tending (Call.get_state h) = false
is_tending (Call.set_online h) = false
is_tending c = true

-- The repair of the local node may also open it.
abbrev pub is_opening : Call → Bool
is_opening (Call.set_online h) = true
is_opening c = is_tending c

-- It may also kill a script there.
abbrev pub is_killing : Call → Bool
is_killing (Call.script_kill h) = true
is_killing c = is_tending c

-- All that the repair of the local node may call.
abbrev pub is_local : Call → Bool
is_local (Call.script_kill h) = true
is_local (Call.get_state h) = true
is_local c = is_opening c

-- What a turn may call beside its decisions on the process's own role.
abbrev pub is_steady : Call → Bool
is_steady Call.dcs_is_connected = false
is_steady Call.dcs_wait_connected = false
is_steady Call.dcs_initialize = false
is_steady Call.dcs_reconnect = false
is_steady Call.acquire_manager_lock = false
is_steady Call.release_manager_lock = false
is_steady Call.get_maintenance = false
is_steady (Call.set_maintenance m) = false
is_steady Call.delete_maintenance = false
is_steady Call.maintenance_file_exists = false
is_steady Call.create_maintenance_file = false
is_steady Call.remove_maintenance_file = false
is_steady (Call.create_current_switch s) = false
is_steady Call.delete_active_nodes = false
is_steady Call.get_lost_since = false
is_steady (Call.set_lost_since t) = false
is_steady c = true

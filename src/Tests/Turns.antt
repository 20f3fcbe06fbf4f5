-- ===== src/Tests/Turns.antt =====
-- Turns of the process's states: the theorems at concrete inputs.
use rdsync.Lost.Safety.{lost-Keeps}
use rdsync.Manager.Safety.{manager-Keeps}
use rdsync.Base.Int.{pos_part}
use rdsync.Repair.Local.Opening.{repair_local_node-Keeps}
use rdsync.Repair.Shard.{repair_shard}
use rdsync.Lost.{lost}
use rdsync.Repair.Local.{repair_local_node}
use rdsync.Manager.{manager}
use rdsync.Maintenance.{maintenance, enter_maintenance}
use rdsync.Repair.Shard.Bounds.{repair_shard-AtMost, syncing_replicas, count_rules}
use rdsync.Maintenance.Order.{enter_maintenance-Keeps, HasEntered, not_entered, enter_rules}
use rdsync.Maintenance.Leave.{maintenance-Keeps, Leaves, nothing_told, leave_rules}
use rdsync.Types.{Maintenance}
use rdsync.Manager.Lock.{EndsBy, nothing_held, manager_rules}
use rdsync.Lost.Fence.{Stays, nothing_seen, lost_rules}
use rdsync.Repair.Local.Opens.{nothing_opened, open_rules}
use rdsync.Repair.Local.Busy.{repair_local_node-Spares, Spares, kill_rules}
use rdsync.Base.Hosts
use rdsync.Base.{◌-◌, ◌≤◌, false}
use rdsync.Actions.Hoare.{Keeps}
use rdsync.Tests.Data.{healthy, three}
use rdsync.Tests.Servers.{options}

manager-Keeps_example : Keeps (manager_rules options) (manager options) nothing_held EndsBy
manager-Keeps_example = manager-Keeps options

lost-Keeps_example : Keeps (lost_rules options) (lost options) nothing_seen (Stays options)
lost-Keeps_example = lost-Keeps options

repair_local_node-Keeps_example :
    Keeps (open_rules options "b") (repair_local_node options "b") nothing_opened (λ r t. Unit {0})
repair_local_node-Keeps_example = repair_local_node-Keeps options "b"

repair_local_node-Spares_example : Keeps kill_rules (repair_local_node options "b") false Spares
repair_local_node-Spares_example = repair_local_node-Spares options "b"

maintenance-Keeps_example : Keeps leave_rules (maintenance options) nothing_told Leaves
maintenance-Keeps_example = maintenance-Keeps options

-- A shard that is to stop for maintenance.
abbrev pause : Maintenance
pause = record { initiated_at = 1; initiated_by = "c"; rdsync_paused = false; should_leave = false }

enter_maintenance-Keeps_example :
    Keeps (enter_rules "a") (enter_maintenance pause "a") not_entered (HasEntered "a")
enter_maintenance-Keeps_example = enter_maintenance-Keeps pause "a"

repair_shard-AtMost_example :
    Keeps count_rules (repair_shard options healthy three "a") 0 (λ r told_hosts.
      told_hosts
      ≤ pos_part options.max_parallel_syncs
        - syncing_replicas options (Hosts.get healthy "a") "a" healthy)
repair_shard-AtMost_example = repair_shard-AtMost options healthy three "a"

-- ===== src/Failover.antt =====
-- internal/app/failover.go, `getNumReplicasToWrite` of master.go, and the counts and the approval
-- of switchover.go: how many replicas a failover needs, and whether it is approved.
-- What the DCS answers, and what the clock shows, are arguments.
pub mod Quorum
pub mod Approve
use rdsync.Base.{
  ℕ, suc, ◌+◌, ◌-◌, ◌/◌, ltb, ◌==◌, String, str_eq, Bool, true, false, not, ◌&&◌, ◌||◌, Option,
  none, some, List, [], ◌∷◌, length, count_if, Result, ok, err, Error, not_found, exists, malformed,
  failed, if◌then◌else◌, ◌>>=◌, ◌>>◌,
}
use rdsync.Base.Int.{pos, ltb_ℤ}
use rdsync.Base.Hosts
use rdsync.Types.{
  Time, Duration, since, HostState, ReplicaState, ShardState, Switchover, SwitchoverResult,
  cause_auto,
}

-- The options of the configuration that decide on failovers.
pub record Config : Type 0 where
  pub failover_timeout : Duration
  pub failover_cooldown : Duration
  pub allow_data_loss : Bool

unfoldable pub get_num_replicas_to_write : List String → ℕ
get_num_replicas_to_write active = length active / 2

unfoldable pub get_failover_quorum : Config → List String → ℕ
unfolding get_num_replicas_to_write
get_failover_quorum c active =
    let fq = length active - get_num_replicas_to_write active in
    if ltb fq 1 || c.allow_data_loss then 1 else fq

-- The test of `countRunningHAReplicas` on one host.
unfoldable pub is_running_replica : HostState → Bool
is_running_replica s =
    s.ping_ok
    && (not s.is_offline && elim s.replica_state [
      | none ↦ false
      | some rs ↦ rs.master_link_state || rs.master_sync_in_progress
    ])

unfoldable pub count_running_ha_replicas : ShardState → ℕ
unfolding is_running_replica
count_running_ha_replicas [] = 0
count_running_ha_replicas ((h, s) ∷ rest) =
    let cnt = count_running_ha_replicas rest in if is_running_replica s then suc cnt else cnt

-- The test of `countAliveHAReplicasWithinNodes` on one node.
unfoldable pub is_alive_replica : ShardState → String → Bool
is_alive_replica state host = elim (Hosts.get state host) [
  | none ↦ false
  | some s ↦ s.ping_ok && (s.ping_stable && elim s.replica_state [ none ↦ false | some _ ↦ true ])
]

unfoldable pub count_alive_ha_replicas_within_nodes : List String → ShardState → ℕ
count_alive_ha_replicas_within_nodes nodes state = count_if (is_alive_replica state) nodes

-- if test { return err }
abbrev pub refuse_if : Bool → String → Result (Unit {0})
refuse_if true message = err (failed message)
refuse_if false message = ok tt

unfoldable pub check_quorum : Config → ShardState → List String → Result (Unit {0})
unfolding count_alive_ha_replicas_within_nodes
check_quorum c state active =
    refuse_if
      (ltb (count_alive_ha_replicas_within_nodes active state) (get_failover_quorum c active))
      "no quorum"

-- The last switchover must be over, and an automatic one be past the cooldown.
unfoldable pub check_last : Config → Time → Result Switchover → Result (Unit {0})
check_last c now (err not_found) = ok tt
check_last c now (err exists) = err exists
check_last c now (err malformed) = err malformed
check_last c now (err (failed m)) = err (failed m)
check_last c now (ok last) = elim last.result [
  | none ↦ err (failed "another switchover is in progress")
  | some r ↦
      refuse_if
        (ltb_ℤ (since now r.finished_at) c.failover_cooldown && str_eq last.cause cause_auto)
        "not enough time from last failover"
]

-- The master must have failed for long enough, where a timeout is set.
unfoldable pub check_timeout : Config → Time → Time → Result (Unit {0})
check_timeout c now fail_time =
    refuse_if (ltb_ℤ (pos 0) c.failover_timeout && ltb_ℤ (since now fail_time) c.failover_timeout)
      "failover timeout is not yet elapsed"

-- `fail_time` is `app.nodeFailTime[master]`, `now` and `later` what the clock shows at its two
-- readings, and `last` what the DCS answers for the last switchover.
unfoldable pub approve_failover :
    Config → ShardState → List String → Time → Time → Time → Result Switchover → Result (Unit {0})
approve_failover c state active fail_time now later last = do
  check_timeout c now fail_time
  refuse_if (count_running_ha_replicas state + 1 == length state) "all replicas are alive"
  check_quorum c state active
  check_last c later last

unfoldable pub approve_switchover :
    Config → Switchover → List String → ShardState → Result (Unit {0})
approve_switchover c switchover active state =
    if ltb 0 switchover.run_count then ok tt else check_quorum c state active

-- `performFailover`: the switchover that it asks for.
unfoldable pub failover_of : String → Time → String → Switchover
failover_of hostname now master = record {
  initiated_at = now;
  started_at = 0;
  result = none;
  progress = none;
  from = master;
  to = "";
  cause = cause_auto;
  initiated_by = hostname;
  started_by = "";
  run_count = 0;
}

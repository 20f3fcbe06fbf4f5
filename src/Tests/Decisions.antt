-- ===== src/Tests/Decisions.antt =====
-- Which host to choose and when to fail over: tests, and the theorems at concrete inputs.
use rdsync.Base.{
  ◌≤◌, String, contains, ◌≡◌, ◌≢◌, ◌↔◌, ◌⊎◌, refl, Bool, none, some, count_if, true, false, Result,
  ok, err, not_found, arith, str_eq,
}
use text.Mathlib.Text.{starts_with}
use rdsync.Base.Int.{ℤ, pos, ◌<ℤ◌, ◌+ℤ◌, add64}
use rdsync.Base.Hosts
use rdsync.Types.{HostState, zero_switchover}
use rdsync.Lag.{
  get_offset, psync_from, is_partial_sync_possible, most_recent_from, find_most_recent_node,
  get_node_configuration, recent_nodes, candidates, better, choose_from, choose,
  get_most_desirable_node,
}
use rdsync.Lag.Psync.{CanResume, is_partial_sync_possible_iff}
use rdsync.Lag.Recent.{HasOffset, AllAtMost, find_most_recent_node_max}
use rdsync.Lag.Desirable.{
  NoBetter, HasHost, offset_of, get_most_desirable_node_best, candidates_are,
}
use rdsync.Failover.{
  Config, get_num_replicas_to_write, is_alive_replica, count_running_ha_replicas,
  get_failover_quorum, count_alive_ha_replicas_within_nodes, check_quorum, check_timeout,
  check_last, approve_failover, approve_switchover,
}
use rdsync.Failover.Quorum.{HasAcked, approve_failover_keeps_write, approve_switchover_keeps_write}
use rdsync.Failover.Approve.{MayFailOver, approve_failover_iff}
use rdsync.Replication.{LagConfig, is_replica_stale}
use rdsync.Replication.Stale.{open_not_closed, diverged_kept}
use rdsync.Tests.Data.{following, following, replica_at, master_at, headless, three}

abbrev no_answer : String → Result ℤ
no_answer host = err not_found

abbrev config : Config
config = record { failover_timeout = pos 30; failover_cooldown = pos 1800; allow_data_loss = false }

is_partial_sync_possible_iff_example :
    (is_partial_sync_possible (some (replica_at 60)) (some (master_at 70)) ≡ true)
    ↔ CanResume (replica_at 60) (master_at 70) (following "a" 60)
unfolding ◌+ℤ◌
is_partial_sync_possible_iff_example =
    is_partial_sync_possible_iff (replica_at 60) (master_at 70) (following "a" 60) refl
      (omega arith) (omega arith)

find_most_recent_node_max_example :
    let host = find_most_recent_node headless in
    ((host ≡ "") × AllAtMost (pos 0) headless)
    ⊎ ((top : ℤ) × (pos 0 <ℤ top) × HasOffset host top headless × AllAtMost top headless)
find_most_recent_node_max_example = find_most_recent_node_max headless

most_recent_is_b : find_most_recent_node headless ≡ "b"
unfolding find_most_recent_node most_recent_from get_offset
most_recent_is_b = refl

desirable_is_b : get_most_desirable_node no_answer headless "a" ≡ ok "b"
unfolding get_most_desirable_node find_most_recent_node most_recent_from get_offset recent_nodes
    choose choose_from better get_node_configuration is_partial_sync_possible psync_from Hosts.get
    add64
desirable_is_b = refl

b_is_candidate : contains (candidates headless "a") "b" ≡ true
unfolding find_most_recent_node most_recent_from get_offset recent_nodes is_partial_sync_possible
    psync_from Hosts.get add64
b_is_candidate = refl

get_most_desirable_node_best_example :
    ((◌≡◌ {A = String} "b" "")
      × NoBetter no_answer headless (candidates headless "a") (pos 0) (pos 0))
    ⊎ ((p : ℤ) × (contains (candidates headless "a") "b" ≡ true)
        × (get_node_configuration (no_answer "b") ≡ ok p)
        × NoBetter no_answer headless (candidates headless "a") p (offset_of headless "b"))
get_most_desirable_node_best_example =
    get_most_desirable_node_best no_answer headless "a" "b" desirable_is_b

candidates_are_example :
    let recent = find_most_recent_node headless in
    (s : HostState) × HasHost "b" s headless
    × (starts_with "b" "a" ≡ false)
    × ((◌≡◌ {A = String} "b" recent)
        ⊎ (is_partial_sync_possible (some s) (Hosts.get headless recent) ≡ true))
candidates_are_example = candidates_are headless "a" "b" b_is_candidate

-- One active node, the number that the master waits for, has acknowledged a write.
abbrev by_c : String → Bool
by_c host = str_eq host "c"

approved : approve_failover config headless three 100 200 201 (err not_found) ≡ ok tt
unfolding approve_failover check_timeout check_last check_quorum count_running_ha_replicas
    count_alive_ha_replicas_within_nodes is_alive_replica get_failover_quorum Hosts.get count_if
approved = refl

enough_acked : get_num_replicas_to_write three ≤ count_if by_c three
unfolding get_num_replicas_to_write count_if
enough_acked = omega arith

a_not_alive : is_alive_replica headless "a" ≡ false
unfolding is_alive_replica Hosts.get
a_not_alive = refl

approve_failover_keeps_write_example : HasAcked by_c headless three
approve_failover_keeps_write_example =
    approve_failover_keeps_write config headless three "a" by_c 100 200 201 (err not_found) refl
      refl a_not_alive refl enough_acked approved

approved_switchover : approve_switchover config zero_switchover three headless ≡ ok tt
unfolding approve_switchover check_quorum get_failover_quorum get_num_replicas_to_write
    count_alive_ha_replicas_within_nodes count_if is_alive_replica Hosts.get
approved_switchover = refl

approve_switchover_keeps_write_example : HasAcked by_c headless three
approve_switchover_keeps_write_example =
    approve_switchover_keeps_write config zero_switchover headless three "a" by_c refl refl
      a_not_alive refl enough_acked refl approved_switchover

approve_failover_iff_example :
    (approve_failover config headless three 100 200 201 (err not_found) ≡ ok tt)
    ↔ MayFailOver config headless three 100 200 201 (err not_found)
approve_failover_iff_example =
    approve_failover_iff config headless three 100 200 201 (err not_found)

abbrev lags : LagConfig
lags = record { stale_replica_lag_close = pos 90; stale_replica_lag_open = pos 10 }

fresh : (is_replica_stale lags 5 6 0 none true).0 ≡ false
unfolding is_replica_stale
fresh = refl

open_not_closed_example : (is_replica_stale lags 5 6 0 none false).0 ≡ false
open_not_closed_example = open_not_closed lags 5 6 0 none (omega arith) fresh

diverged_kept_example :
    ((is_replica_stale lags 5 6 0 (some (following "a" 70)) true).1 ≡ 0)
    × (let (_, t) = is_replica_stale lags 5 6 0 none true in
        (t ≢ 0) × ((is_replica_stale lags 7 8 t none false).1 ≡ t))
diverged_kept_example = diverged_kept lags 5 6 7 8 0 true false (following "a" 70) (ground arith)

-- ===== src/Master.antt =====
-- internal/app/master.go: pointing a replica at a master, waiting until it catches up, and promoting
-- it.
pub mod Current
pub mod Ends
pub mod Recorded
use rdsync.Repair.{repair_replica}
use rdsync.Base.{
  ℕ, suc, zero, String, str_eq, Bool, true, false, not, Option, none, some, Result, ok, err,
  if◌then◌else◌,
}
use rdsync.Base.Int.{ℤ, leb_ℤ}
use rdsync.Base.Hosts
use rdsync.Types.{Time, HostState, ShardState, AppMode, mode_sentinel, mode_cluster}
use rdsync.Replication.{replicates}
use rdsync.Actions.{
  now, sleep, host_state, sentinel_promote, cluster_promote_force, cluster_promote_takeover,
  is_cluster_majority_alive, Act, ret, hang, ◌>>=◌, ◌>>◌, call, check, deref, raise_if, Settings,
  is_before, turns, a_second,
}

-- The host has a replica state, and replicates from the master over a link that works.
abbrev pub is_linked : Settings → String → String → HostState → HostState → Bool
is_linked c host master ms s =
    replicates c.parse_ip (some ms) s.replica_state host (c.node master) false

-- The loop of `changeMaster`: the last states of the master and of the host.
unfoldable pub link_turns :
    Settings → String → String → ℕ → Time → HostState → HostState → Act (HostState × HostState)
link_turns c host master zero start ms s = hang
link_turns c host master (suc n) start ms s = do
  t ← call now
  if not (is_before t start c.wait_replication_timeout) then ret (ms, s) else do
    s' ← call (host_state host)
    if is_linked c host master ms s' then ret (ms, s') else do
      raise_if (not s'.ping_ok) "changeMaster: replica died while waiting to start replication"
      ms' ← call (host_state master)
      raise_if (not ms'.ping_ok) "changeMaster: master died while waiting to start replication"
      repair_replica c host master (some ms') s'
      call (sleep a_second)
      link_turns c host master n start ms' s'

unfoldable pub change_master : Settings → String → String → Act (Unit {0})
change_master c host master = do
  raise_if (str_eq host master) "changing replication source to itself"
  ms ← call (host_state master)
  s ← call (host_state host)
  raise_if (not s.ping_ok) "changeMaster: replica is dead - unable to init repair"
  repair_replica c host master (some ms) s
  start ← call now
  (ms', s') ← link_turns c host master (turns c.wait_replication_timeout) start ms s
  raise_if (not (is_linked c host master ms' s')) "was unable to start replication"

-- The offset that a replica has to reach, if the host that it follows has one.
unfoldable pub source_offset : HostState → Option ℤ
source_offset s =
    if s.is_master
    then some s.master_replication_offset
    else elim s.replica_state [ none ↦ none | some rs ↦ some rs.replication_offset ]

-- The test of the loop of `waitForCatchup`, false where a state is invalid.
unfoldable pub has_caught_up : HostState → HostState → Bool
has_caught_up ms s = elim s.replica_state [
  | none ↦ false
  | some rs ↦ elim (source_offset ms) [
    | none ↦ false
    | some offset ↦ leb_ℤ offset rs.replication_offset
  ]
]

unfoldable pub catchup_turns : Settings → String → String → ℕ → Time → Act (Unit {0})
catchup_turns c host master zero start = hang
catchup_turns c host master (suc n) start = do
  t ← call now
  raise_if (not (is_before t start c.wait_catchup_timeout)) "timeout waiting to catchup"
  ms ← call (host_state master)
  raise_if (not ms.ping_ok) "waitForCatchup: master died while waiting for catchup"
  s ← call (host_state host)
  raise_if (not s.ping_ok) "waitForCatchup: replica died while waiting for catchup"
  if has_caught_up ms s
      then ret tt
      else do call (sleep a_second); catchup_turns c host master n start

unfoldable pub wait_for_catchup : Settings → String → String → Act (Unit {0})
wait_for_catchup c host master = do
  raise_if (str_eq host master) "waiting to catchup with itself"
  start ← call now
  catchup_turns c host master (turns c.wait_catchup_timeout) start

abbrev or_alive : Result Bool → Bool
or_alive (ok b) = b
or_alive (err e) = true

-- Promotion in cluster mode once the old master does not stand against it.
unfoldable pub promote_by_majority : String → Act (Unit {0})
promote_by_majority master = do
  r ← call (is_cluster_majority_alive master)
  r' ←
      if or_alive r
      then call (cluster_promote_force master)
      else call (cluster_promote_takeover master)
  check r'

unfoldable pub promote_in_cluster : Settings → String → String → ShardState → Time → Act (Unit {0})
promote_in_cluster c master old state start = do
  o ← deref (Hosts.get state old)
  if not o.ping_ok then promote_by_majority master else do
    t ← call now
    if is_before t start c.wait_promote_force_timeout
        then call (cluster_promote_force master) >>= check
        else promote_by_majority master

unfoldable pub promote_with :
    AppMode → Settings → String → String → ShardState → Time → Act (Unit {0})
promote_with mode_sentinel c master old state start = call (sentinel_promote master) >>= check
promote_with mode_cluster c master old state start = promote_in_cluster c master old state start

-- `start` is when the deadline for the use of force began.
unfoldable pub promote : Settings → String → String → ShardState → Time → Act (Unit {0})
promote c master old state start = do
  s ← deref (Hosts.get state master)
  if s.is_master then ret tt else promote_with c.mode c master old state start

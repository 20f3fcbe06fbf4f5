-- ===== src/Availability.antt =====
-- internal/app/checks.go and aof.go: whether enough replicas follow the local node, and the mode of
-- its append-only file; `isReplicaStale` of replication.go, `getShardStateFromDcs` of state.go and
-- `GetActiveNodes` of active_nodes.go as programs.
use rdsync.Base.{
  ℕ, suc, leb, ◌==◌, ◌/◌, String, str_eq, Bool, true, false, not, ◌&&◌, Option, none, some, List,
  [], ◌∷◌, length, not_found, exists, malformed, failed, Result, ok, err, if◌then◌else◌,
}
use rdsync.Base.Hosts
use rdsync.Types.{
  HostState, ReplicaState, ShardState, zero_state, AofMode, mode_unspecified, mode_on, mode_off,
  mode_on_replicas,
}
use rdsync.Replication.{replicates, is_replica_stale}
use rdsync.Actions.{
  Act, ret, raise, ◌>>=◌, ◌>>◌, call, check, get_shard_state_from_db, Settings, hosts, now,
  get_diverge_time, set_diverge_time, get_appendonly, set_appendonly, aof_exists, remove_aof,
  get_health, get_active_nodes,
}

-- `isReplicaStale`, with the time of divergence in the process's memory.
unfoldable pub is_stale : Settings → Option ReplicaState → Bool → Act Bool
is_stale c rs check_open_lag = do
  diverged ← call get_diverge_time
  t ← call now
  t' ← call now
  let (stale, diverged') = is_replica_stale c.lag t t' diverged rs check_open_lag
  call (set_diverge_time diverged')
  ret stale

-- A host that has no health record has the zero state.
unfoldable pub health_of : Result HostState → Act HostState
health_of (ok s) = ret s
health_of (err not_found) = ret zero_state
health_of (err exists) = raise exists
health_of (err malformed) = raise malformed
health_of (err (failed m)) = raise (failed m)

unfoldable pub get_healths : List String → Act ShardState
get_healths [] = ret []
get_healths (h ∷ hs) = do
  r ← call (get_health h)
  s ← health_of r
  rest ← get_healths hs
  ret ((h, s) ∷ rest)

-- An error of one host is the error of the whole.
unfoldable pub get_shard_state_from_dcs : Act ShardState
get_shard_state_from_dcs = do hs ← call hosts; get_healths hs

unfoldable pub read_active : Result (List String) → Act (List String)
read_active (ok hs) = ret hs
read_active (err not_found) = ret []
read_active (err exists) = raise (failed "get active nodes from dcs")
read_active (err malformed) = raise (failed "get active nodes from dcs")
read_active (err (failed m)) = raise (failed "get active nodes from dcs")

-- `GetActiveNodes`.
unfoldable pub read_active_nodes : Act (List String)
read_active_nodes = call get_active_nodes >>= read_active

-- The hosts that replicate from the local node.
unfoldable pub available_replicas : Settings → HostState → ShardState → ℕ
available_replicas c local [] = 0
available_replicas c local ((h, s) ∷ rest) =
    let others = available_replicas c local rest in
    if s.ping_ok
      && not s.is_master
      && replicates c.parse_ip (some local) s.replica_state h (c.node c.hostname) false
    then suc others
    else others

-- The test of `checkHAReplicasRunning`, by the number of hosts and the shard's state.
unfoldable pub replicas_run : Settings → ℕ → ShardState → Option HostState → Bool
replicas_run c n state none = false
replicas_run c n state (some local) = leb (n / 2) (available_replicas c local state)

-- `checkHAReplicasRunning`. How many hosts are ahead is only logged, and left out.
unfoldable pub check_ha_replicas_running : Settings → Act Bool
check_ha_replicas_running c = do
  hs ← call hosts
  if length hs == 1 then ret true else do
    state ← get_shard_state_from_db
    ret (replicas_run c (length hs) state (Hosts.get state c.hostname))

abbrev same : Bool → Bool → Bool
same true b = b
same false b = not b

-- The mode that the local node should have; the replicas are asked only on a master.
unfoldable pub target_mode : AofMode → Settings → String → Act Bool
target_mode mode_off c master = ret false
target_mode mode_on_replicas c master =
    if str_eq c.hostname master
    then (do runs ← check_ha_replicas_running c; ret (not runs))
    else ret true
target_mode mode_on c master = ret true
target_mode mode_unspecified c master = ret true

unfoldable pub remove_old_aof : Settings → Bool → Act (Unit {0})
remove_old_aof c target =
    if c.has_aof_path && not target
    then (do there ← call aof_exists; if there then call remove_aof >>= check else ret tt)
    else ret tt

unfoldable pub set_mode : Settings → Bool → Act (Unit {0})
set_mode c target = do
  r ← call (get_appendonly c.hostname)
  current ← check r
  if same current target then ret tt else call (set_appendonly c.hostname target) >>= check
  remove_old_aof c target

-- With no mode given, nothing is done.
unfoldable pub adjust_to : AofMode → Settings → String → Act (Unit {0})
adjust_to mode_unspecified c master = ret tt
adjust_to mode_on c master = target_mode mode_on c master >>= set_mode c
adjust_to mode_off c master = target_mode mode_off c master >>= set_mode c
adjust_to mode_on_replicas c master = target_mode mode_on_replicas c master >>= set_mode c

-- `adjustAofMode`.
unfoldable pub adjust_aof_mode : Settings → String → Act (Unit {0})
adjust_aof_mode c master = adjust_to c.aof_mode c master

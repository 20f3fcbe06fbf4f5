-- ===== src/Replication.antt =====
-- internal/app/replication.go: whether a replica replicates from a master, and whether the local
-- replica is stale. `MatchHost` is that of internal/valkey/node.go; `net.ParseIP` is the argument
-- `parse_ip`, an address being the number of its 16 bytes.
pub mod Stale
pub mod Close
use rdsync.Base.{
  ℕ, ltb, ◌==◌, String, str_eq, contains, Bool, true, false, not, ◌&&◌, ◌||◌, Option, none, some,
  List, [], ◌∷◌, if◌then◌else◌,
}
use rdsync.Base.Int.{ℤ, pos, mul64, ltb_ℤ}
use rdsync.Types.{Time, Duration, zero_time, is_zero, since, HostState, ReplicaState}

-- The fields of a valkey node that tell which host it is.
pub record Node : Type 0 where
  pub fqdn : String
  pub ips : List ℕ

abbrev has_ip : List ℕ → ℕ → Bool
has_ip [] ip = false
has_ip (x ∷ xs) ip = ip == x || has_ip xs ip

unfoldable pub match_host : (String → Option ℕ) → Node → String → Bool
match_host parse_ip n host =
    if str_eq n.fqdn host
    then true
    else elim (parse_ip host) [ none ↦ false | some ip ↦ has_ip n.ips ip ]

-- slices.Contains(masterState.ConnectedReplicas, replicaFQDN), where the state is known
unfoldable pub is_connected : Option HostState → String → Bool
is_connected none fqdn = false
is_connected (some s) fqdn = contains s.connected_replicas fqdn

unfoldable pub matches : (String → Option ℕ) → Option Node → String → Bool
matches parse_ip none host = false
matches parse_ip (some n) host = match_host parse_ip n host

unfoldable pub replicates :
    (String → Option ℕ)
    → Option HostState
    → Option ReplicaState
    → String
    → Option Node
    → Bool
    → Bool
replicates parse_ip master_state none fqdn master_node allow_sync = false
replicates parse_ip master_state (some rs) fqdn master_node allow_sync =
    if not rs.master_link_state && not allow_sync
    then false
    else if is_connected master_state fqdn
    then true
    else matches parse_ip master_node rs.master_host

-- The options of the configuration that decide on staleness.
pub record LagConfig : Type 0 where
  pub stale_replica_lag_close : Duration
  pub stale_replica_lag_open : Duration

abbrev pub millisecond : ℕ
millisecond = 1000000

abbrev pub second : ℕ
second = 1000000000

abbrev target_lag : LagConfig → Bool → Duration
target_lag c check_open_lag =
    if check_open_lag then c.stale_replica_lag_open else c.stale_replica_lag_close

unfoldable pub is_lagging : LagConfig → Bool → ReplicaState → Bool
is_lagging c check_open_lag rs =
    let target = target_lag c check_open_lag in
    if not rs.master_link_state
    then (if rs.master_sync_in_progress || check_open_lag
        then true
        else ltb_ℤ rs.master_link_down_time (pos 0)
          || ltb_ℤ target (mul64 millisecond rs.master_link_down_time))
    else ltb_ℤ rs.master_last_io_seconds (pos 0)
      || ltb_ℤ target (mul64 second rs.master_last_io_seconds)

-- `diverged` is `app.dcsDivergeTime`, which comes back as it is left; `now` and `later` are what the
-- clock shows when that is set and when it is read.
unfoldable pub is_replica_stale :
    LagConfig → Time → Time → Time → Option ReplicaState → Bool → Bool × Time
is_replica_stale c now later diverged none check_open_lag =
    let diverged' = if is_zero diverged then now else diverged in
    (ltb_ℤ (target_lag c check_open_lag) (since later diverged'), diverged')
is_replica_stale c now later diverged (some rs) check_open_lag =
    (is_lagging c check_open_lag rs, diverged)

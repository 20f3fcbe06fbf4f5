-- ===== src/Cache.antt =====
-- internal/app/cache.go: `updateCache`, the state that the Sentinel cache is given, with the records of
-- internal/valkey/senticache.go.
pub mod Gathers
pub mod Given
pub mod Ends
use rdsync.Base.{
  ℕ, ◌+◌, ◌/◌, String, str_eq, Bool, true, false, not, ◌&&◌, ◌||◌, Option, none, some, List, [],
  ◌∷◌, ◌++◌, length, Result, ok, err, failed, if◌then◌else◌,
}
use rdsync.Base.Int.{ℤ, pos}
use rdsync.Types.{HostState, ReplicaState, SentiCacheInfo, ShardState}
use rdsync.Lag.{get_node_configuration}

pub record SentiCacheSentinel : Type 0 where
  pub name : String
  pub run_id : String
  pub ip : String
  pub port : ℤ

pub record SentiCacheReplica : Type 0 where
  pub ip : String
  pub run_id : String
  pub master_host : String
  pub port : ℤ
  pub master_link_down_time : ℤ
  pub slave_priority : ℤ
  pub replica_announced : ℤ
  pub master_port : ℤ
  pub slave_master_link_status : ℤ
  pub slave_repl_offset : ℤ

pub record SentiCacheMaster : Type 0 where
  pub name : String
  pub ip : String
  pub run_id : String
  pub port : ℤ
  pub quorum : ℕ
  pub parallel_syncs : ℤ
  pub config_epoch : ℕ

pub record SentiCacheState : Type 0 where
  pub replicas : List SentiCacheReplica
  pub sentinels : List SentiCacheSentinel
  pub master : SentiCacheMaster

-- The options that are read, and what the DCS answers for the priority of a host.
pub record CacheConfig : Type 0 where
  pub hostname : String
  pub announce_hostname : Bool
  pub cluster_name : String
  pub cache_port : ℤ
  pub port : ℤ
  pub max_parallel_syncs : ℤ
  pub priority : String → Result ℤ

-- What the loop has gathered, with the local masterReadOnly.
pub record Gathered : Type 0 where
  pub cache : SentiCacheState
  pub master_read_only : Bool

-- The result, or the panic on a nil pointer.
abbrev pub Outcome : Type 0 → Type 0
Outcome A = Option (Result A)

abbrev pub next : {A B : Type 0} → (A → Outcome B) → Outcome A → Outcome B
next f none = none
next f (some (err e)) = some (err e)
next f (some (ok a)) = f a

abbrev pub address : CacheConfig → String → HostState → String
address c h s = if c.announce_hostname then h else s.ip

unfoldable pub to_sentinel : CacheConfig → String → HostState → SentiCacheInfo → SentiCacheSentinel
to_sentinel c h s info = record {
  name = info.name;
  run_id = info.run_id;
  ip = address c h s;
  port = c.cache_port;
}

unfoldable pub to_master : CacheConfig → ℕ → String → HostState → SentiCacheMaster
to_master c n h s = record {
  name = c.cluster_name;
  ip = address c h s;
  run_id = s.run_id;
  port = c.port;
  quorum = n / 2 + 1;
  parallel_syncs = c.max_parallel_syncs;
  config_epoch = 0;
}

unfoldable pub to_replica : CacheConfig → String → HostState → ReplicaState → ℤ → SentiCacheReplica
to_replica c h s rs p = record {
  ip = address c h s;
  run_id = s.run_id;
  master_host = rs.master_host;
  port = c.port;
  master_link_down_time = rs.master_link_down_time;
  slave_priority = p;
  replica_announced = pos 1;
  master_port = c.port;
  slave_master_link_status = if rs.master_link_state then pos 0 else pos 1;
  slave_repl_offset = rs.replication_offset;
}

abbrev pub with_sentinel :
    CacheConfig → String → HostState → Option SentiCacheInfo → Gathered → Gathered
with_sentinel c h s none g = g
with_sentinel c h s (some info) g = record g {
  cache = record g.cache { sentinels = g.cache.sentinels ++ to_sentinel c h s info ∷ [] };
}

-- Another process's own cache is a sentinel.
unfoldable pub add_sentinel : CacheConfig → String → HostState → Gathered → Gathered
add_sentinel c h s g = if str_eq h c.hostname then g else with_sentinel c h s s.senticache_state g

unfoldable pub add_master : CacheConfig → ℕ → String → HostState → Gathered → Outcome Gathered
add_master c n h s g =
    if not (str_eq g.cache.master.ip "") && not g.master_read_only && not s.is_read_only
    then some (err (failed "2 open masters"))
    else if s.is_read_only && not g.master_read_only
    then some (ok g)
    else some (
        ok (record g {
          master_read_only = s.is_read_only;
          cache = record g.cache { master = to_master c n h s };
        }))

abbrev pub with_replica :
    CacheConfig → String → HostState → Gathered → Option ReplicaState → Result ℤ → Outcome Gathered
with_replica c h s g rs (err e) = some (err e)
with_replica c h s g none (ok p) = none
with_replica c h s g (some rs) (ok p) = some (
    ok (record g {
      cache = record g.cache { replicas = g.cache.replicas ++ to_replica c h s rs p ∷ [] };
    }))

unfoldable pub add_replica : CacheConfig → String → HostState → Gathered → Outcome Gathered
add_replica c h s g = with_replica c h s g s.replica_state (get_node_configuration (c.priority h))

unfoldable pub add_host : CacheConfig → ℕ → String → HostState → Gathered → Outcome Gathered
add_host c n h s g =
    if s.is_offline
    then some (ok g)
    else if s.is_master
    then add_master c n h s g
    else add_replica c h s g

-- One turn of the loop.
unfoldable pub visit : CacheConfig → ℕ → String → HostState → Gathered → Outcome Gathered
visit c n h s g =
    if not s.ping_ok || not (str_eq s.error "")
    then some (ok g)
    else add_host c n h s (add_sentinel c h s g)

unfoldable pub gather : CacheConfig → ℕ → ShardState → Gathered → Outcome Gathered
gather c n [] g = some (ok g)
gather c n ((h, s) ∷ rest) g = next (gather c n rest) (visit c n h s g)

abbrev pub nothing_gathered : Gathered
nothing_gathered = record {
  cache = record {
    replicas = [];
    sentinels = [];
    master = record {
      name = "";
      ip = "";
      run_id = "";
      port = pos 0;
      quorum = 0;
      parallel_syncs = pos 0;
      config_epoch = 0;
    };
  };
  master_read_only = false;
}

unfoldable pub if_master : Gathered → Outcome SentiCacheState
if_master g =
    if str_eq g.cache.master.ip "" then some (err (failed "0 open masters")) else some (ok g.cache)

-- What `updateCache` gives the cache.
unfoldable pub update_cache : CacheConfig → ShardState → Outcome SentiCacheState
update_cache c state = next if_master (gather c (length state) state nothing_gathered)

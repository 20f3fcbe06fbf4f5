-- ===== src/Tests/Caches.antt =====
-- What the Sentinel cache is given for the shard of three hosts.
use rdsync.Tests.Hosts.{is_replica, answers, first, replica}
use rdsync.Lag.{get_node_configuration}
use rdsync.Base.{true, none, some, [], ◌∷◌, ok, err, failed, ◌≡◌, refl}
use rdsync.Base.Int.{pos}
use rdsync.Types.{zero_state, ShardState, HostState}
use rdsync.Cache.{
  to_sentinel, if_master, add_replica, add_sentinel, add_master, add_host, visit, gather,
  CacheConfig, SentiCacheState, update_cache, to_master, to_replica,
}
use rdsync.Cache.Given.{IsGiven, update_cache_is}
use rdsync.Cache.Ends.{was_read, has_error, not_stored, update_cache-Ends}
use rdsync.Tests.Data.{master_at, replica_at, following}

abbrev config : CacheConfig
config = record {
  hostname = "b";
  announce_hostname = true;
  cluster_name = "shard";
  cache_port = pos 26379;
  port = pos 6379;
  max_parallel_syncs = pos 1;
  priority = λ h. ok (pos 100);
}

abbrev caching : HostState → HostState
caching s = record s { senticache_state = some (record { name = "n"; run_id = "q" }) }

abbrev shard : ShardState
shard = ("a", caching (master_at 70)) ∷ ("b", caching (replica_at 70)) ∷ ("c", replica_at 60) ∷ []

abbrev given : SentiCacheState
given = record {
  replicas =
      to_replica config "b" (caching (replica_at 70)) (following "a" 70) (pos 100)
      ∷ to_replica config "c" (replica_at 60) (following "a" 60) (pos 100)
      ∷ [];
  sentinels = record { name = "n"; run_id = "q"; ip = "a"; port = pos 26379 } ∷ [];
  master = to_master config 3 "a" (caching (master_at 70));
}

is_given : update_cache config shard ≡ some (ok given)
unfolding update_cache gather visit add_host add_master add_sentinel add_replica
    get_node_configuration if_master to_master to_sentinel
is_given = refl

-- Two open masters are an error.
two_masters :
    update_cache config (("a", master_at 70) ∷ ("b", master_at 70) ∷ [])
    ≡ some (err (failed "2 open masters"))
unfolding update_cache gather visit add_host add_master add_sentinel to_master
two_masters = refl

update_cache_is_example : IsGiven config shard given
update_cache_is_example = update_cache_is config shard given is_given

-- One host has stored nothing, one has an error, and one was read.
abbrev collected : ShardState
collected = ("a", zero_state) ∷ ("b", record zero_state { error = "x" }) ∷ ("c", replica) ∷ []

update_cache-Ends_example : ¬ (update_cache config collected ≡ none)
update_cache-Ends_example =
    update_cache-Ends config collected
      (not_stored refl, (has_error refl, (was_read first answers refl is_replica, tt)))

-- ===== src/Cache/Gathers.antt =====
-- What the loop of `updateCache` adds for one host.
use mathlib.Core.List.{append-nil}
use rdsync.Base.{
  sym, ℕ, String, str_eq, Bool, true, false, not, ◌&&◌, Option, none, some, List, [], ◌∷◌, ◌++◌,
  Result, ok, err, HostMap, ◌≡◌, refl, arith, ◌⊎◌, if◌then◌else◌,
}
use rdsync.Base.Int.{ℤ}
use rdsync.Types.{HostState, ReplicaState, SentiCacheInfo}
use rdsync.Lag.{get_node_configuration}
use rdsync.Cache.{
  CacheConfig, Gathered, address, to_sentinel, to_master, to_replica, with_sentinel,
  SentiCacheSentinel, SentiCacheReplica, add_sentinel, add_master, add_replica, add_host, visit,
}

-- A host that answers without an error.
abbrev pub is_seen : HostState → Bool
is_seen s = s.ping_ok && str_eq s.error ""

abbrev pub sentinel_from :
    CacheConfig → String → HostState → Option SentiCacheInfo → List SentiCacheSentinel
sentinel_from c h s none = []
sentinel_from c h s (some info) = to_sentinel c h s info ∷ []

-- The sentinel of a host: its process keeps a cache, and it is another host.
abbrev pub sentinel_of : CacheConfig → String → HostState → List SentiCacheSentinel
sentinel_of c h s =
    if is_seen s && not (str_eq h c.hostname) then sentinel_from c h s s.senticache_state else []

abbrev pub replica_from :
    CacheConfig → String → HostState → Option ReplicaState → Result ℤ → List SentiCacheReplica
replica_from c h s rs (err e) = []
replica_from c h s none (ok p) = []
replica_from c h s (some rs) (ok p) = to_replica c h s rs p ∷ []

-- The replica that a host is: one that is online and no master.
abbrev pub replica_of : CacheConfig → String → HostState → List SentiCacheReplica
replica_of c h s =
    if is_seen s && not s.is_offline && not s.is_master
    then replica_from c h s s.replica_state (get_node_configuration (c.priority h))
    else []

abbrev pub is_open_master : HostState → Bool
is_open_master s = is_seen s && not s.is_offline && s.is_master && not s.is_read_only

-- An open master that has an address.
abbrev pub master_of : CacheConfig → String → HostState → HostMap HostState
master_of c h s = if is_open_master s && not (str_eq (address c h s) "") then (h, s) ∷ [] else []

module _ (c : CacheConfig) (n : ℕ) (h : String) (s : HostState) where
  -- The master stays, or there was none and the host is it.
  abbrev pub Masters : Gathered → Gathered → Type 0
  Masters g g' =
      (g'.master_read_only ≡ false)
      × (((master_of c h s ≡ [])
            × (str_eq g'.cache.master.ip "" ≡ str_eq g.cache.master.ip "")
            × (str_eq g.cache.master.ip "" ≡ false → g'.cache.master ≡ g.cache.master))
          ⊎ ((str_eq g.cache.master.ip "" ≡ true)
              × (master_of c h s ≡ (h, s) ∷ [])
              × (g'.cache.master ≡ to_master c n h s)))

  from_lem :
      (g : Gathered) (o : Option SentiCacheInfo)
      → (with_sentinel c h s o g).cache.sentinels ≡ g.cache.sentinels ++ sentinel_from c h s o
  from_lem g none = sym (append-nil _)
  from_lem g (some info) = refl

  sentinel_lem :
      (g : Gathered)
      → is_seen s ≡ true
      → (add_sentinel c h s g).cache.sentinels ≡ g.cache.sentinels ++ sentinel_of c h s
  unfolding add_sentinel
  sentinel_lem g seen = ground (arith, from_lem g s.senticache_state, append-nil g.cache.sentinels)

  host-sentinels :
      (g g' : Gathered) → add_host c n h s g ≡ some (ok g') → g'.cache.sentinels ≡ g.cache.sentinels
  unfolding add_host add_master add_replica
  host-sentinels g g' e = ground arith

  pub visit-sentinels :
      (g g' : Gathered)
      → visit c n h s g ≡ some (ok g')
      → g'.cache.sentinels ≡ g.cache.sentinels ++ sentinel_of c h s
  unfolding visit
  visit-sentinels g g' e = ground (
    arith,
    host-sentinels (add_sentinel c h s g) g',
    sentinel_lem g,
    append-nil g.cache.sentinels,
  )

  kept_lem :
      (g : Gathered) (o : Option SentiCacheInfo)
      → ((with_sentinel c h s o g).cache.replicas ≡ g.cache.replicas)
        × ((with_sentinel c h s o g).cache.master ≡ g.cache.master)
        × ((with_sentinel c h s o g).master_read_only ≡ g.master_read_only)
  kept_lem g none = (refl, refl, refl)
  kept_lem g (some info) = (refl, refl, refl)

  sentinel-Kept :
      (g : Gathered)
      → ((add_sentinel c h s g).cache.replicas ≡ g.cache.replicas)
        × ((add_sentinel c h s g).cache.master ≡ g.cache.master)
        × ((add_sentinel c h s g).master_read_only ≡ g.master_read_only)
  unfolding add_sentinel
  sentinel-Kept g = ground (arith, kept_lem g s.senticache_state)

  host-replicas :
      (g g' : Gathered)
      → is_seen s ≡ true
      → add_host c n h s g ≡ some (ok g')
      → g'.cache.replicas ≡ g.cache.replicas ++ replica_of c h s
  unfolding add_host add_master add_replica
  host-replicas g g' seen e = ground (arith, append-nil g.cache.replicas)

  pub visit-replicas :
      (g g' : Gathered)
      → visit c n h s g ≡ some (ok g')
      → g'.cache.replicas ≡ g.cache.replicas ++ replica_of c h s
  unfolding visit
  visit-replicas g g' e =
      ground (
        arith,
        host-replicas (add_sentinel c h s g) g',
        sentinel-Kept g,
        append-nil g.cache.replicas,
      )

  host-Masters :
      (g g' : Gathered)
      → is_seen s ≡ true
      → g.master_read_only ≡ false
      → add_host c n h s g ≡ some (ok g')
      → Masters g g'
  unfolding add_host add_master add_replica to_master
  host-Masters g g' seen off e = ground arith

  pub visit-Masters :
      (g g' : Gathered) → g.master_read_only ≡ false → visit c n h s g ≡ some (ok g') → Masters g g'
  unfolding visit
  visit-Masters g g' off e = ground (arith, host-Masters (add_sentinel c h s g) g', sentinel-Kept g)

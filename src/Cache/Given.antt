-- ===== src/Cache/Given.antt =====
-- What the Sentinel cache is given, described without the loop.
use mathlib.Core.List.{append-nil, append_assoc}
use mathlib.Core.Path.{ap, subst}
use rdsync.Base.{
  if◌then◌else◌, failed, ℕ, String, str_eq, Bool, true, false, none, some, List, [], ◌∷◌, ◌++◌, ok,
  err, HostMap, ◌≡◌, refl, sym, ◌∙◌, arith, ◌⊎◌, inl, inr, length,
}
use rdsync.Types.{HostState, ShardState}
use rdsync.Cache.{
  CacheConfig, Gathered, Outcome, next, to_master, visit, gather, update_cache, if_master,
  nothing_gathered, SentiCacheState,
}
use rdsync.Cache.Gathers.{
  sentinel_of, replica_of, master_of, Masters, visit-sentinels, visit-replicas, visit-Masters,
}

-- What each host adds, in the order of the hosts.
abbrev pub each : {A : Type 0} → (String → HostState → List A) → ShardState → List A
each f [] = []
each f ((h, s) ∷ rest) = f h s ++ each f rest

passed :
    {A B : Type 0} (f : A → Outcome B) (o : Outcome A) (b : B)
    → next f o ≡ some (ok b)
    → (a : A) × (o ≡ some (ok a)) × (f a ≡ some (ok b))
passed f none b e = cc
passed f (some (err x)) b e = cc
passed f (some (ok a)) b e = (a, refl, e)

same : {A : Type 0} (a b : A) → some (ok a) ≡ some (ok b) → a ≡ b
same a b e = cc

module _ (c : CacheConfig) (n : ℕ) where
  -- The masters seen before the loop's position and after it, and the one that is recorded.
  abbrev IsMaster : HostMap HostState → Gathered → Type 0
  IsMaster seen g =
      (g.master_read_only ≡ false)
      × (((seen ≡ []) × (str_eq g.cache.master.ip "" ≡ true))
          ⊎ ((str_eq g.cache.master.ip "" ≡ false)
              × ((h : String) × (s : HostState) × (seen ≡ (h, s) ∷ [])
                  × (g.cache.master ≡ to_master c n h s))))

  module _ (h : String) (s : HostState) where
    named :
        (g : Gathered)
        → master_of c h s ≡ (h, s) ∷ []
        → g.cache.master ≡ to_master c n h s
        → str_eq g.cache.master.ip "" ≡ false
    unfolding to_master
    named g is e = ground arith

    joined :
        (seen : HostMap HostState) (g g' : Gathered)
        → IsMaster seen g
        → Masters c n h s g g'
        → IsMaster (seen ++ master_of c h s) g'
    joined seen g g' (_, inl (e, i)) (off, inl (e', i', kept)) =
        (off, inl (rw (e, e') refl, i' ∙ i))
    joined seen g g' (_, inr (i, (k, t, e, m))) (off, inl (e', i', kept)) =
        (off, inr (i' ∙ i, (k, t, rw (e, e') refl, kept i ∙ m)))
    joined seen g g' (_, inl (e, i)) (off, inr (_, e', m)) =
        (off, inr (named g' e' m, (h, s, rw (e, e') refl, m)))
    joined seen g g' (_, inr (i, (k, t, e, m))) (off, inr (i', e', m')) = cc

    step :
        (seen : HostMap HostState) (g g' : Gathered)
        → IsMaster seen g
        → visit c n h s g ≡ some (ok g')
        → IsMaster (seen ++ master_of c h s) g'
    step seen g g' inv e = joined seen g g' inv (visit-Masters c n h s g g' inv.0 e)

  loop-IsMaster :
      (xs : ShardState) (seen : HostMap HostState) (g g' : Gathered)
      → IsMaster seen g
      → gather c n xs g ≡ some (ok g')
      → IsMaster (seen ++ each (master_of c) xs) g'
  unfolding gather
  loop-IsMaster [] seen g g' inv e = subst (IsMaster _) (same g g' e) (rw (append-nil seen) inv)
  loop-IsMaster ((h, s) ∷ xs) seen g g' inv e =
      let (a, first, rest) = passed (gather c n xs) (visit c n h s g) g' e in
      rw (sym (append_assoc seen (master_of c h s) (each (master_of c) xs)))
        (loop-IsMaster xs _ a g' (step h s seen g a inv first) rest)

  loop_lists :
      (xs : ShardState) (g g' : Gathered)
      → gather c n xs g ≡ some (ok g')
      → (g'.cache.sentinels ≡ g.cache.sentinels ++ each (sentinel_of c) xs)
        × (g'.cache.replicas ≡ g.cache.replicas ++ each (replica_of c) xs)
  unfolding gather
  loop_lists [] g g' e =
      rw (sym (same g g' e)) (sym (append-nil g.cache.sentinels), sym (append-nil g.cache.replicas))
  loop_lists ((h, s) ∷ xs) g g' e =
      let (a, first, rest) = passed (gather c n xs) (visit c n h s g) g' e in
      let (l, r) = loop_lists xs a g' rest in
      (
        l
            ∙ ap (λ ys. ys ++ each (sentinel_of c) xs) (visit-sentinels c n h s g a first)
            ∙ append_assoc g.cache.sentinels _ _,
        r
            ∙ ap (λ ys. ys ++ each (replica_of c) xs) (visit-replicas c n h s g a first)
            ∙ append_assoc g.cache.replicas _ _,
      )

abbrev last_of : Bool → SentiCacheState → Outcome SentiCacheState
last_of b x = if b then some (err (failed "0 open masters")) else some (ok x)

given_of : (x y : SentiCacheState) (b : Bool) → last_of b x ≡ some (ok y) → (b ≡ false) × (x ≡ y)
given_of x y true e = cc
given_of x y false e = (refl, same x y e)

abbrev pub IsGiven : CacheConfig → ShardState → SentiCacheState → Type 0
IsGiven c state given =
    (given.sentinels ≡ each (sentinel_of c) state)
    × (given.replicas ≡ each (replica_of c) state)
    × ((h : String) × (s : HostState) × (each (master_of c) state ≡ (h, s) ∷ [])
        × (given.master ≡ to_master c (length state) h s))

-- What `updateCache` gives the cache when it gives it anything: its sentinels are the other hosts that
-- answer without an error and keep a cache, in the order of the hosts; its replicas are the hosts
-- that answer without an error, are online and are no masters, each with its configured priority;
-- and its master is an open master that has an address, and the only one there is.
pub update_cache_is :
    (c : CacheConfig) (state : ShardState) (given : SentiCacheState)
    → update_cache c state ≡ some (ok given)
    → IsGiven c state given
unfolding update_cache if_master
update_cache_is c state given e =
    let (g, all, last) = passed if_master (gather c n state nothing_gathered) given e in
    ended g (loop_lists c n state nothing_gathered g all)
      (loop-IsMaster c n state [] nothing_gathered g (refl, inl (refl, refl)) all) last
  where
    n : ℕ
    n = length state

    ended :
        (g : Gathered)
        → (g.cache.sentinels ≡ each (sentinel_of c) state)
          × (g.cache.replicas ≡ each (replica_of c) state)
        → IsMaster c n (each (master_of c) state) g
        → last_of (str_eq g.cache.master.ip "") g.cache ≡ some (ok given)
        → IsGiven c state given
    ended g (l, r) (_, inl (_, i)) e' = let (found, _) = given_of g.cache given _ e' in cc
    ended g (l, r) (_, inr (i, (k, t, m, w))) e' =
        let (_, is) = given_of g.cache given _ e' in subst (IsGiven c state) is (l, r, (k, t, m, w))

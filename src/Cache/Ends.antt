-- ===== src/Cache/Ends.antt =====
-- When `updateCache` does not panic.
use mathlib.Core.Path.{subst, sym}
use rdsync.State.Complete.{get_host_state-IsRead}
use rdsync.State.{get_host_state, Answers}
use rdsync.Base.{
  false, str_eq, ℕ, String, true, not, ◌&&◌, none, some, [], ◌∷◌, ok, err, All, ◌≡◌, refl, arith,
  length,
}
use rdsync.Types.{zero_state, HostState, ShardState}
use rdsync.Cache.{
  CacheConfig, Gathered, Outcome, next, visit, gather, update_cache, if_master, nothing_gathered,
  add_host, add_master, add_replica,
}
use rdsync.Cache.Gathers.{is_seen}

-- A host that answers, is online and is no master has a replica's state.
abbrev IsWhole : HostState → Type 0
IsWhole s = (is_seen s && not s.is_offline && not s.is_master) ≡ true → ¬ (s.replica_state ≡ none)

module _ (c : CacheConfig) where
  visit-Ends :
      (n : ℕ) (h : String) (s : HostState) (g : Gathered) → IsWhole s → ¬ (visit c n h s g ≡ none)
  unfolding visit add_host add_master add_replica
  visit-Ends n h s g whole e = ground arith

  next-Ends :
      {A B : Type 0} (f : A → Outcome B) (o : Outcome A)
      → ((a : A) → ¬ (f a ≡ none))
      → ¬ (o ≡ none)
      → ¬ (next f o ≡ none)
  next-Ends f none k h e = h refl
  next-Ends f (some (err x)) k h e = cc
  next-Ends f (some (ok a)) k h e = k a e

  gather-Ends :
      (n : ℕ) (xs : ShardState) (g : Gathered)
      → All (λ p. IsWhole p.1) xs
      → ¬ (gather c n xs g ≡ none)
  unfolding gather
  gather-Ends n [] g w = λ e. cc
  gather-Ends n ((h, s) ∷ xs) g (w, ws) =
      next-Ends (gather c n xs) (visit c n h s g) (λ a. gather-Ends n xs a ws)
        (visit-Ends n h s g w)

-- A host's state as the health checker stores it: none was stored, or `getHostState` made it of what
-- the server answered, or it has an error.
pub data IsCollected (s : HostState) : Type 0 where
  not_stored : s ≡ zero_state → IsCollected s
  was_read :
      (first : HostState) (a : Answers)
      → a.state.failure ≡ none
      → get_host_state first a ≡ some s
      → IsCollected s
  has_error : str_eq s.error "" ≡ false → IsCollected s

zero-IsWhole : IsWhole zero_state
zero-IsWhole seen gone = cc

collected-IsWhole : (s : HostState) → IsCollected s → IsWhole s
collected-IsWhole s (not_stored e) = subst IsWhole (sym e) zero-IsWhole
collected-IsWhole s (was_read first a good is) = λ sound.
    let read = get_host_state-IsRead first a s good is (ground arith) in
    let (rs, e) = read.replica_read (ground arith) in λ gone. cc
collected-IsWhole s (has_error e) = λ sound. ground arith

shard-IsWhole : (xs : ShardState) → All (λ p. IsCollected p.1) xs → All (λ p. IsWhole p.1) xs
shard-IsWhole [] h = tt
shard-IsWhole ((x, s) ∷ xs) (h, hs) = (collected-IsWhole s h, shard-IsWhole xs hs)

-- `updateCache` does not read a nil pointer on states as they are collected: where none was stored for
-- a host, or `getHostState` has read it without a failure of `GetState`, or it has an error. It updates
-- the cache or returns an error.
pub update_cache-Ends :
    (c : CacheConfig) (state : ShardState)
    → All (λ p. IsCollected p.1) state
    → ¬ (update_cache c state ≡ none)
unfolding update_cache if_master
update_cache-Ends c state collected =
    next-Ends c if_master (gather c (length state) state nothing_gathered) (λ g e. ground arith)
      (gather-Ends c (length state) state nothing_gathered (shard-IsWhole state collected))

-- ===== src/Valkey/State/Kept.antt =====
-- What a node remembers of its server, from one `GetState` to the next.
use rdsync.Base.{
  Option, inr, inl, ◌⊎◌, ℕ, suc, ltb, ◌≤◌, Bool, true, false, List, [], ◌∷◌, ◌++◌, length, Result,
  ok, err, String, HostMap, ◌≡◌, refl, arith, length-append, if◌then◌else◌, some, none,
}
use rdsync.Types.{NodeState}
use rdsync.Valkey.Ping.{tail_of, note_result, Memory, has_good, note_failure, note_info}
use rdsync.Valkey.State.{
  ℤ, parse_int, with_paused, with_offline, with_min_replicas, with_number, Replies, get_state,
  if_ping, if_info,
}

-- No more results are kept than PingStable says, and where none of them is good, no INFO.
abbrev pub IsKept : ℕ → Memory → Type 0
IsKept size m =
    (length m.info_results ≤ size) × ((has_good m.info_results ≡ true) ⊎ (m.cached_info ≡ []))

module _ (k : ℕ) where
  tail-length : (xs : List Bool) → length xs ≤ suc (suc k) → length (tail_of xs) ≤ suc k
  tail-length [] h = omega arith
  tail-length (x ∷ xs) h = omega (arith, h)

  note_result-length :
      (b : Bool) (w : List Bool) → length w ≤ suc k → length (note_result (suc k) b w) ≤ suc k
  unfolding note_result
  note_result-length b w h = ground (arith, length-append w (b ∷ []), tail-length (w ++ b ∷ []))

  good_last : (w : List Bool) → has_good (w ++ true ∷ []) ≡ true
  unfolding has_good
  good_last [] = refl
  good_last (true ∷ xs) = refl
  good_last (false ∷ xs) = good_last xs

  good_tail :
      (w : List Bool)
      → ltb (suc k) (length (w ++ true ∷ [])) ≡ true
      → has_good (tail_of (w ++ true ∷ [])) ≡ true
  good_tail [] h = ground (arith, h)
  good_tail (x ∷ xs) h = good_last xs

  note-good : (w : List Bool) → has_good (note_result (suc k) true w) ≡ true
  unfolding note_result
  note-good w = ground (arith, good_last w, good_tail w)

  failure-IsKept : (m : Memory) → IsKept (suc k) m → IsKept (suc k) (note_failure (suc k) m)
  unfolding note_failure
  failure-IsKept m (short, _) = (
    note_result-length false m.info_results short,
    forgets (has_good (note_result (suc k) false m.info_results)),
  )
    where
      forgets : (b : Bool) → (b ≡ true) ⊎ ((if b then m.cached_info else []) ≡ [])
      forgets true = inl refl
      forgets false = inr refl

  info-IsKept :
      (info : HostMap String) (m : Memory)
      → IsKept (suc k) m
      → IsKept (suc k) (note_info (suc k) info m)
  unfolding note_info
  info-IsKept info m (short, _) =
      (note_result-length true m.info_results short, inl (note-good m.info_results))

  paused-info : (s : NodeState) (o : Result String) → (with_paused s o).info ≡ s.info
  unfolding with_paused
  paused-info s (ok v) = refl
  paused-info s (err e) = refl

  offline-info :
      (r : Replies) (s : NodeState) (o : Result String) → (with_offline r s o).info ≡ s.info
  unfolding with_offline
  offline-info r s (ok v) = paused-info _ _
  offline-info r s (err e) = refl

  number-info :
      (r : Replies) (s : NodeState) (o : ℤ × Option String) → (with_number r s o).info ≡ s.info
  unfolding with_number
  number-info r s (n, none) = offline-info r _ _
  number-info r s (n, some x) = refl

  replicas-info :
      (r : Replies) (s : NodeState) (o : Result String) → (with_min_replicas r s o).info ≡ s.info
  unfolding with_min_replicas
  replicas-info r s (ok v) = number-info r s (parse_int v)
  replicas-info r s (err e) = refl

  -- The state and the memory after an answer.
  abbrev Tells : NodeState × Memory → Type 0
  Tells (s, m) = IsKept (suc k) m × ((s.info ≡ m.cached_info) ⊎ (s.info ≡ []))

  if_info-Tells :
      (r : Replies) (m : Memory) (o : Result String)
      → IsKept (suc k) m
      → Tells (if_info (suc k) r m o)
  unfolding if_info note_info
  if_info-Tells r m (ok text) kept = (info-IsKept _ m kept, inl (replicas-info r _ _))
  if_info-Tells r m (err e) kept = (kept, inr refl)

  if_ping-Tells :
      (r : Replies) (m : Memory) (o : Result (Unit {0}))
      → IsKept (suc k) m
      → Tells (if_ping (suc k) r m o)
  unfolding if_ping
  if_ping-Tells r m (ok _) kept = if_info-Tells r m r.info kept
  if_ping-Tells r m (err e) kept = (failure-IsKept m kept, inl refl)

-- For a PingStable of at least 1, `GetState`, whatever the server answers, goes on keeping no more
-- results than PingStable says, and no INFO unless one of them is good; and the INFO that it
-- returns is the one that it keeps, or none.
pub get_state-IsKept :
    (k : ℕ) (r : Replies) (m : Memory)
    → IsKept (suc k) m
    → IsKept (suc k) (get_state (suc k) r m).1
      × (((get_state (suc k) r m).0.info ≡ (get_state (suc k) r m).1.cached_info)
          ⊎ ((get_state (suc k) r m).0.info ≡ []))
unfolding get_state
get_state-IsKept k r m kept = if_ping-Tells k r m r.ping kept

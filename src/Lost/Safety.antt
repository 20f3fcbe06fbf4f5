-- ===== src/Lost/Safety.antt =====
-- The turn of a process that has lost the DCS, part by part and as a whole.
use rdsync.Base.Hosts
use rdsync.Kinds.Slots.{get_master_host-AsksSlots, asks_slots}
use rdsync.Actions.Only.{Only-Keeps, Only}
use rdsync.Replication.{Node, is_replica_stale, replicates}
use rdsync.Types.{HostState, ReplicaState, ShardState}
use rdsync.Actions.Steps.{after_deref, Keeps-if, after_call}
use rdsync.Actions.Hoare.{Keeps-handle, Keeps-ret, Keeps->>=, Keeps, Rules}
use rdsync.Lost.Fence.{
  retried, is_fresh, nothing_seen, closing, follows, Stays, has_evidence, is_closed,
  get_shard_state_lem, unknown, following, followed, see, only_host, lost_rules, IsSafe, Evidence,
  Seen, has_count,
}
use rdsync.Availability.{is_stale, check_ha_replicas_running}
use rdsync.Lost.{
  is_due, fence, reconnect, fence_if, keep_or_fence, keep_linked, link_alive, lost, keep_with,
  keep_replica, online_if, keep_master,
}
use rdsync.Actions.{Act, Call, Settings}
use rdsync.Base.{
  inr, ◌≢◌, inl, ◌⊎◌, ℕ, ◌==◌, String, str_eq, Bool, true, false, not, ◌&&◌, Option, none, some,
  List, [], ◌∷◌, length, Result, ok, err, ◌≡◌, refl, arith,
}

module _ (c : Settings) where
  abbrev R : Rules
  R = lost_rules c

  Evidence-same :
      {k t : Seen} → t.counts ≡ k.counts → t.states ≡ k.states → Evidence c k → Evidence c t
  Evidence-same p q (only_host h) = only_host (rw p h)
  Evidence-same p q (followed n h i) = followed n (rw p h) (rw q i)
  Evidence-same p q (following m h) = following m (rw q h)

  -- A part that says whether the turn ends here.
  abbrev Kept : Result Bool → Seen → Type 0
  Kept (ok b) t = (t.connected ≡ false) × (b ≡ true → IsSafe c t)
  Kept (err e) t = ⊥

  online_if_lem :
      (r : Result Bool) (k : Seen)
      → k.connected ≡ false
      → Evidence c k
      → Keeps R (online_if c r) (see k (Call.is_offline c.hostname) r) Kept
  unfolding online_if
  online_if_lem (err e) k down why = Keeps-ret R (down, λ h. unknown refl)
  online_if_lem (ok true) k down why =
      after_call R (Call.set_online c.hostname) (refl, down, refl, Evidence-same refl refl why)
        (λ _ _. Keeps-ret R (down, λ h. is_closed refl))
  online_if_lem (ok false) k down why =
      Keeps-ret R (down, λ h. has_evidence (Evidence-same refl refl why))

  abbrev Runs : Result Bool → Seen → Type 0
  Runs (ok b) t = (t.connected ≡ false) × (b ≡ true → Evidence c t)
  Runs (err e) t = ⊥

  first_count : (n m : ℕ) (ms : List ℕ) → (n == m) ≡ true → has_count (n ∷ ms) m ≡ true
  first_count n m ms h = ground arith

  second_count : (n m : ℕ) (ms : List ℕ) → has_count (n ∷ m ∷ ms) m ≡ true
  second_count n m ms = ground arith

  check_lem : (k : Seen) → k.connected ≡ false → Keeps R (check_ha_replicas_running c) k Runs
  unfolding check_ha_replicas_running
  check_lem k down = after_call R Call.hosts tt (λ hs _.
      Keeps-if R (length hs == 1)
        (λ one. Keeps-ret R (down, λ h. only_host (first_count (length hs) 1 k.counts one)))
        (λ more.
          Keeps->>= R (get_shard_state_lem c _)
            (λ st t (n, same). Keeps-ret R (
              rw same down,
              λ h. followed (length hs) (rw same (second_count n (length hs) k.counts)) (rw same h),
            ))
            (λ e t h. absurd h)))

  keep_master_lem : (k : Seen) → k.connected ≡ false → Keeps R (keep_master c) k Kept
  unfolding keep_master
  keep_master_lem k down =
      Keeps->>= R (check_lem k down)
        (λ runs t (down', why).
          Keeps-if R runs
            (λ e.
              after_call R (Call.is_offline c.hostname) tt (λ r _. online_if_lem r t down' (why e)))
            (λ e. Keeps-ret R (down', λ h. cc)))
        (λ e t h. absurd h)

  abbrev Fresh : Option ReplicaState → Seen → Result Bool → Seen → Type 0
  Fresh o k (ok b) t = (t ≡ k) × (b ≡ false → (o ≡ none) ⊎ (is_fresh c o ≡ true))
  Fresh o k (err e) t = ⊥

  is_stale_lem : (o : Option ReplicaState) (k : Seen) → Keeps R (is_stale c o false) k (Fresh o k)
  unfolding is_stale is_replica_stale
  is_stale_lem none k = after_call R Call.get_diverge_time tt (λ d _.
      after_call R Call.now tt (λ t _. after_call R Call.now tt (λ t' _.
        after_call R (Call.set_diverge_time _) tt (λ _ _. Keeps-ret R (refl, λ e. inl refl)))))
  is_stale_lem (some rs) k = after_call R Call.get_diverge_time tt (λ d _.
      after_call R Call.now tt (λ t _. after_call R Call.now tt (λ t' _.
        after_call R (Call.set_diverge_time _) tt
          (λ _ _. Keeps-ret R (refl, λ e. inr (ground arith))))))

  no_replica :
      (ms : HostState) (o : Option ReplicaState) (h : String) (n : Option Node)
      → replicates c.parse_ip (some ms) o h n false ≡ true
      → o ≢ none
  unfolding replicates
  no_replica ms none h n e = cc
  no_replica ms (some rs) h n e = λ i. cc

  abbrev Links : ShardState → String → Seen → Result Bool → Seen → Type 0
  Links state m k (ok b) t =
      (t ≡ k) × (b ≡ true → follows c m (Hosts.get state m) (Hosts.get state c.hostname) ≡ true)
  Links state m k (err e) t = ⊥

  -- All the tests of the link have been passed.
  passed_all :
      (m : String) (ms l : HostState) (b : Bool)
      → not (ms.ping_ok && ms.ping_stable) ≡ false
      → not (replicates c.parse_ip (some ms) l.replica_state c.hostname (c.node m) false) ≡ false
      → (b ≡ false → (l.replica_state ≡ none) ⊎ (is_fresh c l.replica_state ≡ true))
      → not b ≡ true
      → follows c m (some ms) (some l) ≡ true
  passed_all m ms l b up linked fresh h = elim (fresh (ground arith)) [
    | inl gone ↦ absurd (no_replica ms l.replica_state c.hostname (c.node m) (ground arith) gone)
    | inr f ↦ ground arith
  ]

  link_alive_lem :
      (state : ShardState) (m : String) (k : Seen)
      → Keeps R (link_alive c state m) k (Links state m k)
  unfolding link_alive
  link_alive_lem state m k = after_deref R _ (λ ms em.
      Keeps-if R (not (ms.ping_ok && ms.ping_stable)) (λ e. Keeps-ret R (refl, λ h. cc))
        (λ up. after_deref R _ (λ l el.
          Keeps-if R
            (not (replicates c.parse_ip (some ms) l.replica_state c.hostname (c.node m) false))
            (λ e. Keeps-ret R (refl, λ h. cc))
            (λ linked.
              Keeps->>= R (is_stale_lem l.replica_state k)
                (λ b t (same, fresh).
                  Keeps-ret R (same, λ h. rw (em, el) (passed_all m ms l b up linked fresh h)))
                (λ e t h. absurd h)))))

  keep_linked_lem :
      (state : ShardState) (m : String) (r : Result Bool) (k : Seen)
      → k.connected ≡ false
      → k.states ≡ state
      → Keeps R (keep_linked c state m r) (see k (Call.is_offline c.hostname) r) Kept
  unfolding keep_linked
  keep_linked_lem state m (err e) k down seen = Keeps-ret R (down, λ h. unknown refl)
  keep_linked_lem state m (ok b) k down seen =
      Keeps->>= R (link_alive_lem state m _)
        (λ alive t (same, why).
          Keeps-if R alive
            (λ e. rw same (online_if_lem (ok b) k down (following m (rw seen (why e)))))
            (λ e. Keeps-ret R (rw same down, λ h. cc)))
        (λ e t h. absurd h)

  keep_with_lem :
      (state : ShardState) (r : Result String) (k : Seen)
      → k.connected ≡ false
      → k.states ≡ state
      → Keeps R (keep_with c state r) k Kept
  unfolding keep_with
  keep_with_lem state (err e) k down seen = Keeps-ret R (down, λ h. cc)
  keep_with_lem state (ok m) k down seen =
      Keeps-if R (str_eq m "") (λ e. Keeps-ret R (down, λ h. cc))
        (λ e.
          after_call R (Call.is_offline c.hostname) tt
            (λ r _. keep_linked_lem state m r k down seen))

  slots_part : {A : Type 0} {m : Act A} {k : Seen} → Only asks_slots m → Keeps R m k (λ r t. t ≡ k)
  slots_part {k = k} =
      Only-Keeps asks_slots R tt (λ t. t ≡ k) (λ s call p same. ground arith)
        (λ s call r p same. ground arith) refl

  keep_replica_lem : (k : Seen) → k.connected ≡ false → Keeps R (keep_replica c) k Kept
  unfolding keep_replica
  keep_replica_lem k down =
      Keeps->>= R (get_shard_state_lem c k)
        (λ st t (n, same).
          Keeps->>= R {P = λ r u. Caught t r u}
            (Keeps-handle R (slots_part (get_master_host-AsksSlots c st)) (λ r u e. Keeps-ret R e))
            (λ r u e. keep_with_lem st r u (rw (e, same) down) (rw (e, same) refl))
            (λ e u h. absurd h))
        (λ e t h. absurd h)
    where
      Caught : Seen → Result (Result String) → Seen → Type 0
      Caught t (ok r) u = u ≡ t
      Caught t (err e) u = ⊥

  fence_lem :
      (r : Result Bool) (k : Seen)
      → k.connected ≡ false
      → Keeps R (fence_if c r) (see k (Call.is_offline c.hostname) r) (Stays c)
  unfolding fence_if
  fence_lem (err e) k down = Keeps-ret R (down, unknown refl)
  fence_lem (ok true) k down = Keeps-ret R (down, is_closed refl)
  fence_lem (ok false) k down =
      after_call R (Call.set_offline c.hostname) (refl, down, refl)
        (λ _ _. Keeps-ret R (down, closing refl))

  keep_or_fence_lem : (k : Seen) → k.connected ≡ false → Keeps R (keep_or_fence c) k (Stays c)
  unfolding keep_or_fence fence
  keep_or_fence_lem k down = after_call R (Call.host_state c.hostname) tt (λ local _.
      Keeps->>= R
        (Keeps-if R local.is_master (λ e. keep_master_lem _ down) (λ e. keep_replica_lem _ down))
        (λ kept t (down', why).
          Keeps-if R kept (λ e. Keeps-ret R (down', why e))
            (λ e. after_call R (Call.is_offline c.hostname) tt (λ r _. fence_lem r t down')))
        (λ e t h. absurd h))

-- A process that has lost the DCS sets only the local node online or offline: only when there is no
-- connection, a node that is offline or online, and online only when it is the only host, when at
-- least half as many replicas as there are hosts follow it, or when it replicates, and is not stale,
-- from a master that answers. Its turn ends as a candidate only with a connection. Otherwise it ends
-- in the lost state, and then the local node is offline or was told to go offline, or there is such
-- evidence for it, or its state could not be read, or a new connection was tried.
pub lost-Keeps : (c : Settings) → Keeps (lost_rules c) (lost c) nothing_seen (Stays c)
unfolding lost reconnect
lost-Keeps c = after_call R Call.dcs_is_connected tt (λ up _.
    Keeps-if R up (λ e. Keeps-ret R e)
      (λ down. after_call R Call.get_lost_since tt (λ x _. after_call R Call.now tt (λ t _.
        Keeps-if R (is_due c x t)
          (λ e. after_call R Call.dcs_reconnect tt (λ _ _. after_call R Call.now tt (λ t' _.
            after_call R (Call.set_lost_since t') tt (λ _ _. Keeps-ret R (down, retried refl)))))
          (λ e. after_call R Call.hosts tt (λ hs _.
            Keeps-if R (length hs == 1)
              (λ one.
                Keeps-ret R (down, has_evidence (only_host (first_count c (length hs) 1 [] one))))
              (λ more. keep_or_fence_lem c _ down)))))))
  where
    R : Rules
    R = lost_rules c

-- ===== src/Lost/Fence.antt =====
-- When a process that has lost the DCS opens and closes the local node, and that it leaves the node
-- open only on evidence of its own.
use mathlib.Core.List.{append-nil, append_assoc}
use rdsync.Base.{
  ℕ, ◌==◌, String, Bool, true, false, not, ◌&&◌, ◌||◌, Option, none, some, List, [], ◌∷◌, ◌++◌,
  length, Result, ok, err, ◌≡◌, refl, ◌∙◌,
}
use rdsync.Base.Hosts
use rdsync.Types.{
  HostState, ReplicaState, ShardState, AppState, state_init, state_lost, state_candidate,
  state_manager, state_maintenance,
}
use rdsync.Replication.{replicates, is_lagging}
use rdsync.Actions.{Call, Reply, Settings, get_host_states, get_shard_state_from_db}
use rdsync.Actions.Hoare.{Rules, Keeps, Keeps-ret, Keeps->>=, Keeps-mono}
use rdsync.Actions.Steps.{after_call}
use rdsync.Availability.{replicas_run}

-- What the turn has seen: the states of the hosts since they were last listed, how many hosts there
-- were each time, and what `IsOffline` has said, of which host.
pub record Seen : Type 0 where
  pub connected : Bool
  pub counts : List ℕ
  pub states : ShardState
  pub offline : Option (String × Bool)
  pub unread : Option String
  pub reconnected : Bool
  pub closed : Bool

abbrev pub nothing_seen : Seen
nothing_seen = record {
  connected = true;
  counts = [];
  states = [];
  offline = none;
  unread = none;
  reconnected = false;
  closed = false;
}

abbrev pub see : Seen → (c : Call) → Reply c → Seen
see k Call.dcs_is_connected b = record k { connected = b }
see k Call.hosts hs = record k { counts = length hs ∷ k.counts; states = [] }
see k (Call.host_state h) s = record k { states = k.states ++ (h, s) ∷ [] }
see k (Call.is_offline h) (ok b) = record k { offline = some (h, b) }
see k (Call.is_offline h) (err e) = record k { unread = some h }
see k Call.dcs_reconnect r = record k { reconnected = true }
see k (Call.set_offline h) r = record k { closed = true }
see k c r = k

abbrev pub has_count : List ℕ → ℕ → Bool
has_count [] n = false
has_count (m ∷ ms) n = m == n || has_count ms n

abbrev pub is_fresh : Settings → Option ReplicaState → Bool
is_fresh c none = false
is_fresh c (some rs) = not (is_lagging c.lag false rs)

abbrev pub follows : Settings → String → Option HostState → Option HostState → Bool
follows c m none l = false
follows c m (some ms) none = false
follows c m (some ms) (some l) =
    ms.ping_ok
    && ms.ping_stable
    && replicates c.parse_ip (some ms) l.replica_state c.hostname (c.node m) false
    && is_fresh c l.replica_state

-- Why the local node may stay online: it is the only host, enough replicas follow it, or it
-- replicates from a master that answers, and is not stale.
pub data Evidence (c : Settings) (k : Seen) : Type 0 where
  only_host : has_count k.counts 1 ≡ true → Evidence c k
  followed :
      (n : ℕ)
      → has_count k.counts n ≡ true
      → replicas_run c n k.states (Hosts.get k.states c.hostname) ≡ true
      → Evidence c k
  following :
      (m : String)
      → follows c m (Hosts.get k.states m) (Hosts.get k.states c.hostname) ≡ true
      → Evidence c k

-- The local node, while there is no connection to the DCS, and in the state that is to be changed.
abbrev pub MayCall : Settings → Seen → Call → Type 0
MayCall c k (Call.set_online h) =
    (h ≡ c.hostname) × (k.connected ≡ false) × (k.offline ≡ some (c.hostname, true)) × Evidence c k
MayCall c k (Call.set_offline h) =
    (h ≡ c.hostname) × (k.connected ≡ false) × (k.offline ≡ some (c.hostname, false))
MayCall c k call = Unit {0}

abbrev pub lost_rules : Settings → Rules
lost_rules c = record {
  Facts = Seen;
  track = see;
  Possible = λ k call r. Unit {0};
  Allowed = MayCall c;
  Endless = Unit {0};
}

-- Why the turn is over: a new connection was tried, the local node's state could not be read, the
-- node is offline, it was told to go offline, or there is evidence for it.
pub data IsSafe (c : Settings) (t : Seen) : Type 0 where
  retried : t.reconnected ≡ true → IsSafe c t
  unknown : t.unread ≡ some c.hostname → IsSafe c t
  is_closed : t.offline ≡ some (c.hostname, true) → IsSafe c t
  closing : t.closed ≡ true → IsSafe c t
  has_evidence : Evidence c t → IsSafe c t

abbrev pub Stays : Settings → Result AppState → Seen → Type 0
Stays c (ok state_candidate) t = t.connected ≡ true
Stays c (ok state_lost) t = (t.connected ≡ false) × IsSafe c t
Stays c (ok state_manager) t = ⊥
Stays c (ok state_init) t = ⊥
Stays c (ok state_maintenance) t = ⊥
Stays c (err e) t = ⊥

module _ (c : Settings) where
  abbrev R : Rules
  R = lost_rules c

  -- The states that were read are what the turn has seen.
  abbrev Added : Seen → Result ShardState → Seen → Type 0
  Added k (ok st) t = t ≡ record k { states = k.states ++ st }
  Added k (err e) t = ⊥

  get_host_states_lem : (hs : List String) (k : Seen) → Keeps R (get_host_states hs) k (Added k)
  unfolding get_host_states
  get_host_states_lem [] k = Keeps-ret R (rw append-nil refl)
  get_host_states_lem (h ∷ hs) k = after_call R (Call.host_state h) tt (λ s _.
      Keeps->>= R (get_host_states_lem hs _)
        (λ rest t same. Keeps-ret R (same ∙ (rw append_assoc refl))) (λ e t h'. absurd h'))

  -- The hosts were counted, their states read, and nothing else has changed.
  abbrev pub Listed : Seen → Result ShardState → Seen → Type 0
  Listed k (ok st) t = (n : ℕ) × (t ≡ record k { counts = n ∷ k.counts; states = st })
  Listed k (err e) t = ⊥

  pub get_shard_state_lem : (k : Seen) → Keeps R get_shard_state_from_db k (Listed k)
  unfolding get_shard_state_from_db
  get_shard_state_lem k =
      after_call R Call.hosts tt
        (λ hs _. Keeps-mono R (listed (length hs)) (get_host_states_lem hs _))
    where
      listed :
          (n : ℕ) (r : Result ShardState) (t : Seen)
          → Added (record k { counts = n ∷ k.counts; states = [] }) r t
          → Listed k r t
      listed n (ok st) t h = (n, h)
      listed n (err e) t h = h

-- ===== src/Repair/Local/Opens.antt =====
-- When the repair of the local node sets it online.
use rdsync.Availability.{read_active_nodes, read_active}
use rdsync.Master.{promote_in_cluster, promote, promote_by_majority, promote_with}
use rdsync.Repair.Local.{any_ahead, Return, if_promoted, if_active, promote_alone}
use mathlib.Core.List.{append-nil, append_assoc}
use rdsync.Base.{
  ℕ, ◌==◌, ◌≤◌, String, str_eq, Bool, true, false, Option, none, some, List, [], ◌∷◌, ◌++◌, length,
  not_found, exists, malformed, failed, Result, ok, err, ◌≡◌, ◌⊎◌, inl, inr, refl, ◌∙◌, arith,
  if◌then◌else◌,
}
use rdsync.Base.Hosts
use rdsync.Types.{HostState, ShardState, AppMode, mode_sentinel, mode_cluster, Time}
use rdsync.Lag.{get_offset}
use rdsync.Failover.{get_num_replicas_to_write}
use rdsync.Actions.{
  ret, handle, Call, Reply, Act, Settings, Done, get_host_states, get_shard_state_from_db,
}
use rdsync.Actions.Hoare.{Rules, Keeps, Keeps-ret, Keeps-raise, Keeps->>=, Keeps-handle, Keeps-mono}
use rdsync.Actions.Steps.{Keeps-if, after_call}
use rdsync.Actions.Only.{Only, Only-Keeps, only_rules}

-- What has been read last of a node and of the hosts, the lists of active nodes that the DCS has
-- given, the last one first, and how many replicas which host was last known to wait for.
pub record Opened : Type 0 where
  pub offline : Option (String × Bool)
  pub states : ShardState
  pub listed : List (List String)
  pub num : Option (String × ℕ)

abbrev pub nothing_opened : Opened
nothing_opened = record { offline = none; states = []; listed = []; num = none }

abbrev pub see : Opened → (c : Call) → Reply c → Opened
see k (Call.get_state h) n = record k { offline = some (h, n.is_offline) }
see k Call.hosts hs = record k { states = [] }
see k (Call.host_state h) s = record k { states = k.states ++ (h, s) ∷ [] }
see k Call.get_active_nodes (ok hs) = record k { listed = hs ∷ k.listed }
see k Call.get_active_nodes (err not_found) = record k { listed = [] ∷ k.listed }
see k (Call.get_num_quorum_replicas h) (ok n) = record k { num = some (h, n) }
see k (Call.set_num_quorum_replicas h n) (ok _, e) = record k { num = some (h, n) }
see k c r = k

abbrev pub OneOf : List String → List (List String) → Type 0
OneOf hs [] = ⊥
OneOf hs (x ∷ xs) = (x ≡ hs) ⊎ OneOf hs xs

-- The local node is the only host, or no active host was ahead of it.
abbrev pub IsCurrent : Settings → String → Opened → Type 0
IsCurrent c master k =
    ((length k.states == 1) ≡ true)
    ⊎ ((active : List String) × OneOf active k.listed
        × (any_ahead master (get_offset (Hosts.get k.states c.hostname)) active k.states ≡ false))

-- The local node waits for at least half as many replicas as the DCS has last listed active nodes.
abbrev pub Waits : Settings → Opened → Type 0
Waits c k =
    (active : List String) × (others : List (List String)) × (n : ℕ) × (k.listed ≡ active ∷ others)
    × (k.num ≡ some (c.hostname, n))
    × (get_num_replicas_to_write active ≤ n)

abbrev MayCall : Settings → String → Opened → Call → Type 0
MayCall c master k (Call.set_online h) =
    (h ≡ c.hostname)
    × (k.offline ≡ some (c.hostname, true))
    × (str_eq master c.hostname ≡ true → IsCurrent c master k × Waits c k)
MayCall c master k call = Unit {0}

abbrev pub open_rules : Settings → String → Rules
open_rules c master = record {
  Facts = Opened;
  track = see;
  Possible = λ k call r. Unit {0};
  Allowed = MayCall c master;
  Endless = Unit {0};
}

abbrev pub is_plain : Call → Bool
is_plain (Call.get_state h) = false
is_plain Call.hosts = false
is_plain (Call.host_state h) = false
is_plain Call.get_active_nodes = false
is_plain (Call.get_num_quorum_replicas h) = false
is_plain (Call.set_num_quorum_replicas h n) = false
is_plain (Call.set_online h) = false
is_plain c = true

-- Nothing is opened; the local node's state is not read again.
abbrev pub is_closed : Call → Bool
is_closed (Call.get_state h) = false
is_closed (Call.set_online h) = false
is_closed c = true

module _ (c : Settings) (master : String) where
  abbrev R : Rules
  R = open_rules c master

  pub plain_part :
      {A : Type 0} {m : Act A} {k : Opened} → Only is_plain m → Keeps R m k (λ r t. t ≡ k)
  plain_part {k = k} =
      Only-Keeps is_plain R tt (λ t. t ≡ k) (λ s call p e. ground arith)
        (λ s call r p e. ground arith) refl

  pub closed_part :
      {A : Type 0} {m : Act A} {k : Opened}
      → Only is_closed m
      → Keeps R m k (λ r t. t.offline ≡ k.offline)
  closed_part {k = k} =
      Only-Keeps is_closed R tt (λ t. t.offline ≡ k.offline) (λ s call p e. ground arith)
        (λ s call r p e. ground arith) refl

  abbrev Added : Opened → Result ShardState → Opened → Type 0
  Added k (ok st) t = t ≡ record k { states = k.states ++ st }
  Added k (err e) t = ⊥

  get_host_states_lem : (hs : List String) (k : Opened) → Keeps R (get_host_states hs) k (Added k)
  unfolding get_host_states
  get_host_states_lem [] k = Keeps-ret R (rw append-nil refl)
  get_host_states_lem (h ∷ hs) k = after_call R (Call.host_state h) tt (λ s _.
      Keeps->>= R (get_host_states_lem hs _)
        (λ rest t same. Keeps-ret R (same ∙ (rw append_assoc refl))) (λ e t h'. absurd h'))

  abbrev pub Listed : Opened → Result ShardState → Opened → Type 0
  Listed k (ok st) t = t ≡ record k { states = st }
  Listed k (err e) t = ⊥

  pub get_shard_state_lem : (k : Opened) → Keeps R get_shard_state_from_db k (Listed k)
  unfolding get_shard_state_from_db
  get_shard_state_lem k =
      after_call R Call.hosts tt (λ hs _. Keeps-mono R listed_states (get_host_states_lem hs _))
    where
      listed_states :
          (r : Result ShardState) (t : Opened) → Added (record k { states = [] }) r t → Listed k r t
      listed_states (ok st) t h = h
      listed_states (err e) t h = h

  -- The last list is the one that was read.
  abbrev pub Read : Opened → Result (List String) → Opened → Type 0
  Read k (ok hs) t = t ≡ record k { listed = hs ∷ k.listed }
  Read k (err e) t = t ≡ k

  reply_lem :
      (r : Result (List String)) (k : Opened)
      → Keeps R (read_active r) (see k Call.get_active_nodes r) (Read k)
  unfolding read_active
  reply_lem (ok hs) k = Keeps-ret R refl
  reply_lem (err not_found) k = Keeps-ret R refl
  reply_lem (err exists) k = Keeps-raise R refl
  reply_lem (err malformed) k = Keeps-raise R refl
  reply_lem (err (failed m)) k = Keeps-raise R refl

  abbrev pub Caught : Opened → Result (Result (List String)) → Opened → Type 0
  Caught k (ok r) t = Read k r t
  Caught k (err e) t = ⊥

  pub read_lem : (k : Opened) → Keeps R (handle read_active_nodes ret) k (Caught k)
  unfolding read_active_nodes
  read_lem k =
      Keeps-handle R (after_call R Call.get_active_nodes tt (λ r _. reply_lem r k))
        (λ r t h. Keeps-ret R h)

  -- An early return decides nothing; otherwise the node may be opened as far as the hosts go.
  abbrev pub Decides : Result Return → Opened → Type 0
  Decides (ok none) t =
      (t.offline ≡ some (c.hostname, true))
      × (str_eq master c.hostname ≡ true → IsCurrent c master t)
  Decides (ok (some b)) t = Unit {0}
  Decides (err e) t = Unit {0}

  pub if_active_lem :
      (s : HostState) (st : ShardState) (r : Result (List String)) (k t : Opened)
      → Read k r t
      → k.offline ≡ some (c.hostname, true)
      → k.states ≡ st
      → Hosts.get st c.hostname ≡ some s
      → Keeps R (if_active master s st r) t Decides
  unfolding if_active
  if_active_lem s st (err e) k t read off seen is = Keeps-ret R tt
  if_active_lem s st (ok active) k t read off seen is =
      Keeps-ret R (decided (any_ahead master (get_offset (some s)) active st) refl)
    where
      decided :
          (b : Bool)
          → any_ahead master (get_offset (some s)) active st ≡ b
          → Decides (ok (if b then some false else none)) t
      decided true e = tt
      decided false e = (rw read off, λ _. inr (active, rw read (inl refl), rw (read, seen, is) e))

  by_majority_plain : (m : String) → Only is_plain (promote_by_majority m)
  unfolding promote_by_majority
  by_majority_plain m = search (only_rules) depth 12

  promote_with_plain :
      (mode : AppMode) (m old : String) (st : ShardState) (start : Time)
      → Only is_plain (promote_with mode c m old st start)
  unfolding promote_with promote_in_cluster
  promote_with_plain mode_sentinel m old st start = search (only_rules) depth 8
  promote_with_plain mode_cluster m old st start = search (only_rules, by_majority_plain) depth 15

  promote_plain :
      (m old : String) (st : ShardState) (start : Time) → Only is_plain (promote c m old st start)
  unfolding promote
  promote_plain m old st start = search (only_rules, promote_with_plain) depth 12

  if_promoted_lem :
      (r : Done) (t : Opened)
      → t.offline ≡ some (c.hostname, true)
      → (length t.states == 1) ≡ true
      → Keeps R (if_promoted r) t Decides
  unfolding if_promoted
  if_promoted_lem (err e) t off one = Keeps-ret R tt
  if_promoted_lem (ok _) t off one = Keeps-ret R (off, λ _. inl one)

  pub promote_alone_lem :
      (s : HostState) (st : ShardState) (k : Opened)
      → k.offline ≡ some (c.hostname, true)
      → (length k.states == 1) ≡ true
      → Keeps R (promote_alone c master s st) k Decides
  unfolding promote_alone
  promote_alone_lem s st k off one =
      Keeps-if R s.is_master (λ e. Keeps-ret R (off, λ _. inl one))
        (λ e. after_call R Call.now tt (λ t _.
          Keeps->>= R {P = λ r u. u ≡ k}
            (Keeps-handle R (plain_part (promote_plain master master st t))
              (λ r u same. Keeps-ret R same))
            (λ r u same. if_promoted_lem r u (rw same off) (rw same one)) (λ x u same. tt)))

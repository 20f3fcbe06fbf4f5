-- ===== src/Manager/Lock.antt =====
-- What a turn of the manager does only with the lock, when it asks for a failover, and what the turn
-- ends in.
use rdsync.Base.{
  or_zero, ◌++◌, ◌∷◌, if◌then◌else◌, [], HostMap, String, Bool, true, false, Option, none, some,
  List, Result, ok, err, not_found, ◌≡◌, ◌⊎◌, refl, ◌∙◌, arith,
}
use rdsync.Types.{
  zero_time, HostState, Time, ShardState, Switchover, AppState, state_init, state_lost,
  state_maintenance, state_candidate, state_manager,
}
use rdsync.Base.Hosts
use rdsync.Failover.{approve_failover, failover_of}
use rdsync.Actions.{Call, Reply, Act, Settings}
use rdsync.Actions.Hoare.{Rules, Keeps}
use rdsync.Actions.Only.{Only, Only-Keeps}
use rdsync.Kinds.{is_steady}
use rdsync.Kinds.Steady.{IsSteady}

-- What has been heard in this turn; before it has, the worst is assumed. `states` are the hosts as
-- they were first read (`taking` while they are, `taken` since), `master` the host that the DCS has
-- named as the master or has stored as such before it was asked for maintenance, `active` the list
-- of active nodes that the DCS has given last before it was asked for maintenance (`settled`
-- since), `fails` the times of failure that the process remembers, and `clocks` the readings of the
-- clock, the last one first.
pub record Held : Type 0 where
  pub connected : Bool
  pub locked : Bool
  pub released : Bool
  pub free : Bool
  pub idle : Bool
  pub last : Option (Result Switchover)
  pub taking : Bool
  pub taken : Bool
  pub states : ShardState
  pub settled : Bool
  pub master : Option String
  pub active : List String
  pub fails : HostMap Time
  pub clocks : List Time

abbrev pub nothing_held : Held
nothing_held = record {
  connected = false;
  locked = false;
  released = false;
  free = false;
  idle = false;
  last = none;
  taking = false;
  taken = false;
  states = [];
  settled = false;
  master = none;
  active = [];
  fails = [];
  clocks = [];
}

-- The hosts are listed: first for their states, and then no more.
abbrev pub list_hosts : Held → Held
list_hosts k =
    if k.taken
    then k
    else if k.taking
    then record k { taking = false; taken = true }
    else record k { taking = true }

abbrev pub read_host : String → HostState → Held → Held
read_host h s k = if k.taking then record k { states = k.states ++ (h, s) ∷ [] } else k

abbrev pub note_active : List String → Held → Held
note_active hs k = if k.settled then k else record k { active = hs }

abbrev pub name_master : String → Held → Held
name_master m k = if k.settled then k else record k { master = some m }

abbrev pub hear : Held → (c : Call) → Reply c → Held
hear k Call.dcs_is_connected b = record k { connected = b }
hear k Call.acquire_manager_lock b = record k { locked = b }
hear k Call.release_manager_lock r = record k { released = true }
hear k Call.get_maintenance (ok m) = record k { free = false; settled = true }
hear k Call.get_maintenance (err not_found) = record k { free = true; settled = true }
hear k Call.get_current_switch (ok s) = record k { idle = false }
hear k Call.get_current_switch (err not_found) = record k { idle = true }
hear k Call.get_last_switch r = record k { last = some r }
hear k Call.hosts hs = list_hosts k
hear k (Call.host_state h) s = read_host h s k
hear k Call.get_active_nodes (ok hs) = note_active hs k
hear k Call.get_active_nodes (err not_found) = note_active [] k
hear k Call.get_master_node (ok m) = name_master m k
hear k (Call.set_master_node m) (ok _) = name_master m k
hear k Call.get_fail_times m = record k { fails = m }
hear k (Call.set_fail_times m) r = record k { fails = m }
hear k Call.now t = record k { clocks = t ∷ k.clocks }
hear k c r = k

-- The calls that change neither a server nor the DCS.
abbrev pub is_silent : Call → Bool
is_silent Call.now = true
is_silent (Call.sleep d) = true
is_silent Call.hosts = true
is_silent (Call.host_state h) = true
is_silent Call.dcs_is_connected = true
is_silent Call.update_hosts_info = true
is_silent Call.get_active_nodes = true
is_silent Call.get_poison_pill = true
is_silent Call.get_maintenance = true
is_silent Call.get_master_node = true
is_silent Call.get_last_switch = true
is_silent Call.get_last_rejected_switch = true
is_silent Call.get_priorities = true
is_silent (Call.get_health h) = true
is_silent Call.get_current_switch = true
is_silent Call.get_manager_lock = true
is_silent Call.acquire_manager_lock = true
is_silent c = false

-- A failover has been approved of: of the master that the DCS has named or stored, one of the
-- hosts, by their states as the turn has first read them, the active nodes that the DCS has given,
-- the time since when the process remembers that the master fails, two readings of the clock after
-- that, and the last switchover that the DCS holds.
pub record IsApproved (c : Settings) (k : Held) (sw : Switchover) : Type 0 where
  pub master : String
  pub now : Time
  pub later : Time
  pub created_at : Time
  pub earlier : List Time
  pub known : Result Switchover
  pub is_read : (k.taken ≡ true) × (k.settled ≡ true)
  pub is_named : k.master ≡ some master
  pub is_host : (s : HostState) × (Hosts.get k.states master ≡ some s)
  pub timed : k.clocks ≡ created_at ∷ later ∷ now ∷ earlier
  pub heard : k.last ≡ some known
  pub approved :
      approve_failover c.failover k.states k.active
        (or_zero zero_time (Hosts.get k.fails master))
        now
        later
        known
      ≡ ok tt
  pub asked : sw ≡ failover_of c.hostname created_at master

-- The lock is held, and has not been given back.
abbrev pub Holds : Held → Type 0
Holds k = (k.connected ≡ true) × (k.locked ≡ true) × (k.released ≡ false)

abbrev pub MayCall : Settings → Held → Call → Type 0
MayCall c k (Call.create_current_switch sw) =
    Holds k × (k.free ≡ true) × (k.idle ≡ true) × IsApproved c k sw
MayCall c k call = is_silent call ≡ false → Holds k

abbrev pub manager_rules : Settings → Rules
manager_rules c = record {
  Facts = Held;
  track = hear;
  Possible = λ k c r. Unit {0};
  Allowed = MayCall c;
  Endless = Unit {0};
}

-- What the next state goes by; the turn ends in no error.
abbrev pub EndsBy : Result AppState → Held → Type 0
EndsBy (ok state_manager) t = Holds t
EndsBy (ok state_lost) t = t.connected ≡ false
EndsBy (ok state_maintenance) t = Holds t × (t.free ≡ false)
EndsBy (ok state_candidate) t = (t.locked ≡ false) ⊎ (t.released ≡ true)
EndsBy (ok state_init) t = ⊥
EndsBy (err e) t = ⊥

-- The calls after which the same is known.
abbrev pub is_plain : Call → Bool
is_plain Call.dcs_is_connected = false
is_plain Call.acquire_manager_lock = false
is_plain Call.release_manager_lock = false
is_plain Call.get_maintenance = false
is_plain Call.get_current_switch = false
is_plain Call.get_last_switch = false
is_plain Call.hosts = false
is_plain (Call.host_state h) = false
is_plain Call.get_active_nodes = false
is_plain Call.get_fail_times = false
is_plain Call.get_master_node = false
is_plain (Call.set_master_node m) = false
is_plain (Call.set_fail_times m) = false
is_plain Call.now = false
is_plain (Call.create_current_switch s) = false
is_plain c = true

-- Nothing is known less than before of the connection, the lock and maintenance.
abbrev pub Same : Held → Held → Type 0
Same k t =
    (t.connected ≡ k.connected)
    × (t.locked ≡ k.locked)
    × (t.released ≡ k.released)
    × (t.free ≡ k.free)

pub Same-Holds : (k t : Held) → Same k t → Holds k → Holds t
Same-Holds k t s h = ground arith

hear_steady :
    (k s : Held) (c : Call) (r : Reply c) → is_steady c ≡ true → Same k s → Same k (hear s c r)
hear_steady k s c r p h = ground arith

hear_plain : (k : Held) (c : Call) (r : Reply c) → is_plain c ≡ true → hear k c r ≡ k
hear_plain k c r p = ground arith

-- The hosts have been read, with these states, the active nodes, which are these, and the master.
abbrev pub Carries : ShardState → List String → String → Held → Type 0
Carries st hs master k =
    Holds k
    × (k.taking ≡ false)
    × (k.taken ≡ true)
    × (k.states ≡ st)
    × (k.settled ≡ true)
    × (k.active ≡ hs)
    × (k.master ≡ some master)

pub Carries-steady :
    (st : ShardState) (hs : List String) (master : String) (free : Bool) (s : Held) (c : Call)
    (r : Reply c)
    → is_steady c ≡ true
    → Carries st hs master s × (s.free ≡ free)
    → Carries st hs master (hear s c r) × ((hear s c r).free ≡ free)
Carries-steady st hs master free s c r p h = ground arith

module _ (c : Settings) where
  abbrev R : Rules
  R = manager_rules c

  pub steady_allowed :
      (k s : Held) (call : Call) → is_steady call ≡ true → Holds s → MayCall c s call
  steady_allowed k s call p h = ground arith

  plain_allowed : (s : Held) (call : Call) → is_plain call ≡ true → Holds s → MayCall c s call
  plain_allowed s call p h = ground arith

  pub steady-Keeps :
      {A : Type 0} {m : Act A} {k : Held} → Holds k → IsSteady m → Keeps R m k (λ r t. Same k t)
  steady-Keeps {k = k} holds =
      Only-Keeps is_steady R tt (λ t. Same k t)
        (λ s call p same. steady_allowed k s call p (Same-Holds k s same holds))
        (λ s call r p same. hear_steady k s call r p same) (refl, refl, refl, refl)

  pub plain-Keeps :
      {A : Type 0} {m : Act A} {k : Held} → Holds k → Only is_plain m → Keeps R m k (λ r t. t ≡ k)
  plain-Keeps {k = k} holds =
      Only-Keeps is_plain R tt (λ t. t ≡ k)
        (λ s call p same. plain_allowed s call p (rw same holds))
        (λ s call r p same. hear_plain s call r p ∙ same) refl

  -- A steady part loses nothing of the hosts and the active nodes.
  pub steady-Carries :
      {A : Type 0} {m : Act A} {k : Held} (st : ShardState) (hs : List String) (master : String)
      → Carries st hs master k
      → IsSteady m
      → Keeps R m k (λ r t. Carries st hs master t × (t.free ≡ k.free))
  steady-Carries {k = k} st hs master h =
      Only-Keeps is_steady R tt (λ t. Carries st hs master t × (t.free ≡ k.free))
        (λ s call p (i, _). steady_allowed k s call p i.0)
        (λ s call r p i. Carries-steady st hs master k.free s call r p i) (h, refl)

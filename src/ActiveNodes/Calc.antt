-- ===== src/ActiveNodes/Calc.antt =====
-- internal/app/active_nodes.go: `calcActiveNodes`. A host that the DCS state lacks is a nil pointer
-- there, and `none` is its panic. The times since when hosts fail, `app.nodeFailTime`, come back
-- as they are left; `now` and `later` are the two readings of the clock at each failing host.
pub mod Loop
pub mod Laws
use rdsync.Base.{
  ℕ, ltb, ◌==◌, String, str_eq, contains, Bool, true, false, not, ◌&&◌, ◌||◌, Option, none, some,
  List, [], ◌∷◌, ◌++◌, HostMap, or_zero, if◌then◌else◌,
}
use rdsync.Base.Int.{ltb_ℤ}
use rdsync.Base.Text.{sort_strings}
use rdsync.Base.Hosts
use rdsync.Types.{
  Time, Duration, zero_time, is_zero, since, HostState, ReplicaState, ShardState, zero_state,
}
use rdsync.Replication.{Node, replicates}

-- What the loop over the hosts does not change.
pub record Calc : Type 0 where
  pub parse_ip : String → Option ℕ
  pub inactivation_delay : Duration
  pub master : String
  pub master_node : Option Node
  pub master_state : HostState
  pub old_active : List String
  pub now : String → Time
  pub later : String → Time

-- What is decided of one host, and when it failed.
pub record Decision : Type 0 where
  pub active : Bool
  pub fail_time : Option Time

-- A host that does not answer, by what the DCS holds of it.
unfoldable pub decide_silent : Calc → String → HostState → Option Time → Decision
decide_silent c host dcs fail =
    if dcs.ping_ok
    then record { active = contains c.old_active host; fail_time = fail }
    else (let t = or_zero zero_time fail in
        let failed = if is_zero t then c.now host else t in
        record {
          active =
              ltb_ℤ (since (c.later host) failed) c.inactivation_delay
              && contains c.old_active host;
          fail_time = if is_zero t then some (c.now host) else fail;
        })

unfoldable pub decide_answering : Calc → String → HostState → HostState → Option Time → Decision
decide_answering c host node dcs fail = record {
  active = elim node.replica_state [
    | none ↦ false
    | some rs ↦ not (
        (c.master_state.ping_ok && c.master_state.ping_stable)
        && not (replicates c.parse_ip (some c.master_state) (some rs) host c.master_node false))
  ];
  fail_time = if dcs.is_offline then fail else none;
}

unfoldable pub decide : Calc → String → HostState → HostState → Option Time → Decision
decide c host node dcs fail =
    if not node.ping_ok
    then decide_silent c host dcs fail
    else decide_answering c host node dcs fail

abbrev pub set_time : HostMap Time → String → Option Time → HostMap Time
set_time m host none = Hosts.delete m host
set_time m host (some t) = Hosts.put m host t

abbrev pub cons_if : Bool → String → List String → List String
cons_if true x xs = x ∷ xs
cons_if false x xs = xs

-- The body of the second loop: whether the host is appended.
unfoldable pub visit :
    Calc → ShardState → String → HostState → HostMap Time → Option (Bool × HostMap Time)
visit c dcs host node fails =
    if str_eq host c.master then some (false, fails) else elim (Hosts.get dcs host) [
      | none ↦ none
      | some d ↦
          let decision = decide c host node d (Hosts.get fails host) in
          some (decision.active, set_time fails host decision.fail_time)
    ]

abbrev pub prepend :
    Bool → String → Option (List String × HostMap Time) → Option (List String × HostMap Time)
prepend b host none = none
prepend b host (some (xs, fails)) = some (cons_if b host xs, fails)

unfoldable pub calc_loop :
    Calc → ShardState → ShardState → HostMap Time → Option (List String × HostMap Time)
calc_loop c dcs [] fails = some ([], fails)
calc_loop c dcs ((host, node) ∷ rest) fails = elim (visit c dcs host node fails) [
  | none ↦ none
  | some (b, fails') ↦ prepend b host (calc_loop c dcs rest fails')
]

abbrev pub finish :
    Option HostState
    → String
    → Option (List String × HostMap Time)
    → Option (List String × HostMap Time)
finish master_state master none = none
finish none master (some (xs, fails)) = some (sort_strings xs, fails)
finish (some _) master (some (xs, fails)) = some (sort_strings (master ∷ xs), fails)

-- The state of the master is the zero value where the shard's state does not have it.
abbrev pub settings :
    (String → Option ℕ)
    → Duration
    → Option Node
    → (String → Time)
    → (String → Time)
    → ShardState
    → List String
    → String
    → Calc
settings parse_ip delay master_node now later state old_active master = record {
  parse_ip = parse_ip;
  inactivation_delay = delay;
  master = master;
  master_node = master_node;
  master_state = or_zero zero_state (Hosts.get state master);
  old_active = old_active;
  now = now;
  later = later;
}

unfoldable pub calc_active_nodes :
    Calc → ShardState → ShardState → HostMap Time → Option (List String × HostMap Time)
calc_active_nodes c state dcs fails =
    finish (Hosts.get state c.master) c.master (calc_loop c dcs state fails)

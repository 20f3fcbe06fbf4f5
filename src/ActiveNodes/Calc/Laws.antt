-- ===== src/ActiveNodes/Calc/Laws.antt =====
-- Which hosts `calcActiveNodes` returns, and that it does not panic.
use mathlib.Core.Path.{subst, ap, ◌∙◌}
use rdsync.Base.{
  refl, Bool-cases, ◌⊎◌, String, str_eq, contains, ◌≡◌, ◌≢◌, inl, inr, Bool, true, false, ◌||◌,
  ◌&&◌, Option, none, some, Option-cases, List, [], ◌∷◌, HostMap, arith,
}
use rdsync.Base.Int.{◌≤ℤ◌}
use rdsync.Base.Text.{sort_strings, IsSorted, sort_strings-IsSorted, contains-sort_strings}
use rdsync.Base.Hosts
use rdsync.Types.{Time, since, HostState, ShardState, ReplicaState}
use rdsync.Replication.{replicates}
use rdsync.ActiveNodes.Calc.{
  is_zero, Calc, decide, decide_silent, decide_answering, visit, calc_loop, finish,
  calc_active_nodes,
}
use rdsync.ActiveNodes.Calc.Loop.{Distinct, is_kept, is_chosen, calc_loop-contains}

-- The master is returned if the shard has it, another host if the loop chooses it.
abbrev pub or_master : Option HostState → String → String → Bool → Bool
or_master none master host chosen = chosen
or_master (some _) master host chosen = str_eq master host || chosen

abbrev pub is_active : Calc → ShardState → ShardState → HostMap Time → String → Bool
is_active c state dcs fails host =
    or_master (Hosts.get state c.master) c.master host (is_chosen c state dcs fails host)

finish_lem :
    (chosen : String → Bool) (master : String) (fails' : HostMap Time) (xs : List String)
    (m : Option HostState) (r : Option (List String × HostMap Time))
    → ((ys : List String)
        → r ≡ some (ys, fails')
        → (host : String) → contains ys host ≡ chosen host)
    → finish m master r ≡ some (xs, fails')
    → IsSorted xs × ((host : String) → contains xs host ≡ or_master m master host (chosen host))
finish_lem chosen master fails' xs m none loop e = cc
finish_lem chosen master fails' xs none (some (ys, t)) loop e =
    let sorted : sort_strings ys ≡ xs = cc in
    let times : t ≡ fails' = cc in
    (
      subst IsSorted sorted (sort_strings-IsSorted ys),
      (λ host.
          rw (← sorted)
            (contains-sort_strings ys host ∙ loop ys (ap (λ x. some (ys, x)) times) host)),
    )
finish_lem chosen master fails' xs (some s) (some (ys, t)) loop e =
    let sorted : sort_strings (master ∷ ys) ≡ xs = cc in
    let times : t ≡ fails' = cc in
    (
      subst IsSorted sorted (sort_strings-IsSorted (master ∷ ys)),
      (λ host. rw (← sorted) (
          contains-sort_strings (master ∷ ys) host
          ∙ ap (λ b. str_eq master host || b) (loop ys (ap (λ x. some (ys, x)) times) host))),
    )

calc_active_nodes_members :
    (c : Calc) (state dcs : ShardState) (fails fails' : HostMap Time) (xs : List String)
    → Distinct state
    → calc_active_nodes c state dcs fails ≡ some (xs, fails')
    → IsSorted xs × ((host : String) → contains xs host ≡ is_active c state dcs fails host)
unfolding calc_active_nodes
calc_active_nodes_members c state dcs fails fails' xs distinct e =
    finish_lem (is_chosen c state dcs fails) c.master fails' xs (Hosts.get state c.master)
      (calc_loop c dcs state fails)
      (λ ys k host. calc_loop-contains c dcs state fails fails' ys host distinct k) e

-- The DCS state has every host of the shard's state.
abbrev pub Covers : ShardState → ShardState → Type 0
Covers dcs [] = Unit
Covers dcs ((h, s) ∷ rest) = (Hosts.get dcs h ≢ none) × Covers dcs rest

visit_total :
    (c : Calc) (dcs : ShardState) (h : String) (s : HostState) (fails : HostMap Time)
    → Hosts.get dcs h ≢ none
    → visit c dcs h s fails ≢ none
unfolding visit
visit_total c dcs h s fails there = ground arith

calc_loop_total :
    (c : Calc) (dcs state : ShardState) (fails : HostMap Time)
    → Covers dcs state
    → calc_loop c dcs state fails ≢ none
unfolding calc_loop
calc_loop_total c dcs [] fails h = λ e. cc
calc_loop_total c dcs ((h, s) ∷ rest) fails (there, more) =
    elim (Option-cases (visit c dcs h s fails)) [
      | inl panics ↦ absurd (visit_total c dcs h s fails there panics)
      | inr ((b, fails₁), seen) ↦ λ e. ground (arith, calc_loop_total c dcs rest fails₁ more)
    ]

calc_active_nodes_total :
    (c : Calc) (state dcs : ShardState) (fails : HostMap Time)
    → Covers dcs state
    → calc_active_nodes c state dcs fails ≢ none
unfolding calc_active_nodes
calc_active_nodes_total c state dcs fails h =
    λ e. ground (arith, calc_loop_total c dcs state fails h)

-- If the DCS state has every host of the shard's state, and these are distinct, then the
-- calculation does not panic, and it returns a sorted list of the following hosts alone: the
-- master, if the shard has it, and each other host of the shard that `decide` keeps, by its own
-- state, its state in the DCS and the time when it failed.
pub calc_active_nodes_correct :
    (c : Calc) (state dcs : ShardState) (fails : HostMap Time)
    → Distinct state
    → Covers dcs state
    → (xs : List String) × (fails' : HostMap Time) × (calc_active_nodes c state dcs fails
        ≡ some (xs, fails'))
      × IsSorted xs
      × ((host : String) → contains xs host ≡ is_active c state dcs fails host)
calc_active_nodes_correct c state dcs fails distinct covers =
    elim (Option-cases (calc_active_nodes c state dcs fails)) [
      | inl panics ↦ absurd (calc_active_nodes_total c state dcs fails covers panics)
      | inr ((xs, fails'), e) ↦
          let (sorted, members) =
            calc_active_nodes_members c state dcs fails fails' xs distinct e in
          (xs, fails', e, sorted, members)
    ]

abbrev pub IsReplicaOf : Calc → String → HostState → Type 0
IsReplicaOf c host node =
    (rs : ReplicaState) × (node.replica_state ≡ some rs)
    × (((c.master_state.ping_ok && c.master_state.ping_stable) ≡ false)
        ⊎ (replicates c.parse_ip (some c.master_state) (some rs) host c.master_node false ≡ true))

kept_answering :
    (c : Calc) (host : String) (node d : HostState) (fail : Option Time)
    → (decide_answering c host node d fail).active ≡ true
    → IsReplicaOf c host node
unfolding decide_answering
kept_answering c host node d fail kept = elim (Option-cases node.replica_state) [
  | inl e ↦ ground arith
  | inr (rs, e) ↦ (rs, e, ground arith)
]

-- A host other than the master that is kept active either answers, as a replica that replicates
-- from the master unless the master itself does not answer steadily, or does not answer and was
-- active before.
pub kept_only_if :
    (c : Calc) (dcs : ShardState) (host : String) (node : HostState) (fail : Option Time)
    → is_kept c dcs host node fail ≡ true
    → ((node.ping_ok ≡ true) × IsReplicaOf c host node)
      ⊎ ((node.ping_ok ≡ false) × (contains c.old_active host ≡ true))
unfolding is_kept decide decide_silent
kept_only_if c dcs host node fail kept = elim (Bool-cases node.ping_ok) [
  | inl answers ↦ elim (Option-cases (Hosts.get dcs host)) [
    | inl e ↦ ground arith
    | inr (d, e) ↦ inl (answers, kept_answering c host node d fail (ground arith))
  ]
  | inr silent ↦ ground arith
]

abbrev pub HasFailedLong : Calc → String → Option Time → Type 0
HasFailedLong c host fail =
    (t : Time) × ((fail ≡ some t) ⊎ (t ≡ c.now host))
    × (c.inactivation_delay ≤ℤ since (c.later host) t)

dropped_silent :
    (c : Calc) (host : String) (d : HostState) (fail : Option Time)
    → contains c.old_active host ≡ true
    → (decide_silent c host d fail).active ≡ false
    → (d.ping_ok ≡ false) × HasFailedLong c host fail
unfolding decide_silent
dropped_silent c host d none old dropped = (ground arith, (c.now host, inr refl, ground arith))
dropped_silent c host d (some t) old dropped = (
  ground arith,
  elim (Bool-cases (is_zero t)) [
    | inl zero ↦ (c.now host, inr refl, ground arith)
    | inr set ↦ (t, inl refl, ground arith)
  ],
)

-- An active host other than the master that does not answer stops being active only if its health
-- is gone from the DCS too, and at least the inactivation delay has passed since it failed, which is
-- the recorded time or, if none is recorded, the present.
pub dropped_only_late :
    (c : Calc) (dcs : ShardState) (host : String) (node d : HostState) (fail : Option Time)
    → str_eq host c.master ≡ false
    → Hosts.get dcs host ≡ some d
    → contains c.old_active host ≡ true
    → node.ping_ok ≡ false
    → is_kept c dcs host node fail ≡ false
    → (d.ping_ok ≡ false) × HasFailedLong c host fail
unfolding is_kept decide
dropped_only_late c dcs host node d fail other there old silent dropped =
    dropped_silent c host d fail old (ground arith)

-- ===== src/Repair/Shard/Bounds.antt =====
-- How many replicas the repair of the shard sets to follow the master anew.
use rdsync.Base.{
  ℕ, suc, ◌+◌, ◌-◌, ◌≤◌, String, str_eq, Bool, true, false, not, ◌&&◌, Option, List, [], ◌∷◌,
  Result, ok, err, ◌≡◌, refl, arith, if◌then◌else◌,
}
use rdsync.Base.Int.{pos, pos_part, ltb_ℤ}
use rdsync.Base.Hosts
use rdsync.Types.{HostState, ShardState, AppMode, mode_sentinel, mode_cluster}
use rdsync.Actions.{ret, call, bind, Call, Reply, Act, Settings, Done}
use rdsync.Actions.Hoare.{Rules, Keeps, Keeps-ret, Keeps->>=, Keeps-handle, Keeps-mono}
use rdsync.Actions.Steps.{Keeps-if, after_call, after_check}
use rdsync.Actions.Only.{Only, Only-Keeps, only_rules}
use rdsync.Repair.{
  replicates, if_repaired, note_failure, repair_destructively, meet_if, make_replica,
  follow_and_resume, repair_replica,
}
use rdsync.Switchover.Perform.{open_master, if_raised, if_known, repair_master}
use rdsync.Repair.Shard.{add_if, is_syncing, collect, is_broken, repair_replicas, repair_shard}

-- How often a host has been told to follow a master.
abbrev told : ℕ → (c : Call) → Reply c → ℕ
told k (Call.sentinel_make_replica h m) r = suc k
told k (Call.cluster_make_replica h id) r = suc k
told k c r = k

abbrev pub count_rules : Rules
count_rules = record {
  Facts = ℕ;
  track = told;
  Possible = λ k c r. Unit {0};
  Allowed = λ k c. Unit {0};
  Endless = Unit {0};
}

-- The replicas that answer and take a full resynchronisation from the master.
abbrev pub syncing_replicas : Settings → Option HostState → String → ShardState → ℕ
syncing_replicas c ms master [] = 0
syncing_replicas c ms master ((h, s) ∷ rest) =
    if s.ping_ok && not (str_eq h master) && is_syncing c ms master h s
    then suc (syncing_replicas c ms master rest)
    else syncing_replicas c ms master rest

abbrev tells_none : Call → Bool
tells_none (Call.sentinel_make_replica h m) = false
tells_none (Call.cluster_make_replica h id) = false
tells_none c = true

abbrev R : Rules
R = count_rules

quiet_part : {A : Type 0} {m : Act A} {k : ℕ} → Only tells_none m → Keeps R m k (λ r t. t ≡ k)
quiet_part {k = k} =
    Only-Keeps tells_none R tt (λ t. t ≡ k) (λ s call p h. tt) (λ s call r p h. ground arith) refl

open_master_quiet : (h : String) (s : HostState) → Only tells_none (open_master h s)
unfolding open_master
open_master_quiet h s = search (only_rules) depth 15

if_raised_quiet : (h : String) (s : HostState) (r : Done) → Only tells_none (if_raised h s r)
unfolding if_raised
if_raised_quiet h s (err e) = search (only_rules)
if_raised_quiet h s (ok x) = open_master_quiet h s

if_known_quiet :
    (h : String) (hs : List String) (s : HostState) (r : Result ℕ)
    → Only tells_none (if_known h hs s r)
unfolding if_known
if_known_quiet h hs s (err e) = search (only_rules)
if_known_quiet h hs s (ok n) = search (only_rules, open_master_quiet, if_raised_quiet) depth 12

repair_master_quiet :
    (h : String) (hs : List String) (s : HostState) → Only tells_none (repair_master h hs s)
unfolding repair_master
repair_master_quiet h hs s = search (only_rules, if_known_quiet) depth 10

meet_if_quiet : (b : Bool) (h m : String) → Only tells_none (meet_if b h m)
unfolding meet_if
meet_if_quiet false h m = search (only_rules)
meet_if_quiet true h m = search (only_rules) depth 12

if_repaired_quiet : (r : Done) → Only tells_none (if_repaired r)
unfolding if_repaired
if_repaired_quiet (ok x) = search (only_rules)
if_repaired_quiet (err e) = search (only_rules)

destructive_quiet : (c : Settings) → Only tells_none (repair_destructively c)
unfolding repair_destructively note_failure
destructive_quiet c = search (only_rules, if_repaired_quiet) depth 20

abbrev AtMost : ℕ → {A : Type 0} → Result A → ℕ → Type 0
AtMost n r t = t ≤ n

make_replica_lem :
    (mode : AppMode) (h m : String) (k : ℕ) → Keeps R (make_replica mode h m) k (AtMost (suc k))
unfolding make_replica
make_replica_lem mode_sentinel h m k =
    after_call R (Call.sentinel_make_replica h m) tt (λ _ _. Keeps-ret R (omega arith))
make_replica_lem mode_cluster h m k = after_call R (Call.is_cluster_node_alone h) tt (λ r _.
    after_check R r (λ e. omega arith)
      (λ alone _.
        Keeps->>= R (quiet_part (meet_if_quiet alone h m))
          (λ _ t same. after_call R (Call.cluster_get_id m) tt (λ q _.
            after_check R q (λ e. omega (arith, same))
              (λ id _.
                after_call R (Call.cluster_make_replica h id) tt
                  (λ _ _. Keeps-ret R (omega (arith, same))))))
          (λ e t same. omega (arith, same))))

module _ (c : Settings) (ms : Option HostState) (master : String) where
  resume_quiet :
      (h : String) (s : HostState)
      → Only tells_none (
          if s.is_repl_paused
          then bind (call (Call.resume_replication h)) (λ _. ret tt)
          else ret tt)
  resume_quiet h s = search (only_rules) depth 10

  follow_lem :
      (h : String) (s : HostState) (k : ℕ)
      → Keeps R (follow_and_resume c h master ms s) k (AtMost (suc k))
  unfolding follow_and_resume
  follow_lem h s k =
      Keeps->>= R {P = AtMost (suc k)}
        (Keeps-if R (not (replicates c.parse_ip ms s.replica_state h (c.node master) true))
          (λ e. make_replica_lem c.mode h master k) (λ e. Keeps-ret R (omega arith)))
        (λ _ t le.
          Keeps-mono R (λ r u same. omega (arith, same, le)) (quiet_part (resume_quiet h s)))
        (λ e t le. le)

  repair_replica_lem :
      (h : String) (s : HostState) (k : ℕ)
      → Keeps R (repair_replica c h master ms s) k (AtMost (suc k))
  unfolding repair_replica
  repair_replica_lem h s k =
      Keeps->>= R
        (Keeps-if R (str_eq h c.hostname) (λ e. quiet_part (destructive_quiet c))
          (λ e. Keeps-ret R refl))
        (λ _ t same.
          Keeps->>= R {P = AtMost (suc k)}
            (Keeps-handle R (follow_lem h s t) (λ r u le. Keeps-ret R (omega (arith, same, le))))
            (λ _ u le. Keeps-ret R le) (λ e u le. le))
        (λ e t same. omega (arith, same))

  write_stop_quiet :
      (h : String) (s : HostState)
      → Only tells_none (
          if s.is_read_only then ret tt else bind (call (Call.set_read_only h false)) (λ _. ret tt))
  write_stop_quiet h s = search (only_rules) depth 10

  repair_replicas_lem :
      (n k : ℕ) (state : ShardState)
      → Keeps R
          (repair_replicas c ms master n state)
          k
          (AtMost (k + (pos_part c.max_parallel_syncs - n)))
  unfolding repair_replicas
  repair_replicas_lem n k [] = Keeps-ret R (omega arith)
  repair_replicas_lem n k ((h, s) ∷ rest) =
      Keeps->>= R (quiet_part (write_stop_quiet h s))
        (λ _ t same.
          Keeps-if R (is_broken c ms master h s && ltb_ℤ (pos n) c.max_parallel_syncs)
            (λ more.
              Keeps->>= R (repair_replica_lem h s t)
                (λ _ u le.
                  Keeps-mono R (λ r v le'. ground arith) (repair_replicas_lem (suc n) u rest))
                (λ e u le. ground arith))
            (λ _. rw same (repair_replicas_lem n k rest)))
        (λ e t same. omega (arith, same))

  -- What the first loop finds.
  abbrev Found : ShardState → ℕ → Result (ℕ × ShardState) → ℕ → Type 0
  Found state k (ok (n, replicas)) t = (t ≡ k) × (n ≡ syncing_replicas c ms master state)
  Found state k (err e) t = t ≡ k

  skipped :
      (h : String) (s : HostState) (rest : ShardState) (k : ℕ)
      → (s.ping_ok && not (str_eq h master) && is_syncing c ms master h s) ≡ false
      → (r : Result (ℕ × ShardState)) (t : ℕ) → Found rest k r t
      → Found ((h, s) ∷ rest) k r t
  skipped h s rest k isnt (ok (n, replicas)) t (same, counted) = (same, rw isnt counted)
  skipped h s rest k isnt (err e) t same = same

  added :
      (b : Bool) (n m : ℕ) (h : String) (s : HostState)
      → s.ping_ok ≡ true
      → str_eq h master ≡ false
      → is_syncing c ms master h s ≡ b
      → n ≡ m
      → add_if b n
        ≡ (if s.ping_ok && not (str_eq h master) && is_syncing c ms master h s then suc m else m)
  added true n m h s up other syncs e = ground arith
  added false n m h s up other syncs e = ground arith

  collect_lem :
      (active : List String) (state : ShardState) (k : ℕ)
      → Keeps R (collect c ms active master state) k (Found state k)
  unfolding collect
  collect_lem active [] k = Keeps-ret R (refl, refl)
  collect_lem active ((h, s) ∷ rest) k =
      Keeps-if R (not s.ping_ok)
        (λ down. Keeps-mono R (skipped h s rest k (ground arith)) (collect_lem active rest k))
        (λ up.
          Keeps-if R (str_eq h master)
            (λ is.
              Keeps->>= R (quiet_part (repair_master_quiet master active s))
                (λ _ t same.
                  rw same
                    (Keeps-mono R (skipped h s rest k (ground arith)) (collect_lem active rest k)))
                (λ e t same. same))
            (λ other.
              Keeps->>= R (collect_lem active rest k)
                (λ (n, replicas) t (same, counted). Keeps-ret R (
                  same,
                  added (is_syncing c ms master h s) n _ h s (ground arith) other refl counted,
                ))
                (λ e t same. same)))

-- The repair of the shard tells at most so many hosts to follow the master as `MaxParallelSyncs` is
-- greater than the number of replicas that answer and already take a full resynchronisation from it,
-- and none where it is not greater.
pub repair_shard-AtMost :
    (c : Settings) (state : ShardState) (active : List String) (master : String)
    → Keeps count_rules (repair_shard c state active master) 0 (λ r told_hosts.
      told_hosts
      ≤ pos_part c.max_parallel_syncs - syncing_replicas c (Hosts.get state master) master state)
unfolding repair_shard
repair_shard-AtMost c state active master =
    Keeps->>= R (collect_lem c (Hosts.get state master) master active state 0)
      (λ (n, replicas) t (nobody, counted). rw nobody (
        Keeps-mono R (λ r u le. omega (arith, le, counted))
          (repair_replicas_lem c (Hosts.get state master) master n 0 replicas)))
      (λ e t nobody. rw nobody (omega arith))

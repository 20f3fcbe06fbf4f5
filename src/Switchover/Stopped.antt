-- ===== src/Switchover/Stopped.antt =====
-- The nodes that are left after the first two phases of a switchover are read-only.
use rdsync.Base.{
  String, str_eq, eq_iff, contains, Bool, true, false, ◌&&◌, Option, none, some, List, [], ◌∷◌,
  length, All, ◌≡◌, ◌≤◌, refl, Result, ok, err, HostMap, if◌then◌else◌, arith,
}
use rdsync.Base.Text.{str_eq_refl}
use rdsync.Base.Hosts
use rdsync.Types.{ShardState, Switchover, PoisonPill}
use rdsync.Failover.{get_failover_quorum}
use rdsync.Actions.{Call, Reply, Done, Act, call, run_parallel, Settings}
use rdsync.Actions.Hoare.{Rules, Keeps, Keeps->>=, Keeps-handle, Keeps-ret}
use rdsync.Actions.Steps.{Keeps-check, after_call, after_raise_if, after_deref}
use rdsync.Actions.Only.{Only-run_parallel, Only, Only-Keeps, Only-mono, only_rules}
use rdsync.Pill.{issue_poison_pill, clear_poison_pill}
use rdsync.Switchover.Freeze.{
  wait_unless_auto, make_read_only, passed, check_old_read_only, settle_pill, fence_dead_master,
  stop_replication, alive_nodes, stop_writes,
}
use rdsync.Switchover.Known.{times, Known, learn, is_mild, Allowed, promotion_rules}
use rdsync.Switchover.Mild.{
  issue_poison_pill-IsMild, wait_unless_auto-IsMild, stop_replication-IsMild,
}

-- The calls that promote no host.
abbrev pub never_promotes : Call → Bool
never_promotes (Call.sentinel_promote h) = false
never_promotes (Call.cluster_promote_force h) = false
never_promotes (Call.cluster_promote_takeover h) = false
never_promotes c = true

pub mild_never_promotes : (c : Call) → is_mild c ≡ true → never_promotes c ≡ true
mild_never_promotes c h = ground arith

infix 4 ◌≼◌
-- What is read-only stays so.
abbrev pub ◌≼◌ : Known → Known → Type 0
k ≼ t = (h : String) → contains k.read_only h ≡ true → contains t.read_only h ≡ true

learn_more : (old : String) (s k : Known) (c : Call) (r : Reply c) → s ≼ k → s ≼ learn old k c r
learn_more old s k c r m h i = ground (arith, m h i)

module _ (c : Settings) (active : List String) (old : String) where
  pub never_promotes-Keeps :
      {A : Type 0} {m : Act A} {k : Known}
      → Only never_promotes m
      → Keeps (promotion_rules c active old) m k (λ r t. k ≼ t)
  never_promotes-Keeps {k = k} =
      Only-Keeps never_promotes (promotion_rules c active old) tt (λ t. k ≼ t) allowed
        (λ s call r h. learn_more old k s call r) (λ h i. i)
    where
      allowed :
          (s : Known) (call : Call) → never_promotes call ≡ true → k ≼ s → Allowed c active s call
      allowed s call h i host e = ground arith

  -- A host that is made read-only is known to be.
  make_read_only_lem :
      (state : ShardState) (host : String) (k : Known)
      → Keeps
          (promotion_rules c active old)
          (make_read_only state old host)
          k
          (λ r t. (k ≼ t) × (r ≡ ok tt → contains t.read_only host ≡ true))
  unfolding make_read_only
  make_read_only_lem state host k = after_deref R _ (λ s there.
      after_raise_if R _ _ (λ e. ((λ h i. i), ground arith))
        (λ healthy.
          after_call R (Call.set_read_only host (str_eq host old)) (λ h e. ground arith)
            (λ r p. Keeps-check R _ (more r))))
    where
      R : Rules
      R = promotion_rules c active old

      more :
          (r : Done × Done)
          → (k ≼ learn old k (Call.set_read_only host (str_eq host old)) r)
            × (r.0 ≡ ok tt
                → contains
                    (learn old k (Call.set_read_only host (str_eq host old)) r).read_only
                    host
                  ≡ true)
      more (ok u, e) = ((λ h i. ground arith), λ h. ground (arith, str_eq_refl host))
      more (err x, e) = ((λ h i. i), λ h. ground arith)

  -- Each host on which the first phase succeeded is known to be read-only.
  abbrev AllKnown : List String → HostMap Done → Known → Type 0
  AllKnown hosts errs t =
      (h : String) → contains hosts h ≡ true → passed errs h ≡ true → contains t.read_only h ≡ true

  abbrev AllRun : List String → Known → Result (HostMap Done) → Known → Type 0
  AllRun hosts k (ok errs) t = (k ≼ t) × AllKnown hosts errs t
  AllRun hosts k (err e) t = k ≼ t

  abbrev OneRun : String → Known → Result Done → Known → Type 0
  OneRun host k (ok r) t = (k ≼ t) × (r ≡ ok tt → contains t.read_only host ≡ true)
  OneRun host k (err e) t = k ≼ t

  one_more :
      (host : String) (hosts : List String) (r : Done) (errs : HostMap Done) (t u : Known)
      → t ≼ u
      → (r ≡ ok tt → contains t.read_only host ≡ true)
      → AllKnown hosts errs u
      → AllKnown (host ∷ hosts) ((host, r) ∷ errs) u
  unfolding Hosts.get
  one_more host hosts (ok u) errs t t' grows first rest h listed good =
      ground (arith, grows host, first refl, rest h, eq_iff host h, eq_iff h host)
  one_more host hosts (err x) errs t t' grows first rest h listed good =
      ground (arith, rest h, eq_iff host h, eq_iff h host)

  make_all_read_only :
      (state : ShardState) (hosts : List String) (k : Known)
      → Keeps
          (promotion_rules c active old)
          (run_parallel (make_read_only state old) hosts)
          k
          (AllRun hosts k)
  unfolding run_parallel
  make_all_read_only state [] k =
      Keeps-ret (promotion_rules c active old) ((λ h i. i), λ h listed good. ground arith)
  make_all_read_only state (host ∷ hosts) k =
      Keeps->>= R {P = OneRun host k}
        (Keeps-handle R (make_read_only_lem state host k) (λ r t h. Keeps-ret R h))
        (λ r t (grows, first).
          Keeps->>= R {P = AllRun hosts t} (make_all_read_only state hosts t)
            (λ errs u (more, rest).
              Keeps-ret R
                ((λ h i. more h (grows h i)), one_more host hosts r errs t u more first rest))
            (λ e u more h i. more h (grows h i)))
        (λ e t grows. grows)
    where
      R : Rules
      R = promotion_rules c active old

  never : {A : Type 0} {m : Act A} → Only is_mild m → Only never_promotes m
  never h = Only-mono is_mild never_promotes mild_never_promotes h

  check_old_never :
      (state : ShardState) (errs : HostMap Done)
      → Only never_promotes (check_old_read_only state old errs)
  unfolding check_old_read_only
  check_old_never state errs = search (only_rules) depth 10

  issue_never : Only never_promotes (issue_poison_pill c old)
  issue_never = never (issue_poison_pill-IsMild c old)

  wait_never : (sw : Switchover) → Only never_promotes (wait_unless_auto c sw)
  wait_never sw = never (wait_unless_auto-IsMild c sw)

  settle_pill_never : (o : Option PoisonPill) → Only never_promotes (settle_pill c old o)
  unfolding settle_pill clear_poison_pill
  settle_pill_never none = issue_never
  settle_pill_never (some p) = search (only_rules, issue_never) depth 10

  fence_never :
      (state : ShardState) (sw : Switchover)
      → Only never_promotes (fence_dead_master c state sw old)
  unfolding fence_dead_master
  fence_never state sw = search (only_rules, settle_pill_never, wait_never) depth 15

  stop_never :
      (state : ShardState) (hosts : List String)
      → Only never_promotes (run_parallel (stop_replication c state) hosts)
  stop_never state hosts =
      Only-run_parallel never_promotes _ (λ h. never (stop_replication-IsMild c state h)) hosts

  -- The nodes are known to be read-only, and enough for the failover quorum.
  abbrev pub IsStopped : List String → Known → Type 0
  IsStopped alive t =
      (get_failover_quorum c.failover active ≤ length alive)
      × ((h : String) → times alive h ≤ times active h)
      × All (λ h. contains t.read_only h ≡ true) alive

  abbrev pub Stops : Result (List String) → Known → Type 0
  Stops (ok alive) t = IsStopped alive t
  Stops (err e) t = Unit {0}

  pub All-mono :
      (hs : List String) (t u : Known)
      → t ≼ u
      → All (λ h. contains t.read_only h ≡ true) hs
      → All (λ h. contains u.read_only h ≡ true) hs
  All-mono [] t u grows h = tt
  All-mono (x ∷ hs) t u grows (h, rest) = (grows x h, All-mono hs t u grows rest)

  alive_known :
      (errs errs' : HostMap Done) (nodes hs : List String) (t : Known)
      → ((h : String) → contains hs h ≡ true → contains nodes h ≡ true)
      → AllKnown nodes errs t
      → All (λ h. contains t.read_only h ≡ true) (alive_nodes errs errs' hs)
  unfolding alive_nodes
  alive_known errs errs' nodes [] t inside known = tt
  alive_known errs errs' nodes (x ∷ hs) t inside known =
      (let rest = alive_known errs errs' nodes hs t (λ h i. inside h (ground arith)) known in
        (elim (passed errs x && passed errs' x)
            as (λ b.
              (passed errs x && passed errs' x) ≡ b
              → All (λ h. contains t.read_only h ≡ true)
                  (if b then x ∷ alive_nodes errs errs' hs else alive_nodes errs errs' hs)) [
                    | true ↦ λ e.
                        (known x (inside x (ground (arith, str_eq_refl x))) (ground arith), rest)
                    | false ↦ λ e. rest
                  ])
          refl)

  alive-times :
      (errs errs' : HostMap Done) (hs : List String) (h : String)
      → times (alive_nodes errs errs' hs) h ≤ times hs h
  unfolding alive_nodes
  alive-times errs errs' [] h = omega arith
  alive-times errs errs' (x ∷ hs) h = ground (arith, alive-times errs errs' hs h)

  pub stop_writes_lem :
      (state : ShardState) (nodes : List String) (sw : Switchover) (k : Known)
      → ((h : String) → times nodes h ≤ times active h)
      → Keeps
          (promotion_rules c active old)
          (stop_writes c state nodes (get_failover_quorum c.failover active) sw old)
          k
          Stops
  unfolding stop_writes
  stop_writes_lem state nodes sw k among =
      Keeps->>= R {P = AllRun nodes k} (make_all_read_only state nodes k)
        (λ errs t (_, known).
          Keeps->>= R (never_promotes-Keeps (check_old_never state errs))
            (λ _ u grows.
              Keeps->>= R (never_promotes-Keeps (fence_never state sw))
                (λ _ v grows'.
                  Keeps->>= R (never_promotes-Keeps (stop_never state nodes))
                    (λ errs' w grows''.
                      after_raise_if R _ _ (λ e. tt)
                        (λ enough. Keeps-ret R (
                          ground arith,
                          (λ h. omega (arith, among h, alive-times errs errs' nodes h)),
                          All-mono _ t w (λ h i. grows'' h (grows' h (grows h i)))
                              (alive_known errs errs' nodes nodes t (λ h i. i) known),
                        )))
                    (λ e w i. tt))
                (λ e v i. tt))
            (λ e u i. tt))
        (λ e t i. tt)
    where
      R : Rules
      R = promotion_rules c active old

-- ===== src/Switchover/Safety.antt =====
-- The whole of `performSwitchover` keeps to the rules of a promotion.
use rdsync.Base.{[], ◌∷◌, ◌≤◌, ◌==◌, ℕ, String, List, Result, ok, err, arith}
use rdsync.Types.{
  SwitchoverProgress, HostState, ShardState, Switchover, AppMode, mode_sentinel, mode_cluster,
}
use rdsync.Actions.{Act, Call, Done, Settings, get_shard_state_from_db}
use rdsync.Actions.Hoare.{Rules, Keeps, Keeps-mono, Keeps->>=, Keeps-handle, Keeps-ret}
use rdsync.Actions.Steps.{Keeps-if, Keeps-check, after_call, after_deref, after_raise_if}
use rdsync.Actions.Only.{Only, Only-mono, only_rules}
use rdsync.Switchover.Freeze.{check_target, taking_part}
use rdsync.Switchover.Promotion.{turn_if_alive}
use rdsync.Switchover.Perform.{
  promotion_unless_done, if_known, if_raised, open_master, repair_master, notify_caches,
  turn_unless_master, turn_replicas, switch_over, perform_switchover,
}
use rdsync.Switchover.{filter_out}
use rdsync.Switchover.Known.{times, Known, nothing_known, is_mild, promotion_rules, ◌⊑◌}
use rdsync.Switchover.Mild.{
  IsMild, IsMild-Keeps, get_shard_state-IsMild, begin_progress-IsMild, store_progress-IsMild,
  choose_master-IsMild, catch_up-IsMild, turn_if_alive-IsMild,
}
use rdsync.Switchover.Stopped.{
  never_promotes, mild_never_promotes, never_promotes-Keeps, IsStopped, Stops, All-mono,
  stop_writes_lem,
}
use rdsync.Switchover.Promotes.{promotion_lem}

filter_out-times : (xs b : List String) (h : String) → times (filter_out xs b) h ≤ times xs h
unfolding filter_out
filter_out-times [] b h = omega arith
filter_out-times (x ∷ xs) b h = ground (arith, filter_out-times xs b h)

taking_part-times :
    (sw : Switchover) (old : String) (active : List String) (h : String)
    → times (taking_part sw old active) h ≤ times active h
unfolding taking_part
taking_part-times sw old active h = ground (arith, filter_out-times active (old ∷ []) h)

open_master_never : (master : String) (s : HostState) → Only never_promotes (open_master master s)
unfolding open_master
open_master_never master s = search (only_rules) depth 15

if_raised_never :
    (master : String) (s : HostState) (r : Done) → Only never_promotes (if_raised master s r)
unfolding if_raised
if_raised_never master s (ok _) = open_master_never master s
if_raised_never master s (err e) = search (only_rules)

if_known_never :
    (master : String) (active : List String) (s : HostState) (r : Result ℕ)
    → Only never_promotes (if_known master active s r)
unfolding if_known
if_known_never master active s (err e) = search (only_rules)
if_known_never master active s (ok n) =
    search (only_rules, if_raised_never, open_master_never) depth 10

repair_master_never :
    (master : String) (active : List String) (s : HostState)
    → Only never_promotes (repair_master master active s)
unfolding repair_master
repair_master_never master active s = search (only_rules, if_known_never) depth 10

get_state_never : Only never_promotes get_shard_state_from_db
get_state_never = Only-mono is_mild never_promotes mild_never_promotes get_shard_state-IsMild

notify_never :
    (mode : AppMode) (state : ShardState) (active : List String)
    → Only never_promotes (notify_caches mode state active)
unfolding notify_caches
notify_never mode_cluster state active = search (only_rules)
notify_never mode_sentinel state active = search (only_rules, get_state_never) depth 10

module _ (c : Settings) where
  turn_if_alive_never :
      (state : ShardState) (master host : String)
      → Only never_promotes (turn_if_alive c state master host)
  turn_if_alive_never state master host =
      Only-mono is_mild never_promotes mild_never_promotes
        (turn_if_alive-IsMild c state master host)

  turn_never :
      (state : ShardState) (master host : String)
      → Only never_promotes (turn_unless_master c state master host)
  unfolding turn_unless_master
  turn_never state master host = search (only_rules, turn_if_alive_never)

  turn_replicas_never :
      (state : ShardState) (active alive : List String) (master : String)
      → Only never_promotes (turn_replicas c state active alive master)
  unfolding turn_replicas
  turn_replicas_never state active alive master =
      search (only_rules, repair_master_never, notify_never, turn_never) depth 20

  check_target-IsMild : (sw : Switchover) (active : List String) → IsMild (check_target sw active)
  unfolding check_target
  check_target-IsMild sw active = search (only_rules)

module _ (c : Settings) (active : List String) where
  unless_done :
      (state : ShardState) (alive : List String) (sw : Switchover) (p : SwitchoverProgress)
      (old : String) (k : Known)
      → IsStopped c active old alive k
      → Keeps
          (promotion_rules c active old)
          (promotion_unless_done c state alive sw p old)
          k
          (λ r t. Unit {0})
  unfolding promotion_unless_done
  unless_done state alive sw p old k stopped =
      Keeps-if (promotion_rules c active old) (p.phase == 6)
        (λ e. Keeps-ret (promotion_rules c active old) tt)
        (λ e. promotion_lem c active old state alive sw p k stopped)

  switch_over_lem :
      (state : ShardState) (sw : Switchover) (old : String) (k : Known)
      → Keeps (promotion_rules c active old) (switch_over c state active sw old) k (λ r t. Unit {0})
  unfolding switch_over
  switch_over_lem state sw old k =
      Keeps->>= R (mild (begin_progress-IsMild sw sw.progress))
        (λ p k₁ _.
          Keeps->>= R (mild (check_target-IsMild c sw active))
            (λ _ k₂ _.
              Keeps->>= R {P = Stops c active old}
                (stop_writes_lem c active old state _ sw k₂ (taking_part-times sw old active))
                (λ alive k₃ (enough, among, stopped).
                  Keeps->>= R (mild get_shard_state-IsMild)
                    (λ states k₄ h₄.
                      Keeps->>= R (mild (choose_master-IsMild state states _ sw p))
                        (λ p' k₅ h₅.
                          Keeps->>= R (mild (catch_up-IsMild c states p'))
                            (λ _ k₆ h₆.
                              Keeps->>= R (mild get_shard_state-IsMild)
                                (λ state' k₇ h₇. after_deref R _ (λ s there.
                                  after_raise_if R _ _ (λ e. tt)
                                    (λ healthy.
                                      Keeps->>= R {P = λ r t. Unit {0}}
                                        (unless_done state' alive sw p' old k₇ (
                                          enough,
                                          among,
                                          All-mono c active old alive k₃ k₇
                                              (λ h i. h₇.more_read_only h (
                                                h₆.more_read_only h
                                                  (h₅.more_read_only h (h₄.more_read_only h i))))
                                              stopped,
                                        ))
                                        (λ state'' k₈ _.
                                          Keeps->>= R (mild (store_progress-IsMild sw _))
                                            (λ _ k₉ _.
                                              Keeps-mono R (λ r t h. tt)
                                                (never_promotes-Keeps c active old (
                                                  turn_replicas_never c state'' _ alive
                                                    p'.new_master)))
                                            (λ e t h. tt))
                                        (λ e t h. tt))))
                                (λ e t h. tt))
                            (λ e t h. tt))
                        (λ e t h. tt))
                    (λ e t h. tt))
                (λ e t h. tt))
            (λ e t h. tt))
        (λ e t h. tt)
    where
      R : Rules
      R = promotion_rules c active old

      mild : {A : Type 0} {m : Act A} {s : Known} → IsMild m → Keeps R m s (λ r t. s ⊑ t)
      mild {m = m} {s = s} h = IsMild-Keeps c active old m s h

-- Whatever the servers and the DCS answer, a switchover asks a host to promote itself only when,
-- earlier in the same run, at least the failover quorum of the active nodes, each counted once,
-- were made read-only, that host was then set as the master in the DCS, after that a poison pill
-- for the old master was stored or found there, and the host was told to wait for half of these
-- nodes, or for none if it is the only one of them or data loss is allowed.
pub perform_switchover-Keeps :
    (c : Settings) (state : ShardState) (active : List String) (sw : Switchover) (old : String)
    → Keeps
        (promotion_rules c active old)
        (perform_switchover c state active sw old)
        nothing_known
        (λ r t. Unit {0})
unfolding perform_switchover
perform_switchover-Keeps c state active sw old =
    after_call R Call.enter_critical (λ h e. ground arith)
      (λ _ _.
        Keeps->>= R {P = λ r t. Unit {0}}
          (Keeps-handle R (switch_over_lem c active state sw old _) (λ r t h. Keeps-ret R tt))
          (λ r t _.
            after_call R Call.exit_critical (λ h e. ground arith) (λ _ _. Keeps-check R r tt))
          (λ e t h. tt))
  where
    R : Rules
    R = promotion_rules c active old

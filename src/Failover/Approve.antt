-- ===== src/Failover/Approve.antt =====
-- Exactly when a failover is approved.
use mathlib.Core.Path.{subst}
use rdsync.Base.{
  ◌+◌, ◌≤◌, String, str_eq, eq_iff, ◌≡◌, ◌≢◌, ◌↔◌, ◌⊎◌, inl, inr, refl, false, Bool-cases, ◌&&◌,
  Option, none, some, List, length, Result, ok, err, not_found, failed, exists, malformed, arith,
}
use rdsync.Base.Int.{pos, ◌≤ℤ◌, ltb_ℤ}
use rdsync.Types.{Time, since, ShardState, Switchover, SwitchoverResult, cause_auto}
use rdsync.Failover.{
  Config, get_failover_quorum, count_running_ha_replicas, count_alive_ha_replicas_within_nodes,
  check_quorum, check_last, check_timeout, approve_failover,
}

-- There was no switchover before, or the last one is over and was not an automatic one within the
-- cooldown.
abbrev pub LastAllows : Config → Time → Result Switchover → Type 0
LastAllows c now (err not_found) = Unit
LastAllows c now (err _) = ⊥
LastAllows c now (ok last) =
    (r : SwitchoverResult) × (last.result ≡ some r)
    × ((last.cause ≢ cause_auto) ⊎ (c.failover_cooldown ≤ℤ since now r.finished_at))

-- The conditions of a failover.
pub record MayFailOver (c : Config) (state : ShardState) (active : List String)
    (fail_time now later : Time) (last : Result Switchover) : Type 0 where
  pub elapsed : (c.failover_timeout ≤ℤ pos 0) ⊎ (c.failover_timeout ≤ℤ since now fail_time)
  pub broken : count_running_ha_replicas state + 1 ≢ length state
  pub quorum : get_failover_quorum c active ≤ count_alive_ha_replicas_within_nodes active state
  pub last_allows : LastAllows c later last

cooldown_iff :
    (c : Config) (now : Time) (cause : String) (r : SwitchoverResult)
    → ((ltb_ℤ (since now r.finished_at) c.failover_cooldown && str_eq cause cause_auto) ≡ false)
      ↔ ((cause ≢ cause_auto) ⊎ (c.failover_cooldown ≤ℤ since now r.finished_at))
cooldown_iff c now cause r = (
  (λ h. elim (Bool-cases (str_eq cause cause_auto)) [
    | inl auto ↦ inr (ground arith)
    | inr other ↦ inl (λ e. cc (other, (eq_iff cause cause_auto).1 e))
  ]),
  (λ h. elim h [
    | inl other ↦ elim (Bool-cases (str_eq cause cause_auto)) [
      | inl auto ↦ absurd (other ((eq_iff cause cause_auto).0 auto))
      | inr not_auto ↦ ground arith
    ]
    | inr past ↦ ground arith
  ]),
)

check_last_of :
    (c : Config) (now : Time) (last : Switchover) (o : Option SwitchoverResult)
    → last.result ≡ o
    → (check_last c now (ok last) ≡ ok tt) ↔ LastAllows c now (ok last)
unfolding check_last
check_last_of c now last none known = ((λ h. ground arith), (λ h. ground arith))
check_last_of c now last (some r) known = rw known (
  (λ h. (r, refl, (cooldown_iff c now last.cause r).0 (ground arith))),
  (λ h.
      let same : h.0 ≡ r = cc h.1 in
      let open_to =
        subst
          (λ (x : SwitchoverResult).
            (last.cause ≢ cause_auto) ⊎ (c.failover_cooldown ≤ℤ since now x.finished_at))
          same h.2 in
      rw ((cooldown_iff c now last.cause r).1 open_to)),
)

check_last_iff :
    (c : Config) (now : Time) (last : Result Switchover)
    → (check_last c now last ≡ ok tt) ↔ LastAllows c now last
check_last_iff c now (err not_found) = unfold check_last in ((λ h. tt), (λ h. refl))
check_last_iff c now (err exists) = unfold check_last in ((λ h. cc), (λ h. elim h [ ]))
check_last_iff c now (err malformed) = unfold check_last in ((λ h. cc), (λ h. elim h [ ]))
check_last_iff c now (err (failed m)) = unfold check_last in ((λ h. cc), (λ h. elim h [ ]))
check_last_iff c now (ok last) = check_last_of c now last last.result refl

check_timeout_iff :
    (c : Config) (now fail_time : Time)
    → (check_timeout c now fail_time ≡ ok tt)
      ↔ ((c.failover_timeout ≤ℤ pos 0) ⊎ (c.failover_timeout ≤ℤ since now fail_time))
unfolding check_timeout
check_timeout_iff c now fail_time = ((λ h. ground arith), (λ h. ground arith))

check_quorum_iff :
    (c : Config) (state : ShardState) (active : List String)
    → (check_quorum c state active ≡ ok tt)
      ↔ (get_failover_quorum c active ≤ count_alive_ha_replicas_within_nodes active state)
unfolding check_quorum
check_quorum_iff c state active = ((λ h. ground arith), (λ h. ground arith))

-- A failover is approved exactly when the master has failed for the failover timeout (or none is
-- set), not every other host runs replication, enough active nodes are alive replicas, and the last
-- switchover is none, or is over and not an automatic one within the cooldown.
pub approve_failover_iff :
    (c : Config) (state : ShardState) (active : List String) (fail_time now later : Time)
    (last : Result Switchover)
    → (approve_failover c state active fail_time now later last ≡ ok tt)
      ↔ MayFailOver c state active fail_time now later last
unfolding approve_failover
approve_failover_iff c state active fail_time now later last = (
  (λ h. record {
    elapsed = (check_timeout_iff c now fail_time).0 (ground arith);
    broken = ground arith;
    quorum = (check_quorum_iff c state active).0 (ground arith);
    last_allows = (check_last_iff c later last).0 (ground arith);
  }),
  (λ m.
      let timed = (check_timeout_iff c now fail_time).1 m.elapsed in
      let enough = (check_quorum_iff c state active).1 m.quorum in
      let allowed = (check_last_iff c later last).1 m.last_allows in
      let broken = m.broken in ground arith),
)

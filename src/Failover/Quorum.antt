-- ===== src/Failover/Quorum.antt =====
-- Why the failover quorum keeps acknowledged writes: each set of replicas that the master waits for
-- and each set that a failover needs have a replica in common.
use rdsync.Base.{
  suc, ◌+◌, ◌≤◌, String, str_eq, eq_iff, str_eq_refl, contains, ◌≡◌, Bool, true, false, Bool-cases,
  ◌&&◌, inl, inr, List, [], ◌∷◌, length, count_if, Result, ok, arith,
}
use rdsync.Types.{Time, ShardState, Switchover}
use rdsync.Failover.{
  Config, get_num_replicas_to_write, get_failover_quorum, is_alive_replica,
  count_alive_ha_replicas_within_nodes, check_quorum, approve_failover, approve_switchover,
}

module _ (p q : String → Bool) where
  abbrev Common : List String → Type 0
  Common xs = (h : String) × (contains xs h ≡ true) × (p h ≡ true) × (q h ≡ true)

  Common-cons : (x : String) (xs : List String) → Common xs → Common (x ∷ xs)
  Common-cons x xs (h, c, hp, hq) = (h, ground arith, hp, hq)

  -- Two kinds of elements that leave no room in the list have one in common.
  overlap : (xs : List String) → suc (length xs) ≤ count_if p xs + count_if q xs → Common xs
  unfolding count_if
  overlap [] h = absurd (omega arith)
  overlap (x ∷ xs) h = elim (Bool-cases (p x && q x)) [
    | inl both ↦ (x, ground (arith, str_eq_refl x), ground arith, ground arith)
    | inr other ↦ Common-cons x xs (overlap xs (ground arith))
  ]

  -- So do two kinds that leave no room beside an element of neither kind.
  overlap_beside :
      (m : String) (xs : List String)
      → contains xs m ≡ true
      → p m ≡ false
      → q m ≡ false
      → length xs ≤ count_if p xs + count_if q xs
      → Common xs
  unfolding count_if
  overlap_beside m [] c hp hq h = cc
  overlap_beside m (x ∷ xs) c hp hq h = elim (Bool-cases (str_eq x m)) [
    | inl same ↦ Common-cons x xs (overlap xs (ground (arith, eq_iff x m)))
    | inr other ↦ elim (Bool-cases (p x && q x)) [
      | inl both ↦ (x, ground (arith, str_eq_refl x), ground arith, ground arith)
      | inr apart ↦ Common-cons x xs (overlap_beside m xs (ground arith) hp hq (ground arith))
    ]
  ]

-- A failover that needs `quorum` alive replicas finds one of those that acknowledged a write.
abbrev pub HasAcked : (String → Bool) → ShardState → List String → Type 0
HasAcked acked state active =
    (h : String) × (contains active h ≡ true) × (is_alive_replica state h ≡ true) × (acked h ≡ true)

quorum_covers :
    (c : Config) (active : List String)
    → c.allow_data_loss ≡ false
    → length active ≤ get_failover_quorum c active + get_num_replicas_to_write active
unfolding get_failover_quorum get_num_replicas_to_write
quorum_covers c active h = ground arith

check_quorum_alive :
    (c : Config) (state : ShardState) (active : List String)
    → check_quorum c state active ≡ ok tt
    → get_failover_quorum c active ≤ count_if (is_alive_replica state) active
unfolding check_quorum count_alive_ha_replicas_within_nodes
check_quorum_alive c state active h = ground arith

checked_quorum_keeps_write :
    (c : Config) (state : ShardState) (active : List String) (master : String)
    (acked : String → Bool)
    → c.allow_data_loss ≡ false
    → contains active master ≡ true
    → is_alive_replica state master ≡ false
    → acked master ≡ false
    → get_num_replicas_to_write active ≤ count_if acked active
    → check_quorum c state active ≡ ok tt
    → HasAcked acked state active
checked_quorum_keeps_write c state active master acked strict listed dead other enough passed =
    overlap_beside (is_alive_replica state) acked master active listed dead other
      (omega (arith, quorum_covers c active strict, check_quorum_alive c state active passed))

approve_failover_quorum :
    (c : Config) (state : ShardState) (active : List String) (fail_time now later : Time)
    (last : Result Switchover)
    → approve_failover c state active fail_time now later last ≡ ok tt
    → check_quorum c state active ≡ ok tt
unfolding approve_failover
approve_failover_quorum c state active fail_time now later last h = ground arith

-- With data loss not allowed: when a failover from a master that is no alive replica is approved,
-- then for every set of hosts without the master that has as many active nodes in it as the master
-- waits for, one of these is an alive replica.
pub approve_failover_keeps_write :
    (c : Config) (state : ShardState) (active : List String) (master : String)
    (acked : String → Bool) (fail_time now later : Time) (last : Result Switchover)
    → c.allow_data_loss ≡ false
    → contains active master ≡ true
    → is_alive_replica state master ≡ false
    → acked master ≡ false
    → get_num_replicas_to_write active ≤ count_if acked active
    → approve_failover c state active fail_time now later last ≡ ok tt
    → HasAcked acked state active
approve_failover_keeps_write c state active master acked fail now later last strict listed dead
      other enough approved =
    checked_quorum_keeps_write c state active master acked strict listed dead other enough
      (approve_failover_quorum c state active fail now later last approved)

-- With data loss not allowed: a switchover that has not been tried before, from a master that is no
-- alive replica, is approved only if, for every set of hosts without the master that has as many
-- active nodes in it as the master waits for, one of these is an alive replica.
pub approve_switchover_keeps_write :
    (c : Config) (sw : Switchover) (state : ShardState) (active : List String) (master : String)
    (acked : String → Bool)
    → c.allow_data_loss ≡ false
    → contains active master ≡ true
    → is_alive_replica state master ≡ false
    → acked master ≡ false
    → get_num_replicas_to_write active ≤ count_if acked active
    → sw.run_count ≡ 0
    → approve_switchover c sw active state ≡ ok tt
    → HasAcked acked state active
unfolding approve_switchover
approve_switchover_keeps_write c sw state active master acked strict listed dead other enough first
      approved =
    checked_quorum_keeps_write c state active master acked strict listed dead other enough
      (rw first at approved)

-- ===== src/Lag/Psync.antt =====
-- When a replica can resume from a master's backlog.
use rdsync.Base.{◌≡◌, ◌↔◌, ◌⊎◌, true, some, eq_iff, arith}
use rdsync.Base.Int.{◌+ℤ◌, ◌≤ℤ◌, In64, pos, add64_in_range}
use rdsync.Types.{HostState, ReplicaState}
use rdsync.Lag.{is_partial_sync_possible, psync_from}

-- What a partial resynchronisation needs: the replica follows the master's history, or the history
-- that the master had before it was promoted and not past the point where that ended, and the next
-- byte that it wants lies in the master's backlog or just behind it.
abbrev pub CanResume : HostState → HostState → ReplicaState → Type 0
CanResume replica master rs =
    ((master.replication_id ≡ replica.replication_id)
      ⊎ ((master.replication_id2 ≡ replica.replication_id)
          × (rs.replication_offset +ℤ pos 1 ≤ℤ master.second_replication_offset)))
    × (master.replication_backlog_start ≤ℤ rs.replication_offset +ℤ pos 1)
    × (rs.replication_offset +ℤ pos 1
        ≤ℤ master.replication_backlog_start +ℤ master.replication_backlog_size)

psync_from_iff :
    (replica master : HostState) (rs : ReplicaState)
    → In64 (rs.replication_offset +ℤ pos 1)
    → In64 (master.replication_backlog_start +ℤ master.replication_backlog_size)
    → (psync_from replica master rs ≡ true) ↔ CanResume replica master rs
unfolding psync_from
psync_from_iff replica master rs fits fits' =
    rw (add64_in_range _ _ fits, add64_in_range _ _ fits')
      (
        (λ h. ground (
          arith,
          eq_iff master.replication_id replica.replication_id,
          eq_iff master.replication_id2 replica.replication_id,
        )),
        (λ h. ground (
          arith,
          eq_iff master.replication_id replica.replication_id,
          eq_iff master.replication_id2 replica.replication_id,
        )),
      )

-- For a replica with a known replica state, and sums that fit an int64, a partial resynchronisation
-- is reported possible exactly when the histories match and the next byte is not before the start of
-- the backlog and not after the first position behind its end.
pub is_partial_sync_possible_iff :
    (replica master : HostState) (rs : ReplicaState)
    → replica.replica_state ≡ some rs
    → In64 (rs.replication_offset +ℤ pos 1)
    → In64 (master.replication_backlog_start +ℤ master.replication_backlog_size)
    → (is_partial_sync_possible (some replica) (some master) ≡ true) ↔ CanResume replica master rs
unfolding is_partial_sync_possible
is_partial_sync_possible_iff replica master rs known fits fits' =
    rw known (psync_from_iff replica master rs fits fits')

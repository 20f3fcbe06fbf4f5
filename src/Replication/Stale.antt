-- ===== src/Replication/Stale.antt =====
-- When the local replica counts as stale: opening is stricter than closing, and the time of a
-- divergence is kept.
use rdsync.Base.{◌≡◌, ◌≢◌, refl, Bool, true, false, Option, none, some, arith}
use rdsync.Base.Int.{◌≤ℤ◌}
use rdsync.Types.{Time, ReplicaState}
use rdsync.Replication.{LagConfig, is_lagging, is_replica_stale}

is_lagging_mono :
    (c : LagConfig) (rs : ReplicaState)
    → c.stale_replica_lag_open ≤ℤ c.stale_replica_lag_close
    → is_lagging c true rs ≡ false
    → is_lagging c false rs ≡ false
unfolding is_lagging
is_lagging_mono c rs h k = ground arith

-- With a lag for opening that is at most the one for closing, a replica that is fresh enough to be
-- opened is not stale enough to be closed, at the same readings of the clock.
pub open_not_closed :
    (c : LagConfig) (now later diverged : Time) (rs : Option ReplicaState)
    → c.stale_replica_lag_open ≤ℤ c.stale_replica_lag_close
    → (is_replica_stale c now later diverged rs true).0 ≡ false
    → (is_replica_stale c now later diverged rs false).0 ≡ false
unfolding is_replica_stale
open_not_closed c now later diverged none h k = ground arith
open_not_closed c now later diverged (some rs) h k = is_lagging_mono c rs h k

-- A check of a replica leaves the time of divergence alone; a check of a local node that is no
-- replica, at a time other than zero, sets it if it is not set, and a second check, whenever it is
-- made, then leaves it.
pub diverged_kept :
    (c : LagConfig) (now later now' later' diverged : Time) (lag lag' : Bool) (rs : ReplicaState)
    → now ≢ 0
    → ((is_replica_stale c now later diverged (some rs) lag).1 ≡ diverged)
      × (let (_, t) = is_replica_stale c now later diverged none lag in
          (t ≢ 0) × ((is_replica_stale c now' later' t none lag').1 ≡ t))
unfolding is_replica_stale
diverged_kept c now later now' later' diverged lag lag' rs h = (refl, (ground arith, ground arith))

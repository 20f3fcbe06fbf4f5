-- ===== src/Replication/Close.antt =====
-- internal/app/replication.go: `closeStaleReplica`, which sets a stale local replica offline.
use rdsync.Base.{
  ℕ, suc, leb, String, str_eq, Bool, true, false, not, ◌&&◌, Option, none, some, [], ◌∷◌, not_found,
  exists, malformed, failed, Result, ok, err, if◌then◌else◌,
}
use rdsync.Base.Int.{ltb_ℤ}
use rdsync.Base.Hosts
use rdsync.Types.{
  Time, zero_time, is_zero, since, HostState, ShardState, Switchover, AppMode, mode_sentinel,
  mode_cluster,
}
use rdsync.Actions.{
  Act, ret, raise, ◌>>=◌, call, check, Settings, three_checks, now, get_diverge_time,
  set_diverge_time, has_cluster_slots, is_repl_paused, host_state, get_current_switch, is_offline,
  set_offline, get_repl_fail_time, set_repl_fail_time,
}
use rdsync.Availability.{is_stale, get_shard_state_from_dcs}

-- The host is asked for its slots in cluster mode alone.
unfoldable pub local_has_slots : AppMode → String → Act Bool
local_has_slots mode_sentinel host = ret false
local_has_slots mode_cluster host = do r ← call (has_cluster_slots host); check r

abbrev pub plus : Bool → ℕ → ℕ
plus true n = suc n
plus false n = n

-- How many replicas are alive, without the local one, and how many are stale.
unfoldable pub count_stale : Settings → String → ShardState → Act (ℕ × ℕ)
count_stale c master [] = ret (0, 0)
count_stale c master ((host, s) ∷ rest) =
    if str_eq host master then count_stale c master rest else do
      stale ← if s.is_repl_paused then ret false else is_stale c s.replica_state false
      (alive, others) ← count_stale c master rest
      ret (plus (not stale && not (str_eq host c.hostname)) alive, plus stale others)

unfoldable pub close_if : Settings → Bool → Act (Unit {0})
close_if c true = ret tt
close_if c false = call (set_offline c.hostname) >>= check

-- The record of the master was made less than three health checks ago, and is a good one.
abbrev pub is_recent : Settings → Time → HostState → Bool
is_recent c t m = m.ping_ok && m.ping_stable && ltb_ℤ (since t m.check_at) (three_checks c)

unfoldable pub close_with : Settings → String → ShardState → Option HostState → Act (Unit {0})
close_with c master state none = raise (failed "no master in shard state from dcs")
close_with c master state (some m) = do
  t ← call now
  if not (is_recent c t m) then ret tt else do
    (alive, stale) ← count_stale c master state
    if not (leb stale alive)
        then ret tt
        else do r ← call (is_offline c.hostname); offline ← check r; close_if c offline

-- Only while no switchover is stored.
unfoldable pub close_unless_switched : Settings → String → Result Switchover → Act (Unit {0})
close_unless_switched c master (ok sw) = ret tt
close_unless_switched c master (err not_found) = do
  state ← get_shard_state_from_dcs
  close_with c master state (Hosts.get state master)
close_unless_switched c master (err exists) = raise exists
close_unless_switched c master (err malformed) = raise malformed
close_unless_switched c master (err (failed m)) = raise (failed m)

unfoldable pub clear_repl_fail_time : Act (Unit {0})
clear_repl_fail_time = do
  t ← call get_repl_fail_time
  if is_zero t then ret tt else call (set_repl_fail_time zero_time)

unfoldable pub close_if_stale : Settings → String → Act (Unit {0})
close_if_stale c master = do
  s ← call (host_state c.hostname)
  stale ← is_stale c s.replica_state false
  if stale
      then (do r ← call get_current_switch; close_unless_switched c master r)
      else clear_repl_fail_time

unfoldable pub clear_diverge_time : Act (Unit {0})
clear_diverge_time = do
  t ← call get_diverge_time
  if is_zero t then ret tt else call (set_diverge_time zero_time)

-- `closeStaleReplica`.
unfoldable pub close_stale_replica : Settings → String → Act (Unit {0})
close_stale_replica c master = if str_eq c.hostname master then clear_diverge_time else do
  slots ← local_has_slots c.mode c.hostname
  if slots then ret tt else do
    r ← call (is_repl_paused c.hostname)
    paused ← check r
    if paused then ret tt else close_if_stale c master

-- ===== src/Switchover/Promotion.antt =====
-- Phase 5 of `performSwitchover`: the new master is made known, the old one is fenced, and the new
-- one is promoted.
use rdsync.Base.{
  ℕ, suc, zero, ◌==◌, String, str_eq, not, ◌&&◌, ◌||◌, List, [], ◌∷◌, length, Result, if◌then◌else◌,
}
use rdsync.Base.Hosts
use rdsync.Types.{Time, ShardState, Switchover, SwitchoverProgress}
use rdsync.Lag.{is_partial_sync_possible}
use rdsync.Failover.{get_num_replicas_to_write}
use rdsync.Actions.{
  set_read_write, set_num_quorum_replicas, set_master_node, get_poison_pill, sleep, now, Act, ret,
  hang, ◌>>=◌, ◌>>◌, attempt, call, deref, or_fail, raise_if, found, get_shard_state_from_db,
  run_parallel, Settings, is_before, turns, a_second,
}
use rdsync.Master.{change_master, promote}
use rdsync.Switchover.Freeze.{store_progress, settle_pill, wait_unless_auto}

-- Both errors of a command count.
unfoldable pub both : String → Result (Unit {0}) × Result (Unit {0}) → Act (Unit {0})
both message (e, e_conf) = or_fail message e >> or_fail message e_conf

unfoldable pub prepare_master : Settings → List String → String → Act (Unit {0})
prepare_master c alive master =
    if length alive == 1 || c.failover.allow_data_loss
    then (do
      r ← call (set_read_write master)
      both "unable to set available for write before promote" r
      r' ← call (set_num_quorum_replicas master 0)
      both "unable to set num quorum replicas to 0" r')
    else (do
      (e, _) ← call (set_num_quorum_replicas master (get_num_replicas_to_write alive))
      or_fail "unable to set num quorum replicas before promote" e)

-- The nodes other than the new master that can follow it without a full resynchronisation.
unfoldable pub psync_nodes : ShardState → String → List String → List String
psync_nodes state master [] = []
psync_nodes state master (h ∷ hs) =
    let rest = psync_nodes state master hs in
    if not (str_eq h master)
      && is_partial_sync_possible (Hosts.get state h) (Hosts.get state master)
    then h ∷ rest
    else rest

unfoldable pub others : String → List String → List String
others master [] = []
others master (h ∷ hs) = let rest = others master hs in if str_eq h master then rest else h ∷ rest

unfoldable pub turn_if_alive : Settings → ShardState → String → String → Act (Unit {0})
turn_if_alive c state master host = do
  s ← deref (Hosts.get state host)
  if not s.ping_ok then ret tt else change_master c host master

-- The loop over the alive nodes reads the state of the new master once there is another node.
unfoldable pub if_others : ShardState → String → List String → List String → Act (List String)
if_others state master alive [] = ret []
if_others state master alive (x ∷ xs) = do
  s ← deref (Hosts.get state master)
  ret (if s.is_repl_paused then psync_nodes state master alive else [])

unfoldable pub psync_nodes_if_paused : ShardState → String → List String → Act (List String)
psync_nodes_if_paused state master alive = if_others state master alive (others master alive)

unfoldable pub turn_before : Settings → ShardState → List String → String → Act (Unit {0})
turn_before c state alive master = if not c.turn_before_switchover then ret tt else do
  nodes ← psync_nodes_if_paused state master alive
  run_parallel (turn_if_alive c state master) nodes
  ret tt

-- The loop that promotes until the new master says that it is one: the shard's state then.
unfoldable pub promote_turns :
    Settings → String → String → ℕ → Time → Time → ShardState → Act ShardState
promote_turns c master old zero start force_start state = hang
promote_turns c master old (suc n) start force_start state = do
  t ← call now
  raise_if (not (is_before t start c.wait_promote_timeout)) "promote new master: deadline reached"
  r ← attempt (promote c master old state force_start)
  or_fail "promote new master failed" r
  call (sleep a_second)
  state' ← get_shard_state_from_db
  s ← deref (Hosts.get state' master)
  if s.is_master then ret state' else promote_turns c master old n start force_start state'

-- Phase 5: the shard's state when it is over.
unfoldable pub promotion :
    Settings → ShardState → List String → Switchover → SwitchoverProgress → String → Act ShardState
promotion c state alive sw p old = do
  store_progress sw (record p { phase = 5 })
  r ← call (set_master_node p.new_master)
  or_fail "failed to set new master in dcs" r
  r' ← call get_poison_pill
  pill ← found r'
  settle_pill c old pill
  wait_unless_auto c sw
  prepare_master c alive p.new_master
  turn_before c state alive p.new_master
  start ← call now
  force_start ← call now
  promote_turns c p.new_master old (turns c.wait_promote_timeout) start force_start state

-- ===== src/ActiveNodes/Update.antt =====
-- internal/app/active_nodes.go: `updateActiveNodes`, the transition run on the servers and the DCS,
-- and `actualizeQuorumReplicas`.
pub mod Refines
pub mod Served
use Prim.Native.String.{◌++◌ as append}
use rdsync.Base.{
  or_zero, ℕ, ltb, ◌==◌, String, str_eq, ◌||◌, List, [], ◌∷◌, ◌++◌, HostMap, if◌then◌else◌,
}
use rdsync.Base.Text.{sort_strings}
use rdsync.Base.Hosts
use rdsync.Types.{Time, ShardState}
use rdsync.Failover.{get_num_replicas_to_write}
use rdsync.Actions.{
  Act, ret, ◌>>=◌, ◌>>◌, call, check, deref, or_fail, Settings, now, get_fail_times, set_fail_times,
  get_ips, get_quorum_replicas, set_quorum_replicas, get_num_quorum_replicas,
  set_num_quorum_replicas, set_active_nodes,
}
use rdsync.ActiveNodes.Calc.{settings, calc_active_nodes}
use rdsync.ActiveNodes.Transition.{
  active_nodes_equal, active_nodes_intersection, has_added_active_nodes,
}

-- host:port of a host and of its addresses
abbrev with_port : Settings → String → String
with_port c host = append host (append ":" c.port)

abbrev with_ports : Settings → List String → List String
with_ports c [] = []
with_ports c (h ∷ hs) = with_port c h ∷ with_ports c hs

unfoldable pub expected_replicas : Settings → String → List String → Act (List String)
expected_replicas c master [] = ret []
expected_replicas c master (h ∷ hs) = if str_eq h master then expected_replicas c master hs else do
  ips ← call (get_ips h)
  rest ← expected_replicas c master hs
  ret (with_port c h ∷ with_ports c ips ++ rest)

-- strings.Join(words, " ")
unfoldable pub join_words : List String → String
join_words [] = ""
join_words (w ∷ []) = w
join_words (w ∷ w' ∷ ws) = append w (append " " (join_words (w' ∷ ws)))

-- `actualizeQuorumReplicas`: an error of the rewrite is logged.
unfoldable pub actualize_quorum_replicas : Settings → String → List String → Act (Unit {0})
actualize_quorum_replicas c master active = do
  hosts ← expected_replicas c master active
  let expected = join_words (sort_strings hosts)
  r ← call (get_quorum_replicas master)
  current ← check r
  if str_eq current expected
      then ret tt
      else do (e, _) ← call (set_quorum_replicas master expected); check e

-- The three operations of the transition.
unfoldable pub to_quorum : Settings → String → List String → Act (Unit {0})
to_quorum c master nodes = actualize_quorum_replicas c master nodes

unfoldable pub to_num : String → ℕ → Act (Unit {0})
to_num master n = do
  (e, _) ← call (set_num_quorum_replicas master n)
  or_fail "set num quorum replicas on master" e

unfoldable pub to_active : List String → Act (Unit {0})
to_active nodes = do r ← call (set_active_nodes nodes); or_fail "update active nodes in dcs" r

module _ (c : Settings) (master : String) (old active : List String) (actual expected : ℕ) where
  abbrev pub raise_num : Act (Unit {0})
  raise_num = if ltb actual expected then to_num master expected else ret tt

  abbrev pub lower_num : Act (Unit {0})
  lower_num = if ltb expected actual then to_num master expected else ret tt

  -- `applyActiveNodesTransition` with these operations.
  unfoldable pub move_keeping : Act (Unit {0})
  move_keeping = do raise_num; to_quorum c master active; lower_num

  unfoldable pub move_adding : Act (Unit {0})
  move_adding = do
    to_quorum c master (active_nodes_intersection old active)
    raise_num
    to_active active
    to_quorum c master active
    lower_num

  unfoldable pub move_removing : Act (Unit {0})
  move_removing = do
    to_active active
    to_quorum c master active
    if actual == expected then ret tt else to_num master expected

  unfoldable pub move_active_nodes : Act (Unit {0})
  move_active_nodes =
      if active_nodes_equal old active
      then move_keeping
      else if has_added_active_nodes old active || ltb actual expected
      then move_adding
      else move_removing

-- The clock as `calcActiveNodes` reads it at each host.
unfoldable pub read_clocks : ShardState → Act (HostMap Time)
read_clocks [] = ret []
read_clocks ((h, s) ∷ rest) = do t ← call now; ts ← read_clocks rest; ret ((h, t) ∷ ts)

abbrev at : HostMap Time → String → Time
at ts h = or_zero 0 (Hosts.get ts h)

-- The times since when hosts fail are kept in the process's memory.
unfoldable pub calc_now :
    Settings → ShardState → ShardState → List String → String → Act (List String)
calc_now c state dcs old master = do
  fails ← call get_fail_times
  ts ← read_clocks state
  ts' ← read_clocks state
  (active, fails') ← deref (
      calc_active_nodes
        (settings c.parse_ip c.inactivation_delay (c.node master) (at ts) (at ts') state old master)
        state dcs fails)
  call (set_fail_times fails')
  ret active

-- `updateActiveNodes`.
unfoldable pub update_active_nodes :
    Settings → ShardState → ShardState → List String → String → Act (Unit {0})
update_active_nodes c state dcs old master = do
  active ← calc_now c state dcs old master
  r ← call (get_num_quorum_replicas master)
  actual ← or_fail "get num quorum replicas on master" r
  move_active_nodes c master old active actual (get_num_replicas_to_write active)

-- ===== src/Kinds/Shard.antt =====
-- `repairShard` and `updateActiveNodes` make the calls of the repairs alone.
use rdsync.Kinds.Tending.{repair_replica-IsTending, IsTending}
use rdsync.ActiveNodes.Update.{
  move_keeping, actualize_quorum_replicas, move_adding, move_active_nodes, expected_replicas,
  calc_now, to_num, read_clocks, to_active, to_quorum, update_active_nodes, move_removing,
}
use rdsync.Repair.Shard.{collect, repair_shard, repair_replicas}
use rdsync.Switchover.Perform.{if_known, repair_master, if_raised, open_master}
use rdsync.Kinds.{is_tending}
use rdsync.Base.{ℕ, suc, String, Option, List, [], ◌∷◌, Result, ok, err}
use rdsync.Types.{HostState, ShardState}
use rdsync.Actions.{Settings, Done}
use rdsync.Actions.Only.{Only-if, Only->>=, only_rules}

open_master-IsTending : (h : String) (s : HostState) → IsTending (open_master h s)
unfolding open_master
open_master-IsTending h s = search (only_rules) depth 15

if_raised-IsTending : (h : String) (s : HostState) (r : Done) → IsTending (if_raised h s r)
unfolding if_raised
if_raised-IsTending h s (err e) = search (only_rules)
if_raised-IsTending h s (ok x) = search (only_rules, open_master-IsTending)

if_known-IsTending :
    (h : String) (hs : List String) (s : HostState) (r : Result ℕ) → IsTending (if_known h hs s r)
unfolding if_known
if_known-IsTending h hs s (err e) = search (only_rules)
if_known-IsTending h hs s (ok n) =
    search (only_rules, open_master-IsTending, if_raised-IsTending) depth 12

pub repair_master-IsTending :
    (h : String) (hs : List String) (s : HostState) → IsTending (repair_master h hs s)
unfolding repair_master
repair_master-IsTending h hs s = search (only_rules, if_known-IsTending) depth 10

collect-IsTending :
    (c : Settings) (ms : Option HostState) (hs : List String) (master : String) (state : ShardState)
    → IsTending (collect c ms hs master state)
unfolding collect
collect-IsTending c ms hs master [] = search (only_rules)
collect-IsTending c ms hs master ((h, s) ∷ rest) =
    Only-if is_tending _ (collect-IsTending c ms hs master rest) (
      Only-if is_tending _
        (Only->>= is_tending (repair_master-IsTending master hs s)
          (λ _. collect-IsTending c ms hs master rest))
        (Only->>= is_tending (collect-IsTending c ms hs master rest) (λ r. search (only_rules))))

repair_replicas-IsTending :
    (c : Settings) (ms : Option HostState) (master : String) (n : ℕ) (state : ShardState)
    → IsTending (repair_replicas c ms master n state)
unfolding repair_replicas
repair_replicas-IsTending c ms master n [] = search (only_rules)
repair_replicas-IsTending c ms master n ((h, s) ∷ rest) =
    Only->>= is_tending (search (only_rules) depth 10) (λ _.
      Only-if is_tending _
        (Only->>= is_tending (repair_replica-IsTending c h master ms s)
          (λ _. repair_replicas-IsTending c ms master (suc n) rest))
        (repair_replicas-IsTending c ms master n rest))

pub repair_shard-IsTending :
    (c : Settings) (state : ShardState) (hs : List String) (master : String)
    → IsTending (repair_shard c state hs master)
unfolding repair_shard
repair_shard-IsTending c state hs master =
    search (only_rules, collect-IsTending, repair_replicas-IsTending) depth 10

expected_replicas-IsTending :
    (c : Settings) (master : String) (hs : List String) → IsTending (expected_replicas c master hs)
unfolding expected_replicas
expected_replicas-IsTending c master [] = search (only_rules)
expected_replicas-IsTending c master (h ∷ hs) =
    Only-if is_tending _ (expected_replicas-IsTending c master hs) (
      Only->>= is_tending (search (only_rules)) (λ ips.
        Only->>= is_tending (expected_replicas-IsTending c master hs)
          (λ rest. search (only_rules))))

pub actualize_quorum_replicas-IsTending :
    (c : Settings) (master : String) (hs : List String)
    → IsTending (actualize_quorum_replicas c master hs)
unfolding actualize_quorum_replicas
actualize_quorum_replicas-IsTending c master hs =
    search (only_rules, expected_replicas-IsTending) depth 20

to_quorum-IsTending :
    (c : Settings) (master : String) (hs : List String) → IsTending (to_quorum c master hs)
unfolding to_quorum
to_quorum-IsTending c master hs = search (only_rules, actualize_quorum_replicas-IsTending)

to_num-IsTending : (master : String) (n : ℕ) → IsTending (to_num master n)
unfolding to_num
to_num-IsTending master n = search (only_rules) depth 10

to_active-IsTending : (hs : List String) → IsTending (to_active hs)
unfolding to_active
to_active-IsTending hs = search (only_rules) depth 10

move_keeping-IsTending :
    (c : Settings) (master : String) (old hs : List String) (actual expected : ℕ)
    → IsTending (move_keeping c master old hs actual expected)
unfolding move_keeping
move_keeping-IsTending c master old hs actual expected =
    search (only_rules, to_num-IsTending, to_quorum-IsTending) depth 15

move_adding-IsTending :
    (c : Settings) (master : String) (old hs : List String) (actual expected : ℕ)
    → IsTending (move_adding c master old hs actual expected)
unfolding move_adding
move_adding-IsTending c master old hs actual expected =
    search (only_rules, to_num-IsTending, to_quorum-IsTending, to_active-IsTending) depth 15

move_removing-IsTending :
    (c : Settings) (master : String) (old hs : List String) (actual expected : ℕ)
    → IsTending (move_removing c master old hs actual expected)
unfolding move_removing
move_removing-IsTending c master old hs actual expected =
    search (only_rules, to_num-IsTending, to_quorum-IsTending, to_active-IsTending) depth 15

move_active_nodes-IsTending :
    (c : Settings) (master : String) (old hs : List String) (actual expected : ℕ)
    → IsTending (move_active_nodes c master old hs actual expected)
unfolding move_active_nodes
move_active_nodes-IsTending c master old hs actual expected =
    search (only_rules, move_keeping-IsTending, move_adding-IsTending, move_removing-IsTending)
      depth 10

read_clocks-IsTending : (state : ShardState) → IsTending (read_clocks state)
unfolding read_clocks
read_clocks-IsTending [] = search (only_rules)
read_clocks-IsTending ((h, s) ∷ rest) = search (only_rules, read_clocks-IsTending rest) depth 10

calc_now-IsTending :
    (c : Settings) (state dcs : ShardState) (old : List String) (master : String)
    → IsTending (calc_now c state dcs old master)
unfolding calc_now
calc_now-IsTending c state dcs old master = search (only_rules, read_clocks-IsTending) depth 15

pub update_active_nodes-IsTending :
    (c : Settings) (state dcs : ShardState) (old : List String) (master : String)
    → IsTending (update_active_nodes c state dcs old master)
unfolding update_active_nodes
update_active_nodes-IsTending c state dcs old master =
    search (only_rules, calc_now-IsTending, move_active_nodes-IsTending) depth 15

-- ===== src/Tests/Nodes.antt =====
-- What a node makes of a server's answers, at concrete ones.
use rdsync.Valkey.State.{get_state, Replies}
use rdsync.Types.{NodeState}
use rdsync.Valkey.State.Kept.{get_state-IsKept, IsKept}
use rdsync.Base.{none, inl, ◌⊎◌, ok, String, true, false, [], ◌∷◌, ◌≡◌, refl, arith}
use rdsync.Base.Int.{pos}
use rdsync.Base.Hosts
use rdsync.Base.Text.Numbers
use rdsync.Valkey.State.{
  if_ping, if_info, with_min_replicas, config_parse, with_number, with_offline, with_paused,
  parse_info, parts, add_lines, add_pair,
}
use rdsync.Valkey.Ping.{has_good}
use rdsync.Valkey.Cluster.{
  is_cluster_majority_alive, has_cluster_slots, is_cluster_node_alone, lines_of, split,
  count_masters, contains_part, has_prefix, has_slots, count_texts, has_text,
}
use rdsync.Valkey.Ping.{evaluate_ping, Memory}
use rdsync.Valkey.Ping.Window.{ping_settles, failures_forget, note_results, failures}

-- Two of the cluster's four masters have failed.
abbrev halved : String
halved =
    "n1 a:1 myself,master - 0 0 1 connected 0-1\nn2 b:1 master - 0 0 2 connected\nn3 c:1 master,fail - 0\nn4 d:1 master,fail - 0\n"

halved_alive : is_cluster_majority_alive halved ≡ true
unfolding is_cluster_majority_alive count_masters lines_of split contains_part has_prefix
halved_alive = refl

halved_slots : (has_cluster_slots halved ≡ true) × (is_cluster_node_alone halved ≡ false)
unfolding has_cluster_slots is_cluster_node_alone has_slots lines_of split contains_part has_prefix
    count_texts has_text
halved_slots = (refl, refl)

ping_settles_example : evaluate_ping (note_results 3 3 true (true ∷ false ∷ [])) ≡ (true, true)
ping_settles_example = ping_settles 2 true (true ∷ false ∷ []) (omega arith)

abbrev memory : Memory
memory = record { info_results = true ∷ []; cached_info = ("role", "master") ∷ [] }

failures_forget_example : (failures 3 3 memory).cached_info ≡ []
failures_forget_example = failures_forget 2 memory (omega arith)

-- A master that is read-only, as it answers.
abbrev replies : Replies
replies = record {
  ping = ok tt;
  info = ok "# Replication\r\nrole:master\r\nrun_id:r1\r\n";
  min_replicas = ok (("min-replicas-to-write", "65535") ∷ []);
  offline = ok (("offline", "no") ∷ []);
  paused = ok (("repl-paused", "yes") ∷ []);
}

abbrev answered : NodeState
answered = record {
  info = ("run_id", "r1") ∷ ("role", "master") ∷ [];
  min_replicas_to_write = pos 65535;
  is_read_only = true;
  is_offline = false;
  is_repl_paused = true;
  failure = none;
}

is_answered : (get_state 3 replies memory).0 ≡ answered
unfolding get_state if_ping if_info with_min_replicas config_parse Hosts.get with_number
    Numbers.parse_int with_offline with_paused parse_info parts add_lines add_pair Hosts.put
    Hosts.delete
is_answered = refl

has_been_good : has_good memory.info_results ≡ true
unfolding has_good
has_been_good = refl

get_state-IsKept_example :
    IsKept 3 (get_state 3 replies memory).1
    × (((get_state 3 replies memory).0.info ≡ (get_state 3 replies memory).1.cached_info)
        ⊎ ((get_state 3 replies memory).0.info ≡ []))
get_state-IsKept_example = get_state-IsKept 2 replies memory (omega arith, inl has_been_good)

-- ===== src/Lag.antt =====
-- internal/app/lag.go: replication offsets, whether a partial resynchronisation is possible, the
-- most recent host, and the host to switch to. A `range` over the shard's state visits it in the
-- order of the map. What the DCS answers when it is asked for the configuration of a host is the
-- argument `answer`; `GetNodeConfiguration` is that of internal/valkey/shard.go.
pub mod Psync
pub mod Recent
pub mod Desirable
use text.Mathlib.Text.{starts_with}
use rdsync.Base.{
  ℕ, ltb, ◌==◌, String, str_eq, Bool, true, false, not, ◌&&◌, ◌||◌, Option, none, some, List, [],
  ◌∷◌, ◌++◌, Result, ok, err, Error, not_found, malformed, failed, ◌>>=◌, if◌then◌else◌,
}
use rdsync.Base.Int.{ℤ, pos, add64, ltb_ℤ, eqb_ℤ}
use rdsync.Base.Hosts
use rdsync.Types.{ReplicaState, HostState, ShardState}

-- The offset of a host that answers; 0 where nothing is known of the host.
unfoldable pub get_offset : Option HostState → ℤ
get_offset none = pos 0
get_offset (some s) =
    if not s.ping_ok
    then pos 0
    else if s.is_master
    then s.master_replication_offset
    else elim s.replica_state [ some rs ↦ rs.replication_offset | none ↦ pos 0 ]

-- The tests of `isPartialSyncPossible` on a replica whose state is known.
unfoldable pub psync_from : HostState → HostState → ReplicaState → Bool
psync_from replica master rs =
    let psync_offset = add64 rs.replication_offset (pos 1) in
    if not (str_eq master.replication_id replica.replication_id)
      && (not (str_eq master.replication_id2 replica.replication_id)
          || ltb_ℤ master.second_replication_offset psync_offset)
    then false
    else if ltb_ℤ psync_offset master.replication_backlog_start
        || ltb_ℤ (add64 master.replication_backlog_start master.replication_backlog_size)
            psync_offset
    then false
    else true

unfoldable pub is_partial_sync_possible : Option HostState → Option HostState → Bool
is_partial_sync_possible none _ = false
is_partial_sync_possible (some replica) none = false
is_partial_sync_possible (some replica) (some master) = elim replica.replica_state [
  | none ↦ false
  | some rs ↦ psync_from replica master rs
]

-- The loop of `findMostRecentNode`, from the host and the offset found so far.
unfoldable pub most_recent_from : String → ℤ → ShardState → String
most_recent_from host best [] = host
most_recent_from host best ((h, s) ∷ rest) =
    let offset = get_offset (some s) in
    let later = ltb_ℤ best offset in
    most_recent_from (if later then h else host) (if later then offset else best) rest

unfoldable pub find_most_recent_node : ShardState → String
find_most_recent_node state = most_recent_from "" (pos 0) state

-- A configuration that is missing or malformed has the default priority.
unfoldable pub get_node_configuration : Result ℤ → Result ℤ
get_node_configuration (ok p) = ok p
get_node_configuration (err not_found) = ok (pos 100)
get_node_configuration (err malformed) = ok (pos 100)
get_node_configuration (err _) = err (failed "failed to get Priority for host")

-- The first loop of `getMostDesirableNode`: the hosts that may be chosen.
unfoldable pub recent_nodes : String → Option HostState → String → ShardState → List String
recent_nodes recent recent_state from [] = []
recent_nodes recent recent_state from ((h, s) ∷ rest) =
    let later = recent_nodes recent recent_state from rest in
    if starts_with h from
    then later
    else if str_eq h recent
    then h ∷ later
    else if is_partial_sync_possible (some s) recent_state
    then h ∷ later
    else later

-- The best host so far: `priorityHost`, `maxPriority` and `maxOffset`.
pub record Best : Type 0 where
  pub host : String
  pub priority : ℤ
  pub offset : ℤ

-- The body of the second loop, once the host's priority is known.
unfoldable pub better : Best → String → ℤ → ℤ → Best
better b host priority offset =
    if ltb_ℤ b.priority priority || (eqb_ℤ priority b.priority && ltb_ℤ b.offset offset)
    then record { host = host; priority = priority; offset = offset }
    else b

unfoldable pub choose_from : (String → Result ℤ) → ShardState → Best → List String → Result Best
choose_from answer state b [] = ok b
choose_from answer state b (h ∷ hs) = get_node_configuration (answer h) >>= λ p.
    choose_from answer state (better b h p (get_offset (Hosts.get state h))) hs

abbrev pub no_best : Best
no_best = record { host = ""; priority = pos 0; offset = pos 0 }

-- From the check that there are candidates to the end.
unfoldable pub choose : (String → Result ℤ) → ShardState → List String → Result String
choose answer state [] = err (failed "no hosts with psync possible from most recent one")
choose answer state (h ∷ hs) = choose_from answer state no_best (h ∷ hs) >>= λ b. ok b.host

-- The hosts that `getMostDesirableNode` chooses from.
abbrev pub candidates : ShardState → String → List String
candidates state from =
    let recent = find_most_recent_node state in
    recent_nodes recent (Hosts.get state recent) from state

unfoldable pub get_most_desirable_node : (String → Result ℤ) → ShardState → String → Result String
get_most_desirable_node answer state from = choose answer state (candidates state from)

-- ===== src/State.antt =====
-- internal/app/state.go: `getHostState`, what the fields of a server's INFO say of it. The reader
-- stops at the first field that is missing or malformed, with what it has read so far.
pub mod Fields
pub mod Complete
use Prim.Native.Nat.{◌+◌}
use Prim.Native.String.{len, slice, ◌++◌ as append}
use text.Mathlib.Text.{find?}
use rdsync.Base.{
  ℕ, zero, suc, ltb, String, str_eq, Bool, true, false, not, ◌&&◌, Option, none, some, List, [],
  ◌∷◌, ◌++◌, Result, ok, err, HostMap, if◌then◌else◌,
}
use rdsync.Base.Int.{ℤ, pos, pos_part, mul64}
use rdsync.Base.Hosts
use rdsync.Base.Text.Numbers.{parse_int, decimal}
use rdsync.Types.{
  Time, HostState, ReplicaState, NodeState, SentiCacheInfo, AppMode, mode_sentinel, mode_cluster,
  zero_state,
}
use rdsync.Actions.{Done}
use rdsync.Switchover.{message_of}

-- A reader goes on with a value, or is over. `none` is a panic.
abbrev pub Reader : Type 0 → Type 0
Reader A = HostState → Option (HostState × Option A)

abbrev pub go_on :
    {A B : Type 0} → (A → Reader B) → Option (HostState × Option A) → Option (HostState × Option B)
go_on f none = none
go_on f (some (s, none)) = some (s, none)
go_on f (some (s, some a)) = f a s

infixl 5 ◌>>=◌ ◌>>◌
abbrev pub ◌>>=◌ : {A B : Type 0} → Reader A → (A → Reader B) → Reader B
◌>>=◌ m f s = go_on f (m s)

abbrev pub ◌>>◌ : {A B : Type 0} → Reader A → Reader B → Reader B
m >> k = m >>= λ _. k

abbrev pub pure : {A : Type 0} → A → Reader A
pure a s = some (s, some a)

-- `setStateError`, and the end.
unfoldable pub stop : {A : Type 0} → String → Reader A
stop message s = some (record s { error = message }, none)

abbrev pub modify : (HostState → HostState) → Reader (Unit {0})
modify f s = some (f s, some tt)

unfoldable pub or_stop : String → Option String → Reader String
unfolding stop
or_stop message none = stop message
or_stop message (some v) = pure v

-- The field of INFO, or the error.
unfoldable pub field : HostMap String → String → String → Reader String
field info name message = or_stop message (Hosts.get info name)

unfoldable pub check_number : Option String → Reader (Unit {0})
unfolding stop
check_number none = pure tt
check_number (some message) = stop message

-- A number in a field, given to `put`, also where it is out of range.
unfoldable pub number :
    (ℤ → HostState → HostState) → HostMap String → String → String → Reader (Unit {0})
unfolding field check_number
number put info name message = do
  v ← field info name message
  let (n, e) = parse_int v
  modify (put n)
  check_number e

-- replicaValue[start+1:end], where no index is -1.
unfoldable pub between : Option ℕ → Option ℕ → String → Option String
between start none text = none
between none (some end) text = some (slice text 0 end)
between (some start) (some end) text =
    if ltb end (start + 1) then none else some (slice text (start + 1) end)

-- The address is the first value of the field.
unfoldable pub address_of : String → Option String
address_of text = between (find? text "=") (find? text ",") text

abbrev pub add_address : Option String → Reader (Unit {0}) → Reader (Unit {0})
add_address none rest s = none
add_address (some a) rest s =
    rest (record s { connected_replicas = s.connected_replicas ++ a ∷ [] })

abbrev pub next_replica : Option String → Reader (Unit {0}) → Reader (Unit {0})
next_replica none rest = rest
next_replica (some v) rest = add_address (address_of v) rest

-- The replicas `i`, `i` + 1, ..., `n` of them; one that is missing is passed over.
unfoldable pub read_replicas : HostMap String → ℕ → ℕ → Reader (Unit {0})
read_replicas info i zero = pure tt
read_replicas info i (suc n) =
    let rest = read_replicas info (suc i) n in
    next_replica (Hosts.get info (append "slave" (decimal i))) rest

unfoldable pub read_master : HostMap String → Reader (Unit {0})
unfolding field check_number
read_master info = do
  modify (λ s. record s { is_master = true })
  v ← field info "connected_slaves" "Master has no connected_slaves in info"
  let (n, e) = parse_int v
  check_number e
  read_replicas info 0 (pos_part n)

-- A number of the replica's own state, which is dropped with it on an error.
unfoldable pub replica_number : HostMap String → String → String → Reader ℤ
unfolding field check_number
replica_number info name message = do
  v ← field info name message
  let (n, e) = parse_int v
  check_number e
  pure n

-- How long the link has been down, or how long the master has been silent.
unfoldable pub read_times : HostMap String → Bool → Bool → Reader (ℤ × ℤ)
read_times info false false = do
  n ←
      replica_number info "master_link_down_since_seconds"
        "Replica with link down but no master_link_down_since_seconds in info"
  pure (mul64 1000 n, pos 0)
read_times info true false = do
  n ←
      replica_number info "master_last_io_seconds_ago"
        "Replica with link up but no master_last_io_seconds_ago in info"
  pure (pos 0, n)
read_times info link true = pure (pos 0, pos 0)

unfoldable pub read_replica : HostMap String → Reader (Unit {0})
unfolding field
read_replica info = do
  modify (λ s. record s { is_master = false })
  host ← field info "master_host" "Replica but no master_host in info"
  status ← field info "master_link_status" "Replica but no master_link_status in info"
  sync ← field info "master_sync_in_progress" "Replica but no master_sync_in_progress in info"
  let link = str_eq status "up"
  let syncing = not (str_eq sync "0")
  (down, silent) ← read_times info link syncing
  offset ← replica_number info "slave_repl_offset" "Replica but no slave_repl_offset in info"
  modify (λ s. record s {
    replica_state = some (record {
      master_host = host;
      master_link_down_time = down;
      replication_offset = offset;
      master_last_io_seconds = silent;
      master_link_state = link;
      master_sync_in_progress = syncing;
    });
  })

unfoldable pub read_role : HostMap String → Reader (Unit {0})
unfolding field
read_role info = do
  role ← field info "role" "No role in info"
  if str_eq role "master" then read_master info else read_replica info

unfoldable pub read_replication : HostMap String → Reader (Unit {0})
unfolding field
read_replication info = do
  run_id ← field info "run_id" "No run_id in info"
  modify (λ s. record s { run_id = run_id })
  id ← field info "master_replid" "No master_replid in info"
  modify (λ s. record s { replication_id = id })
  id2 ← field info "master_replid2" "No master_replid2 in info"
  modify (λ s. record s { replication_id2 = id2 })
  number (λ n s. record s { master_replication_offset = n }) info "master_repl_offset"
      "No master_repl_offset in info"
  number (λ n s. record s { second_replication_offset = n }) info "second_repl_offset"
      "No second_repl_offset in info"
  number (λ n s. record s { replication_backlog_start = n }) info "repl_backlog_first_byte_offset"
      "No repl_backlog_first_byte_offset in info"
  number (λ n s. record s { replication_backlog_size = n }) info "repl_backlog_histlen"
      "No repl_backlog_histlen in info"

unfoldable pub check_lookup : Done → Reader (Unit {0})
unfolding stop
check_lookup (ok _) = pure tt
check_lookup (err e) = stop (message_of e)

unfoldable pub read_ip : Result String → Reader (Unit {0})
unfolding stop
read_ip (ok a) = modify (λ s. record s { ip = a })
read_ip (err e) = stop (message_of e)

-- What the node's configuration says, and its address, where the names have been looked up anew.
unfoldable pub read_config : NodeState → Done → Result String → Reader (Unit {0})
read_config n refreshed ip = do
  modify (λ s. record s {
    min_replicas_to_write = n.min_replicas_to_write;
    is_read_only = n.is_read_only;
    is_offline = n.is_offline;
    is_repl_paused = n.is_repl_paused;
  })
  check_lookup refreshed
  read_ip ip

-- What `GetState`, `EvaluatePing`, `RefreshAddrs` and `GetIP` have said of the host.
pub record Answers : Type 0 where
  pub state : NodeState
  pub ping_ok : Bool
  pub ping_stable : Bool
  pub refreshed : Done
  pub address : Result String

unfoldable pub read_all : Answers → Reader (Unit {0})
read_all a = do
  modify (λ s. record s { ping_ok = a.ping_ok; ping_stable = a.ping_stable })
  read_replication a.state.info
  read_role a.state.info
  read_config a.state a.refreshed a.address

abbrev pub with_error : Option String → HostState → HostState
with_error none s = s
with_error (some message) s = record s { error = message }

abbrev pub is_empty : HostMap String → Bool
is_empty [] = true
is_empty (x ∷ xs) = false

abbrev pub has_failed : Option String → Bool
has_failed none = false
has_failed (some message) = true

abbrev pub state_of : Option (HostState × Option (Unit {0})) → Option HostState
state_of none = none
state_of (some (s, r)) = some s

-- The state before the server has said anything.
unfoldable pub first_state : AppMode → String → SentiCacheInfo → String → Time → HostState
first_state mode_sentinel hostname cache fqdn now =
    if str_eq fqdn hostname
    then record zero_state { check_at = now; check_by = hostname; senticache_state = some cache }
    else record zero_state { check_at = now; check_by = hostname }
first_state mode_cluster hostname cache fqdn now = record zero_state {
  check_at = now;
  check_by = hostname;
}

-- `getHostState` of a host that has a node.
unfoldable pub get_host_state : HostState → Answers → Option HostState
get_host_state first a =
    if has_failed a.state.failure && is_empty a.state.info
    then some (with_error a.state.failure first)
    else state_of (read_all a (with_error a.state.failure first))

-- ===== src/Actions.antt =====
-- What rdsync asks of the servers, of the DCS and of the clock, and programs of such calls: the
-- effects of the methods of App in internal/app. The replies are left open, so that a theorem about
-- a program holds whatever the servers and the DCS answer.
pub mod Calls
pub mod Hoare
pub mod Steps
pub mod Only
pub mod Run
pub use Calls.*
use rdsync.Base.{
  ℕ, suc, ◌/◌, String, Bool, true, false, Option, none, some, List, [], ◌∷◌, Error, not_found,
  exists, malformed, failed, Result, ok, err, HostMap,
}
use rdsync.Base.Int.{ℤ, pos, pos_part, ltb_ℤ, mul64}
use rdsync.Types.{
  Time, Duration, since, HostState, Switchover, PoisonPill, Maintenance, ShardState, AppMode,
  AofMode,
}
use rdsync.Replication.{Node, LagConfig, second}
use rdsync.Failover.{Config}

-- A program: it returns a value or an error, ends the process (a nil pointer is dereferenced), has
-- no turns left in a loop, makes a call, does one thing and, if there is no error, another, or does
-- one thing and then another with its error as a value.
pub data Act : Type 0 → Type 1 where
  ret : {A : Type 0} → A → Act A
  raise : {A : Type 0} → Error → Act A
  crash : {A : Type 0} → Act A
  hang : {A : Type 0} → Act A
  ask : {A : Type 0} → (c : Call) → (Reply c → Act A) → Act A
  bind : {A B : Type 0} → Act A → (A → Act B) → Act B
  handle : {A B : Type 0} → Act A → (Result A → Act B) → Act B

infixl 5 ◌>>=◌ ◌>>◌
abbrev pub ◌>>=◌ : {A B : Type 0} → Act A → (A → Act B) → Act B
m >>= f = bind m f

abbrev pub ◌>>◌ : {A B : Type 0} → Act A → Act B → Act B
m >> k = bind m (λ _. k)

-- The error as a value: what `err := f()` gives.
abbrev pub attempt : {A : Type 0} → Act A → Act (Result A)
attempt m = handle m ret

abbrev pub call : (c : Call) → Act (Reply c)
call c = ask c ret

-- if err != nil { return err }
unfoldable pub check : {A : Type 0} → Result A → Act A
check (ok a) = ret a
check (err e) = raise e

-- x.Field of a pointer that may be nil
unfoldable pub deref : {A : Type 0} → Option A → Act A
deref (some a) = ret a
deref none = crash

-- if err != nil { return fmt.Errorf(message) }
unfoldable pub or_fail : {A : Type 0} → String → Result A → Act A
or_fail message (ok a) = ret a
or_fail message (err e) = raise (failed message)

-- if test { return err }
unfoldable pub raise_if : Bool → String → Act (Unit {0})
raise_if true message = raise (failed message)
raise_if false message = ret tt

-- A value that may not be there, where its absence is no error.
unfoldable pub found : {A : Type 0} → Result A → Act (Option A)
found (ok a) = ret (some a)
found (err not_found) = ret none
found (err exists) = raise exists
found (err malformed) = raise malformed
found (err (failed m)) = raise (failed m)

-- `getShardStateFromDB`, which returns no error: its getter has none.
unfoldable pub get_host_states : List String → Act ShardState
get_host_states [] = ret []
get_host_states (h ∷ hs) = do
  s ← call (host_state h)
  rest ← get_host_states hs
  ret ((h, s) ∷ rest)

unfoldable pub get_shard_state_from_db : Act ShardState
get_shard_state_from_db = do hs ← call hosts; get_host_states hs

-- `runParallel`: the bodies in the order of the hosts, each with its error.
unfoldable pub run_parallel : (String → Act (Unit {0})) → List String → Act (HostMap Done)
run_parallel f [] = ret []
run_parallel f (h ∷ hs) = do r ← attempt (f h); rest ← run_parallel f hs; ret ((h, r) ∷ rest)

-- `combineErrors`: an error where a host has one.
unfoldable pub combine_errors : HostMap Done → Done
combine_errors [] = ok tt
combine_errors ((h, ok _) ∷ rest) = combine_errors rest
combine_errors ((h, err e) ∷ rest) = err (failed "errors of hosts")

-- The options that the programs read, the node of a host, and `net.ParseIP`.
pub record Settings : Type 0 where
  pub hostname : String
  pub mode : AppMode
  pub failover : Config
  pub turn_before_switchover : Bool
  pub destructive_replication_repair_timeout : Duration
  pub has_destructive_replication_repair_command : Bool
  pub wait_poison_pill_timeout : Duration
  pub wait_replication_timeout : Duration
  pub wait_catchup_timeout : Duration
  pub wait_promote_timeout : Duration
  pub wait_promote_force_timeout : Duration
  pub dcs_reconnect_timeout : Duration
  pub switchover_timeout : Duration
  pub busy_timeout : Duration
  pub restart_timeout : Duration
  pub health_check_interval : Duration
  pub inactivation_delay : Duration
  pub tick_interval : Duration
  pub lag : LagConfig
  pub aof_mode : AofMode
  pub has_aof_path : Bool
  pub max_parallel_syncs : ℤ
  pub reserved_connections : ℤ
  pub port : String
  pub parse_int : String → Option ℤ
  pub node : String → Option Node
  pub parse_ip : String → Option ℕ

-- time.Now().Before(start.Add(timeout))
abbrev pub is_before : Time → Time → Duration → Bool
is_before t start timeout = ltb_ℤ (since t start) timeout

-- One turn for each second of a timeout, and the turn that sees the deadline.
abbrev pub turns : Duration → ℕ
turns d = suc (suc (pos_part d / second))

-- 3*app.config.HealthCheckInterval
abbrev pub three_checks : Settings → Duration
three_checks c = mul64 3 c.health_check_interval

abbrev pub a_second : Duration
a_second = pos second

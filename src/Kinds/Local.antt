-- ===== src/Kinds/Local.antt =====
-- `repairLocalNode` makes the calls of the repairs alone.
use rdsync.Kinds.{is_killing, is_opening, is_tending, is_local}
use rdsync.Repair.Local.{
  Return, restart_if_late, handle_failure, promote_alone, renew_fail_time, note_fail_time,
  repair_if_broken, may_open, after_kill, if_active, if_online, note_state, hold_stale,
  unless_returned, prepare_open, raise_for, go_online, hold_replica, forget_fail_time,
  repair_local_node, tend_online, if_set, if_promoted, kill_if_busy, raise_quorum, tend_offline,
}
use rdsync.Kinds.Tending.{
  reserved_connections_watchdog-IsTending, close_stale_replica-IsTending,
  read_active_nodes-IsTending, is_stale-IsTending, clear_diverge_time-IsTending,
  get_state-IsTending, get_shard_state_from_dcs-IsTending, adjust_aof_mode-IsTending,
  repair_replica-IsTending, promote-IsTending, IsTending,
}
use rdsync.Base.{
  arith, ℕ, String, Bool, true, false, Option, none, some, List, Result, ok, err, HostMap,
}
use rdsync.Types.{Duration, HostState, ShardState}
use rdsync.Actions.{Act, Settings, Done}
use rdsync.Actions.Only.{Only-mono, Only, only_rules}

abbrev pub IsLocal : {A : Type 0} → Act A → Type 0
IsLocal m = Only is_local m

abbrev pub IsOpening : {A : Type 0} → Act A → Type 0
IsOpening m = Only is_opening m

tending-IsOpening : {A : Type 0} {m : Act A} → IsTending m → IsOpening m
tending-IsOpening h = Only-mono is_tending is_opening (λ c e. ground arith) h

opening-IsLocal : {A : Type 0} {m : Act A} → IsOpening m → IsLocal m
opening-IsLocal h = Only-mono is_opening is_local (λ c e. ground arith) h

abbrev pub IsKilling : {A : Type 0} → Act A → Type 0
IsKilling m = Only is_killing m

tending-IsKilling : {A : Type 0} {m : Act A} → IsTending m → IsKilling m
tending-IsKilling h = Only-mono is_tending is_killing (λ c e. ground arith) h

killing-IsLocal : {A : Type 0} {m : Act A} → IsKilling m → IsLocal m
killing-IsLocal h = Only-mono is_killing is_local (λ c e. ground arith) h

pub tending-IsLocal : {A : Type 0} {m : Act A} → IsTending m → IsLocal m
tending-IsLocal h = Only-mono is_tending is_local (λ c e. ground arith) h

pub note_fail_time-IsTending : (h : String) → IsTending (note_fail_time h)
unfolding note_fail_time
note_fail_time-IsTending h = search (only_rules) depth 12

pub forget_fail_time-IsTending : (h : String) → IsTending (forget_fail_time h)
unfolding forget_fail_time
forget_fail_time-IsTending h = search (only_rules) depth 12

renew_fail_time-IsTending : (h : String) → IsTending (renew_fail_time h)
unfolding renew_fail_time
renew_fail_time-IsTending h = search (only_rules) depth 12

after_kill-IsTending : (r : Done) → IsTending (after_kill r)
unfolding after_kill
after_kill-IsTending (ok x) = search (only_rules)
after_kill-IsTending (err e) = search (only_rules)

kill_if_busy-IsKilling : (c : Settings) (t : Duration) (m : String) → IsKilling (kill_if_busy c t m)
unfolding kill_if_busy
kill_if_busy-IsKilling c t m = search (only_rules, tending-IsKilling, after_kill-IsTending) depth 10

pub restart_if_late-IsTending :
    (c : Settings) (t : Duration) (m : String) → IsTending (restart_if_late c t m)
unfolding restart_if_late
restart_if_late-IsTending c t m = search (only_rules, renew_fail_time-IsTending) depth 12

handle_failure-IsKilling : (c : Settings) (m : String) → IsKilling (handle_failure c m)
unfolding handle_failure
handle_failure-IsKilling c m =
    search
      (
        only_rules, tending-IsKilling, note_fail_time-IsTending, kill_if_busy-IsKilling,
        restart_if_late-IsTending,
      )
      depth 12

pub note_state-IsKilling :
    (c : Settings) (b : Bool) (o : Option String) → IsKilling (note_state c b o)
unfolding note_state
note_state-IsKilling c b (some m) = search (only_rules, handle_failure-IsKilling)
note_state-IsKilling c true none = search (only_rules)
note_state-IsKilling c false none =
    search (only_rules, tending-IsKilling, forget_fail_time-IsTending)

pub tend_online-IsTending :
    (c : Settings) (master : String) (info : HostMap String) → IsTending (tend_online c master info)
unfolding tend_online
tend_online-IsTending c master info =
    search
      (
        only_rules, adjust_aof_mode-IsTending, close_stale_replica-IsTending,
        reserved_connections_watchdog-IsTending,
      )
      depth 15

if_active-IsTending :
    (master : String) (s : HostState) (state : ShardState) (r : Result (List String))
    → IsTending (if_active master s state r)
unfolding if_active
if_active-IsTending master s state (err e) = search (only_rules)
if_active-IsTending master s state (ok hs) = search (only_rules)

if_promoted-IsTending : (r : Done) → IsTending (if_promoted r)
unfolding if_promoted
if_promoted-IsTending (ok x) = search (only_rules)
if_promoted-IsTending (err e) = search (only_rules)

promote_alone-IsTending :
    (c : Settings) (master : String) (s : HostState) (state : ShardState)
    → IsTending (promote_alone c master s state)
unfolding promote_alone
promote_alone-IsTending c master s state =
    search (only_rules, promote-IsTending, if_promoted-IsTending) depth 12

repair_if_broken-IsTending :
    (c : Settings) (master : String) (b : Bool) (s : HostState) (dcs : ShardState)
    → IsTending (repair_if_broken c master b s dcs)
unfolding repair_if_broken
repair_if_broken-IsTending c master b s dcs = search (only_rules, repair_replica-IsTending) depth 10

hold_stale-IsTending :
    (c : Settings) (master : String) (b : Bool) (s : HostState)
    → IsTending (hold_stale c master b s)
unfolding hold_stale
hold_stale-IsTending c master b s =
    search (only_rules, get_shard_state_from_dcs-IsTending, repair_if_broken-IsTending) depth 15

pub hold_replica-IsTending :
    (c : Settings) (master : String) (b : Bool) (s : HostState)
    → IsTending (hold_replica c master b s)
unfolding hold_replica
hold_replica-IsTending c master b s =
    search (only_rules, is_stale-IsTending, hold_stale-IsTending) depth 12

may_open-IsTending :
    (c : Settings) (master : String) (b : Bool) (state : ShardState) (o : Option HostState)
    → IsTending (may_open c master b state o)
unfolding may_open
may_open-IsTending c master b state none = search (only_rules)
may_open-IsTending c master b state (some s) =
    search
      (
        only_rules, read_active_nodes-IsTending, if_active-IsTending, promote_alone-IsTending,
        hold_replica-IsTending,
      )
      depth 12

if_set-IsTending : (r : Done) → IsTending (if_set r)
unfolding if_set
if_set-IsTending (ok x) = search (only_rules)
if_set-IsTending (err e) = search (only_rules)

raise_quorum-IsTending :
    (c : Settings) (hs : List String) (r : Result ℕ) → IsTending (raise_quorum c hs r)
unfolding raise_quorum
raise_quorum-IsTending c hs (err e) = search (only_rules)
raise_quorum-IsTending c hs (ok n) = search (only_rules, if_set-IsTending) depth 10

raise_for-IsTending : (c : Settings) (r : Result (List String)) → IsTending (raise_for c r)
unfolding raise_for
raise_for-IsTending c (err e) = search (only_rules)
raise_for-IsTending c (ok hs) = search (only_rules, raise_quorum-IsTending) depth 10

prepare_open-IsTending : (c : Settings) (master : String) → IsTending (prepare_open c master)
unfolding prepare_open
prepare_open-IsTending c master =
    search (only_rules, read_active_nodes-IsTending, raise_for-IsTending) depth 12

if_online-IsTending : (r : Done) → IsTending (if_online r)
unfolding if_online
if_online-IsTending (ok x) = search (only_rules, clear_diverge_time-IsTending)
if_online-IsTending (err e) = search (only_rules)

go_online-IsOpening : (c : Settings) → IsOpening (go_online c)
unfolding go_online
go_online-IsOpening c = search (only_rules, tending-IsOpening, if_online-IsTending) depth 8

unless_returned-IsOpening :
    (o : Return) (k : Act Bool) → IsOpening k → IsOpening (unless_returned o k)
unfolding unless_returned
unless_returned-IsOpening (some b) k h = search (only_rules)
unless_returned-IsOpening none k h = h

pub tend_offline-IsOpening :
    (c : Settings) (master : String) (b : Bool) → IsOpening (tend_offline c master b)
unfolding tend_offline
tend_offline-IsOpening c master b =
    search
      (
        only_rules, tending-IsOpening, get_state-IsTending, may_open-IsTending,
        unless_returned-IsOpening, forget_fail_time-IsTending, prepare_open-IsTending,
        go_online-IsOpening,
      )
      depth 20

pub repair_local_node-IsLocal :
    (c : Settings) (master : String) → IsLocal (repair_local_node c master)
unfolding repair_local_node
repair_local_node-IsLocal c master =
    search
      (
        only_rules, tending-IsLocal, killing-IsLocal, note_state-IsKilling, opening-IsLocal,
        tend_offline-IsOpening, tend_online-IsTending,
      )
      depth 12

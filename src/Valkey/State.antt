-- ===== src/Valkey/State.antt =====
-- internal/valkey/node.go: `GetState`, what a server's answers make of its state and of what the node
-- remembers.
pub mod Kept
use Prim.Native.String.{len, slice, ◌++◌ as append}
use text.Mathlib.Text.{find?, starts_with}
use rdsync.Base.{
  ℕ, suc, ◌+◌, ◌&&◌, failed, ◌==◌, String, str_eq, Bool, true, false, Option, none, some, List, [],
  ◌∷◌, Result, ok, err, HostMap, if◌then◌else◌,
}
use rdsync.Base.Int.{ℤ, pos, eqb_ℤ}
use rdsync.Base.Hosts
use rdsync.Base.Text.Numbers.{parse_int}
use rdsync.Types.{NodeState}
use rdsync.Valkey.Ping.{Memory, note_failure, note_info}
use rdsync.Switchover.{message_of}

-- The parts between the ends of lines, from the right: a character goes before the first part, and one
-- that completes an end starts a part anew.
abbrev pub prefix : String → List String → List String
prefix c [] = c ∷ []
prefix c (p ∷ ps) =
    if str_eq c "\r" && starts_with p "\n" then "" ∷ slice p 1 (len p) ∷ ps else append c p ∷ ps

unfoldable pub parts : String → List String
parts String.[] = "" ∷ []
parts (String.◌∷◌ c s) = prefix (String.◌∷◌ c String.[]) (parts s)

-- strings.Cut at the colon; a line without one is passed over.
unfoldable pub add_pair : String → Option ℕ → HostMap String → HostMap String
add_pair line none info = info
add_pair line (some at) info = Hosts.put info (slice line 0 at) (slice line (at + 1) (len line))

-- The last part has no end of line, and is no line.
unfoldable pub add_lines : HostMap String → List String → HostMap String
add_lines info [] = info
add_lines info (last ∷ []) = info
add_lines info (line ∷ next ∷ rest) = add_lines (add_pair line (find? line ":") info) (next ∷ rest)

unfoldable pub parse_info : String → HostMap String
parse_info text = add_lines [] (parts text)

unfoldable pub config_parse : String → Result (HostMap String) → Result String
config_parse key (err e) = err e
config_parse key (ok vals) = elim (Hosts.get vals key) [
  | none ↦ err (failed "unexpected config get result")
  | some v ↦ ok v
]

-- The server's answers; `ping` is also the connection's error.
pub record Replies : Type 0 where
  pub ping : Result (Unit {0})
  pub info : Result String
  pub min_replicas : Result (HostMap String)
  pub offline : Result (HostMap String)
  pub paused : Result (HostMap String)

abbrev pub bare : HostMap String → Option String → NodeState
bare info failure = record {
  info = info;
  min_replicas_to_write = pos 0;
  is_read_only = false;
  is_offline = false;
  is_repl_paused = false;
  failure = failure;
}

unfoldable pub with_paused : NodeState → Result String → NodeState
with_paused s (err e) = record s { failure = some (message_of e) }
with_paused s (ok v) = record s { is_repl_paused = str_eq v "yes" }

unfoldable pub with_offline : Replies → NodeState → Result String → NodeState
with_offline r s (err e) = record s { failure = some (message_of e) }
with_offline r s (ok v) =
    with_paused (record s { is_offline = str_eq v "yes" }) (config_parse "repl-paused" r.paused)

-- 65535 replicas to wait for is what makes a server read-only.
unfoldable pub with_number : Replies → NodeState → ℤ × Option String → NodeState
with_number r s (n, some message) = record s {
  failure = some (append "unable to parse min-replicas-to-write value: " message);
}
with_number r s (n, none) =
    with_offline r (record s { min_replicas_to_write = n; is_read_only = eqb_ℤ n (pos 65535) })
      (config_parse "offline" r.offline)

unfoldable pub with_min_replicas : Replies → NodeState → Result String → NodeState
with_min_replicas r s (err e) = record s { failure = some (message_of e) }
with_min_replicas r s (ok v) = with_number r s (parse_int v)

unfoldable pub if_info : ℕ → Replies → Memory → Result String → NodeState × Memory
if_info size r m (err e) = (bare [] (some (message_of e)), m)
if_info size r m (ok text) =
    let info = parse_info text in
    (
      with_min_replicas r (bare info none) (config_parse "min-replicas-to-write" r.min_replicas),
      note_info size info m,
    )

unfoldable pub if_ping : ℕ → Replies → Memory → Result (Unit {0}) → NodeState × Memory
if_ping size r m (err e) =
    let m' = note_failure size m in (bare m'.cached_info (some (message_of e)), m')
if_ping size r m (ok _) = if_info size r m r.info

-- `GetState`; `size` is PingStable.
unfoldable pub get_state : ℕ → Replies → Memory → NodeState × Memory
get_state size r m = if_ping size r m r.ping

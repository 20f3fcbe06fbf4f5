-- ===== src/Repair/Watchdog.antt =====
-- internal/app/repair.go: `reservedConnectionsWatchdog`. `strconv.ParseInt` is the argument
-- `parse_int` of the settings.
use rdsync.Base.{String, Option, none, some, failed, HostMap, if◌then◌else◌}
use rdsync.Base.Int.{ℤ, sub64, ltb_ℤ}
use rdsync.Base.Hosts
use rdsync.Actions.{Act, ret, raise, ◌>>=◌, ◌>>◌, call, check, Settings, disconnect_clients}

unfoldable pub parsed : Option ℤ → Act ℤ
parsed none = raise (failed "unable to parse")
parsed (some n) = ret n

unfoldable pub parse_field : Settings → Option String → Act ℤ
parse_field c none = raise (failed "no field in info")
parse_field c (some text) = parsed (c.parse_int text)

-- A number that the node's INFO has under the name.
unfoldable pub int_field : Settings → HostMap String → String → Act ℤ
int_field c info name = parse_field c (Hosts.get info name)

unfoldable pub reserved_connections_watchdog : Settings → HostMap String → Act (Unit {0})
reserved_connections_watchdog c info = do
  max ← int_field c info "maxclients"
  cluster ← int_field c info "cluster_connections"
  connected ← int_field c info "connected_clients"
  if ltb_ℤ (sub64 (sub64 max cluster) connected) c.reserved_connections
      then (do
        r ← call (disconnect_clients c.hostname "normal")
        check r
        r' ← call (disconnect_clients c.hostname "pubsub")
        check r')
      else ret tt

-- ===== src/Types/Names.antt =====
-- The `String` methods of the states and modes, and the parsers of the modes.
use rdsync.Base.{String, str_eq, eq_iff, ◌≡◌, refl, Result, ok, err, failed, arith, if◌then◌else◌}
use rdsync.Types.{
  AppState, state_init, state_manager, state_candidate, state_lost, state_maintenance, AppMode,
  mode_sentinel, mode_cluster, AofMode, mode_unspecified, mode_on, mode_off, mode_on_replicas,
}

-- Go's enums are ints, and another int is "Unknown"; these types have no other values.
unfoldable pub show_state : AppState → String
show_state state_init = "Init"
show_state state_manager = "Manager"
show_state state_candidate = "Candidate"
show_state state_lost = "Lost"
show_state state_maintenance = "Maintenance"

unfoldable pub show_mode : AppMode → String
show_mode mode_sentinel = "Sentinel"
show_mode mode_cluster = "Cluster"

unfoldable pub parse_mode : String → Result AppMode
parse_mode s =
    if str_eq s "Sentinel"
    then ok mode_sentinel
    else if str_eq s "Cluster"
    then ok mode_cluster
    else err (failed "unknown mode")

unfoldable pub show_aof_mode : AofMode → String
show_aof_mode mode_unspecified = "Unspecified"
show_aof_mode mode_on = "On"
show_aof_mode mode_off = "Off"
show_aof_mode mode_on_replicas = "OnReplicas"

unfoldable pub parse_aof_mode : String → Result AofMode
parse_aof_mode s =
    if str_eq s "Unspecified"
    then ok mode_unspecified
    else if str_eq s "On"
    then ok mode_on
    else if str_eq s "Off"
    then ok mode_off
    else if str_eq s "OnReplicas"
    then ok mode_on_replicas
    else err (failed "unknown aof mode")

-- A mode of the process and an append-only-file mode are each read back from the text that is
-- printed for them, and a text is read as a mode only if it is the text printed for that mode.
pub modes_round_trip :
    ((m : AppMode) → parse_mode (show_mode m) ≡ ok m)
    × ((m : AofMode) → parse_aof_mode (show_aof_mode m) ≡ ok m)
    × ((s : String) (m : AppMode) → parse_mode s ≡ ok m → s ≡ show_mode m)
    × ((s : String) (m : AofMode) → parse_aof_mode s ≡ ok m → s ≡ show_aof_mode m)
unfolding parse_mode show_mode parse_aof_mode show_aof_mode
modes_round_trip = (
  (λ m. elim m as (λ m. parse_mode (show_mode m) ≡ ok m) [
    | mode_sentinel ↦ refl
    | mode_cluster ↦ refl
  ]),
  (λ m. elim m as (λ m. parse_aof_mode (show_aof_mode m) ≡ ok m) [
    | mode_unspecified ↦ refl
    | mode_on ↦ refl
    | mode_off ↦ refl
    | mode_on_replicas ↦ refl
  ]),
  (λ s m h. ground (arith, eq_iff s "Sentinel", eq_iff s "Cluster")),
  (λ s m h.
      ground (arith, eq_iff s "Unspecified", eq_iff s "On", eq_iff s "Off", eq_iff s "OnReplicas")),
)

-- ===== src/Master/Current.antt =====
-- internal/app/master.go: which host is the master, by the hosts and by the DCS.
use rdsync.Base.{
  String, str_eq, Bool, true, false, not, ◌&&◌, List, [], ◌∷◌, Result, ok, err, not_found, exists,
  malformed, failed, if◌then◌else◌,
}
use rdsync.Types.{ShardState, AppMode, mode_sentinel, mode_cluster}
use rdsync.Actions.{
  get_master_node, set_master_node, has_cluster_slots, Act, ret, raise, ◌>>=◌, ◌>>◌, attempt, call,
  or_fail, Settings,
}

-- The hosts that answer as masters.
unfoldable pub masters_of : ShardState → List String
masters_of [] = []
masters_of ((h, s) ∷ rest) =
    let hs = masters_of rest in if s.ping_ok && s.is_master then h ∷ hs else hs

unfoldable pub with_slots : List String → Act (List String)
with_slots [] = ret []
with_slots (h ∷ hs) = do
  r ← call (has_cluster_slots h)
  slots ← or_fail "unable to check slots" r
  rest ← with_slots hs
  ret (if slots then h ∷ rest else rest)

unfoldable pub the_only : List String → Act String
the_only [] = raise (failed "got more than 1 master")
the_only (h ∷ []) = ret h
the_only (h ∷ h' ∷ hs) = raise (failed "got more than 1 master")

unfoldable pub among : AppMode → List String → Act String
among mode_sentinel masters = raise (failed "got more than 1 master")
among mode_cluster masters = do hs ← with_slots masters; the_only hs

unfoldable pub master_among : AppMode → List String → Act String
master_among mode [] = ret ""
master_among mode (h ∷ []) = ret h
master_among mode (h ∷ h' ∷ hs) = among mode (h ∷ h' ∷ hs)

-- The host that answers as the master, or the empty name.
unfoldable pub get_master_host : Settings → ShardState → Act String
get_master_host c state = master_among c.mode (masters_of state)

unfoldable pub store_master : String → Act String
store_master master = if str_eq master "" then raise (failed "no master in shard") else do
  r ← call (set_master_node master)
  or_fail "failed to set current master in dcs" r
  ret master

unfoldable pub ensure_current_master : Settings → ShardState → Act String
ensure_current_master c state = get_master_host c state >>= store_master

unfoldable pub all_stable : ShardState → Bool
all_stable [] = true
all_stable ((h, s) ∷ rest) =
    let others = all_stable rest in
    if not s.ping_stable then false else if s.is_offline then false else others

-- With a master in the DCS: it stays, unless another host answers as the master and all are stable.
unfoldable pub validated : Settings → ShardState → String → Result String → Act String
validated c state master (err e) = ret master
validated c state master (ok host) =
    if not (str_eq host "") && not (str_eq host master)
    then if all_stable state then ensure_current_master c state else ret master
    else ret master

abbrev pub recorded : Result String → Result String
recorded (ok s) = ok s
recorded (err not_found) = ok ""
recorded (err exists) = err exists
recorded (err malformed) = err malformed
recorded (err (failed m)) = err (failed m)

unfoldable pub current_of : Settings → ShardState → String → Act String
current_of c state master =
    if not (str_eq master "")
    then attempt (get_master_host c state) >>= validated c state master
    else ensure_current_master c state

unfoldable pub get_current_master : Settings → ShardState → Act String
get_current_master c state = do
  r ← call get_master_node
  master ← or_fail "failed to get current master from dcs" (recorded r)
  current_of c state master

-- ===== src/Valkey/Ping.antt =====
-- internal/valkey/node.go: the results of the last pings, which `GetState` keeps and `EvaluatePing`
-- reads, and the INFO that is kept with them.
pub mod Window
use rdsync.Base.{
  ℕ, ltb, ◌∷◌, Bool, true, false, ◌||◌, List, [], ◌++◌, length, String, HostMap, if◌then◌else◌,
}

abbrev pub tail_of : List Bool → List Bool
tail_of [] = []
tail_of (x ∷ xs) = xs

-- n.infoResults after one more result; `size` is PingStable.
unfoldable pub note_result : ℕ → Bool → List Bool → List Bool
note_result size b results =
    let longer = results ++ b ∷ [] in if ltb size (length longer) then tail_of longer else longer

-- Whether one of the results is good, and whether all are.
unfoldable pub evaluate_ping : List Bool → Bool × Bool
evaluate_ping [] = (false, true)
evaluate_ping (b ∷ bs) =
    let (res, stable) = evaluate_ping bs in if b then (true, stable) else (res, false)

-- What the node remembers.
pub record Memory : Type 0 where
  pub info_results : List Bool
  pub cached_info : HostMap String

unfoldable pub has_good : List Bool → Bool
has_good [] = false
has_good (b ∷ bs) = b || has_good bs

-- A server that did not answer: its INFO is forgotten when no result is good.
unfoldable pub note_failure : ℕ → Memory → Memory
note_failure size m =
    let results = note_result size false m.info_results in
    record { info_results = results; cached_info = if has_good results then m.cached_info else [] }

unfoldable pub note_info : ℕ → HostMap String → Memory → Memory
note_info size info m = record {
  info_results = note_result size true m.info_results;
  cached_info = info;
}

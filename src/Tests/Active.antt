-- ===== src/Tests/Active.antt =====
-- The active nodes: tests, and the theorems at concrete inputs.
use rdsync.Base.{◌⊎◌, String, contains, ◌≡◌, refl, none, some, List, [], ◌∷◌, true, false, HostMap}
use rdsync.Base.Int.{pos}
use rdsync.Base.Text.{IsSorted, sort_strings, insert_sorted, leb_text}
use rdsync.Base.Hosts
use rdsync.Types.{ShardState, Time, zero_state}
use rdsync.Replication.{replicates, is_connected, matches}
use rdsync.ActiveNodes.Calc.{
  Calc, settings, decide, decide_silent, decide_answering, visit, calc_loop, calc_active_nodes,
}
use rdsync.ActiveNodes.Calc.Loop.{Distinct, is_kept}
use rdsync.ActiveNodes.Calc.Laws.{
  HasFailedLong, IsReplicaOf, is_active, Covers, calc_active_nodes_correct, kept_only_if,
  dropped_only_late,
}
use rdsync.Tests.Data.{no_ip, healthy, three}

abbrev calc : Calc
calc = settings no_ip (pos 30) none (λ h. 100) (λ h. 200) healthy three "a"

calc-healthy : calc_active_nodes calc healthy healthy [] ≡ some (three, [])
unfolding calc_active_nodes calc_loop visit decide decide_silent decide_answering Hosts.get
    Hosts.put Hosts.delete replicates is_connected matches sort_strings insert_sorted leb_text
calc-healthy = refl

healthy-Distinct : Distinct healthy
healthy-Distinct = (refl, (refl, (refl, tt)))

healthy-Covers : Covers healthy healthy
unfolding Hosts.get
healthy-Covers = ((λ e. cc), ((λ e. cc), ((λ e. cc), tt)))

calc_active_nodes_correct_example :
    (xs : List String) × (fails' : HostMap Time) × (calc_active_nodes calc healthy healthy []
      ≡ some (xs, fails'))
    × IsSorted xs
    × ((host : String) → contains xs host ≡ is_active calc healthy healthy [] host)
calc_active_nodes_correct_example =
    calc_active_nodes_correct calc healthy healthy [] healthy-Distinct healthy-Covers

b_kept : is_kept calc healthy "b" zero_state (some 150) ≡ true
unfolding is_kept decide decide_silent Hosts.get
b_kept = refl

kept_only_if_example :
    ((zero_state.ping_ok ≡ true) × IsReplicaOf calc "b" zero_state)
    ⊎ ((zero_state.ping_ok ≡ false) × (contains three "b" ≡ true))
kept_only_if_example = kept_only_if calc healthy "b" zero_state (some 150) b_kept

abbrev gone : ShardState
gone = ("b", zero_state) ∷ []

b_dropped : is_kept calc gone "b" zero_state (some 150) ≡ false
unfolding is_kept decide decide_silent Hosts.get
b_dropped = refl

dropped_only_late_example : (zero_state.ping_ok ≡ false) × HasFailedLong calc "b" (some 150)
dropped_only_late_example =
    dropped_only_late calc gone "b" zero_state zero_state (some 150) refl (unfold Hosts.get in refl)
      refl refl b_dropped

-- ===== src/ActiveNodes/Transition/Subset.antt =====
-- The tests and the intersection of active_nodes.go, read as inclusions of sets of hosts.
use rdsync.Base.{String, contains, eq_iff, ◌≡◌, true, List, [], ◌∷◌, length, arith}
use rdsync.Base.Text.{contains-sort_strings}
use rdsync.ActiveNodes.Transition.{all_in, common, active_nodes_intersection, active_nodes_equal}

abbrev pub IsSubset : List String → List String → Type 0
IsSubset xs ys = (a : String) → contains xs a ≡ true → contains ys a ≡ true

all_in→IsSubset : (set xs : List String) → all_in set xs ≡ true → IsSubset xs set
unfolding all_in
all_in→IsSubset set [] h a c = cc
all_in→IsSubset set (x ∷ xs) h a c =
    ground (arith, eq_iff x a, all_in→IsSubset set xs (ground arith) a)

common-IsSubset :
    (left right : List String) (a : String)
    → contains (common left right) a ≡ true
    → (contains left a ≡ true) × (contains right a ≡ true)
unfolding common
common-IsSubset [] right a c = cc
common-IsSubset (x ∷ xs) right a c = ground (arith, eq_iff x a, common-IsSubset xs right a)

pub intersection-IsSubset :
    (left right : List String) (a : String)
    → contains (active_nodes_intersection left right) a ≡ true
    → (contains left a ≡ true) × (contains right a ≡ true)
unfolding active_nodes_intersection
intersection-IsSubset left right a c = common-IsSubset left right a (rw contains-sort_strings at c)

pub equal-IsSubset :
    (left right : List String)
    → active_nodes_equal left right ≡ true
    → (length left ≡ length right) × IsSubset right left
unfolding active_nodes_equal
equal-IsSubset left right h = (ground arith, all_in→IsSubset left right (ground arith))

-- ===== src/ActiveNodes/Transition.antt =====
-- internal/app/active_nodes.go: `applyActiveNodesTransition` and what it calls. The three operations
-- that it is given act on a state `S` of the outside and may fail; a failure ends the transition.
pub mod Subset
pub mod Run
pub mod Safety
use rdsync.Base.{
  ℕ, ltb, ◌==◌, String, contains, Bool, true, false, not, ◌||◌, List, [], ◌∷◌, length, Result, ok,
  err, if◌then◌else◌,
}
use rdsync.Base.Text.{sort_strings}

-- A step on the outside that may fail.
abbrev pub Step : Type 0 → Type 0
Step S = S → Result (Unit {0}) × S

-- if err := m; err != nil { return err }; k
abbrev pub after : {S : Type 0} → Step S → Result (Unit {0}) × S → Result (Unit {0}) × S
after k (ok _, s) = k s
after k (err e, s) = (err e, s)

infixl 5 ◌then_do◌
abbrev pub ◌then_do◌ : {S : Type 0} → Step S → Step S → Step S
◌then_do◌ m k s = after k (m s)

abbrev pub done : {S : Type 0} → Step S
done s = (ok tt, s)

pub record Ops (S : Type 0) : Type 0 where
  pub set_quorum_replicas : List String → Step S
  pub set_num_quorum_replicas : ℕ → Step S
  pub set_active_nodes : List String → Step S

unfoldable pub all_in : List String → List String → Bool
all_in set [] = true
all_in set (x ∷ xs) = let rest = all_in set xs in if contains set x then rest else false

-- The loop of `activeNodesIntersection`.
unfoldable pub common : List String → List String → List String
common [] right = []
common (x ∷ xs) right = let rest = common xs right in if contains right x then x ∷ rest else rest

unfoldable pub active_nodes_intersection : List String → List String → List String
active_nodes_intersection left right = sort_strings (common left right)

unfoldable pub active_nodes_equal : List String → List String → Bool
active_nodes_equal left right =
    if not (length left == length right) then false else all_in left right

unfoldable pub has_added_active_nodes : List String → List String → Bool
has_added_active_nodes old active = not (all_in old active)

module _ {S : Type 0} (ops : Ops S) (old active : List String) (actual expected : ℕ) where
  -- Raises the number before the next steps, or lowers it after the others.
  abbrev pub raise_num : Step S
  raise_num = if ltb actual expected then ops.set_num_quorum_replicas expected else done

  abbrev pub lower_num : Step S
  lower_num = if ltb expected actual then ops.set_num_quorum_replicas expected else done

  -- The active nodes do not change.
  unfoldable pub keep_nodes : Step S
  keep_nodes = raise_num then_do ops.set_quorum_replicas active then_do lower_num

  -- Nodes are added, or more replicas are waited for.
  unfoldable pub add_nodes : Step S
  add_nodes =
      ops.set_quorum_replicas (active_nodes_intersection old active)
      then_do raise_num
      then_do ops.set_active_nodes active
      then_do ops.set_quorum_replicas active
      then_do lower_num

  -- Nodes are only removed.
  unfoldable pub remove_nodes : Step S
  remove_nodes =
      ops.set_active_nodes active
      then_do ops.set_quorum_replicas active
      then_do (if actual == expected then done else ops.set_num_quorum_replicas expected)

  unfoldable pub apply_active_nodes_transition : Step S
  apply_active_nodes_transition =
      if active_nodes_equal old active
      then keep_nodes
      else if has_added_active_nodes old active || ltb actual expected
      then add_nodes
      else remove_nodes

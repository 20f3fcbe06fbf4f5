-- ===== src/ActiveNodes/Update/Refines.antt =====
-- The transition of `updateActiveNodes`, run against servers and a DCS, is the transition over three
-- operations.
use mathlib.Core.Path.{fun_ext}
use rdsync.Base.{
  ◌||◌, ℕ, ltb, String, Bool, true, false, List, Result, ok, err, failed, ◌≡◌, refl, if◌then◌else◌,
  Bool-cases, inl, inr,
}
use rdsync.Actions.{Call, Reply, Act, ret, bind, Settings}
use rdsync.Actions.Run.{Outcome, returned, crashed, hung, run, next}
use rdsync.ActiveNodes.Transition.{
  has_added_active_nodes, active_nodes_equal, Step, after, done, Ops, keep_nodes, add_nodes,
  remove_nodes, apply_active_nodes_transition,
}
use rdsync.ActiveNodes.Update.{
  to_quorum, to_num, to_active, move_keeping, move_adding, move_removing, move_active_nodes,
}

module _ {S : Type 0} (answer : (c : Call) → S → Reply c × S) where
  -- A program that ends in no result counts as one that has failed.
  abbrev pub settle : Outcome (Unit {0}) × S → Result (Unit {0}) × S
  settle (returned r, s) = (r, s)
  settle (crashed, s) = (err (failed "crashed"), s)
  settle (hung, s) = (err (failed "hung"), s)

  abbrev pub step_of : Act (Unit {0}) → Step S
  step_of m s = settle (run answer m s)

  -- The operations of the transition as the servers and the DCS carry them out.
  abbrev pub ops_of : Settings → String → Ops S
  ops_of c master = record {
    set_quorum_replicas = λ nodes. step_of (to_quorum c master nodes);
    set_num_quorum_replicas = λ n. step_of (to_num master n);
    set_active_nodes = λ nodes. step_of (to_active nodes);
  }

  settle-next :
      (k : Act (Unit {0})) (o : Outcome (Unit {0}) × S)
      → settle (next answer (λ _ t. run answer k t) o) ≡ after (step_of k) (settle o)
  settle-next k (returned (ok _), s) = refl
  settle-next k (returned (err e), s) = refl
  settle-next k (crashed, s) = refl
  settle-next k (hung, s) = refl

  step_of-bind :
      (m k : Act (Unit {0})) → step_of (bind m (λ _. k)) ≡ (λ s. after (step_of k) (step_of m s))
  unfolding run
  step_of-bind m k = fun_ext λ s. settle-next k (run answer m s)

  after-after :
      (m k : Step S) (r : Result (Unit {0}) × S)
      → after (λ t. after k (m t)) r ≡ after k (after m r)
  after-after m k (ok _, s) = refl
  after-after m k (err e, s) = refl

  step_of-if :
      (b : Bool) (m : Act (Unit {0}))
      → step_of (if b then m else ret tt) ≡ (if b then step_of m else done)
  unfolding run
  step_of-if true m = refl
  step_of-if false m = refl

  step_of-if_not :
      (b : Bool) (m : Act (Unit {0}))
      → step_of (if b then ret tt else m) ≡ (if b then done else step_of m)
  unfolding run
  step_of-if_not true m = refl
  step_of-if_not false m = refl

  ruleset step_rules = (step_of-bind, after-after, step_of-if, step_of-if_not)

  module _ (c : Settings) (master : String) (old active : List String) (actual expected : ℕ) where
    keeping :
        step_of (move_keeping c master old active actual expected)
        ≡ keep_nodes (ops_of c master) old active actual expected
    unfolding move_keeping keep_nodes run
    keeping = elim (Bool-cases (ltb actual expected)) [
      | inl more ↦ simp (step_rules, more)
      | inr enough ↦ simp (step_rules, enough)
    ]

    adding :
        step_of (move_adding c master old active actual expected)
        ≡ add_nodes (ops_of c master) old active actual expected
    unfolding move_adding add_nodes
    adding = simp step_rules

    removing :
        step_of (move_removing c master old active actual expected)
        ≡ remove_nodes (ops_of c master) old active actual expected
    unfolding move_removing remove_nodes
    removing = simp step_rules

-- Run against any servers and DCS, the transition of the active nodes that `updateActiveNodes` starts
-- does what the transition over three abstract operations does when these are the changes of the
-- replicas and of their number on the master and the change of the list in the DCS: the same result
-- and the same state of the servers and the DCS.
pub move_active_nodes_refines :
    {S : Type 0} (answer : (c : Call) → S → Reply c × S) (c : Settings) (master : String)
    (old active : List String) (actual expected : ℕ)
    → step_of answer (move_active_nodes c master old active actual expected)
      ≡ apply_active_nodes_transition (ops_of answer c master) old active actual expected
unfolding move_active_nodes apply_active_nodes_transition
move_active_nodes_refines answer c master old active actual expected =
    chosen (active_nodes_equal old active)
      (has_added_active_nodes old active || ltb actual expected)
  where
    chosen :
        (b d : Bool)
        → step_of answer (
            if b
            then move_keeping c master old active actual expected
            else if d
            then move_adding c master old active actual expected
            else move_removing c master old active actual expected)
          ≡ (if b
              then keep_nodes (ops_of answer c master) old active actual expected
              else if d
              then add_nodes (ops_of answer c master) old active actual expected
              else remove_nodes (ops_of answer c master) old active actual expected)
    chosen true d = keeping answer c master old active actual expected
    chosen false true = adding answer c master old active actual expected
    chosen false false = removing answer c master old active actual expected

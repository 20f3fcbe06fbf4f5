-- ===== src/Maintenance/Order.antt =====
-- The order in which maintenance is entered, and what is known when it is left.
use rdsync.Base.{zero, String, Bool, true, false, Option, none, some, ok, err, ◌≡◌, refl}
use rdsync.Types.{Maintenance}
use rdsync.Actions.{Call, Reply, Done}
use rdsync.Actions.Hoare.{Rules, Keeps}
use rdsync.Actions.Steps.{Keeps-check, after_call, after_check}
use rdsync.Maintenance.{enter_maintenance}

-- How far entering has come: the master that waits for no replicas, and that there are no active
-- nodes in the DCS.
pub record Entered : Type 0 where
  pub waits_for_none : Option String
  pub no_active : Bool

abbrev enters : Entered → (c : Call) → Reply c → Entered
enters k (Call.set_num_quorum_replicas h zero) (ok _, ok _) = record k { waits_for_none = some h }
enters k Call.delete_active_nodes (ok _) = record k { no_active = true }
enters k c r = k

abbrev MayEnter : String → Entered → Call → Type 0
MayEnter master k Call.delete_active_nodes = k.waits_for_none ≡ some master
MayEnter master k (Call.set_maintenance m) =
    (k.waits_for_none ≡ some master) × (k.no_active ≡ true) × (m.rdsync_paused ≡ true)
MayEnter master k c = Unit {0}

abbrev pub enter_rules : String → Rules
enter_rules master = record {
  Facts = Entered;
  track = enters;
  Possible = λ k c r. Unit {0};
  Allowed = MayEnter master;
  Endless = Unit {0};
}

abbrev pub not_entered : Entered
not_entered = record { waits_for_none = none; no_active = false }

-- Maintenance is entered with nothing left undone.
abbrev pub HasEntered : String → Done → Entered → Type 0
HasEntered master (ok _) t = (t.waits_for_none ≡ some master) × (t.no_active ≡ true)
HasEntered master (err e) t = Unit {0}

told :
    (master : String) (r : Done × Done) (a b : Unit {0})
    → r.0 ≡ ok a
    → r.1 ≡ ok b
    → (enters not_entered (Call.set_num_quorum_replicas master zero) r).waits_for_none ≡ some master
told master (ok _, ok _) a b e f = refl
told master (ok _, err x) a b e f = cc
told master (err x, q) a b e f = cc

deleted :
    (k : Entered) (r : Done) (a : Unit {0})
    → r ≡ ok a
    → enters k Call.delete_active_nodes r ≡ record k { no_active = true }
deleted k (ok _) a e = refl
deleted k (err x) a e = cc

-- On the way into maintenance the list of active nodes is deleted only after the master has been
-- told to wait for no replicas, in its memory and in its configuration; and the DCS is told that
-- rdsync is paused only after both. Without an error both have been done.
pub enter_maintenance-Keeps :
    (m : Maintenance) (master : String)
    → Keeps (enter_rules master) (enter_maintenance m master) not_entered (HasEntered master)
unfolding enter_maintenance
enter_maintenance-Keeps m master =
    after_call R (Call.set_num_quorum_replicas master zero) tt (λ r _.
      after_check R r.0 (λ x. tt)
        (λ a e.
          after_check R r.1 (λ x. tt)
            (λ b f. after_call R Call.delete_active_nodes (told master r a b e f) (λ q _.
              after_check R q (λ x. tt)
                (λ d g.
                  (let done : (enters _ Call.delete_active_nodes q).waits_for_none ≡ some master =
                      rw (deleted _ q d g) (told master r a b e f) in
                    let gone : (enters _ Call.delete_active_nodes q).no_active ≡ true =
                      rw (deleted _ q d g) refl in
                    after_call R (Call.set_maintenance _) (done, gone, refl)
                      (λ p _. Keeps-check R p (ends p _ done gone))))))))
  where
    R : Rules
    R = enter_rules master

    ends :
        (p : Done) (t : Entered)
        → t.waits_for_none ≡ some master
        → t.no_active ≡ true
        → HasEntered master p t
    ends (ok _) t d g = (d, g)
    ends (err x) t d g = tt

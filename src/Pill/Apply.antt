-- ===== src/Pill/Apply.antt =====
-- A poison pill is marked as applied only by the host that it is for, and once that host is offline.
use rdsync.Base.{
  none, not, some, Option, String, str_eq, eq_iff, Bool, true, false, Result, ok, err, ◌≡◌, refl,
  arith,
}
use rdsync.Types.{PoisonPill}
use rdsync.Actions.{Call, Reply, Done, Settings}
use rdsync.Actions.Hoare.{Rules, Keeps, Keeps-ret}
use rdsync.Actions.Steps.{Keeps-if, after_call}
use rdsync.Pill.{mark_applied, if_set, if_offline, apply_poison_pill}

-- The host that has last said that it is offline, or has done as asked to go offline.
abbrev seen_offline : Option String → (c : Call) → Reply c → Option String
seen_offline k (Call.is_offline h) (ok true) = some h
seen_offline k (Call.is_offline h) (ok false) = none
seen_offline k (Call.set_offline h) (ok _) = some h
seen_offline k c r = k

-- The pill that a call stores in the place of the one there.
abbrev stored : Call → Option PoisonPill
stored (Call.set_poison_pill p) = some p
stored c = none

-- That pill is marked, is for the host, and the host is offline.
abbrev MayStore : String → Option String → Call → Type 0
MayStore host k c =
    (p : PoisonPill)
    → stored c ≡ some p
    → (k ≡ some host) × (p.applied ≡ true) × (p.target_host ≡ host)

abbrev pub pill_rules : String → Rules
pill_rules host = record {
  Facts = Option String;
  track = seen_offline;
  Possible = λ k c r. Unit {0};
  Allowed = MayStore host;
  Endless = Unit {0};
}

module _ (c : Settings) (pill : PoisonPill) (mine : str_eq pill.target_host c.hostname ≡ true) where
  abbrev R : Rules
  R = pill_rules c.hostname

  is_mine : pill.target_host ≡ c.hostname
  is_mine = (eq_iff pill.target_host c.hostname).0 mine

  mark_lem :
      (k : Option String) → k ≡ some c.hostname → Keeps R (mark_applied pill) k (λ r t. Unit {0})
  unfolding mark_applied
  mark_lem k offline =
      after_call R (Call.set_poison_pill (record pill { applied = true }))
        (λ p e. (offline, ground arith, ground (arith, is_mine))) (λ r _. Keeps-ret R tt)

  if_set_lem :
      (r : Done)
      → Keeps R
          (if_set pill r)
          (seen_offline none (Call.set_offline c.hostname) r)
          (λ r t. Unit {0})
  unfolding if_set
  if_set_lem (err e) = Keeps-ret R tt
  if_set_lem (ok _) = mark_lem _ refl

  if_offline_lem :
      (r : Result Bool)
      → Keeps R
          (if_offline c pill r)
          (seen_offline none (Call.is_offline c.hostname) r)
          (λ r t. Unit {0})
  unfolding if_offline
  if_offline_lem (err e) =
      after_call R (Call.restart c.hostname) (λ p e. ground arith) (λ r _. Keeps-ret R tt)
  if_offline_lem (ok true) = mark_lem _ refl
  if_offline_lem (ok false) =
      after_call R (Call.set_offline c.hostname) (λ p e. ground arith) (λ r _. if_set_lem r)

-- A pill is stored again only if it is for the local host, marked as applied, and the local server
-- has said in the same run that it is offline or has done as asked to go offline.
pub apply_poison_pill-Keeps :
    (c : Settings) (pill : PoisonPill)
    → Keeps (pill_rules c.hostname) (apply_poison_pill c pill) none (λ r t. Unit {0})
unfolding apply_poison_pill
apply_poison_pill-Keeps c pill =
    Keeps-if R (not (str_eq pill.target_host c.hostname)) (λ e. Keeps-ret R tt)
      (λ e.
        after_call R (Call.is_offline c.hostname) (λ p e. ground arith)
          (λ r _. if_offline_lem c pill (ground arith) r))
  where
    R : Rules
    R = pill_rules c.hostname

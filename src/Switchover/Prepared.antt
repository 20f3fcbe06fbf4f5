-- ===== src/Switchover/Prepared.antt =====
-- What the parts of the fifth phase of a switchover add to what is known.
use rdsync.Failover.{get_num_replicas_to_write}
use rdsync.Base.{
  ◌∙◌, ℕ, String, str_eq, Bool, true, false, Option, none, some, List, ◌≡◌, refl, Error, Result, ok,
  err, if◌then◌else◌, arith,
}
use rdsync.Base.Text.{str_eq_refl}
use rdsync.Types.{Time, PoisonPill}
use rdsync.Actions.{Call, Done, Settings}
use rdsync.Actions.Hoare.{Rules, Keeps, Keeps-mono, Keeps->>=, Keeps-ret}
use rdsync.Actions.Steps.{Keeps-or_fail, Keeps-if, Keeps-check, after_call, after_or_fail}
use rdsync.Pill.{empty_pill, issue_poison_pill, clear_poison_pill}
use rdsync.Switchover.Freeze.{settle_pill}
use rdsync.Switchover.Promotion.{both, prepare_master}
use rdsync.Switchover.Known.{half_or_none, Known, learn, promotion_rules}

module _ (c : Settings) (active : List String) (old : String) where
  abbrev R : Rules
  R = promotion_rules c active old

  -- The master is still the one that was set, with the hosts that were read-only then.
  abbrev pub IsKept : Known → Known → Type 0
  IsKept k t = (t.master_set ≡ k.master_set) × (t.stopped ≡ k.stopped)

  abbrev pub Fences : Known → Result (Unit {0}) → Known → Type 0
  Fences k (ok _) t = IsKept k t × (t.fenced ≡ true)
  Fences k (err e) t = Unit {0}

  issue_lem : (k : Known) → Keeps R (issue_poison_pill c old) k (Fences k)
  unfolding issue_poison_pill
  issue_lem k =
      after_call R Call.now (λ h e. ground arith)
        (λ t _.
          after_call R (Call.create_poison_pill _) (λ h e. ground arith)
            (λ r _. Keeps-check R r (stored t r)))
    where
      stored :
          (t : Time) (r : Done)
          → Fences k r (
              learn old k
                (Call.create_poison_pill (record empty_pill {
                  target_host = old;
                  initiated_by = c.hostname;
                  initiated_at = t;
                }))
                r)
      stored t (ok _) = ((refl, refl), ground (arith, str_eq_refl old))
      stored t (err e) = tt

  clear_lem : (k : Known) → Keeps R clear_poison_pill k (λ r t. IsKept k t)
  unfolding clear_poison_pill
  clear_lem k =
      after_call R Call.delete_poison_pill (λ h e. ground arith)
        (λ r _. Keeps-check R r (refl, refl))

  pub settle_lem :
      (o : Option PoisonPill) (k : Known)
      → ((p : PoisonPill) → o ≡ some p → str_eq p.target_host old ≡ true → k.fenced ≡ true)
      → Keeps R (settle_pill c old o) k (Fences k)
  unfolding settle_pill
  settle_lem none k seen = issue_lem k
  settle_lem (some p) k seen =
      Keeps-if R _ (λ e. Keeps-ret R ((refl, refl), seen p refl e))
        (λ e.
          Keeps->>= R (clear_lem k)
            (λ _ t (same, grows). Keeps-mono R (on t same grows) (issue_lem t)) (λ e t h. tt))
    where
      on :
          (t : Known)
          → t.master_set ≡ k.master_set
          → t.stopped ≡ k.stopped
          → (r : Result (Unit {0})) (u : Known) → Fences t r u
          → Fences k r u
      on t same grows (ok _) u ((same', grows'), fenced) = ((same' ∙ same, grows' ∙ grows), fenced)
      on t same grows (err e) u h = tt

  -- The new master waits for the right number of replicas, and nothing else has changed.
  abbrev pub Prepares : List String → String → Known → Result (Unit {0}) → Known → Type 0
  Prepares alive host k (ok _) t =
      IsKept k t × (t.fenced ≡ k.fenced) × (t.num_set ≡ some (host, half_or_none c alive))
  Prepares alive host k (err e) t = Unit {0}

  both_lem :
      (m : String) (r : Done × Done) (k : Known) (Q : Result (Unit {0}) → Known → Type 0)
      → ((e : Error) → Q (err e) k)
      → (r.0 ≡ ok tt → Q (ok tt) k)
      → Keeps R (both m r) k Q
  unfolding both
  both_lem m r k Q stops goes =
      after_or_fail R m r.0 stops (λ u e. Keeps-or_fail R m r.1 stops (λ v e'. goes e))

  -- The master, the hosts that were read-only then and its fencing are as before.
  abbrev SameAs : Known → Known → Type 0
  SameAs k t = (t.master_set ≡ k.master_set) × (t.fenced ≡ k.fenced) × (t.stopped ≡ k.stopped)

  prepared :
      (alive : List String) (host : String) (n : ℕ) (k t : Known) (r : Done × Done)
      → SameAs k t
      → n ≡ half_or_none c alive
      → r.0 ≡ ok tt
      → Prepares alive host k (ok tt) (learn old t (Call.set_num_quorum_replicas host n) r)
  prepared alive host n k t (ok u, e') (master, fence, grows) e good =
      ((master, grows), fence, λ i. some (host, e i))
  prepared alive host n k t (err x, e') same e good = absurd (ground arith)

  alone : (b : Bool) (n : ℕ) → b ≡ true → 0 ≡ (if b then 0 else n)
  alone b n h = ground arith

  not_alone : (b : Bool) (n : ℕ) → b ≡ false → n ≡ (if b then 0 else n)
  not_alone b n h = ground arith

  pub prepare_lem :
      (alive : List String) (host : String) (k : Known)
      → Keeps R (prepare_master c alive host) k (Prepares alive host k)
  unfolding prepare_master get_num_replicas_to_write
  prepare_lem alive host k =
      Keeps-if R _
        (λ e.
          after_call R (Call.set_read_write host) (λ h e. ground arith)
            (λ r _.
              Keeps->>= R {P = λ r t. SameAs k t}
                (both_lem _ r k _ (λ e. (refl, refl, refl)) (λ e. (refl, refl, refl)))
                (λ _ t same.
                  after_call R (Call.set_num_quorum_replicas host 0) (λ h e. ground arith)
                    (λ r' _.
                      both_lem _ r' _ _ (λ e. tt)
                        (λ good. prepared alive host 0 k t r' same (alone _ _ e) good)))
                (λ e t h. tt)))
        (λ e.
          after_call R (Call.set_num_quorum_replicas host (get_num_replicas_to_write alive))
            (λ h e. ground arith)
            (λ r _.
              Keeps-or_fail R _ _ (λ e. tt)
                (λ u good. prepared alive host _ k k r (refl, refl, refl) (not_alone _ _ e) good)))

  pub set_known :
      (host : String) (k : Known) (r : Done) (u : Unit {0})
      → r ≡ ok u
      → (learn old k (Call.set_master_node host) r).master_set ≡ some host
  set_known host k (ok _) u e = refl
  set_known host k (err x) u e = absurd (ground arith)

  pub set_stopped :
      (host : String) (k : Known) (r : Done) (u : Unit {0})
      → r ≡ ok u
      → (learn old k (Call.set_master_node host) r).stopped ≡ k.read_only
  set_stopped host k (ok _) u e = refl
  set_stopped host k (err x) u e = absurd (ground arith)

  pub pill_seen :
      (p : PoisonPill) (k : Known) (r : Result PoisonPill)
      → r ≡ ok p
      → str_eq p.target_host old ≡ true
      → (learn old k Call.get_poison_pill r).fenced ≡ true
  pill_seen p k (ok q) e same = ground arith
  pill_seen p k (err x) e same = ground arith

  pub pill_same :
      (k : Known) (r : Result PoisonPill) → IsKept k (learn old k Call.get_poison_pill r)
  pill_same k (ok q) = (refl, refl)
  pill_same k (err x) = (refl, refl)

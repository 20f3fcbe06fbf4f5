-- ===== src/Switchover/Known.antt =====
-- What a run of `performSwitchover` knows: of the DCS, of the pill for the old master, of the new
-- master's replicas, and of the hosts that it has made read-only.
use rdsync.Base.{
  ◌==◌, ◌/◌, suc, if◌then◌else◌, ℕ, String, str_eq, contains, Bool, true, false, ◌||◌, Option, none,
  some, List, [], ◌∷◌, length, All, ◌≡◌, ◌≤◌, refl, ok, err, arith,
}
use rdsync.Failover.{get_failover_quorum}
use rdsync.Actions.{Call, Reply, Settings}
use rdsync.Actions.Hoare.{Rules}

pub record Known : Type 0 where
  pub master_set : Option String
  pub fenced : Bool
  pub num_set : Option (String × ℕ)
  pub read_only : List String
  pub stopped : List String

abbrev pub nothing_known : Known
nothing_known = record {
  master_set = none;
  fenced = false;
  num_set = none;
  read_only = [];
  stopped = [];
}

-- What a reply adds. When the new master is set in the DCS, `stopped` are the hosts that are read-only
-- by then, and the fencing of the old one starts anew.
abbrev pub learn : String → Known → (c : Call) → Reply c → Known
learn old k (Call.set_read_only h d) (ok _, e) = record k { read_only = h ∷ k.read_only }
learn old k (Call.set_master_node h) (ok _) = record k {
  master_set = some h;
  fenced = false;
  stopped = k.read_only;
}
learn old k (Call.set_master_node h) (err _) = record k { master_set = none; fenced = false }
learn old k Call.get_poison_pill (ok p) = record k { fenced = str_eq p.target_host old || k.fenced }
learn old k (Call.create_poison_pill p) (ok _) = record k {
  fenced = str_eq p.target_host old || k.fenced;
}
learn old k Call.delete_poison_pill r = record k { fenced = false }
learn old k (Call.set_num_quorum_replicas h n) (ok _, e) = record k { num_set = some (h, n) }
learn old k (Call.set_num_quorum_replicas h n) (err _, e) = record k { num_set = none }
learn old k c r = k

-- The calls after which nothing that was known is lost, and which promote no host.
abbrev pub is_mild : Call → Bool
is_mild (Call.set_master_node h) = false
is_mild Call.delete_poison_pill = false
is_mild (Call.set_num_quorum_replicas h n) = false
is_mild (Call.sentinel_promote h) = false
is_mild (Call.cluster_promote_force h) = false
is_mild (Call.cluster_promote_takeover h) = false
is_mild c = true

-- How often a host is in a list.
abbrev pub times : List String → String → ℕ
times [] h = 0
times (x ∷ xs) h = let n = times xs h in if str_eq x h then suc n else n

-- How many replicas the new master is to wait for: half of these nodes, or none.
abbrev pub half_or_none : Settings → List String → ℕ
half_or_none c alive =
    if length alive == 1 || c.failover.allow_data_loss then 0 else length alive / 2

-- Enough of the active nodes, each counted once, had been made read-only when the new master was set
-- in the DCS, a pill for the old master has been stored or found since, and the new master waits for
-- the right number of replicas.
pub record IsReady (c : Settings) (active : List String) (k : Known) (host : String) : Type 0 where
  pub alive : List String
  pub enough : get_failover_quorum c.failover active ≤ length alive
  pub among : (h : String) → times alive h ≤ times active h
  pub read_only_then : All (λ h. contains k.stopped h ≡ true) alive
  pub is_set : k.master_set ≡ some host
  pub is_fenced : k.fenced ≡ true
  pub waits : k.num_set ≡ some (host, half_or_none c alive)

-- The host that a call promotes.
abbrev pub promoted : Call → Option String
promoted (Call.sentinel_promote h) = some h
promoted (Call.cluster_promote_force h) = some h
promoted (Call.cluster_promote_takeover h) = some h
promoted call = none

-- A host is promoted only when all is ready for it.
abbrev pub Allowed : Settings → List String → Known → Call → Type 0
Allowed c active k call = (h : String) → promoted call ≡ some h → IsReady c active k h

abbrev pub promotion_rules : Settings → List String → String → Rules
promotion_rules c active old = record {
  Facts = Known;
  track = learn old;
  Possible = λ k call r. Unit {0};
  Allowed = Allowed c active;
  Endless = Unit {0};
}

infix 4 ◌⊑◌
-- What is known stays known.
pub record ◌⊑◌ (k t : Known) : Type 0 where
  pub same_master : t.master_set ≡ k.master_set
  pub same_stopped : t.stopped ≡ k.stopped
  pub same_num : t.num_set ≡ k.num_set
  pub still_fenced : k.fenced ≡ true → t.fenced ≡ true
  pub more_read_only : (h : String) → contains k.read_only h ≡ true → contains t.read_only h ≡ true

pub ⊑-refl : (k : Known) → k ⊑ k
⊑-refl k = record {
  same_master = refl;
  same_stopped = refl;
  same_num = refl;
  still_fenced = λ h. h;
  more_read_only = λ h i. i;
}

pub learn_mild :
    (old : String) (s k : Known) (c : Call) (r : Reply c)
    → is_mild c ≡ true
    → s ⊑ k
    → s ⊑ learn old k c r
learn_mild old s k c r mild h = ground arith

-- ===== src/Switchover/Ready.antt =====
-- From facts where all is ready, the loop that promotes keeps to the rules.
use mathlib.Core.Path.{subst, sym}
use rdsync.Base.{◌∙◌, ℕ, suc, zero, String, str_eq, eq_iff, Bool, true, some, List, ◌≡◌, arith}
use rdsync.Base.Text.{str_eq_refl}
use rdsync.Types.{Time, AppMode, mode_sentinel, mode_cluster, ShardState}
use rdsync.Actions.{Call, Reply, Settings, get_shard_state_from_db}
use rdsync.Actions.Hoare.{Rules, Keeps, Keeps-mono}
use rdsync.Actions.Only.{Only, Only-Keeps, Only-mono, only_rules}
use rdsync.Master.{promote_by_majority, promote_in_cluster, promote_with, promote}
use rdsync.Switchover.Promotion.{promote_turns}
use rdsync.Switchover.Known.{
  promoted, ⊑-refl, Known, learn, is_mild, IsReady, Allowed, promotion_rules, ◌⊑◌,
}
use rdsync.Switchover.Mild.{get_shard_state-IsMild}

-- The calls that promote no other host, and after which nothing that was known is lost.
abbrev promotes : String → Call → Bool
promotes host (Call.sentinel_promote h) = str_eq h host
promotes host (Call.cluster_promote_force h) = str_eq h host
promotes host (Call.cluster_promote_takeover h) = str_eq h host
promotes host c = is_mild c

mild_promotes : (host : String) (c : Call) → is_mild c ≡ true → promotes host c ≡ true
mild_promotes host c h = ground arith

module _ (c : Settings) (active : List String) (old : String) where
  abbrev R : Rules
  R = promotion_rules c active old

  -- What is ready stays so while nothing is lost.
  pub IsReady-mono :
      (host : String) (s t : Known) → s ⊑ t → IsReady c active s host → IsReady c active t host
  IsReady-mono host s t h ready = record {
    alive = ready.alive;
    enough = ready.enough;
    among = ready.among;
    read_only_then = rw h.same_stopped ready.read_only_then;
    is_set = h.same_master ∙ ready.is_set;
    is_fenced = h.still_fenced ready.is_fenced;
    waits = h.same_num ∙ ready.waits;
  }

  learn_promotes :
      (host : String) (s : Known) (asked : Call) (r : Reply asked)
      → promotes host asked ≡ true
      → s ⊑ s
      → s ⊑ learn old s asked r
  learn_promotes host s asked r h same = ground arith

  promoted_host :
      (host h : String) (asked : Call)
      → promotes host asked ≡ true
      → promoted asked ≡ some h
      → str_eq h host ≡ true
  promoted_host host h asked p e = ground arith

  allowed :
      (host : String) (s : Known) (asked : Call)
      → promotes host asked ≡ true
      → IsReady c active s host
      → Allowed c active s asked
  allowed host s asked p ready h e =
      subst (λ x. IsReady c active s x) (sym ((eq_iff h host).0 (promoted_host host h asked p e)))
        ready

  get_state-promotes : (host : String) → Only (promotes host) get_shard_state_from_db
  get_state-promotes host = Only-mono is_mild _ (mild_promotes host) get_shard_state-IsMild

  majority-promotes : (host : String) → Only (promotes host) (promote_by_majority host)
  unfolding promote_by_majority
  majority-promotes host = search (only_rules, str_eq_refl) depth 10

  cluster-promotes :
      (host : String) (state : ShardState) (start : Time)
      → Only (promotes host) (promote_in_cluster c host old state start)
  unfolding promote_in_cluster
  cluster-promotes host state start = search (only_rules, str_eq_refl, majority-promotes) depth 15

  with-promotes :
      (mode : AppMode) (host : String) (state : ShardState) (start : Time)
      → Only (promotes host) (promote_with mode c host old state start)
  unfolding promote_with
  with-promotes mode_sentinel host state start = search (only_rules, str_eq_refl) depth 10
  with-promotes mode_cluster host state start = cluster-promotes host state start

  promote-promotes :
      (host : String) (state : ShardState) (start : Time)
      → Only (promotes host) (promote c host old state start)
  unfolding promote
  promote-promotes host state start = search (only_rules, with-promotes) depth 10

  promote_turns-promotes :
      (host : String) (n : ℕ) (start force : Time) (state : ShardState)
      → Only (promotes host) (promote_turns c host old n start force state)
  unfolding promote_turns
  promote_turns-promotes host zero start force state = search (only_rules)
  promote_turns-promotes host (suc n) start force state =
      search (only_rules, promote-promotes, get_state-promotes, promote_turns-promotes host n) depth
        25

  -- From facts where all is ready, the loop that promotes keeps to the rules.
  pub promote_turns_lem :
      (host : String) (n : ℕ) (start force : Time) (state : ShardState) (k : Known)
      → IsReady c active k host
      → Keeps R (promote_turns c host old n start force state) k (λ r t. Unit {0})
  promote_turns_lem host n start force state k ready =
      Keeps-mono R (λ r t h. tt)
        (Only-Keeps (promotes host) R tt (λ t. IsReady c active t host) (allowed host)
          (λ s asked r p. IsReady-mono host s _ (learn_promotes host s asked r p (⊑-refl s))) ready
          (promote_turns-promotes host n start force state))

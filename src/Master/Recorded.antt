-- ===== src/Master/Recorded.antt =====
-- When the record of the master in the DCS is written by `getCurrentMaster`.
use mathlib.Core.Path.{subst}
use rdsync.Base.{
  ◌∙◌, Bool-cases, String, str_eq, str_eq_refl, eq_iff, contains, true, false, not, ◌&&◌, Option,
  none, some, List, [], ◌∷◌, Result, ok, err, not_found, exists, malformed, failed, ◌≡◌, ◌⊎◌, inl,
  inr, refl, arith,
}
use rdsync.Types.{HostState, ShardState, AppMode, mode_sentinel, mode_cluster}
use rdsync.Lag.Desirable.{HasHost}
use rdsync.Actions.{Call, Reply, Settings}
use rdsync.Actions.Hoare.{Rules, Keeps, Keeps-ret, Keeps-raise, Keeps->>=, Keeps-handle}
use rdsync.Actions.Steps.{Keeps-if, after_call, after_or_fail}
use rdsync.Master.Current.{
  masters_of, with_slots, the_only, among, master_among, get_master_host, store_master,
  ensure_current_master, all_stable, validated, recorded, current_of, get_current_master,
}

-- The host is in the shard's state, answers, and says that it is the master.
abbrev pub AnswersAsMaster : ShardState → String → Type 0
AnswersAsMaster state h =
    (s : HostState) × HasHost h s state × (s.ping_ok ≡ true) × (s.is_master ≡ true)

masters_answer :
    (state : ShardState) (h : String)
    → contains (masters_of state) h ≡ true
    → AnswersAsMaster state h
unfolding masters_of
masters_answer [] h listed = absurd (ground arith)
masters_answer ((k, s) ∷ rest) h listed =
    elim (Bool-cases (s.ping_ok && s.is_master && str_eq k h)) [
      | inl e ↦ (s, inl ((eq_iff k h).0 (ground arith), refl), ground arith, ground arith)
      | inr e ↦
          (let (t, there, answers, is_one) =
              masters_answer rest h (ground (arith, eq_iff k h, eq_iff h k)) in
            (t, inr there, answers, is_one))
    ]

-- The host whose name a call writes as the master's.
abbrev written : Call → Option String
written (Call.set_master_node h) = some h
written c = none

-- What the DCS has said of the master: a name, which is empty where it has none.
abbrev heard : Option String → (c : Call) → Reply c → Option String
heard k Call.get_master_node (ok s) = some s
heard k Call.get_master_node (err not_found) = some ""
heard k c r = k

abbrev MayWrite : ShardState → Option String → Call → Type 0
MayWrite state k c =
    (h : String)
    → written c ≡ some h
    → AnswersAsMaster state h × ((k ≡ some "") ⊎ (all_stable state ≡ true))

abbrev pub master_rules : ShardState → Rules
master_rules state = record {
  Facts = Option String;
  track = heard;
  Possible = λ k c r. Unit {0};
  Allowed = MayWrite state;
  Endless = Unit {0};
}

-- The master that is returned is the one that the DCS named, or answers as the master.
abbrev pub IsMaster : ShardState → Result String → Option String → Type 0
IsMaster state (ok m) t = (t ≡ some m) ⊎ AnswersAsMaster state m
IsMaster state (err e) t = Unit {0}

module _ (c : Settings) (state : ShardState) where
  abbrev R : Rules
  R = master_rules state

  abbrev SomeOf : List String → Option String → Result (List String) → Option String → Type 0
  SomeOf hs k (ok xs) t = (t ≡ k) × ((h : String) → contains xs h ≡ true → contains hs h ≡ true)
  SomeOf hs k (err e) t = t ≡ k

  with_slots_lem : (hs : List String) (k : Option String) → Keeps R (with_slots hs) k (SomeOf hs k)
  unfolding with_slots
  with_slots_lem [] k = Keeps-ret R (refl, λ h i. i)
  with_slots_lem (x ∷ hs) k =
      after_call R (Call.has_cluster_slots x) (λ h e. ground arith)
        (λ r _.
          after_or_fail R _ r (λ e. refl)
            (λ slots _.
              Keeps->>= R (with_slots_lem hs k)
                (λ rest t (same, inside). Keeps-ret R (same, λ h i. ground (arith, inside h)))
                (λ e t same. same)))

  -- The name is empty, or a host that answers as the master has it.
  abbrev Finds : Option String → Result String → Option String → Type 0
  Finds k (ok m) t = (t ≡ k) × ((str_eq m "" ≡ true) ⊎ AnswersAsMaster state m)
  Finds k (err e) t = t ≡ k

  abbrev AllAnswer : List String → Type 0
  AllAnswer hs = (h : String) → contains hs h ≡ true → AnswersAsMaster state h

  the_only_lem :
      (hs : List String) (k t : Option String)
      → t ≡ k
      → AllAnswer hs
      → Keeps R (the_only hs) t (Finds k)
  unfolding the_only
  the_only_lem [] k t same all = Keeps-raise R same
  the_only_lem (h ∷ []) k t same all =
      Keeps-ret R (same, inr (all h (ground (arith, str_eq_refl h))))
  the_only_lem (h ∷ h' ∷ hs) k t same all = Keeps-raise R same

  among_lem :
      (mode : AppMode) (hs : List String) (k : Option String)
      → AllAnswer hs
      → Keeps R (among mode hs) k (Finds k)
  unfolding among
  among_lem mode_sentinel hs k all = Keeps-raise R refl
  among_lem mode_cluster hs k all =
      Keeps->>= R (with_slots_lem hs k)
        (λ xs t (same, inside). the_only_lem xs k t same (λ h i. all h (inside h i)))
        (λ e t same. same)

  master_among_lem :
      (mode : AppMode) (hs : List String) (k : Option String)
      → AllAnswer hs
      → Keeps R (master_among mode hs) k (Finds k)
  unfolding master_among
  master_among_lem mode [] k all = Keeps-ret R (refl, inl refl)
  master_among_lem mode (h ∷ []) k all =
      Keeps-ret R (refl, inr (all h (ground (arith, str_eq_refl h))))
  master_among_lem mode (h ∷ h' ∷ hs) k all = among_lem mode (h ∷ h' ∷ hs) k all

  get_master_host_lem : (k : Option String) → Keeps R (get_master_host c state) k (Finds k)
  unfolding get_master_host
  get_master_host_lem k = master_among_lem c.mode (masters_of state) k (masters_answer state)

  same_name : (m h : String) → some m ≡ some h → AnswersAsMaster state m → AnswersAsMaster state h
  same_name m h e answers = subst (AnswersAsMaster state) (ground arith) answers

  empty_name : (m : String) → not (str_eq m "") ≡ false → some m ≡ some ""
  empty_name m e =
      (let is_empty : m ≡ "" = (eq_iff m "").0 (ground arith) in λ i. some (is_empty i))

  store_master_lem :
      (m : String) (k : Option String)
      → (str_eq m "" ≡ true) ⊎ AnswersAsMaster state m
      → (k ≡ some "") ⊎ (all_stable state ≡ true)
      → Keeps R (store_master m) k (IsMaster state)
  unfolding store_master
  store_master_lem m k (inl none_found) may =
      Keeps-if R (str_eq m "") (λ e. Keeps-raise R tt) (λ e. absurd (ground arith))
  store_master_lem m k (inr answers) may =
      Keeps-if R (str_eq m "") (λ e. Keeps-raise R tt)
        (λ e.
          after_call R (Call.set_master_node m) (λ h e'. (same_name m h e' answers, may))
            (λ r _. after_or_fail R _ r (λ e. tt) (λ _ _. Keeps-ret R (inr answers))))

  ensure_lem :
      (k : Option String)
      → (k ≡ some "") ⊎ (all_stable state ≡ true)
      → Keeps R (ensure_current_master c state) k (IsMaster state)
  unfolding ensure_current_master
  ensure_lem k may =
      Keeps->>= R (get_master_host_lem k)
        (λ m t (same, found). store_master_lem m t found (still same may)) (λ e t h. tt)
    where
      still :
          {t : Option String}
          → t ≡ k
          → (k ≡ some "") ⊎ (all_stable state ≡ true)
          → (t ≡ some "") ⊎ (all_stable state ≡ true)
      still same (inl e) = inl (same ∙ e)
      still same (inr e) = inr e

  validated_lem :
      (m : String) (r : Result String) (k : Option String)
      → k ≡ some m
      → Keeps R (validated c state m r) k (IsMaster state)
  unfolding validated
  validated_lem m (err e) k said = Keeps-ret R (inl said)
  validated_lem m (ok host) k said =
      Keeps-if R _
        (λ e.
          Keeps-if R (all_stable state) (λ stable. ensure_lem k (inr stable))
            (λ e. Keeps-ret R (inl said)))
        (λ e. Keeps-ret R (inl said))

  current_of_lem :
      (m : String) (k : Option String)
      → k ≡ some m
      → Keeps R (current_of c state m) k (IsMaster state)
  unfolding current_of
  current_of_lem m k said =
      Keeps-if R _
        (λ e.
          Keeps->>= R {P = Tried}
            (Keeps-handle R (get_master_host_lem k) (λ r t h. Keeps-ret R (same_after r t h)))
            (λ r t same. validated_lem m r t (same ∙ said)) (λ e t h. tt))
        (λ e. ensure_lem k (inl (said ∙ empty_name m e)))
    where
      Tried : Result (Result String) → Option String → Type 0
      Tried (ok r) t = t ≡ k
      Tried (err e) t = Unit {0}

      same_after : (r : Result String) (t : Option String) → Finds k r t → t ≡ k
      same_after (ok m) t (same, _) = same
      same_after (err e) t same = same

  said_lem :
      (r : Result String) (m : String)
      → recorded r ≡ ok m
      → heard none Call.get_master_node r ≡ some m
  said_lem (ok s) m e = ground arith
  said_lem (err not_found) m e = ground arith
  said_lem (err exists) m e = ground arith
  said_lem (err malformed) m e = ground arith
  said_lem (err (failed x)) m e = ground arith

-- The master's record in the DCS is written only where the DCS has just said that there is none, or
-- while every host of the shard is stable and none is offline, and only with a host that answers and
-- says that it is the master. The master that is returned is the one that the DCS named or such a
-- host.
pub get_current_master-Keeps :
    (c : Settings) (state : ShardState)
    → Keeps (master_rules state) (get_current_master c state) none (IsMaster state)
unfolding get_current_master
get_current_master-Keeps c state =
    after_call (master_rules state) Call.get_master_node (λ h e. ground arith)
      (λ r _.
        after_or_fail (master_rules state) _ (recorded r) (λ e. tt)
          (λ m e. current_of_lem c state m _ (said_lem c state r m e)))

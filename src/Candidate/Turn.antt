-- ===== src/Candidate/Turn.antt =====
-- When a candidate tries to become the manager, and what its turn ends in.
use rdsync.Kinds.Local.{repair_local_node-IsLocal}
use rdsync.Kinds.{is_local}
use rdsync.Base.{
  if◌then◌else◌, ◌∙◌, ◌∙◌, String, str_eq, Bool, true, false, not, Option, none, some, Result, ok,
  err, not_found, ◌≡◌, refl, arith,
}
use rdsync.Types.{
  state_init, Maintenance, AppState, state_lost, state_maintenance, state_candidate, state_manager,
  PoisonPill,
}
use rdsync.Actions.{Call, Reply, Done, Act, Settings, get_shard_state_from_db}
use rdsync.Actions.Hoare.{Rules, Keeps, Keeps-ret, Keeps->>=, Keeps-handle}
use rdsync.Actions.Steps.{Keeps-if, after_call, after_check, after_found}
use rdsync.Actions.Only.{Only-mono, Only, Only-Keeps, only_rules}
use rdsync.Pill.{mark_applied, if_set, if_offline, apply_poison_pill}
use rdsync.Candidate.{
  repair_local_node, or_candidate, is_paused, apply_found, try_lock, candidate_turn, candidate,
}

-- What the DCS has said in this turn; before it has, the worst is assumed.
pub record Heard : Type 0 where
  pub connected : Bool
  pub paused : Bool
  pub condemned : Bool
  pub locked : Bool

abbrev pub nothing_heard : Heard
nothing_heard = record { connected = false; paused = true; condemned = true; locked = false }

abbrev hear : String → Heard → (c : Call) → Reply c → Heard
hear host k Call.dcs_is_connected b = record k { connected = b }
hear host k Call.get_maintenance (ok m) = record k { paused = m.rdsync_paused }
hear host k Call.get_maintenance (err not_found) = record k { paused = false }
hear host k Call.get_poison_pill (ok p) = record k { condemned = str_eq p.target_host host }
hear host k Call.get_poison_pill (err not_found) = record k { condemned = false }
hear host k Call.acquire_manager_lock b = record k { locked = b }
hear host k c r = k

-- The lock is asked for while connected, with no maintenance on, and no pill for the local host.
abbrev MayAsk : Heard → Call → Type 0
MayAsk k Call.acquire_manager_lock =
    (k.connected ≡ true) × (k.paused ≡ false) × (k.condemned ≡ false)
MayAsk k c = Unit {0}

abbrev pub candidate_rules : String → Rules
candidate_rules host = record {
  Facts = Heard;
  track = hear host;
  Possible = λ k c r. Unit {0};
  Allowed = MayAsk;
  Endless = Unit {0};
}

-- What the next state goes by; the turn ends in no error.
abbrev pub GoesBy : Result AppState → Heard → Type 0
GoesBy (ok state_manager) t = t.locked ≡ true
GoesBy (ok state_lost) t = t.connected ≡ false
GoesBy (ok state_maintenance) t = t.paused ≡ true
GoesBy (ok state_candidate) t = Unit {0}
GoesBy (ok state_init) t = ⊥
GoesBy (err e) t = ⊥

abbrev is_quiet : Call → Bool
is_quiet Call.dcs_is_connected = false
is_quiet Call.get_maintenance = false
is_quiet Call.get_poison_pill = false
is_quiet Call.acquire_manager_lock = false
is_quiet c = true

module _ (c : Settings) where
  abbrev R : Rules
  R = candidate_rules c.hostname

  quiet-Keeps : {A : Type 0} {m : Act A} {k : Heard} → Only is_quiet m → Keeps R m k (λ r t. t ≡ k)
  quiet-Keeps {k = k} =
      Only-Keeps is_quiet R tt (λ t. t ≡ k) (λ s asked q e. ground arith)
        (λ s asked r q e. ground arith) refl

  if_set_quiet : (p : PoisonPill) (r : Done) → Only is_quiet (if_set p r)
  unfolding if_set mark_applied
  if_set_quiet p (ok _) = search (only_rules)
  if_set_quiet p (err e) = search (only_rules)

  if_offline_quiet : (p : PoisonPill) (r : Result Bool) → Only is_quiet (if_offline c p r)
  unfolding if_offline mark_applied
  if_offline_quiet p (err e) = search (only_rules)
  if_offline_quiet p (ok true) = search (only_rules)
  if_offline_quiet p (ok false) = search (only_rules, if_set_quiet)

  apply_quiet : (p : PoisonPill) → Only is_quiet (apply_poison_pill c p)
  unfolding apply_poison_pill
  apply_quiet p = search (only_rules, if_offline_quiet) depth 10

  get_state_quiet : Only is_quiet get_shard_state_from_db
  unfolding get_shard_state_from_db
  get_state_quiet = search (only_rules)

  repair_quiet : (master : String) → Only is_quiet (repair_local_node c master)
  repair_quiet master =
      Only-mono is_local is_quiet (λ asked e. ground arith) (repair_local_node-IsLocal c master)

  abbrev Turns : Result AppState → Heard → Type 0
  Turns (ok s) t = GoesBy (ok s) t
  Turns (err e) t = Unit {0}

  if_locked :
      (b : Bool) (k : Heard)
      → GoesBy
          (ok (if b then state_manager else state_candidate))
          (hear c.hostname k Call.acquire_manager_lock b)
  if_locked true k = refl
  if_locked false k = tt

  try_lock_lem :
      (k : Heard)
      → k.connected ≡ true
      → k.paused ≡ false
      → k.condemned ≡ false
      → Keeps R (try_lock c) k Turns
  unfolding try_lock
  try_lock_lem k up on free = after_call R Call.get_master_node tt (λ r _.
      after_found R r (λ e. tt)
        (λ master _ _.
          Keeps->>= R (quiet-Keeps (repair_quiet _))
            (λ _ t same.
              after_call R Call.acquire_manager_lock
                (
                  (λ i. (same i).connected) ∙ up,
                  (λ i. (same i).paused) ∙ on,
                  (λ i. (same i).condemned) ∙ free,
                )
                (λ b _. Keeps-ret R (if_locked b t)))
            (λ e t h. tt)))

  -- Whether the pill is for the local host is known.
  abbrev Applies : Heard → Result Bool → Heard → Type 0
  Applies k (ok mine) t =
      (t.connected ≡ k.connected) × (t.paused ≡ k.paused) × (mine ≡ false → t.condemned ≡ false)
  Applies k (err e) t = Unit {0}

  apply_found_lem :
      (o : Option PoisonPill) (k : Heard)
      → (o ≡ none → k.condemned ≡ false)
      → ((p : PoisonPill) → o ≡ some p → k.condemned ≡ str_eq p.target_host c.hostname)
      → Keeps R (apply_found c o) k (Applies k)
  unfolding apply_found
  apply_found_lem none k gone there = Keeps-ret R (refl, refl, λ e. gone refl)
  apply_found_lem (some p) k gone there =
      Keeps->>= R (quiet-Keeps (apply_quiet p))
        (λ (_, e) t same. after_check R e (λ x. tt) (λ _ _. Keeps-ret R (on t same))) (λ e t h. tt)
    where
      on : (t : Heard) → t ≡ k → Applies k (ok (str_eq p.target_host c.hostname)) t
      on t same = (
        (λ i. (same i).connected),
        (λ i. (same i).paused),
        λ e. (λ i. (same i).condemned) ∙ there p refl ∙ e,
      )

  paused_heard :
      (k : Heard) (r : Reply Call.get_maintenance) (o : Option Maintenance)
      → ((m : Maintenance) → o ≡ some m → r ≡ ok m)
      → (o ≡ none → r ≡ err not_found)
      → let t = hear c.hostname k Call.get_maintenance r in
        (t.paused ≡ is_paused o) × (t.connected ≡ k.connected)
  paused_heard k r none there gone = rw (gone refl) (refl, refl)
  paused_heard k r (some m) there gone = rw (there m refl) (refl, refl)

  pill_heard :
      (k : Heard) (r : Reply Call.get_poison_pill) (o : Option PoisonPill)
      → ((p : PoisonPill) → o ≡ some p → r ≡ ok p)
      → (o ≡ none → r ≡ err not_found)
      → let t = hear c.hostname k Call.get_poison_pill r in
        (o ≡ none → t.condemned ≡ false)
        × ((p : PoisonPill) → o ≡ some p → t.condemned ≡ str_eq p.target_host c.hostname)
        × (t.paused ≡ k.paused)
        × (t.connected ≡ k.connected)
  pill_heard k r none there gone = rw (gone refl) ((λ e. refl), (λ p e. ground arith), refl, refl)
  pill_heard k r (some p) there gone =
      rw (there p refl) ((λ e. ground arith), (λ q e. ground arith), refl, refl)

  is_up : (b : Bool) → not b ≡ false → b ≡ true
  is_up b h = ground arith

  candidate_turn_lem : Keeps R (candidate_turn c) nothing_heard Turns
  unfolding candidate_turn
  candidate_turn_lem = after_call R Call.dcs_is_connected tt (λ up _.
      Keeps-if R (not up) (λ down. Keeps-ret R (ground arith))
        (λ e. after_call R Call.update_hosts_info tt (λ r _.
          after_check R r (λ x. tt)
            (λ _ _.
              Keeps->>= R (quiet-Keeps get_state_quiet)
                (λ _ k same. after_call R Call.get_maintenance tt (λ m _.
                  after_found R m (λ x. tt)
                    (λ o there gone.
                      (let (heard, kept) = paused_heard k m o there gone in
                        Keeps-if R (is_paused o) (λ on. Keeps-ret R (heard ∙ on))
                          (λ off. after_call R Call.get_poison_pill tt (λ q _.
                            after_found R q (λ x. tt)
                              (λ pill there' gone'.
                                (let (none_there, one_there, same_pause, same_up) =
                                    pill_heard (hear c.hostname k Call.get_maintenance m) q pill
                                      there' gone' in
                                  Keeps->>= R (apply_found_lem pill _ none_there one_there)
                                    (λ mine t (up', pause', free).
                                      Keeps-if R mine (λ h. Keeps-ret R tt)
                                        (λ h.
                                          try_lock_lem t
                                            (up'
                                              ∙ same_up
                                              ∙ kept
                                              ∙ (λ i. (same i).connected)
                                              ∙ is_up up e)
                                            (pause' ∙ same_pause ∙ heard ∙ off) (free h)))
                                    (λ x t h. tt)))))))))
                (λ x t h. tt)))))

-- The turn of a candidate asks for the manager's lock only while connected to the DCS, when the DCS
-- has said in this turn that no maintenance is on and that no poison pill is there for the local
-- host. It ends in no error, and in the manager's state only with the lock, in the lost state only
-- without a connection, and in the maintenance state only with maintenance on.
pub candidate-Keeps :
    (c : Settings) → Keeps (candidate_rules c.hostname) (candidate c) nothing_heard GoesBy
unfolding candidate
candidate-Keeps c =
    Keeps->>= R {P = λ r t. Caught r t}
      (Keeps-handle R (candidate_turn_lem c) (λ r t h. Keeps-ret R h))
      (λ r t h. Keeps-ret R (ends r t h)) (λ e t h. absurd h)
  where
    R : Rules
    R = candidate_rules c.hostname

    Caught : Result (Result AppState) → Heard → Type 0
    Caught (ok r) t = Turns c r t
    Caught (err e) t = ⊥

    ends : (r : Result AppState) (t : Heard) → Turns c r t → GoesBy (ok (or_candidate r)) t
    ends (ok s) t h = h
    ends (err e) t h = tt

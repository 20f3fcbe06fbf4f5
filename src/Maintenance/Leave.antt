-- ===== src/Maintenance/Leave.antt =====
-- A turn in maintenance: when it is left, and what the turn ends in.
use rdsync.Kinds.Tending.{get_shard_state_from_dcs-IsTending}
use rdsync.Kinds.Shard.{update_active_nodes-IsTending, repair_shard-IsTending}
use rdsync.Kinds.Switching.{ensure_current_master-IsSteady}
use rdsync.Availability.{read_active_nodes, read_active}
use rdsync.Manager.Lock.{is_silent}
use rdsync.Base.{
  ap, Error, ◌==◌, String, Bool, true, false, Option, none, some, List, [], ◌∷◌, length, Result, ok,
  err, not_found, exists, malformed, failed, ◌≡◌, ◌⊎◌, inl, inr, refl, ◌∙◌, arith,
}
use rdsync.Types.{
  ShardState, Maintenance, AppState, state_init, state_lost, state_candidate, state_manager,
  state_maintenance,
}
use rdsync.Actions.{check, call, raise_if, bind, Call, Reply, Act, Settings, Done}
use rdsync.Actions.Hoare.{
  Keeps-mono, Keeps-ask, Rules, Keeps, Keeps-ret, Keeps-raise, Keeps->>=, Keeps-handle,
}
use rdsync.Actions.Steps.{
  Keeps-if, Keeps-check, after_call, after_check, after_found, after_raise_if,
}
use rdsync.Actions.Only.{Only-Keeps}
use rdsync.Kinds.{is_steady}
use rdsync.Kinds.Steady.{get_state-IsSteady, IsSteady, steady}
use rdsync.Maintenance.{
  repair_shard, read_active_nodes, leave_maintenance, if_left, try_leave, has_ended,
  maintenance_turn, or_maintenance, maintenance,
}

-- What the DCS has said in this turn: that maintenance is over, whether the lock is given, once it
-- was asked for, that there are active nodes, and that the record of maintenance is deleted.
pub record Told : Type 0 where
  pub ended : Bool
  pub locked : Option Bool
  pub active : Bool
  pub deleted : Bool

abbrev pub nothing_told : Told
nothing_told = record { ended = false; locked = none; active = false; deleted = false }

abbrev hear : Told → (c : Call) → Reply c → Told
hear k Call.get_maintenance (ok m) = record k { ended = m.should_leave }
hear k Call.get_maintenance (err not_found) = record k { ended = true }
hear k Call.acquire_manager_lock b = record k { locked = some b }
hear k Call.get_active_nodes (ok (x ∷ xs)) = record k { active = true }
hear k Call.delete_maintenance (ok _) = record k { deleted = true }
hear k c r = k

-- The servers and the DCS are changed only with the lock, once maintenance is over.
abbrev MayCall : Told → Call → Type 0
MayCall k Call.acquire_manager_lock = k.ended ≡ true
MayCall k Call.create_maintenance_file = Unit {0}
MayCall k Call.maintenance_file_exists = Unit {0}
MayCall k Call.remove_maintenance_file =
    (k.ended ≡ true) × ((k.deleted ≡ true) ⊎ (k.locked ≡ some false))
MayCall k Call.delete_maintenance = (k.ended ≡ true) × (k.locked ≡ some true) × (k.active ≡ true)
MayCall k call = is_silent call ≡ false → (k.ended ≡ true) × (k.locked ≡ some true)

abbrev pub leave_rules : Rules
leave_rules = record {
  Facts = Told;
  track = hear;
  Possible = λ k c r. Unit {0};
  Allowed = MayCall;
  Endless = Unit {0};
}

abbrev pub Leaves : Result AppState → Told → Type 0
Leaves (ok state_maintenance) t = Unit {0}
Leaves (ok state_manager) t = (t.locked ≡ some true) × (t.deleted ≡ true)
Leaves (ok state_candidate) t = (t.ended ≡ true) × (t.locked ≡ some false)
Leaves (ok state_init) t = ⊥
Leaves (ok state_lost) t = ⊥
Leaves (err e) t = ⊥

abbrev R : Rules
R = leave_rules

-- Maintenance is over, and the lock held.
abbrev HasLock : Told → Type 0
HasLock k = (k.ended ≡ true) × (k.locked ≡ some true)

steady_part :
    {A : Type 0} {m : Act A} {k : Told} → HasLock k → IsSteady m → Keeps R m k (λ r t. HasLock t)
steady_part holds =
    Only-Keeps is_steady R tt (λ t. HasLock t) (λ s call p h. ground arith)
      (λ s call r p h. ground arith) holds

-- A step after which the lock is still held.
then_Keeps :
    {A B : Type 0} {m : Act A} {f : A → Act B} {k : Told} {Q : Result B → Told → Type 0}
    → HasLock k
    → IsSteady m
    → ((a : A) (t : Told) → HasLock t → Keeps R (f a) t Q)
    → ((e : Error) (t : Told) → HasLock t → Q (err e) t)
    → Keeps R (bind m f) k Q
then_Keeps holds h rest stops =
    Keeps->>= R (steady_part holds h) (λ a t i. rest a t i) (λ e t i. stops e t i)

abbrev Left : Done → Told → Type 0
Left (ok _) t = HasLock t × (t.deleted ≡ true)
Left (err e) t = HasLock t

abbrev Read : Result (List String) → Told → Type 0
Read (ok hs) t = HasLock t × ((length hs == 0) ≡ false → t.active ≡ true)
Read (err e) t = HasLock t

reply_lem :
    (r : Result (List String)) (k : Told)
    → HasLock k
    → Keeps R (read_active r) (hear k Call.get_active_nodes r) Read
unfolding read_active
reply_lem (ok []) k h = Keeps-ret R (h, λ e. cc)
reply_lem (ok (x ∷ xs)) k h = Keeps-ret R (h, λ e. refl)
reply_lem (err not_found) k h = Keeps-ret R (h, λ e. cc)
reply_lem (err exists) k h = Keeps-raise R h
reply_lem (err malformed) k h = Keeps-raise R h
reply_lem (err (failed m)) k h = Keeps-raise R h

read_lem : (k : Told) → HasLock k → Keeps R read_active_nodes k Read
unfolding read_active_nodes
read_lem k holds = after_call R Call.get_active_nodes (λ e. cc) (λ r _. reply_lem r k holds)

delete_lem : (k : Told) → HasLock k → (r : Done) → Left r (hear k Call.delete_maintenance r)
delete_lem k h (ok _) = (h, refl)
delete_lem k h (err e) = h

abbrev Ready : Told → Type 0
Ready k = HasLock k × (k.active ≡ true)

repair_part :
    (c : Settings) (state : ShardState) (active : List String) (master : String) (k : Told)
    → HasLock k
    → k.active ≡ true
    → Keeps R (repair_shard c state active master) k (λ r t. Ready t)
repair_part c state active master k holds on =
    Only-Keeps is_steady R tt (λ t. Ready t) (λ s call p h. ground arith)
      (λ s call r p h. ground arith) (holds, on)
      (steady (repair_shard-IsTending c state active master))

-- The steps after the active nodes are brought up to date.
finish_lem :
    (c : Settings) (state : ShardState) (master : String) (k : Told)
    → HasLock k
    → Keeps R
        (bind read_active_nodes (λ active.
          bind (raise_if (length active == 0) "no active nodes") (λ _.
            bind
              (repair_shard c state active master)
              (λ _. bind (call Call.delete_maintenance) check))))
        k
        Left
finish_lem c state master k holds =
    Keeps->>= R (read_lem k holds)
      (λ active t (h, some_active).
        after_raise_if R (length active == 0) _ (λ x. h)
          (λ more.
            Keeps->>= R (repair_part c state active master t h (some_active more))
              (λ _ u (i, on).
                after_call R Call.delete_maintenance (i.0, i.1, on)
                  (λ r _. Keeps-check R r (delete_lem u i r)))
              (λ e u (i, on). i)))
      (λ e t h. h)

leave_lem : (c : Settings) (k : Told) → HasLock k → Keeps R (leave_maintenance c) k Left
unfolding leave_maintenance
leave_lem c k holds =
    after_call R Call.update_hosts_info (λ e. cc)
      (λ r _.
        after_check R r (λ x. holds)
          (λ _ _.
            then_Keeps holds get_state-IsSteady
              (λ state k1 h1.
                then_Keeps h1 (ensure_current_master-IsSteady c state)
                  (λ master k2 h2.
                    then_Keeps h2 (steady get_shard_state_from_dcs-IsTending)
                      (λ dcs k3 h3.
                        then_Keeps h3 get_state-IsSteady
                          (λ state' k4 h4.
                            then_Keeps h4
                              (steady (update_active_nodes-IsTending c state' dcs [] master))
                              (λ _ k5 h5. finish_lem c state' master k5 h5) (λ x t h. h))
                          (λ x t h. h))
                      (λ x t h. h))
                  (λ x t h. h))
              (λ x t h. h)))

if_left_lem : (r : Done) (k : Told) → Left r k → Keeps R (if_left r) k Leaves
unfolding if_left
if_left_lem (err e) k h = Keeps-ret R tt
if_left_lem (ok _) k (h, gone) =
    after_call R Call.remove_maintenance_file (h.0, inl gone) (λ _ _. Keeps-ret R (h.1, gone))

abbrev Caught : Result Done → Told → Type 0
Caught (ok r) t = Left r t
Caught (err e) t = ⊥

try_leave_lem : (c : Settings) (k : Told) → k.ended ≡ true → Keeps R (try_leave c) k Leaves
unfolding try_leave
try_leave_lem c k over = after_call R Call.acquire_manager_lock over (λ b _.
    Keeps-if R b
      (λ given.
        Keeps->>= R {P = Caught}
          (Keeps-handle R (leave_lem c _ (over, ap some given)) (λ r t h. Keeps-ret R h))
          (λ r t h. if_left_lem r t h) (λ e t h. absurd h))
      (λ taken.
        after_call R Call.remove_maintenance_file (over, inr (ap some taken))
          (λ _ _. Keeps-ret R (over, ap some taken))))

abbrev Turns : Result AppState → Told → Type 0
Turns (ok s) t = Leaves (ok s) t
Turns (err e) t = Unit {0}

ended_heard :
    (k : Told) (r : Reply Call.get_maintenance) (o : Option Maintenance)
    → ((m : Maintenance) → o ≡ some m → r ≡ ok m)
    → (o ≡ none → r ≡ err not_found)
    → (hear k Call.get_maintenance r).ended ≡ has_ended o
ended_heard k r none there gone = rw (gone refl) refl
ended_heard k r (some m) there gone = rw (there m refl) refl

turn_lem : (c : Settings) (k : Told) → Keeps R (maintenance_turn c) k Turns
unfolding maintenance_turn
turn_lem c k = after_call R Call.maintenance_file_exists tt (λ there _.
    Keeps->>= R {P = λ r t. Unit {0}}
      (Keeps-if R there (λ _. Keeps-ret R tt) (λ _. Keeps-ask R tt (λ _ _. Keeps-ret R tt)))
      (λ _ t _.
        after_call R Call.get_maintenance (λ e. cc)
          (λ r _.
            after_found R r (λ e. tt)
              (λ o is gone.
                Keeps-if R (has_ended o)
                  (λ over.
                    Keeps-mono R (λ q u h. as_turn q u h)
                      (try_leave_lem c _ (ended_heard t r o is gone ∙ over)))
                  (λ on. Keeps-ret R tt))))
      (λ e t _. tt))
  where
    as_turn : (q : Result AppState) (u : Told) → Leaves q u → Turns q u
    as_turn (ok s) u h = h
    as_turn (err e) u h = tt

-- A turn in maintenance changes a server or the DCS only after the DCS has said that maintenance is
-- over and has given the manager's lock. The record of maintenance is deleted only when the DCS has
-- also said that there are active nodes, and the local file of maintenance only when the record is
-- deleted or the lock was asked for and not given. The turn ends as the manager only with the lock
-- and with the record deleted, and as a candidate only when, once maintenance is over, the lock was
-- asked for and not given.
pub maintenance-Keeps : (c : Settings) → Keeps leave_rules (maintenance c) nothing_told Leaves
unfolding maintenance
maintenance-Keeps c =
    Keeps->>= R {P = Turned} (Keeps-handle R (turn_lem c nothing_told) (λ r t h. Keeps-ret R h))
      (λ r t h. Keeps-ret R (ends r t h)) (λ e t h. absurd h)
  where
    Turned : Result (Result AppState) → Told → Type 0
    Turned (ok r) t = Turns r t
    Turned (err e) t = ⊥

    ends : (r : Result AppState) (t : Told) → Turns r t → Leaves (ok (or_maintenance r)) t
    ends (ok s) t h = h
    ends (err e) t h = tt

-- ===== src/Manager/Turn.antt =====
-- The turn of the manager, part by part.
use rdsync.Kinds.{is_local, is_steady}
use rdsync.Maintenance.{enter_maintenance}
use rdsync.Pill.{clear_poison_pill}
use rdsync.Kinds.Shard.{repair_shard-IsTending, update_active_nodes-IsTending}
use rdsync.Kinds.Local.{repair_local_node-IsLocal, forget_fail_time-IsTending}
use rdsync.Kinds.Switching.{run_switchover-IsSteady}
use rdsync.Actions.Steps.{after_deref, after_found, Keeps-if, Keeps-check, after_call}
use rdsync.Kinds.Steady.{steady, IsSteady}
use rdsync.Actions.Only.{Only-mono, Only-handle, Only->>=, Only-if, only_rules, Only}
use rdsync.Repair.Local.{note_fail_time}
use rdsync.Actions.Hoare.{Keeps-handle, Keeps-ret, Keeps->>=, Rules, Keeps}
use rdsync.Manager.{
  zero_time, is_zero, repair_local_node, PoisonPill, is_other, has_failed, is_split, Maintenance,
  HostState, update_active_nodes, clear_poison_pill, clear_if, give_up_if_late, with_switchover,
  tend_shard, enter_maintenance, without_switchover, with_maintenance, with_alive_master,
  forget_split_time, note_split_time, give_up, approve_failover, state_manager, Switchover,
  ShardState, Time, wait_manager, if_approved, fail_over,
}
use rdsync.Switchover.{perform_failover}
use rdsync.Actions.{call, Done, is_before, handle, Reply, bind, ret, Call, Act, Settings}
use rdsync.Types.{zero_switchover, AppState}
use rdsync.Manager.Lock.{
  steady-Carries, Carries, list_hosts, Held, hear, Holds, manager_rules, EndsBy, is_plain, Same,
  Same-Holds, steady-Keeps, plain-Keeps,
}
use rdsync.Base.Hosts
use rdsync.Base.{
  str_eq_refl, ◌∷◌, HostMap, or_zero, ap, or_zero, HostMap, malformed, exists, length, ltb, failed,
  ℕ, suc, zero, String, Bool, true, false, not, Option, none, some, List, Result, ok, err,
  not_found, ◌≡◌, inr, refl, ◌∙◌, arith, if◌then◌else◌,
}

-- What a part of the turn ends in; an error is an early return with the lock.
abbrev pub Turns : Result AppState → Held → Type 0
Turns (ok s) t = EndsBy (ok s) t
Turns (err e) t = Holds t

module _ (c : Settings) where
  abbrev R : Rules
  R = manager_rules c

  -- What a steady part leaves of the lock.
  steady_part :
      {A : Type 0} {m : Act A} {k : Held} → Holds k → IsSteady m → Keeps R m k (λ r t. Same k t)
  steady_part = steady-Keeps c

  stay : {k : Held} → Holds k → Keeps R (ret state_manager) k Turns
  stay h = Keeps-ret R h

  -- A steady part, after which the turn goes on with the lock.
  pub then_Keeps :
      {A : Type 0} {m : Act A} {f : A → Act AppState} {k : Held}
      → Holds k
      → IsSteady m
      → ((a : A) (t : Held) → Holds t → Same k t → Keeps R (f a) t Turns)
      → Keeps R (bind m f) k Turns
  then_Keeps {k = k} holds h rest =
      Keeps->>= R (steady_part holds h) (λ a t same. rest a t (Same-Holds k t same holds) same)
        (λ e t same. Same-Holds k t same holds)

  -- The master of the failover, and what it is approved by.
  abbrev Approves : Held → String → Time → Time → List Time → Result Switchover → Done → Type 0
  Approves k master t t' earlier last r =
      ((s : HostState) × (Hosts.get k.states master ≡ some s))
      × (k.clocks ≡ t' ∷ t ∷ earlier)
      × (k.last ≡ some last)
      × (approve_failover c.failover k.states k.active
            (or_zero zero_time (Hosts.get k.fails master)) t t' last
          ≡ r)

  perform_failover_lem :
      (master : String) (k : Held) (st : ShardState) (hs : List String) (t t' : Time)
      (earlier : List Time) (last : Result Switchover)
      → Carries st hs master k
      → k.free ≡ true
      → k.idle ≡ true
      → Approves k master t t' earlier last (ok tt)
      → Keeps R (perform_failover c master) k (λ r u. Holds u)
  unfolding perform_failover
  perform_failover_lem master k st hs t t' earlier last (holds, _, taken, _, settled, _, named) free
        idle (host, timed, heard, approved) =
      after_call R Call.now (λ e. cc)
        (λ at _.
          after_call R (Call.create_current_switch _)
            (
              holds,
              free,
              idle,
              record {
                master = master;
                now = t;
                later = t';
                created_at = at;
                earlier = earlier;
                known = last;
                is_read = (taken, settled);
                is_named = named;
                is_host = host;
                timed = ap (λ ts. at ∷ ts) timed;
                heard = heard;
                approved = approved;
                asked = refl;
              },
            )
            (λ r _. Keeps-check R r holds))

  if_approved_lem :
      (master : String) (k : Held) (st : ShardState) (hs : List String) (t t' : Time)
      (earlier : List Time) (last : Result Switchover) (r : Done)
      → Carries st hs master k
      → k.free ≡ true
      → k.idle ≡ true
      → Approves k master t t' earlier last r
      → Keeps R (if_approved c master r) k Turns
  unfolding if_approved
  if_approved_lem master k st hs t t' earlier last (err e) carries free idle approves =
      stay carries.0
  if_approved_lem master k st hs t t' earlier last (ok _) carries free idle approves =
      Keeps->>= R {P = λ r u. Holds u}
        (Keeps-handle R
          (perform_failover_lem master k st hs t t' earlier last carries free idle approves)
          (λ r u h. Keeps-ret R h))
        (λ _ u h. stay h) (λ e u h. h)

  -- The time is remembered, and besides only the clock has been read.
  abbrev Noted : String → Held → Result Time → Held → Type 0
  Noted host k (ok x) t =
      (f : HostMap Time) × (ts : List Time) × (t ≡ record k { fails = f; clocks = ts })
      × (or_zero zero_time (Hosts.get f host) ≡ x)
  Noted host k (err e) t = ⊥

  note_fail_lem :
      (host : String) (k : Held) → Holds k → Keeps R (note_fail_time host) k (Noted host k)
  unfolding note_fail_time
  note_fail_lem host k holds =
      after_call R Call.get_fail_times (λ e. holds)
        (λ m _.
          Keeps-if R (not (is_zero (or_zero zero_time (Hosts.get m host))))
            (λ e. Keeps-ret R (m, k.clocks, refl, refl))
            (λ e.
              after_call R Call.now (λ e'. cc)
                (λ t _.
                  after_call R (Call.set_fail_times (Hosts.put m host t)) (λ e'. holds)
                    (λ _ _. Keeps-ret R (
                      Hosts.put m host t,
                      t ∷ k.clocks,
                      refl,
                      ground (arith, Hosts.get-put m host t host, str_eq_refl host),
                    )))))

  decide_lem :
      (st : ShardState) (hs : List String) (master : String) (k : Held) (x : Time) (s : HostState)
      → Carries st hs master k
      → k.free ≡ true
      → k.idle ≡ true
      → Hosts.get st master ≡ some s
      → or_zero zero_time (Hosts.get k.fails master) ≡ x
      → Keeps R
          (bind (call Call.now) (λ t. bind (call Call.now) (λ t'.
            bind
              (call Call.get_last_switch)
              (λ last. if_approved c master (approve_failover c.failover st hs x t t' last)))))
          k
          Turns
  decide_lem st hs master k x s carries free idle there is =
      after_call R Call.now (λ e. cc)
        (λ a _.
          after_call R Call.now (λ e. cc)
            (λ b _.
              after_call R Call.get_last_switch (λ e. cc)
                (λ last _.
                  (let (_, _, _, states, _, active, _) = carries in
                    if_approved_lem master _ st hs a b k.clocks last _ carries free idle
                      ((s, rw states there), refl, refl, rw (states, active, is) refl)))))

  fail_over_lem :
      (st : ShardState) (hs : List String) (master : String) (k : Held) (s : HostState)
      → Carries st hs master k
      → k.free ≡ true
      → k.idle ≡ true
      → Hosts.get st master ≡ some s
      → Keeps R (fail_over c st hs master) k Turns
  unfolding fail_over
  fail_over_lem st hs master k s carries free idle there =
      Keeps->>= R (note_fail_lem master k carries.0)
        (λ x t (f, ts, same, is). rw same (
          decide_lem st hs master (record k { fails = f; clocks = ts }) x s carries free idle there
            is))
        (λ e t h. absurd h)

  abbrev Waited : Result (Unit {0}) → Held → Type 0
  Waited (ok _) t = t.released ≡ true
  Waited (err e) t = ⊥

  -- The wait for another manager makes no call that changes anything, and has no error.
  wait_manager_lem :
      (n : ℕ) (start : Time) (k : Held)
      → k.released ≡ true
      → Keeps R (wait_manager c n start) k Waited
  unfolding wait_manager
  wait_manager_lem zero start k gone = record { keeps = tt }
  wait_manager_lem (suc n) start k gone =
      after_call R (Call.sleep c.tick_interval) (λ e. cc)
        (λ _ _.
          after_call R Call.now (λ e. cc)
            (λ t _.
              Keeps-if R (not (is_before t start c.failover.failover_timeout))
                (λ e. Keeps-ret R gone)
                (λ e.
                  after_call R Call.get_manager_lock (λ e. cc)
                    (λ r _.
                      Keeps-if R (is_other c.hostname r) (λ e. Keeps-ret R gone)
                        (λ e.
                          wait_manager_lem n start (record k { clocks = t ∷ k.clocks }) gone)))))

  split-IsSteady : (host : String) → IsSteady (note_split_time host)
  unfolding note_split_time
  split-IsSteady host = search (only_rules) depth 12

  forget_plain : (host : String) → Only is_plain (forget_split_time host)
  unfolding forget_split_time
  forget_plain host = search (only_rules) depth 12

  -- After the lock is given back, nothing is changed any more.
  give_up_lem : (master : String) (k : Held) → Holds k → Keeps R (give_up c master) k Turns
  unfolding give_up
  give_up_lem master k holds =
      Keeps->>= R (plain-Keeps c holds (forget_plain master))
        (λ _ t same.
          after_call R Call.release_manager_lock (λ e. rw same holds)
            (λ _ _.
              after_call R Call.now (λ e. cc)
                (λ start _.
                  Keeps->>= R (wait_manager_lem _ start _ refl) (λ _ u gone. Keeps-ret R (inr gone))
                    (λ e u h. absurd h))))
        (λ e t same. rw same holds)

  give_up_if_late_lem :
      (master : String) (k : Held) → Holds k → Keeps R (give_up_if_late c master) k Turns
  unfolding give_up_if_late
  give_up_if_late_lem master k holds = then_Keeps holds (split-IsSteady master) (λ x t h _.
      after_call R Call.now (λ e. cc)
        (λ a _. Keeps-if R _ (λ e. stay h) (λ e. give_up_lem master _ h)))

  forget-IsSteady : (host : String) → IsSteady (forget_split_time host)
  unfolding forget_split_time
  forget-IsSteady host = search (only_rules) depth 12

  update-IsSteady :
      (state dcs : ShardState) (active : List String) (master : String) (b : Bool)
      → IsSteady (
          if b
          then bind (handle (update_active_nodes c state dcs active master) ret) (λ _. ret tt)
          else ret tt)
  update-IsSteady state dcs active master b =
      Only-if is_steady b
        (Only->>= is_steady
          (Only-handle is_steady (steady (update_active_nodes-IsTending c state dcs active master))
            (λ r. search (only_rules)))
          (λ r. search (only_rules)))
        (search (only_rules))

  tend_shard_lem :
      (state dcs : ShardState) (active : List String) (master : String) (update : Bool) (k : Held)
      → Holds k
      → Keeps R (tend_shard c state dcs active master update) k Turns
  unfolding tend_shard
  tend_shard_lem state dcs active master update k holds =
      then_Keeps holds (steady (forget_fail_time-IsTending master)) (λ _ t h _.
        then_Keeps h (forget-IsSteady master) (λ _ t' h' _.
          then_Keeps h' (steady (repair_shard-IsTending c state active master)) (λ _ u i _.
            then_Keeps i (update-IsSteady state dcs active master update) (λ _ u' i' _. stay i'))))

  with_alive_master_lem :
      (n : ℕ) (state dcs : ShardState) (active : List String) (master : String) (s : HostState)
      (update : Bool) (k : Held)
      → Holds k
      → Keeps R (with_alive_master c n state dcs active master s update) k Turns
  unfolding with_alive_master
  with_alive_master_lem n state dcs active master s update k holds =
      Keeps-if R (ltb 2 n)
        (λ e.
          Keeps-if R (is_split n state dcs) (λ e. give_up_if_late_lem master k holds)
            (λ e. tend_shard_lem state dcs active master update k holds))
        (λ e.
          Keeps-if R _ (λ e. stay holds)
            (λ e. tend_shard_lem state dcs active master update k holds))

  clear_plain : (o : Option PoisonPill) → Only is_plain (clear_if o)
  unfolding clear_if clear_poison_pill
  clear_plain none = search (only_rules)
  clear_plain (some p) = search (only_rules)

  listed_same : (k : Held) → k.taken ≡ true → list_hosts k ≡ k
  listed_same k h = ground arith

  without_switchover_lem :
      (st dcs : ShardState) (hs : List String) (master : String) (update : Bool) (k : Held)
      → Carries st hs master k
      → k.free ≡ true
      → k.idle ≡ true
      → Keeps R (without_switchover c st dcs hs master update) k Turns
  unfolding without_switchover
  without_switchover_lem st dcs hs master update k carries free idle =
      after_call R Call.get_poison_pill (λ e. cc)
        (λ r _.
          after_found R r (λ e. carries.0)
            (λ pill _ _.
              Keeps->>= R (plain-Keeps c carries.0 (clear_plain pill))
                (λ _ t same. rw same (
                  after_call R Call.hosts (λ e. cc)
                    (λ listed _. rw (listed_same k carries.2) (
                      after_deref R _ (λ d _. after_deref R _ (λ s there.
                        Keeps-if R (has_failed (length listed) st d s)
                          (λ e. fail_over_lem st hs master k s carries free idle there)
                          (λ e.
                            with_alive_master_lem (length listed) st dcs hs master s update k
                              carries.0)))))))
                (λ e t same. rw same carries.0)))

  with_switchover_lem :
      (st dcs : ShardState) (hs : List String) (master : String) (update : Bool)
      (o : Option Switchover) (k : Held)
      → Carries st hs master k
      → k.free ≡ true
      → (o ≡ none → k.idle ≡ true)
      → Keeps R (with_switchover c st dcs hs master update o) k Turns
  unfolding with_switchover
  with_switchover_lem st dcs hs master update (some sw) k carries free idle =
      then_Keeps carries.0 (run_switchover-IsSteady c st hs sw master) (λ _ t h _. stay h)
  with_switchover_lem st dcs hs master update none k carries free idle =
      without_switchover_lem st dcs hs master update k carries free (idle refl)

  enter_plain : (m : Maintenance) (master : String) → Only is_plain (enter_maintenance m master)
  unfolding enter_maintenance
  enter_plain m master = search (only_rules) depth 20

  idle_heard :
      (st : ShardState) (hs : List String) (master : String) (k : Held)
      (r : Reply Call.get_current_switch) (o : Option Switchover)
      → (o ≡ none → r ≡ err not_found)
      → Carries st hs master k
      → k.free ≡ true
      → let t = hear k Call.get_current_switch r in
        Carries st hs master t × (t.free ≡ true) × (o ≡ none → t.idle ≡ true)
  idle_heard st hs master k (ok sw) o gone h free = (h, free, λ e. ground (arith, gone e))
  idle_heard st hs master k (err not_found) o gone h free = (h, free, λ e. refl)
  idle_heard st hs master k (err exists) o gone h free = (h, free, λ e. ground (arith, gone e))
  idle_heard st hs master k (err malformed) o gone h free = (h, free, λ e. ground (arith, gone e))
  idle_heard st hs master k (err (failed m)) o gone h free = (h, free, λ e. ground (arith, gone e))

  repair-IsSteady : (master : String) → IsSteady (repair_local_node c master)
  repair-IsSteady master =
      Only-mono is_local is_steady (λ call e. ground arith) (repair_local_node-IsLocal c master)

  pub with_maintenance_lem :
      (st dcs : ShardState) (hs : List String) (master : String) (o : Option Maintenance) (k : Held)
      → Carries st hs master k
      → ((m : Maintenance) → o ≡ some m → k.free ≡ false)
      → (o ≡ none → k.free ≡ true)
      → Keeps R (with_maintenance c st dcs hs master o) k Turns
  unfolding with_maintenance
  with_maintenance_lem st dcs hs master (some m) k carries on off =
      Keeps-if R m.rdsync_paused (λ e. Keeps-ret R (carries.0, on m refl))
        (λ e.
          Keeps->>= R (plain-Keeps c carries.0 (enter_plain m master))
            (λ _ t same. Keeps-ret R (rw same (carries.0, on m refl)))
            (λ e t same. rw same carries.0))
  with_maintenance_lem st dcs hs master none k carries on off =
      Keeps->>= R (steady-Carries c st hs master carries (repair-IsSteady master))
        (λ update t (h, free).
          after_call R Call.get_current_switch (λ e. cc)
            (λ r _.
              after_found R r
                (λ e.
                  (idle_heard st hs master t r (some zero_switchover) (λ e. ground arith) h
                    (free ∙ off refl)).0.0)
                (λ o _ gone.
                  (let (h', free', idle) = idle_heard st hs master t r o gone h (free ∙ off refl) in
                    with_switchover_lem st dcs hs master update o _ h' free' idle))))
        (λ e t (h, _). h.0)

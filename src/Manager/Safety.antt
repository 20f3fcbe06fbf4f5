-- ===== src/Manager/Safety.antt =====
-- The turn of the manager as a whole.
use rdsync.Availability.{get_shard_state_from_dcs, read_active_nodes, read_active}
use rdsync.Kinds.Tending.{get_healths-IsTending}
use rdsync.Actions.Steps.{after_found, Keeps-if, after_call}
use rdsync.Manager.{
  get_shard_state_from_dcs, read_active_nodes, ShardState, or_manager, manager, manager_turn,
}
use rdsync.Kinds.Steady.{steady}
use rdsync.Actions.Hoare.{Keeps-raise, Keeps-handle, Keeps->>=, Keeps-ret, Keeps, Rules}
use mathlib.Core.List.{append-nil, append_assoc}
use rdsync.Base.{
  List, [], ◌∷◌, ◌++◌, ◌∙◌, String, not_found, exists, malformed, failed, ◌≡◌, refl, true, false,
  not, none, some, ok, err, Option, Result, Bool, arith, inl,
}
use rdsync.Actions.{get_host_states, get_shard_state_from_db, Call, Reply, Settings}
use rdsync.Types.{Maintenance, AppState}
use rdsync.Manager.Lock.{Carries, Held, nothing_held, hear, Holds, manager_rules, EndsBy}
use rdsync.Manager.Named.{Reads, Names, Reads-steady, steady-Reads, current_master_lem}
use rdsync.Manager.Turn.{Turns, with_maintenance_lem}

module _ (c : Settings) where
  abbrev R : Rules
  R = manager_rules c

  free_heard :
      (st : ShardState) (hs : List String) (master : String) (k : Held)
      (r : Reply Call.get_maintenance) (o : Option Maintenance)
      → ((m : Maintenance) → o ≡ some m → r ≡ ok m)
      → (o ≡ none → r ≡ err not_found)
      → Reads st k
      → k.active ≡ hs
      → k.master ≡ some master
      → let t = hear k Call.get_maintenance r in
        Carries st hs master t
        × ((m : Maintenance) → o ≡ some m → t.free ≡ false)
        × (o ≡ none → t.free ≡ true)
  free_heard st hs master k r none there gone (h, p, q, i, _) a n =
      rw (gone refl) ((h, p, q, i, refl, a, n), (λ m e. ground arith), λ e. refl)
  free_heard st hs master k r (some m) there gone (h, p, q, i, _) a n =
      rw (there m refl) ((h, p, q, i, refl, a, n), (λ n e. refl), λ e. ground arith)

  still_held :
      (k : Held) (r : Reply Call.get_maintenance) → Holds k → Holds (hear k Call.get_maintenance r)
  still_held k (ok m) h = h
  still_held k (err not_found) h = h
  still_held k (err exists) h = h
  still_held k (err malformed) h = h
  still_held k (err (failed m)) h = h

  -- At the start of the turn with the lock, and while the hosts are read.
  abbrev begun : Bool → Bool → Held
  begun up locked = record nothing_held { connected = up; locked = locked }

  abbrev taken_so_far : Bool → Bool → ShardState → Held
  taken_so_far up locked st = record (begun up locked) { taking = true; states = st }

  abbrev Added : Bool → Bool → ShardState → Result ShardState → Held → Type 0
  Added up locked st (ok more) t = t ≡ taken_so_far up locked (st ++ more)
  Added up locked st (err e) t = ⊥

  read_hosts_lem :
      (up locked : Bool) (hs : List String) (st : ShardState)
      → Keeps R (get_host_states hs) (taken_so_far up locked st) (Added up locked st)
  unfolding get_host_states
  read_hosts_lem up locked [] st = Keeps-ret R (rw append-nil refl)
  read_hosts_lem up locked (h ∷ hs) st =
      after_call R (Call.host_state h) (λ e. cc)
        (λ s _.
          Keeps->>= R (read_hosts_lem up locked hs (st ++ (h, s) ∷ []))
            (λ rest t same. Keeps-ret R (same ∙ (rw append_assoc refl))) (λ e t h'. absurd h'))

  read_state_lem :
      (up locked : Bool) → Keeps R get_shard_state_from_db (begun up locked) (Added up locked [])
  unfolding get_shard_state_from_db
  read_state_lem up locked =
      after_call R Call.hosts (λ e. cc) (λ hs _. read_hosts_lem up locked hs [])

  dcs_lem :
      (up locked : Bool) (st : ShardState)
      → Holds (begun up locked)
      → Keeps R get_shard_state_from_dcs (taken_so_far up locked st) (λ r t. Reads st t)
  unfolding get_shard_state_from_dcs
  dcs_lem up locked st holds =
      after_call R Call.hosts (λ e. cc)
        (λ hs _.
          steady-Reads c st (holds, refl, refl, refl, refl) (steady (get_healths-IsTending hs)))

  abbrev Listed : ShardState → String → Result (List String) → Held → Type 0
  Listed st master (ok hs) t = Reads st t × (t.active ≡ hs) × (t.master ≡ some master)
  Listed st master (err e) t = Holds t

  reply_lem :
      (st : ShardState) (master : String) (r : Result (List String)) (k : Held)
      → Names st (ok master) k
      → Keeps R (read_active r) (hear k Call.get_active_nodes r) (Listed st master)
  unfolding read_active
  reply_lem st master (ok hs) k (h, is) =
      Keeps-ret R
        (Reads-steady st k Call.get_active_nodes (ok hs) refl h, ground arith, ground arith)
  reply_lem st master (err not_found) k (h, is) =
      Keeps-ret R
        (Reads-steady st k Call.get_active_nodes (err not_found) refl h, ground arith, ground arith)
  reply_lem st master (err exists) k h = Keeps-raise R h.0.0
  reply_lem st master (err malformed) k h = Keeps-raise R h.0.0
  reply_lem st master (err (failed m)) k h = Keeps-raise R h.0.0

  list_lem :
      (st : ShardState) (master : String) (k : Held)
      → Names st (ok master) k
      → Keeps R read_active_nodes k (Listed st master)
  unfolding read_active_nodes
  list_lem st master k h =
      after_call R Call.get_active_nodes (λ e. cc) (λ r _. reply_lem st master r k h)

  manager_turn_lem :
      (up locked : Bool)
      → Holds (begun up locked)
      → Keeps R (manager_turn c) (begun up locked) Turns
  unfolding manager_turn
  manager_turn_lem up locked holds =
      after_call R Call.update_hosts_info (λ e. cc)
        (λ _ _.
          Keeps->>= R (read_state_lem up locked)
            (λ st k1 same. rw same (
              Keeps->>= R (dcs_lem up locked st holds)
                (λ dcs k2 h2.
                  Keeps->>= R (current_master_lem c st k2 h2)
                    (λ master k3 h3.
                      Keeps->>= R (list_lem st master k3 h3)
                        (λ active k (h, is, named).
                          after_call R Call.get_maintenance (λ e. cc)
                            (λ r _.
                              after_found R r (λ e. still_held k r h.0)
                                (λ o there gone.
                                  (let (h', on, off) =
                                      free_heard st active master k r o there gone h is named in
                                    with_maintenance_lem c st dcs active master o _ h' on off))))
                        (λ e t h. h))
                    (λ e t h. h))
                (λ e t h. h.0)))
            (λ e t h. absurd h))

-- The turn of the manager calls nothing that changes a server or the DCS except while it holds the
-- manager's lock: connected to the DCS, after the lock has been given to it in this turn, and
-- before it gives the lock back. It asks for a failover only when the DCS has also said that no
-- maintenance is on and that no switchover is stored, and when `approveFailover` has approved of
-- it: of a failover from the master that the DCS has named, or has stored in this turn, before
-- maintenance was asked for, which is one of the hosts, by the states that the turn has first read
-- of them, the active nodes that the DCS has given last before maintenance, the time since when the
-- process remembers that the master fails, two later readings of the clock, and the last switchover
-- that the DCS holds. It ends in no error: in the manager's state or in maintenance only with the
-- lock, in the lost state only without a connection, and in the candidate's state only when the
-- lock was not given or has been given back.
pub manager-Keeps : (c : Settings) → Keeps (manager_rules c) (manager c) nothing_held EndsBy
unfolding manager
manager-Keeps c =
    after_call R Call.dcs_is_connected (λ e. cc)
      (λ up _.
        Keeps-if R (not up) (λ down. Keeps-ret R (ground arith))
          (λ on.
            after_call R Call.acquire_manager_lock (λ e. cc)
              (λ locked _.
                Keeps-if R (not locked) (λ none_given. Keeps-ret R (inl (ground arith)))
                  (λ given.
                    Keeps->>= R {P = λ r t. Caught r t}
                      (Keeps-handle R
                        (manager_turn_lem c up locked (is_true up on, is_true locked given, refl))
                        (λ r t h. Keeps-ret R h))
                      (λ r t h. Keeps-ret R (ends r t h)) (λ e t h. absurd h)))))
  where
    R : Rules
    R = manager_rules c

    Caught : Result (Result AppState) → Held → Type 0
    Caught (ok r) t = Turns r t
    Caught (err e) t = ⊥

    ends : (r : Result AppState) (t : Held) → Turns r t → EndsBy (ok (or_manager r)) t
    ends (ok s) t h = h
    ends (err e) t h = h

    is_true : (b : Bool) → not b ≡ false → b ≡ true
    is_true b h = ground arith

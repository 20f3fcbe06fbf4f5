-- ===== src/Dcs/Lock/Own.antt =====
-- What holds of a connection to ZooKeeper at every moment. The events of the session are handled in a
-- goroutine of their own, also between the requests of an AcquireLock and its store.
use rdsync.Base.{String, Bool, true, false, ◌||◌, Option, none, some, [], ◌≡◌, if◌then◌else◌}
use rdsync.Base.Hosts
use rdsync.Types.{Time}
use rdsync.Dcs.Lock.{
  LockOwner, is_self, get_failed, Requests, Held, ask_lock, remember, release_lock, Session,
  handle_session_event, close_timer_fires,
}
use rdsync.Dcs.Lock.Held.{Nodes, OnlyOwn, Covers}

-- The session as the client knows it; `pending` is the lock that has been had and is still to be
-- remembered, `lost` whether the client has been told of a loss since, and `late` whether a lock was
-- ever remembered after such a loss.
pub record Moment : Type 0 where
  pub session : Session
  pub pending : Option String
  pub lost : Bool
  pub late : Bool

abbrev pub opened : Moment
opened = record {
  session = record { is_connected = false; timer = false; held = [] };
  pending = none;
  lost = false;
  late = false;
}

abbrev with_held : Held → Session → Session
with_held held x = record x { held = held }

-- The requests of `AcquireLock` have been answered; the memory of the lock is dropped before them.
abbrev pub after_asked : String → Bool → Moment → Moment
after_asked path had m = record m {
  session = with_held (Hosts.delete m.session.held path) m.session;
  pending = if had then some path else none;
  lost = false;
}

abbrev pub after_stored : String → Time → Moment → Moment
after_stored path now m = record m {
  session = with_held (remember path now true m.session.held) m.session;
  pending = none;
  late = m.late || m.lost;
}

abbrev pub after_told : Bool → Moment → Moment
after_told has_session m = record m {
  session = handle_session_event has_session m.session;
  lost = if has_session then m.lost else true;
}

module _ {S : Type 0} (z : Requests S) (n : Nodes S) (self : LockOwner) where
  -- The moments of one connection, of which the process asks for one lock at a time. At first there is
  -- no node with its data. Other clients do not touch the session's nodes and make none with this
  -- process's data; the server ends the session, with its nodes, only when the client has been told
  -- that it is disconnected, and until it is told that it has a session again its requests fail.
  pub data Reaches : Moment → S → Type 0 where
    opens :
        (s : S)
        → ((q : String) (o : LockOwner) → n.owner s q ≡ some o → is_self self o ≡ false)
        → Reaches opened s
    asks :
        (m : Moment) (s : S) (path : String)
        → m.pending ≡ none
        → (m.session.timer ≡ true → (z.get path s).0 ≡ get_failed)
        → Reaches m s
        → Reaches (after_asked path (ask_lock z self path s).0 m) (ask_lock z self path s).1
    stores :
        (m : Moment) (s : S) (path : String) (now : Time)
        → m.pending ≡ some path
        → Reaches m s
        → Reaches (after_stored path now m) s
    releases :
        (m : Moment) (s : S) (path : String)
        → m.pending ≡ none
        → Reaches m s
        → Reaches
            (record m {
              session = with_held (release_lock z self path m.session.held s).1 m.session;
            })
            (release_lock z self path m.session.held s).2
    is_told :
        (m : Moment) (s : S) (has_session : Bool)
        → Reaches m s
        → Reaches (after_told has_session m) s
    timer_fires :
        (m : Moment) (s : S)
        → Reaches m s
        → Reaches (record m { session = (close_timer_fires m.session).1 }) s
    others :
        (m : Moment) (s t : S)
        → ((q : String) → n.owns s q → n.owns t q)
        → ((q : String) (o : LockOwner)
            → n.owner t q ≡ some o
            → is_self self o ≡ true
            → n.owner s q ≡ some o)
        → Reaches m s
        → Reaches m t
    expires :
        (m : Moment) (s t : S)
        → m.session.timer ≡ true
        → ((q : String) (o : LockOwner)
            → n.owner t q ≡ some o
            → (n.owner s q ≡ some o) × ¬ (n.owns s q))
        → Reaches m s
        → Reaches m t

  -- Before a lock was remembered too late: what is remembered is owned, and so is the lock that is had
  -- and still to be remembered; without a session nothing is remembered, and nothing had since.
  abbrev IsSound : Moment → S → Type 0
  IsSound m s =
      OnlyOwn z n self s
      × (m.late ≡ false → Covers z n self m.session.held s)
      × (m.late ≡ false → m.session.timer ≡ true → m.session.held ≡ [])
      × ((p : String) → m.pending ≡ some p → m.lost ≡ false → n.owns s p)
      × ((p : String) → m.pending ≡ some p → m.session.timer ≡ true → m.lost ≡ true)

-- ===== src/Dcs/Lock.antt =====
-- internal/dcs/zk.go: `AcquireLock` and `ReleaseLockOrError`, with the memory of the locks held, and
-- `handleSessionEvent`, which forgets them.
pub mod Held
pub mod Own
use rdsync.Base.{
  ℕ, ◌==◌, String, str_eq, Bool, true, false, not, ◌&&◌, Option, none, some, [], Result, ok, err,
  failed, HostMap, if◌then◌else◌,
}
use rdsync.Base.Int.{ltb_ℤ}
use rdsync.Base.Hosts
use rdsync.Types.{Time, Duration, since}

pub record LockOwner : Type 0 where
  pub hostname : String
  pub pid : ℕ

-- owner == self
unfoldable pub is_self : LockOwner → LockOwner → Bool
is_self self owner = str_eq owner.hostname self.hostname && owner.pid == self.pid

-- What a node holds: `none` is data that are no owner.
pub data Got : Type 0 where
  got : Option LockOwner → Got
  no_node : Got
  get_failed : Got

pub data Created : Type 0 where
  created node_exists create_failed : Created

-- The requests to ZooKeeper, each with its answer, over ZooKeeper's own state.
pub record Requests (S : Type 0) : Type 0 where
  pub get : String → S → Got × S
  pub create : String → LockOwner → S → Created × S
  pub delete : String → S → Bool × S

-- z.lockHeld
abbrev pub Held : Type 0
Held = HostMap Time

-- z.lockHeld.Store, once the lock is had.
unfoldable pub remember : String → Time → Bool → Held → Held
remember path now had held = if had then Hosts.put held path now else held

module _ {S : Type 0} (z : Requests S) (self : LockOwner) (path : String) where
  unfoldable pub if_created : Created × S → Bool × S
  if_created (created, s) = (true, s)
  if_created (node_exists, s) = (false, s)
  if_created (create_failed, s) = (false, s)

  unfoldable pub if_got : Got × S → Bool × S
  if_got (get_failed, s) = (false, s)
  if_got (no_node, s) = if_created (z.create path self s)
  if_got (got none, s) = (false, s)
  if_got (got (some owner), s) = (is_self self owner, s)

  -- The requests of `AcquireLock`: whether the lock is had.
  unfoldable pub ask_lock : S → Bool × S
  ask_lock s = if_got (z.get path s)

  abbrev pub is_fresh : Duration → Time → Option Time → Bool
  is_fresh ttl now none = false
  is_fresh ttl now (some cached) = ltb_ℤ (since now cached) ttl

  -- `AcquireLock`, where no event of the session is handled between its requests and the store.
  -- `now` and `later` are two readings of the clock.
  unfoldable pub acquire_lock : Duration → Time → Time → Held → S → Bool × Held × S
  acquire_lock ttl now later held s =
      let (had, s') = ask_lock s in
      if is_fresh ttl now (Hosts.get held path)
      then (true, held, s)
      else (had, remember path later had (Hosts.delete held path), s')

  unfoldable pub if_deleted : Held → Bool × S → Result (Unit {0}) × Held × S
  if_deleted held (true, s) = (ok tt, held, s)
  if_deleted held (false, s) = (err (failed "failed to delete lock node"), held, s)

  -- A node that is not there has no data, which are malformed.
  unfoldable pub release_got : Held → Got × S → Result (Unit {0}) × Held × S
  release_got held (get_failed, s) = (err (failed "failed to get lock info"), held, s)
  release_got held (no_node, s) = (err (failed "unexpected lock data"), held, s)
  release_got held (got none, s) = (err (failed "unexpected lock data"), held, s)
  release_got held (got (some owner), s) =
      if is_self self owner
      then if_deleted held (z.delete path s)
      else (err (failed "process is not an owner"), held, s)

  -- `ReleaseLockOrError`
  unfoldable pub release_lock : Held → S → Result (Unit {0}) × Held × S
  release_lock held s = release_got (Hosts.delete held path) (z.get path s)

-- What the client knows of its session; `timer` is closeTimer, when it is set.
pub record Session : Type 0 where
  pub is_connected : Bool
  pub timer : Bool
  pub held : Held

-- `handleSessionEvent`; `has_session` is the event that the session is there.
unfoldable pub handle_session_event : Bool → Session → Session
handle_session_event true x = record x { is_connected = true; timer = false }
handle_session_event false x = record x { timer = true; held = [] }

-- The timer's function, which runs the session timeout after the loss, where it is not stopped;
-- that the disconnect callback is called is the reply.
unfoldable pub close_timer_fires : Session → Bool × Session
close_timer_fires x =
    if x.is_connected && x.timer then (true, record x { is_connected = false }) else (false, x)

-- ===== src/State/Fields.antt =====
-- A host's state without an error holds all that the server's INFO says.
use rdsync.Base.{
  eq_iff, ℕ, zero, suc, String, str_eq, Bool, true, false, Option, none, some, List, HostMap, ◌≡◌,
  refl, sym, arith, if◌then◌else◌,
}
use rdsync.Base.Int.{ℤ}
use rdsync.Base.Hosts
use rdsync.Base.Text.Numbers.{parse_int_said, parse_int}
use rdsync.Types.{HostState, ReplicaState}
use rdsync.State.{
  next_replica, or_stop, Reader, go_on, stop, modify, field, check_number, number, add_address,
  address_of, read_replicas, read_master, replica_number, read_times, read_replica, read_role,
}

-- Where the reader ends, `Q` holds of the state, and of the value that it goes on with.
abbrev pub Ends :
    {A : Type 0} → (HostState → Option A → Type 0) → Option (HostState × Option A) → Type 0
Ends Q none = Unit {0}
Ends Q (some (s, r)) = Q s r

-- No error has been set.
abbrev pub IsClean : HostState → Type 0
IsClean s = str_eq s.error "" ≡ true

-- The property holds where no error has been set.
abbrev pub WhenClean : {A : Type 0} → (HostState → Type 0) → HostState → Option A → Type 0
WhenClean P s r = IsClean s → P s

pub silent : (m : String) → str_eq m "" ≡ false → str_eq m "" ≡ true → ⊥
silent m e f = ground arith

stopped :
    {B : Type 0} (P : HostState → Type 0) (message : String) (o : Option String)
    (f : String → Reader B) (s : HostState)
    → str_eq message "" ≡ false
    → ((v : String) → o ≡ some v → Ends (WhenClean P) (f v s))
    → Ends (WhenClean P) (go_on f (or_stop message o s))
unfolding or_stop stop
stopped P message none f s said rest = λ clean. absurd (silent _ said clean)
stopped P message (some v) f s said rest = rest v refl

module _ {B : Type 0} (P : HostState → Type 0) where
  pub after_field :
      (info : HostMap String) (name message : String) (f : String → Reader B) (s : HostState)
      → str_eq message "" ≡ false
      → ((v : String) → Hosts.get info name ≡ some v → Ends (WhenClean P) (f v s))
      → Ends (WhenClean P) (go_on f (field info name message s))
  unfolding field
  after_field info name message f s said rest =
      stopped P message (Hosts.get info name) f s said rest

  after_check :
      (e : Option String) (f : Unit {0} → Reader B) (s : HostState)
      → ((m : String) → e ≡ some m → str_eq m "" ≡ false)
      → (e ≡ none → Ends (WhenClean P) (f tt s))
      → Ends (WhenClean P) (go_on f (check_number e s))
  unfolding check_number stop
  after_check none f s said rest = rest refl
  after_check (some m) f s said rest = λ clean. absurd (silent m (said m refl) clean)

  stopped_number :
      (put : ℤ → HostState → HostState) (message : String) (o : Option String)
      (f : Unit {0} → Reader B) (s : HostState)
      → str_eq message "" ≡ false
      → ((v : String)
          → o ≡ some v
          → (parse_int v).1 ≡ none
          → Ends (WhenClean P) (f tt (put (parse_int v).0 s)))
      → Ends (WhenClean P) (
          go_on f (
            go_on
              (λ v t.
                go_on (λ _ u. check_number (parse_int v).1 u) (modify (put (parse_int v).0) t))
              (or_stop message o s)))
  unfolding or_stop stop
  stopped_number put message none f s said rest = λ clean. absurd (silent _ said clean)
  stopped_number put message (some v) f s said rest =
      after_check (parse_int v).1 f _ (parse_int_said v) (rest v refl)

  -- A number that has been read, with no error of its own.
  pub after_number :
      (put : ℤ → HostState → HostState) (info : HostMap String) (name message : String)
      (f : Unit {0} → Reader B) (s : HostState)
      → str_eq message "" ≡ false
      → ((v : String)
          → Hosts.get info name ≡ some v
          → (parse_int v).1 ≡ none
          → Ends (WhenClean P) (f tt (put (parse_int v).0 s)))
      → Ends (WhenClean P) (go_on f (number put info name message s))
  unfolding number field
  after_number put info name message f s said rest =
      stopped_number put message (Hosts.get info name) f s said rest

  pub regroup :
      {A C : Type 0} (f : C → Reader B) (g : A → Reader C) (o : Option (HostState × Option A))
      → Ends (WhenClean P) (go_on (λ a s. go_on f (g a s)) o)
      → Ends (WhenClean P) (go_on f (go_on g o))
  regroup f g none h = h
  regroup f g (some (s, none)) h = h
  regroup f g (some (s, some a)) h = h

  after_address :
      (o : Option String) (rest : Reader (Unit {0})) (f : Unit {0} → Reader B) (s : HostState)
      → ((xs : List String)
          → Ends (WhenClean P) (go_on f (rest (record s { connected_replicas = xs }))))
      → Ends (WhenClean P) (go_on f (add_address o rest s))
  after_address none rest f s h = tt
  after_address (some a) rest f s h = h _

  after_replicas :
      (info : HostMap String) (i n : ℕ) (f : Unit {0} → Reader B) (s : HostState)
      → ((xs : List String) → Ends (WhenClean P) (f tt (record s { connected_replicas = xs })))
      → Ends (WhenClean P) (go_on f (read_replicas info i n s))
  unfolding read_replicas
  after_replicas info i zero f s h = h s.connected_replicas
  after_replicas info i (suc n) f s h = by_value (Hosts.get info _) (after_replicas info (suc i) n)
    where
      by_value :
          (o : Option String)
          → ((g : Unit {0} → Reader B) (t : HostState)
              → ((xs : List String)
                  → Ends (WhenClean P) (g tt (record t { connected_replicas = xs })))
              → Ends (WhenClean P) (go_on g (read_replicas info (suc i) n t)))
          → Ends (WhenClean P) (go_on f (next_replica o (read_replicas info (suc i) n) s))
      by_value none later = later f s h
      by_value (some v) later = after_address (address_of v) _ f s (λ xs. later f _ h)

  after_master :
      (info : HostMap String) (f : Unit {0} → Reader B) (s : HostState)
      → ((xs : List String)
          → Ends (WhenClean P) (f tt (record s { is_master = true; connected_replicas = xs })))
      → Ends (WhenClean P) (go_on f (read_master info s))
  unfolding read_master
  after_master info f s h = regroup _ _ (field info "connected_slaves" _ _) (
      after_field info "connected_slaves" _ _ _ refl (λ v there.
        regroup _ _ (check_number (parse_int v).1 _) (
          after_check (parse_int v).1 _ _ (parse_int_said v)
            (λ fine. after_replicas info 0 _ f _ h))))

  after_replica_number :
      (info : HostMap String) (name message : String) (f : ℤ → Reader B) (s : HostState)
      → str_eq message "" ≡ false
      → ((n : ℤ) → Ends (WhenClean P) (f n s))
      → Ends (WhenClean P) (go_on f (replica_number info name message s))
  unfolding replica_number
  after_replica_number info name message f s said h = regroup _ _ (field info name message s) (
      after_field info name message _ s said (λ v there.
        regroup _ _ (check_number (parse_int v).1 s)
          (after_check (parse_int v).1 _ s (parse_int_said v) (λ fine. h _))))

  after_times :
      (info : HostMap String) (link syncing : Bool) (f : ℤ × ℤ → Reader B) (s : HostState)
      → ((p : ℤ × ℤ) → Ends (WhenClean P) (f p s))
      → Ends (WhenClean P) (go_on f (read_times info link syncing s))
  unfolding read_times
  after_times info false false f s h =
      regroup _ _ (replica_number info "master_link_down_since_seconds" _ s)
        (after_replica_number info "master_link_down_since_seconds" _ _ s refl (λ n. h _))
  after_times info true false f s h =
      regroup _ _ (replica_number info "master_last_io_seconds_ago" _ s)
        (after_replica_number info "master_last_io_seconds_ago" _ _ s refl (λ n. h _))
  after_times info false true f s h = h _
  after_times info true true f s h = h _

  after_replica :
      (info : HostMap String) (f : Unit {0} → Reader B) (s : HostState)
      → ((rs : ReplicaState)
          → Ends (WhenClean P) (f tt (record s { is_master = false; replica_state = some rs })))
      → Ends (WhenClean P) (go_on f (read_replica info s))
  unfolding read_replica
  after_replica info f s h = regroup _ _ (field info "master_host" _ _) (
      after_field info "master_host" _ _ _ refl (λ host _.
        regroup _ _ (field info "master_link_status" _ _) (
          after_field info "master_link_status" _ _ _ refl (λ status _.
            regroup _ _ (field info "master_sync_in_progress" _ _) (
              after_field info "master_sync_in_progress" _ _ _ refl (λ sync _.
                regroup _ _ (read_times info _ _ _) (
                  after_times info _ _ _ _ (λ p.
                    regroup _ _ (replica_number info "slave_repl_offset" _ _)
                      (after_replica_number info "slave_repl_offset" _ _ _ refl (λ n. h _))))))))))

  -- The role that INFO gives, with what is read for it.
  pub after_role :
      (info : HostMap String) (f : Unit {0} → Reader B) (s : HostState)
      → ((xs : List String)
          → Hosts.get info "role" ≡ some "master"
          → Ends (WhenClean P) (f tt (record s { is_master = true; connected_replicas = xs })))
      → ((role : String) (rs : ReplicaState)
          → Hosts.get info "role" ≡ some role
          → str_eq role "master" ≡ false
          → Ends (WhenClean P) (f tt (record s { is_master = false; replica_state = some rs })))
      → Ends (WhenClean P) (go_on f (read_role info s))
  unfolding read_role
  after_role info f s master replica = regroup _ _ (field info "role" _ s) (
      after_field info "role" _ _ s refl
        (λ role there. by_role role there (str_eq role "master") refl))
    where
      by_role :
          (role : String)
          → Hosts.get info "role" ≡ some role
          → (b : Bool) → str_eq role "master" ≡ b
          → Ends (WhenClean P) (go_on f ((if b then read_master info else read_replica info) s))
      by_role role there true e =
          after_master info f s (λ xs. master xs (rw (sym ((eq_iff role "master").0 e)) there))
      by_role role there false e = after_replica info f s (λ rs. replica role rs there e)

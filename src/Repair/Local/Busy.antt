-- ===== src/Repair/Local/Busy.antt =====
-- A local node that is busy with a script: what a kill that succeeds leads to.
use rdsync.Kinds.{is_opening, is_tending}
use rdsync.Kinds.Tending.{IsTending}
use rdsync.Kinds.Local.{
  restart_if_late-IsTending, tend_online-IsTending, forget_fail_time-IsTending,
  tend_offline-IsOpening, note_fail_time-IsTending,
}
use rdsync.Base.{
  ◌&&◌, String, Bool, true, false, Option, none, some, Result, ok, err, ◌≡◌, refl, arith,
}
use rdsync.Types.{Duration}
use rdsync.Actions.{bind, Call, Reply, Act, Settings, Done}
use rdsync.Actions.Hoare.{Keeps-crash, Rules, Keeps, Keeps-ret, Keeps->>=}
use rdsync.Actions.Steps.{Keeps-if, after_call}
use rdsync.Actions.Only.{Only-mono, Only, Only-Keeps}
use rdsync.Repair.Local.{
  starts_with, since, ltb_ℤ, after_kill, kill_if_busy, handle_failure, note_state,
  repair_local_node,
}

-- A script has been killed.
abbrev kills : Bool → (c : Call) → Reply c → Bool
kills k (Call.script_kill h) (ok _) = true
kills k (Call.script_kill h) (err e) = k
kills k c r = k

-- After that no call is made.
abbrev MayCall : Bool → Call → Type 0
MayCall k c = k ≡ false

abbrev pub kill_rules : Rules
kill_rules = record {
  Facts = Bool;
  track = kills;
  Possible = λ k c r. Unit {0};
  Allowed = MayCall;
  Endless = Unit {0};
}

abbrev R : Rules
R = kill_rules

abbrev never_kills : Call → Bool
never_kills (Call.script_kill h) = false
never_kills c = true

-- What ends with a value or an error has killed no script.
abbrev pub Spares : {A : Type 0} → Result A → Bool → Type 0
Spares r t = t ≡ false

quiet_part : {A : Type 0} {m : Act A} → Only never_kills m → Keeps R m false Spares
quiet_part =
    Only-Keeps never_kills R tt (λ t. t ≡ false) (λ s call p h. h) (λ s call r p h. ground arith)
      refl

spares : {A : Type 0} {m : Act A} → IsTending m → Keeps R m false Spares
spares h = quiet_part (Only-mono is_tending never_kills (λ c e. ground arith) h)

after_kill_lem : (r : Done) → Keeps R (after_kill r) (kills false (Call.script_kill "") r) Spares
unfolding after_kill
after_kill_lem (ok _) = Keeps-crash R
after_kill_lem (err e) = Keeps-ret R refl

module _ (c : Settings) where
  kill_lem : (d : Duration) (m : String) → Keeps R (kill_if_busy c d m) false Spares
  unfolding kill_if_busy
  kill_lem d m =
      Keeps-if R (ltb_ℤ c.busy_timeout d && starts_with m "BUSY ")
        (λ e. after_call R (Call.script_kill c.hostname) refl (λ r _. after_kill_lem r))
        (λ e. Keeps-ret R refl)

  -- Each part in turn spares the scripts, or has ended the process.
  then-Spares :
      {A B : Type 0} {m : Act A} {f : A → Act B}
      → Keeps R m false Spares
      → ((a : A) → Keeps R (f a) false Spares)
      → Keeps R (bind m f) false Spares
  then-Spares h rest = Keeps->>= R h (λ a t e. rw e (rest a)) (λ x t e. e)

  failure_lem : (m : String) → Keeps R (handle_failure c m) false Spares
  unfolding handle_failure
  failure_lem m = then-Spares (spares (note_fail_time-IsTending c.hostname)) (λ x.
      after_call R Call.now refl (λ t _.
        then-Spares (kill_lem (since t x) m)
          (λ m'. spares (restart_if_late-IsTending c (since t x) m'))))

  note_lem : (b : Bool) (o : Option String) → Keeps R (note_state c b o) false Spares
  unfolding note_state
  note_lem b (some m) = failure_lem m
  note_lem true none = Keeps-ret R refl
  note_lem false none = spares (forget_fail_time-IsTending c.hostname)

-- After a SCRIPT KILL that succeeds, the repair of the local node neither makes another call nor
-- returns: the process ends, since the next test reads the message of an error that is not there.
pub repair_local_node-Spares :
    (c : Settings) (master : String) → Keeps kill_rules (repair_local_node c master) false Spares
unfolding repair_local_node
repair_local_node-Spares c master = after_call R (Call.get_state c.hostname) refl (λ n _.
    then-Spares c (note_lem c n.is_offline n.failure) (λ _.
      Keeps-if R n.is_offline
        (λ e. quiet_part (
          Only-mono is_opening never_kills (λ asked i. ground arith)
            (tend_offline-IsOpening c master n.is_repl_paused)))
        (λ e. spares (tend_online-IsTending c master n.info))))

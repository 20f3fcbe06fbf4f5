-- ===== src/Switchover.antt =====
-- internal/app/switchover.go: the record of a switchover, and the switchover itself.
pub mod Freeze
pub mod Choose
pub mod Promotion
pub mod Perform
pub mod Known
pub mod Mild
pub mod Stopped
pub mod Ready
pub mod Prepared
pub mod Promotes
pub mod Safety
use rdsync.Base.{
  ℕ, suc, ◌+◌, ltb, String, str_eq, Bool, true, false, not, Option, none, some, List, [], ◌∷◌,
  contains, Error, failed, Result, ok, err, if◌then◌else◌,
}
use rdsync.Types.{Time, Switchover, SwitchoverResult, SwitchoverProgress, zero_switchover}
use rdsync.Failover.{failover_of}
use rdsync.Actions.{
  now, create_current_switch, set_current_switch, delete_current_switch, set_last_switch,
  set_last_rejected_switch, get_last_switch, get_last_rejected_switch, Done, Act, ret, raise, ask,
  ◌>>=◌, ◌>>◌, call, check, Settings,
}

abbrev or_zero_switchover : Result Switchover → Switchover
or_zero_switchover (ok s) = s
or_zero_switchover (err e) = zero_switchover

unfoldable pub get_last_switchover : Act Switchover
get_last_switchover = do
  r ← call get_last_switch
  r' ← call get_last_rejected_switch
  let last = or_zero_switchover r
  let rejected = or_zero_switchover r'
  ret (if ltb last.initiated_at rejected.initiated_at then rejected else last)

-- `performFailover` of internal/app/failover.go.
unfoldable pub perform_failover : Settings → String → Act (Unit {0})
perform_failover c master = do
  t ← call now
  r ← call (create_current_switch (failover_of c.hostname t master))
  check r

-- The switchover comes back as it is left, with the error.
unfoldable pub start_switchover : Settings → Switchover → Act (Switchover × Done)
start_switchover c sw = do
  t ← call now
  let sw' = record sw { started_at = t; started_by = c.hostname }
  r ← call (set_current_switch sw')
  ret (sw', r)

abbrev pub message_of : Error → String
message_of (failed m) = m
message_of e = "dcs error"

unfoldable pub fail_switchover : Switchover → Error → Act (Unit {0})
fail_switchover sw e = do
  t ← call now
  r ← call (
      set_current_switch (record sw {
        run_count = suc sw.run_count;
        progress = none;
        result = some (record { is_ok = false; error = message_of e; finished_at = t });
      }))
  check r

unfoldable pub update_with : Switchover → Option SwitchoverProgress → Act (Unit {0})
update_with sw none = raise (failed "update switchover without progress is not possible")
update_with sw (some p) = call (set_current_switch sw) >>= check

unfoldable pub update_switchover : Switchover → Act (Unit {0})
update_switchover sw = update_with sw sw.progress

-- `time.Since(switchover.StartedAt)` is read for the event's timing alone, and left out.
unfoldable pub finish_switchover : Switchover → Option Error → Act (Unit {0})
finish_switchover sw e = do
  t ← call now
  r ← call delete_current_switch
  check r
  r' ← elim e [
    | none ↦ call (
        set_last_switch (record sw {
          progress = none;
          result = some (record { is_ok = true; error = ""; finished_at = t });
        }))
    | some x ↦ call (
        set_last_rejected_switch (record sw {
          progress = none;
          result = some (record { is_ok = false; error = message_of x; finished_at = t });
        }))
  ]
  check r'

unfoldable pub filter_out : List String → List String → List String
filter_out [] b = []
filter_out (x ∷ xs) b = let rest = filter_out xs b in if contains b x then rest else x ∷ rest

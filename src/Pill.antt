-- ===== src/Pill.antt =====
-- internal/app/poison_pill.go: the pill that makes an old master go offline.
pub mod Apply
use rdsync.Base.{
  ℕ, suc, zero, String, str_eq, Bool, true, false, not, Option, Result, ok, err, if◌then◌else◌,
}
use rdsync.Types.{Time, Duration, PoisonPill}
use rdsync.Actions.{
  Call, now, sleep, get_poison_pill, create_poison_pill, set_poison_pill, delete_poison_pill,
  is_offline, set_offline, restart, Done, Act, ret, raise, hang, ask, ◌>>=◌, ◌>>◌, call, check,
  Settings, is_before, turns, a_second,
}

abbrev pub empty_pill : PoisonPill
empty_pill = record {
  initiated_at = 0;
  initiated_by = "";
  target_host = "";
  cause = "";
  applied = false;
}

unfoldable pub issue_poison_pill : Settings → String → Act (Unit {0})
issue_poison_pill c target = do
  t ← call now
  r ← call (
      create_poison_pill
        (record empty_pill { target_host = target; initiated_by = c.hostname; initiated_at = t }))
  check r

unfoldable pub clear_poison_pill : Act (Unit {0})
clear_poison_pill = call delete_poison_pill >>= check

-- The pill is marked and stored.
unfoldable pub mark_applied : PoisonPill → Act (PoisonPill × Done)
mark_applied pill = do
  let applied = record pill { applied = true }
  r ← call (set_poison_pill applied)
  ret (applied, r)

-- What follows `SetOffline`.
unfoldable pub if_set : PoisonPill → Done → Act (PoisonPill × Done)
if_set pill (err e) = ret (pill, err e)
if_set pill (ok _) = mark_applied pill

-- What follows `IsOffline`.
unfoldable pub if_offline : Settings → PoisonPill → Result Bool → Act (PoisonPill × Done)
if_offline c pill (err e) = do r ← call (restart c.hostname); ret (pill, r)
if_offline c pill (ok true) = mark_applied pill
if_offline c pill (ok false) = do r ← call (set_offline c.hostname); if_set pill r

-- The pill comes back as it is left, with the error.
unfoldable pub apply_poison_pill : Settings → PoisonPill → Act (PoisonPill × Done)
apply_poison_pill c pill =
    if not (str_eq pill.target_host c.hostname)
    then ret (pill, ok tt)
    else do offline ← call (is_offline c.hostname); if_offline c pill offline

abbrev pub seen_pill : PoisonPill → Result PoisonPill → PoisonPill
seen_pill pill (ok new) = new
seen_pill pill (err e) = pill

-- One tick of the ticker after another; that the context is done is seen at a tick.
unfoldable pub wait_ticks : Settings → ℕ → Time → Duration → PoisonPill → Act (Unit {0})
wait_ticks c zero start timeout pill = hang
wait_ticks c (suc n) start timeout pill = do
  call (sleep a_second)
  t ← call now
  if not (is_before t start timeout) then ret tt else do
    r ← call get_poison_pill
    (pill', _) ← apply_poison_pill c (seen_pill pill r)
    if pill'.applied then ret tt else wait_ticks c n start timeout pill'

unfoldable pub wait_poison_pill : Settings → Duration → Act (Unit {0})
wait_poison_pill c timeout = do
  start ← call now
  wait_ticks c (turns timeout) start timeout empty_pill

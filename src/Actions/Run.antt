-- ===== src/Actions/Run.antt =====
-- Running a program against servers and a DCS that are given as a function of the calls.
use rdsync.Base.{Result, ok, err}
use rdsync.Actions.{Call, Reply, Act, ret, raise, crash, hang, ask, bind, handle}

-- How a program ends: with a value or an error, with the process, or not within the loops' turns.
pub data Outcome (A : Type 0) : Type 0 where
  returned : Result A → Outcome A
  crashed : Outcome A
  hung : Outcome A

module _ {S : Type 0} (answer : (c : Call) → S → Reply c × S) where
  abbrev pub next : {A B : Type 0} → (A → S → Outcome B × S) → Outcome A × S → Outcome B × S
  next k (returned (ok a), s) = k a s
  next k (returned (err e), s) = (returned (err e), s)
  next k (crashed, s) = (crashed, s)
  next k (hung, s) = (hung, s)

  abbrev handled : {A B : Type 0} → (Result A → S → Outcome B × S) → Outcome A × S → Outcome B × S
  handled k (returned r, s) = k r s
  handled k (crashed, s) = (crashed, s)
  handled k (hung, s) = (hung, s)

  unfoldable pub run : {A : Type 0} → Act A → S → Outcome A × S
  run (ret a) s = (returned (ok a), s)
  run (raise e) s = (returned (err e), s)
  run crash s = (crashed, s)
  run hang s = (hung, s)
  run (ask c k) s = let (r, s') = answer c s in run (k r) s'
  run (bind m f) s = next (λ a t. run (f a) t) (run m s)
  run (handle m f) s = handled (λ r t. run (f r) t) (run m s)

-- ===== src/Actions/Hoare.antt =====
-- Reasoning about programs: what holds of the calls so far, which calls are allowed then, and what
-- holds at the end.
use rdsync.Base.{Error, Result, ok, err}
use rdsync.Actions.{bind, handle, Call, Reply, Act, ret, raise, crash, hang, ask}

-- `Facts` is what is known of the calls so far. `Possible` says which replies can come, and
-- `Allowed` which calls may be made. `Endless` is what is to be shown where a loop has no turns left.
pub record Rules : Type 1 where
  pub Facts : Type 0
  pub track : Facts → (c : Call) → Reply c → Facts
  pub Possible : Facts → (c : Call) → Reply c → Type 0
  pub Allowed : Facts → Call → Type 0
  pub Endless : Type 0

module _ (R : Rules) where
  -- What must hold after the first of two things, where an error ends both.
  abbrev pub Onward :
      {A : Type 0} {K : Type 0}
      → (A → R.Facts → Type 0)
      → (Result K → R.Facts → Type 0)
      → Result A
      → R.Facts
      → Type 0
  Onward next Q (ok a) t = next a t
  Onward next Q (err e) t = Q (err e) t

  pub Onward-mono :
      {A K : Type 0} (P Q : A → R.Facts → Type 0) (E F : Result K → R.Facts → Type 0)
      → ((a : A) (t : R.Facts) → P a t → Q a t)
      → ((e : Error) (t : R.Facts) → E (err e) t → F (err e) t)
      → (r : Result A) (t : R.Facts) → Onward P E r t
      → Onward Q F r t
  Onward-mono P Q E F goes stops (ok a) t h = goes a t h
  Onward-mono P Q E F goes stops (err e) t h = stops e t h

  -- From the facts `s`, every call that the program makes is allowed, and where it ends with a
  -- value or an error, `Q` holds of that and of the facts then.
  abbrev pub Meets : {A : Type 0} → Act A → R.Facts → (Result A → R.Facts → Type 0) → Type 0
  Meets (ret a) s Q = Q (ok a) s
  Meets (raise e) s Q = Q (err e) s
  Meets crash s Q = Unit {0}
  Meets hang s Q = R.Endless
  Meets (ask c k) s Q =
      R.Allowed s c × ((r : Reply c) → R.Possible s c r → Meets (k r) (R.track s c r) Q)
  Meets (bind m f) s Q = Meets m s (Onward (λ a t. Meets (f a) t Q) Q)
  Meets (handle m f) s Q = Meets m s (λ r t. Meets (f r) t Q)

  pub record Keeps {A : Type 0} (m : Act A) (s : R.Facts) (Q : Result A → R.Facts → Type 0)
      : Type 0 where
    pub keeps : Meets m s Q

  meets-mono :
      {A : Type 0} (m : Act A) (s : R.Facts) (P Q : Result A → R.Facts → Type 0)
      → ((r : Result A) (t : R.Facts) → P r t → Q r t)
      → Meets m s P
      → Meets m s Q
  meets-mono (ret a) s P Q sub h = sub (ok a) s h
  meets-mono (raise e) s P Q sub h = sub (err e) s h
  meets-mono crash s P Q sub h = h
  meets-mono hang s P Q sub h = h
  meets-mono (ask c k) s P Q sub (h, rest) =
      (h, λ r p. meets-mono (k r) (R.track s c r) P Q sub (rest r p))
  meets-mono (bind m f) s P Q sub h =
      meets-mono m s _ _
        (Onward-mono _ _ P Q (λ a t i. meets-mono (f a) t P Q sub i) (λ e t i. sub (err e) t i)) h
  meets-mono (handle m f) s P Q sub h = meets-mono m s _ _ (λ r t i. meets-mono (f r) t P Q sub i) h

  pub Keeps-mono :
      {A : Type 0} {m : Act A} {s : R.Facts} {P Q : Result A → R.Facts → Type 0}
      → ((r : Result A) (t : R.Facts) → P r t → Q r t)
      → Keeps m s P
      → Keeps m s Q
  Keeps-mono {m = m} {s = s} {P = P} {Q = Q} sub h = record {
    keeps = meets-mono m s P Q sub h.keeps;
  }

  pub Keeps->>= :
      {A B : Type 0} {m : Act A} {f : A → Act B} {s : R.Facts} {P : Result A → R.Facts → Type 0}
      {Q : Result B → R.Facts → Type 0}
      → Keeps m s P
      → ((a : A) (t : R.Facts) → P (ok a) t → Keeps (f a) t Q)
      → ((e : Error) (t : R.Facts) → P (err e) t → Q (err e) t)
      → Keeps (bind m f) s Q
  Keeps->>= {A = A} {m = m} {f = f} {s = s} {P = P} {Q = Q} h goes stops = record {
    keeps = meets-mono m s P _ step h.keeps;
  }
    where
      step : (r : Result A) (t : R.Facts) → P r t → Onward (λ a u. Meets (f a) u Q) Q r t
      step (ok a) t i = (goes a t i).keeps
      step (err e) t i = stops e t i

  pub Keeps-handle :
      {A B : Type 0} {m : Act A} {f : Result A → Act B} {s : R.Facts}
      {P : Result A → R.Facts → Type 0} {Q : Result B → R.Facts → Type 0}
      → Keeps m s P
      → ((r : Result A) (t : R.Facts) → P r t → Keeps (f r) t Q)
      → Keeps (handle m f) s Q
  Keeps-handle {m = m} {s = s} {P = P} h goes = record {
    keeps = meets-mono m s P _ (λ r t i. (goes r t i).keeps) h.keeps;
  }

  -- A call, and what is known after its reply.
  pub Keeps-ask :
      {A : Type 0} {c : Call} {k : Reply c → Act A} {s : R.Facts} {Q : Result A → R.Facts → Type 0}
      → R.Allowed s c
      → ((r : Reply c) → R.Possible s c r → Keeps (k r) (R.track s c r) Q)
      → Keeps (ask c k) s Q
  Keeps-ask h rest = record { keeps = (h, λ r p. (rest r p).keeps) }

  pub Keeps-ret :
      {A : Type 0} {a : A} {s : R.Facts} {Q : Result A → R.Facts → Type 0}
      → Q (ok a) s
      → Keeps (ret a) s Q
  Keeps-ret h = record { keeps = h }

  pub Keeps-raise :
      {A : Type 0} {e : Error} {s : R.Facts} {Q : Result A → R.Facts → Type 0}
      → Q (err e) s
      → Keeps (raise e) s Q
  Keeps-raise h = record { keeps = h }

  pub Keeps-crash :
      {A : Type 0} {s : R.Facts} {Q : Result A → R.Facts → Type 0} → Keeps {A = A} crash s Q
  Keeps-crash = record { keeps = tt }

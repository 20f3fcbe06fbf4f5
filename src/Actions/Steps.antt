-- ===== src/Actions/Steps.antt =====
-- Reasoning about the steps that make one call or none, and what comes after them.
use rdsync.Base.{
  not_found, exists, malformed, failed, if◌then◌else◌, arith, String, Option, none, some, Error,
  Result, ok, err, ◌≡◌, refl,
}
use rdsync.Actions.{
  failed, true, false, Bool, deref, check, raise_if, or_fail, found, bind, Call, Reply, Act, ret,
  ask,
}
use rdsync.Actions.Hoare.{Rules, Meets, Keeps}

module _ (R : Rules) where
  -- The steps that make no call, or one, with what comes after them.
  module _ {B : Type 0} {s : R.Facts} {Q : Result B → R.Facts → Type 0} where
    pub after_call :
        (c : Call) {f : Reply c → Act B}
        → R.Allowed s c
        → ((r : Reply c) → R.Possible s c r → Keeps R (f r) (R.track s c r) Q)
        → Keeps R (bind (ask c ret) f) s Q
    after_call c h rest = record { keeps = (h, λ r p. (rest r p).keeps) }

    from_deref :
        {A : Type 0} (o : Option A) (f : A → Act B)
        → ((a : A) → o ≡ some a → Keeps R (f a) s Q)
        → Meets R (bind (deref o) f) s Q
    unfolding deref
    from_deref none f rest = tt
    from_deref (some a) f rest = (rest a refl).keeps

    from_raise_if :
        (b : Bool) (m : String) (f : Unit {0} → Act B)
        → ((e : Error) → Q (err e) s)
        → (b ≡ false → Keeps R (f tt) s Q)
        → Meets R (bind (raise_if b m) f) s Q
    unfolding raise_if
    from_raise_if true m f stops rest = stops _
    from_raise_if false m f stops rest = (rest refl).keeps

    from_check :
        {A : Type 0} (r : Result A) (f : A → Act B)
        → ((e : Error) → Q (err e) s)
        → ((a : A) → r ≡ ok a → Keeps R (f a) s Q)
        → Meets R (bind (check r) f) s Q
    unfolding check
    from_check (ok a) f stops rest = (rest a refl).keeps
    from_check (err e) f stops rest = stops e

    from_or_fail :
        {A : Type 0} (m : String) (r : Result A) (f : A → Act B)
        → ((e : Error) → Q (err e) s)
        → ((a : A) → r ≡ ok a → Keeps R (f a) s Q)
        → Meets R (bind (or_fail m r) f) s Q
    unfolding or_fail
    from_or_fail m (ok a) f stops rest = (rest a refl).keeps
    from_or_fail m (err e) f stops rest = stops _

    from_found :
        {A : Type 0} (r : Result A) (f : Option A → Act B)
        → ((e : Error) → Q (err e) s)
        → ((o : Option A)
            → ((a : A) → o ≡ some a → r ≡ ok a)
            → (o ≡ none → r ≡ err not_found)
            → Keeps R (f o) s Q)
        → Meets R (bind (found r) f) s Q
    unfolding found
    from_found (ok a) f stops rest = (rest (some a) (λ b h. ground arith) (λ h. ground arith)).keeps
    from_found (err not_found) f stops rest = (rest none (λ b h. ground arith) (λ h. refl)).keeps
    from_found (err exists) f stops rest = stops _
    from_found (err malformed) f stops rest = stops _
    from_found (err (failed m)) f stops rest = stops _

    pub after_deref :
        {A : Type 0} (o : Option A) {f : A → Act B}
        → ((a : A) → o ≡ some a → Keeps R (f a) s Q)
        → Keeps R (bind (deref o) f) s Q
    after_deref o {f = f} rest = record { keeps = from_deref o f rest }

    pub after_raise_if :
        (b : Bool) (m : String) {f : Unit {0} → Act B}
        → ((e : Error) → Q (err e) s)
        → (b ≡ false → Keeps R (f tt) s Q)
        → Keeps R (bind (raise_if b m) f) s Q
    after_raise_if b m {f = f} stops rest = record { keeps = from_raise_if b m f stops rest }

    pub after_check :
        {A : Type 0} (r : Result A) {f : A → Act B}
        → ((e : Error) → Q (err e) s)
        → ((a : A) → r ≡ ok a → Keeps R (f a) s Q)
        → Keeps R (bind (check r) f) s Q
    after_check r {f = f} stops rest = record { keeps = from_check r f stops rest }

    pub after_or_fail :
        {A : Type 0} (m : String) (r : Result A) {f : A → Act B}
        → ((e : Error) → Q (err e) s)
        → ((a : A) → r ≡ ok a → Keeps R (f a) s Q)
        → Keeps R (bind (or_fail m r) f) s Q
    after_or_fail m r {f = f} stops rest = record { keeps = from_or_fail m r f stops rest }

    pub after_found :
        {A : Type 0} (r : Result A) {f : Option A → Act B}
        → ((e : Error) → Q (err e) s)
        → ((o : Option A)
            → ((a : A) → o ≡ some a → r ≡ ok a)
            → (o ≡ none → r ≡ err not_found)
            → Keeps R (f o) s Q)
        → Keeps R (bind (found r) f) s Q
    after_found r {f = f} stops rest = record { keeps = from_found r f stops rest }

  meets-check :
      {A : Type 0} (r : Result A) (s : R.Facts) (Q : Result A → R.Facts → Type 0)
      → Q r s
      → Meets R (check r) s Q
  unfolding check
  meets-check (ok a) s Q h = h
  meets-check (err e) s Q h = h

  pub Keeps-check :
      {A : Type 0} (r : Result A) {s : R.Facts} {Q : Result A → R.Facts → Type 0}
      → Q r s
      → Keeps R (check r) s Q
  Keeps-check r {s = s} {Q = Q} h = record { keeps = meets-check r s Q h }

  meets-or_fail :
      {A : Type 0} (m : String) (r : Result A) (s : R.Facts) (Q : Result A → R.Facts → Type 0)
      → ((e : Error) → Q (err e) s)
      → ((a : A) → r ≡ ok a → Q (ok a) s)
      → Meets R (or_fail m r) s Q
  unfolding or_fail
  meets-or_fail m (ok a) s Q stops goes = goes a refl
  meets-or_fail m (err e) s Q stops goes = stops _

  pub Keeps-or_fail :
      {A : Type 0} (m : String) (r : Result A) {s : R.Facts} {Q : Result A → R.Facts → Type 0}
      → ((e : Error) → Q (err e) s)
      → ((a : A) → r ≡ ok a → Q (ok a) s)
      → Keeps R (or_fail m r) s Q
  Keeps-or_fail m r {s = s} {Q = Q} stops goes = record { keeps = meets-or_fail m r s Q stops goes }

  pub Keeps-if :
      {A : Type 0} (b : Bool) {m k : Act A} {s : R.Facts} {Q : Result A → R.Facts → Type 0}
      → (b ≡ true → Keeps R m s Q)
      → (b ≡ false → Keeps R k s Q)
      → Keeps R (if b then m else k) s Q
  Keeps-if true h i = h refl
  Keeps-if false h i = i refl

-- ===== src/Actions/Only.antt =====
-- Programs that make only calls of a given kind, whatever the replies.
use rdsync.Base.{
  if◌then◌else◌, String, Bool, true, false, Option, none, some, List, [], ◌∷◌, Error, not_found,
  exists, malformed, failed, Result, ok, err, ◌≡◌,
}
use rdsync.Actions.{
  bind, handle, Call, Reply, Act, ret, raise, crash, hang, ask, check, deref, or_fail, raise_if,
  found, get_host_states, run_parallel, host_state,
}
use rdsync.Actions.Hoare.{Onward, Rules, Meets, Keeps}

module _ (p : Call → Bool) where
  abbrev pub Within : {A : Type 0} → Act A → Type 0
  Within (ret a) = Unit {0}
  Within (raise e) = Unit {0}
  Within crash = Unit {0}
  Within hang = Unit {0}
  Within (ask c k) = (p c ≡ true) × ((r : Reply c) → Within (k r))
  Within (bind m f) = Within m × ((a : _) → Within (f a))
  Within (handle m f) = Within m × ((r : _) → Within (f r))

  pub record Only {A : Type 0} (m : Act A) : Type 0 where
    pub within : Within m

  pub Only-ret : {A : Type 0} {a : A} → Only (ret a)
  Only-ret = record { within = tt }

  pub Only-hang : {A : Type 0} → Only {A = A} hang
  Only-hang = record { within = tt }

  pub Only-raise : {A : Type 0} {e : Error} → Only {A = A} (raise e)
  Only-raise = record { within = tt }

  pub Only-crash : {A : Type 0} → Only {A = A} crash
  Only-crash = record { within = tt }

  pub Only-ask :
      {A : Type 0} {c : Call} {k : Reply c → Act A}
      → p c ≡ true
      → ((r : Reply c) → Only (k r))
      → Only (ask c k)
  Only-ask h rest = record { within = (h, λ r. (rest r).within) }

  pub Only->>= :
      {A B : Type 0} {m : Act A} {f : A → Act B} → Only m → ((a : A) → Only (f a)) → Only (bind m f)
  Only->>= h k = record { within = (h.within, λ a. (k a).within) }

  pub Only-handle :
      {A B : Type 0} {m : Act A} {f : Result A → Act B}
      → Only m
      → ((r : Result A) → Only (f r))
      → Only (handle m f)
  Only-handle h k = record { within = (h.within, λ a. (k a).within) }

  pub Only-check : {A : Type 0} (r : Result A) → Only (check r)
  unfolding check
  Only-check (ok a) = Only-ret
  Only-check (err e) = record { within = tt }

  pub Only-or_fail : {A : Type 0} (m : String) (r : Result A) → Only (or_fail m r)
  unfolding or_fail
  Only-or_fail m (ok a) = Only-ret
  Only-or_fail m (err e) = record { within = tt }

  pub Only-deref : {A : Type 0} (o : Option A) → Only (deref o)
  unfolding deref
  Only-deref (some a) = Only-ret
  Only-deref none = record { within = tt }

  pub Only-raise_if : (b : Bool) (m : String) → Only (raise_if b m)
  unfolding raise_if
  Only-raise_if true m = record { within = tt }
  Only-raise_if false m = Only-ret

  pub Only-found : {A : Type 0} (r : Result A) → Only (found r)
  unfolding found
  Only-found (ok a) = Only-ret
  Only-found (err not_found) = Only-ret
  Only-found (err exists) = record { within = tt }
  Only-found (err malformed) = record { within = tt }
  Only-found (err (failed m)) = record { within = tt }

  pub Only-if : {A : Type 0} (b : Bool) {m k : Act A} → Only m → Only k → Only (if b then m else k)
  Only-if true h h' = h
  Only-if false h h' = h'

  pub Only-get_host_states :
      ((h : String) → p (host_state h) ≡ true) → (hs : List String) → Only (get_host_states hs)
  unfolding get_host_states
  Only-get_host_states allowed [] = Only-ret
  Only-get_host_states allowed (h ∷ hs) =
      Only->>= (Only-ask (allowed h) (λ s. Only-ret))
        (λ s. Only->>= (Only-get_host_states allowed hs) (λ rest. Only-ret))

  pub Only-run_parallel :
      (f : String → Act (Unit {0}))
      → ((h : String) → Only (f h))
      → (hs : List String) → Only (run_parallel f hs)
  unfolding run_parallel
  Only-run_parallel f each [] = Only-ret
  Only-run_parallel f each (h ∷ hs) =
      Only->>= (Only-handle (each h) (λ r. Only-ret))
        (λ r. Only->>= (Only-run_parallel f each hs) (λ rest. Only-ret))

  within-Meets :
      (R : Rules)
      → R.Endless
      → (Inv : R.Facts → Type 0) → ((s : R.Facts) (c : Call) → p c ≡ true → Inv s → R.Allowed s c)
      → ((s : R.Facts) (c : Call) (r : Reply c) → p c ≡ true → Inv s → Inv (R.track s c r))
      → {A : Type 0} (m : Act A) (s : R.Facts) (Q : Result A → R.Facts → Type 0)
      → ((r : Result A) (t : R.Facts) → Inv t → Q r t)
      → Inv s
      → Within m
      → Meets R m s Q
  within-Meets R e Inv allowed step (ret a) s Q q i h = q (ok a) s i
  within-Meets R e Inv allowed step (raise x) s Q q i h = q (err x) s i
  within-Meets R e Inv allowed step crash s Q q i h = tt
  within-Meets R e Inv allowed step hang s Q q i h = e
  within-Meets R e Inv allowed step (ask c k) s Q q i (h, rest) = (
    allowed s c h i,
    λ r possible.
        within-Meets R e Inv allowed step (k r) (R.track s c r) Q q (step s c r h i) (rest r),
  )
  within-Meets R e Inv allowed step (bind m f) s Q q i (h, rest) =
      within-Meets R e Inv allowed step m s _
        (after (λ a t j. within-Meets R e Inv allowed step (f a) t Q q j (rest a)) q) i h
    where
      after :
          {A B : Type 0} {P : A → R.Facts → Type 0} {F : Result B → R.Facts → Type 0}
          → ((a : A) (t : R.Facts) → Inv t → P a t)
          → ((r : Result B) (t : R.Facts) → Inv t → F r t)
          → (r : Result A) (t : R.Facts) → Inv t
          → Onward R P F r t
      after goes stops (ok a) t j = goes a t j
      after goes stops (err x) t j = stops (err x) t j
  within-Meets R e Inv allowed step (handle m f) s Q q i (h, rest) =
      within-Meets R e Inv allowed step m s _
        (λ r t j. within-Meets R e Inv allowed step (f r) t Q q j (rest r)) i h

  -- What each call of the kind preserves, the program preserves.
  pub Only-Keeps :
      (R : Rules)
      → R.Endless
      → (Inv : R.Facts → Type 0) → ((s : R.Facts) (c : Call) → p c ≡ true → Inv s → R.Allowed s c)
      → ((s : R.Facts) (c : Call) (r : Reply c) → p c ≡ true → Inv s → Inv (R.track s c r))
      → {A : Type 0} {m : Act A} {s : R.Facts} → Inv s
      → Only m
      → Keeps R m s (λ r t. Inv t)
  Only-Keeps R e Inv allowed step {m = m} {s = s} i h = record {
    keeps = within-Meets R e Inv allowed step m s _ (λ r t j. j) i h.within;
  }

module _ (p q : Call → Bool) (sub : (c : Call) → p c ≡ true → q c ≡ true) where
  Within-mono : {A : Type 0} (m : Act A) → Within p m → Within q m
  Within-mono (ret a) h = h
  Within-mono (raise e) h = h
  Within-mono crash h = h
  Within-mono hang h = h
  Within-mono (ask c k) (h, rest) = (sub c h, λ r. Within-mono (k r) (rest r))
  Within-mono (bind m f) (h, rest) = (Within-mono m h, λ a. Within-mono (f a) (rest a))
  Within-mono (handle m f) (h, rest) = (Within-mono m h, λ a. Within-mono (f a) (rest a))

  pub Only-mono : {A : Type 0} {m : Act A} → Only p m → Only q m
  Only-mono {m = m} h = record { within = Within-mono m h.within }

pub ruleset only_rules = (
  Only-ret, Only-hang, Only-raise, Only-crash, Only-ask, Only->>=, Only-handle, Only-check,
  Only-or_fail, Only-deref, Only-raise_if, Only-found, Only-if, Only-get_host_states,
  Only-run_parallel,
)

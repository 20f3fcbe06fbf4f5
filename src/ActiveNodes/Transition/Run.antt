-- ===== src/ActiveNodes/Transition/Run.antt =====
-- Runs of steps that may fail, on the master's configuration and the DCS.
use mathlib.Core.Path.{subst}
use rdsync.Base.{ℕ, String, ◌≡◌, refl, sym, ◌∙◌, ap, ◌⊎◌, inl, inr, List, Result, ok, err}
use rdsync.ActiveNodes.Transition.{Step, after, ◌then_do◌, done, Ops}

-- What the master's configuration and the DCS hold. The quorum replicas are a text on the master.
pub record View : Type 0 where
  pub quorum : String
  pub num : ℕ
  pub active : List String

-- An operation that succeeds has changed its field; one that fails has or has not. `text` is what the
-- master is told for a list of nodes.
abbrev pub Changes : {S : Type 0} → (S → View) → (View → View) → Step S → Type 0
Changes {S} view f m =
    (s : S)
    → (view (m s).1 ≡ f (view s))
      ⊎ ((view (m s).1 ≡ view s) × ((e : Unit {0}) → (m s).0 ≡ ok e → ⊥))

pub record Honest {S : Type 0} (text : List String → String) (view : S → View) (ops : Ops S)
    : Type 0 where
  pub quorum_set :
      (xs : List String)
      → Changes view (λ v. record v { quorum = text xs }) (ops.set_quorum_replicas xs)
  pub num_set : (n : ℕ) → Changes view (λ v. record v { num = n }) (ops.set_num_quorum_replicas n)
  pub active_set :
      (xs : List String) → Changes view (λ v. record v { active = xs }) (ops.set_active_nodes xs)

module _ {S : Type 0} (view : S → View) (R : View → Type 0) where
  -- A run that succeeds ends in the view `w`, one that fails in a view of `R`.
  abbrev pub Ends : View → Result (Unit {0}) × S → Type 0
  Ends w (ok _, s) = view s ≡ w
  Ends w (err _, s) = R (view s)

  -- From the view `u`, the step ends so.
  pub record Run (u : View) (m : Step S) (w : View) : Type 0 where
    pub from : (s : S) → view s ≡ u → Ends w (m s)

  pub Run-done : (u : View) → Run u done u
  Run-done u = record { from = λ s at. at }

  pub Run-then : {u v w : View} {m k : Step S} → Run u m v → Run v k w → Run u (m then_do k) w
  Run-then {v = v} {w = w} {m = m} {k = k} first second = record {
    from = λ s at. go (m s) (first.from s at);
  }
    where
      go : (r : Result (Unit {0}) × S) → Ends v r → Ends w (after k r)
      go (ok _, t) e = second.from t e
      go (err _, t) e = e

  pub Run-op :
      (f : View → View) (m : Step S) (v : View) → Changes view f m → R v → R (f v) → Run v m (f v)
  Run-op f m v honest before later = record { from = λ s at. go s at (m s) (honest s) }
    where
      go :
          (s : S)
          → view s ≡ v
          → (r : Result (Unit {0}) × S)
          → (view r.1 ≡ f (view s)) ⊎ ((view r.1 ≡ view s) × ((e : Unit {0}) → r.0 ≡ ok e → ⊥))
          → Ends (f v) r
      go s at (ok e, t) (inl c) = c ∙ ap f at
      go s at (ok e, t) (inr c) = absurd (c.1 e refl)
      go s at (err e, t) (inl c) = subst R (sym (c ∙ ap f at)) later
      go s at (err e, t) (inr c) = subst R (sym (c.0 ∙ at)) before

-- ===== src/ActiveNodes/Transition/Safety.antt =====
-- What holds of the write quorum at every point of a transition. A run that fails at an operation
-- ends there, so what holds of every run, failed ones included, holds at every point.
use mathlib.Core.Path.{subst}
use rdsync.Base.{
  ℕ, ◌/◌, ◌≤◌, ltb, ◌==◌, String, ◌≡◌, refl, sym, ap, ◌⊎◌, inl, inr, Bool, true, false, Bool-cases,
  ◌||◌, List, length, arith, if◌then◌else◌,
}
use rdsync.ActiveNodes.Transition.{
  done, Ops, active_nodes_intersection, active_nodes_equal, has_added_active_nodes, raise_num,
  lower_num, keep_nodes, add_nodes, remove_nodes, apply_active_nodes_transition,
}
use rdsync.ActiveNodes.Transition.Subset.{IsSubset, intersection-IsSubset, equal-IsSubset}
use rdsync.ActiveNodes.Transition.Run.{View, Honest, Ends, Run, Run-done, Run-then, Run-op}

-- The number of replicas that the master waits for, while a transition is under way.
abbrev raised : ℕ → ℕ → ℕ
raised n e = if ltb n e then e else n

-- At least half of the active nodes are waited for, and the replicas that are waited for are those of
-- some nodes, all of them active. Where nodes are only removed, they may still be those of before.
abbrev pub IsSafe : (List String → String) → List String → List String → List String → View → Type 0
IsSafe text old active before v =
    (length v.active / 2 ≤ v.num)
    × (((xs : List String) × (v.quorum ≡ text xs) × IsSubset xs v.active)
        ⊎ ((has_added_active_nodes old active ≡ false)
            × (v.active ≡ active)
            × (v.quorum ≡ text before)))

abbrev pub view_of : (List String → String) → List String → ℕ → List String → View
view_of text q n a = record { quorum = text q; num = n; active = a }

module _ {S : Type 0} (text : List String → String) (view : S → View) (ops : Ops S)
    (honest : Honest text view ops) (old active before : List String) (n : ℕ)
    (enough : length old / 2 ≤ n) (inside : IsSubset before old) where
  abbrev R : View → Type 0
  R = IsSafe text old active before

  abbrev e : ℕ
  e = length active / 2

  set_num :
      (test : Bool) (q a : List String) (k m : ℕ)
      → R (view_of text q k a)
      → R (view_of text q (if test then m else k) a)
      → Run view R
          (view_of text q k a)
          (if test then ops.set_num_quorum_replicas m else done)
          (view_of text q (if test then m else k) a)
  set_num true q a k m h h' =
      Run-op view R (λ v. record v { num = m }) (ops.set_num_quorum_replicas m) _ (honest.num_set m)
        h h'
  set_num false q a k m h h' = Run-done view R _

  raise :
      (q a : List String)
      → R (view_of text q n a)
      → Run view R
          (view_of text q n a)
          (raise_num ops old active n e)
          (view_of text q (raised n e) a)
  raise q a h = set_num (ltb n e) q a n e h (ground arith, h.1)

  lower :
      (q a : List String)
      → R (view_of text q (raised n e) a)
      → R (view_of text q e a)
      → Run view R
          (view_of text q (raised n e) a)
          (lower_num ops old active n e)
          (view_of text q e a)
  lower q a h h' =
      let lowered : (if ltb e n then e else raised n e) ≡ e = ground arith in
      subst
        (λ k.
          Run view R (view_of text q (raised n e) a) (lower_num ops old active n e)
            (view_of text q k a))
        lowered
        (set_num (ltb e n) q a (raised n e) e h
          (subst (λ k. R (view_of text q k a)) (sym lowered) h'))

  set_quorum :
      (xs q a : List String) (k : ℕ)
      → R (view_of text q k a)
      → R (view_of text xs k a)
      → Run view R (view_of text q k a) (ops.set_quorum_replicas xs) (view_of text xs k a)
  set_quorum xs q a k h h' =
      Run-op view R (λ v. record v { quorum = text xs }) (ops.set_quorum_replicas xs) _
        (honest.quorum_set xs) h h'

  set_active :
      (q a : List String) (k : ℕ)
      → R (view_of text q k a)
      → R (view_of text q k active)
      → Run view R (view_of text q k a) (ops.set_active_nodes active) (view_of text q k active)
  set_active q a k h h' =
      Run-op view R (λ v. record v { active = active }) (ops.set_active_nodes active) _
        (honest.active_set active) h h'

  keep_nodes-Run :
      active_nodes_equal old active ≡ true
      → Run view R
          (view_of text before n old)
          (keep_nodes ops old active n e)
          (view_of text active e old)
  unfolding keep_nodes
  keep_nodes-Run same =
      let (len, sub) = equal-IsSubset old active same in
      let r₁ : R (view_of text before (raised n e) old) =
        (ground arith, inl (before, refl, inside)) in
      let r₂ : R (view_of text active (raised n e) old) = (ground arith, inl (active, refl, sub)) in
      let r₃ : R (view_of text active e old) =
        (omega (arith, ap (λ (k : ℕ). k / 2) len), inl (active, refl, sub)) in
      Run-then view R
        (Run-then view R (raise before old (enough, inl (before, refl, inside)))
          (set_quorum active before old (raised n e) r₁ r₂))
        (lower active old r₂ r₃)

  add_nodes-Run :
      Run view R
        (view_of text before n old)
        (add_nodes ops old active n e)
        (view_of text active e active)
  unfolding add_nodes
  add_nodes-Run =
      let both = active_nodes_intersection old active in
      let in_old : IsSubset both old = λ a c. (intersection-IsSubset old active a c).0 in
      let in_new : IsSubset both active = λ a c. (intersection-IsSubset old active a c).1 in
      let r₁ : R (view_of text both n old) = (enough, inl (both, refl, in_old)) in
      let r₂ : R (view_of text both (raised n e) old) = (ground arith, inl (both, refl, in_old)) in
      let r₃ : R (view_of text both (raised n e) active) =
        (ground arith, inl (both, refl, in_new)) in
      let r₄ : R (view_of text active (raised n e) active) =
        (ground arith, inl (active, refl, λ a c. c)) in
      let r₅ : R (view_of text active e active) = (omega arith, inl (active, refl, λ a c. c)) in
      Run-then view R
        (Run-then view R
          (Run-then view R
            (Run-then view R (set_quorum both before old n (enough, inl (before, refl, inside)) r₁)
              (raise both old r₁))
            (set_active both old (raised n e) r₂ r₃))
          (set_quorum active both active (raised n e) r₃ r₄))
        (lower active active r₄ r₅)

  settle :
      (test : Bool)
      → (n == e) ≡ test
      → R (view_of text active n active)
      → R (view_of text active e active)
      → Run view R
          (view_of text active n active)
          (if test then done else ops.set_num_quorum_replicas e)
          (view_of text active e active)
  settle true same h h' =
      let n_is : n ≡ e = ground arith in
      subst (λ k. Run view R (view_of text active n active) done (view_of text active k active))
        n_is (Run-done view R _)
  settle false differs h h' = set_num true active active n e h h'

  remove_nodes-Run :
      has_added_active_nodes old active ≡ false
      → ltb n e ≡ false
      → Run view R
          (view_of text before n old)
          (remove_nodes ops old active n e)
          (view_of text active e active)
  unfolding remove_nodes
  remove_nodes-Run fewer less =
      let r₁ : R (view_of text before n active) = (ground arith, inr (fewer, refl, refl)) in
      let r₂ : R (view_of text active n active) = (ground arith, inl (active, refl, λ a c. c)) in
      let r₃ : R (view_of text active e active) = (omega arith, inl (active, refl, λ a c. c)) in
      Run-then view R
        (Run-then view R (set_active before old n (enough, inl (before, refl, inside)) r₁)
          (set_quorum active before active n r₁ r₂))
        (settle (n == e) refl r₂ r₃)

  transition-Run :
      Run view R
        (view_of text before n old)
        (apply_active_nodes_transition ops old active n e)
        (view_of text active e (if active_nodes_equal old active then old else active))
  unfolding apply_active_nodes_transition
  transition-Run = elim (Bool-cases (active_nodes_equal old active)) [
    | inl same ↦ rw same (keep_nodes-Run same)
    | inr differs ↦ rw differs (elim (Bool-cases (has_added_active_nodes old active || ltb n e)) [
      | inl more ↦ rw more add_nodes-Run
      | inr fewer ↦ rw fewer (remove_nodes-Run (ground arith) (ground arith))
    ])
  ]

-- From a master that waits for at least half of the active nodes, all of whose quorum replicas are
-- active nodes, whichever operation of a transition fails: at the end of the run, and so at every
-- point of it, the master waits for at least half of the active nodes, and its quorum replicas are
-- active nodes, or (where nodes are only removed) are those of before. A run that does not fail ends
-- with the new nodes as quorum replicas, half of their number waited for, and the new active nodes
-- in the DCS unless they are the old ones in another order.
pub transition-IsSafe :
    {S : Type 0} (text : List String → String) (view : S → View) (ops : Ops S)
    (old active before : List String) (n : ℕ) (s : S)
    → Honest text view ops
    → view s ≡ view_of text before n old
    → length old / 2 ≤ n
    → IsSubset before old
    → Ends view
        (IsSafe text old active before)
        (view_of text active
          (length active / 2)
          (if active_nodes_equal old active then old else active))
        (apply_active_nodes_transition ops old active n (length active / 2) s)
transition-IsSafe text view ops old active before n s honest at enough inside =
    (transition-Run text view ops honest old active before n enough inside).from s at

-- ===== src/Valkey/Ping/Window.antt =====
-- What the last pings tell after a run of equal results.
use mathlib.Core.List.{append-nil, append_assoc}
use rdsync.Base.{
  ℕ, zero, suc, ltb, ◌+◌, ◌≤◌, Bool, true, false, List, [], ◌∷◌, ◌++◌, length, ◌≡◌, refl, sym, ◌∙◌,
  ap, arith, length-append, if◌then◌else◌,
}
use rdsync.Valkey.Ping.{tail_of, note_result, evaluate_ping, Memory, has_good, note_failure}

abbrev pub copies : ℕ → Bool → List Bool
copies zero b = []
copies (suc n) b = b ∷ copies n b

-- `n` results in a row.
abbrev pub note_results : ℕ → ℕ → Bool → List Bool → List Bool
note_results size zero b results = results
note_results size (suc n) b results = note_result size b (note_results size n b results)

copies-length : (n : ℕ) (b : Bool) → length (copies n b) ≡ n
copies-length zero b = refl
copies-length (suc n) b = omega (arith, copies-length n b)

copies-more : (n : ℕ) (b : Bool) → copies n b ++ b ∷ [] ≡ copies (suc n) b
copies-more zero b = refl
copies-more (suc n) b = ap (λ xs. b ∷ xs) (copies-more n b)

-- The results before the run that are still there, and the run.
abbrev Split : ℕ → ℕ → Bool → List Bool → Type 0
Split size n b w = (u : List Bool) × (w ≡ u ++ copies n b) × (length u + n ≤ size)

module _ (size n : ℕ) (b : Bool) (fits : suc n ≤ size) where
  longer : (u : List Bool) → (u ++ copies n b) ++ b ∷ [] ≡ u ++ copies (suc n) b
  longer u = append_assoc u (copies n b) (b ∷ []) ∙ ap (λ xs. u ++ xs) (copies-more n b)

  counted : (u : List Bool) → length (u ++ copies (suc n) b) ≡ length u + suc n
  counted u = length-append u (copies (suc n) b) ∙ ap (λ k. length u + suc k) (copies-length n b)

  chosen :
      (u : List Bool) (over : Bool)
      → over ≡ ltb size (length u + suc n)
      → length u + n ≤ size
      → Split size
          (suc n)
          b
          (if over then tail_of (u ++ copies (suc n) b) else (u ++ copies (suc n) b))
  chosen [] true e short = ground (arith, e, fits)
  chosen (x ∷ xs) true e short = (xs, refl, omega (arith, short))
  chosen u false e short = (u, refl, ground (arith, e))

  step : (w : List Bool) → Split size n b w → Split size (suc n) b (note_result size b w)
  unfolding note_result
  step w (u, e, short) =
      rw (e, longer u, counted u) (chosen u (ltb size (length u + suc n)) refl short)

run-Split :
    (size n : ℕ) (b : Bool) (w : List Bool)
    → n ≤ size
    → length w ≤ size
    → Split size n b (note_results size n b w)
run-Split size zero b w fits short = (w, sym (append-nil w), omega (arith, short))
run-Split size (suc n) b w fits short =
    step size n b fits _ (run-Split size n b w (omega (arith, fits)) short)

-- A run as long as the window leaves nothing else in it.
run-copies :
    (size : ℕ) (b : Bool) (w : List Bool)
    → length w ≤ size
    → note_results size size b w ≡ copies size b
run-copies size b w short = only (run-Split size size b w (omega arith) short)
  where
    only :
        Split size size b (note_results size size b w) → note_results size size b w ≡ copies size b
    only ([], e, fits) = e
    only (x ∷ xs, e, fits) = absurd (omega (arith, fits))

evaluate-copies : (n : ℕ) (b : Bool) → evaluate_ping (copies (suc n) b) ≡ (b, b)
unfolding evaluate_ping
evaluate-copies zero true = refl
evaluate-copies zero false = refl
evaluate-copies (suc n) true = rw (evaluate-copies n true) refl
evaluate-copies (suc n) false = rw (evaluate-copies n false) refl

-- For a PingStable of at least 1: after as many good answers in a row as it says, `EvaluatePing`
-- reports the server alive and stable, whatever was remembered before, of no more answers than that;
-- after as many failures in a row it reports neither.
pub ping_settles :
    (k : ℕ) (b : Bool) (w : List Bool)
    → length w ≤ suc k
    → evaluate_ping (note_results (suc k) (suc k) b w) ≡ (b, b)
ping_settles k b w short = ap evaluate_ping (run-copies (suc k) b w short) ∙ evaluate-copies k b

abbrev pub failures : ℕ → ℕ → Memory → Memory
failures size zero m = m
failures size (suc n) m = note_failure size (failures size n m)

failures-results :
    (size n : ℕ) (m : Memory)
    → (failures size n m).info_results ≡ note_results size n false m.info_results
unfolding note_failure
failures-results size zero m = refl
failures-results size (suc n) m = ap (note_result size false) (failures-results size n m)

copies_bad : (n : ℕ) → has_good (copies n false) ≡ false
unfolding has_good
copies_bad zero = refl
copies_bad (suc n) = copies_bad n

-- For a PingStable of at least 1: after as many failures in a row as it says, where no more results
-- were remembered before, `GetState` has no INFO of the server left to return.
pub failures_forget :
    (k : ℕ) (m : Memory)
    → length m.info_results ≤ suc k
    → (failures (suc k) (suc k) m).cached_info ≡ []
unfolding note_failure
failures_forget k m short = rw (no_good) refl
  where
    no_good : has_good (note_result (suc k) false (failures (suc k) k m).info_results) ≡ false
    no_good =
        ap (λ r. has_good (note_result (suc k) false r)) (failures-results (suc k) k m)
        ∙ ap has_good (run-copies (suc k) false m.info_results short)
        ∙ copies_bad (suc k)

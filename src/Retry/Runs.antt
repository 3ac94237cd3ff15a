-- ===== src/Retry/Runs.antt =====
-- WithRetry of retry.go, for any relation between the worlds that its steps respect.
use go_block_walk.Prelude.{ℕ, ◌≡◌, none, Option, subst, ap}
use go_block_walk.Errors.{GoError}
use go_block_walk.Retry.{Steps}
use go_block_walk.Retry.Attempts.{
  Failing, nil, cons, Last, limited, succeeded, refused, exhausted, cancelled, Run, run,
}

module _ {W : Type 0} (steps : Steps W) (R : W → W → Type 0) (R-refl : (w : W) → R w w)
    (R-trans : (w w' w'' : W) → R w w' → R w' w'' → R w w'')
    (limit : (w : W) → R w (steps.limit w).1) (call : (w : W) → R w (steps.call w).1)
    (sleep : (n : ℕ) (w : W) → R w (steps.sleep n w).1) where
  R-limit : {o : Option GoError} {w w' : W} → steps.limit w ≡ (o, w') → R w w'
  R-limit {o} {w} {w'} e = subst (R w) (ap (λ p. p.1) e) (limit w)

  R-call : {o : Option GoError} {w w' : W} → steps.call w ≡ (o, w') → R w w'
  R-call {o} {w} {w'} e = subst (R w) (ap (λ p. p.1) e) (call w)

  R-sleep : {o : Option GoError} {n : ℕ} {w w' : W} → steps.sleep n w ≡ (o, w') → R w w'
  R-sleep {o} {n} {w} {w'} e = subst (R w) (ap (λ p. p.1) e) (sleep n w)

  R-Failing : {n count : ℕ} {w w' : W} → Failing steps n count w w' → R w w'
  R-Failing {w = w} nil = R-refl w
  R-Failing (cons e l c r s rest) =
      R-trans _ _ _ (R-limit l)
        (R-trans _ _ _ (R-call c) (R-trans _ _ _ (R-sleep s) (R-Failing rest)))

  R-Last : {n left : ℕ} {w : W} {p : Option GoError × W} → Last steps n left w p → R w p.1
  R-Last (limited e l) = R-limit l
  R-Last (succeeded l c) = R-trans _ _ _ (R-limit l) (R-call c)
  R-Last (refused e l c r) = R-trans _ _ _ (R-limit l) (R-call c)
  R-Last (exhausted e l c r) = R-trans _ _ _ (R-limit l) (R-call c)
  R-Last (cancelled e x l c r s) = R-trans _ _ _ (R-limit l) (R-trans _ _ _ (R-call c) (R-sleep s))

  pub Run-relates : {n left : ℕ} {w : W} {p : Option GoError × W} → Run steps n left w p → R w p.1
  Run-relates (run count rest w' sum failing last) = R-trans _ _ _ (R-Failing failing) (R-Last last)

  -- A run without an error ends with a call without one.
  abbrev pub Succeeds : W → Option GoError × W → Type 0
  Succeeds w p = (w' : W) × R w w' × (steps.call w' ≡ (none, p.1))

  Last-Succeeds :
      {n left : ℕ} {w : W} {p : Option GoError × W}
      → Last steps n left w p
      → p.0 ≡ none
      → Succeeds w p
  Last-Succeeds (limited e l) no_error = absurd (cc)
  Last-Succeeds (succeeded {w₁ = w₁} l c) no_error = (w₁, R-limit l, c)
  Last-Succeeds (refused e l c r) no_error = absurd (cc)
  Last-Succeeds (exhausted e l c r) no_error = absurd (cc)
  Last-Succeeds (cancelled e x l c r s) no_error = absurd (cc)

  pub Run-Succeeds :
      {n left : ℕ} {w : W} {p : Option GoError × W}
      → Run steps n left w p
      → p.0 ≡ none
      → Succeeds w p
  Run-Succeeds (run count rest w' sum failing last) no_error =
      let (w'', r, c) = Last-Succeeds last no_error in (w'', R-trans _ _ _ (R-Failing failing) r, c)

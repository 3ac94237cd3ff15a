-- ===== src/Indexer/Works.antt =====
-- Actions of indexer.go that do not fail: rules for them.
use go_block_walk.Prelude.{◌≡◌, refl, List, Text, Bool, true, false, if◌then◌else◌}
use go_block_walk.Errors.{Result, ok, err}
use go_block_walk.Hashes.{HashWindow}
use go_block_walk.Exhaustion.{ExhaustionTracker}
use go_block_walk.Ports.{Call}
use go_block_walk.Indexer.Ends.{Ended, Halts}
use go_block_walk.Indexer.Actions.{
  Indexer, Outcome, done, failed, spinning, Exec, pure, fail, spin, gets, ask, must, attempt,
  caught, prefixed, relabelled, set_window, set_exhaustion, continue, ◌>>=◌,
}

abbrev pub IsOk : {A : Type 0} → Result A → Type 0
IsOk (ok a) = Unit
IsOk (err e) = ⊥

abbrev pub Worked : {A : Type 0} → Type 0 → (A → Type 0) → Outcome A → Type 0
Worked S Q (done a) = Q a
Worked S Q (failed e) = ⊥
Worked S Q spinning = S

-- From any state the action succeeds with a value in `Q`, or is still at work, if `S` allows for that.
pub record Works {F A : Type 0} (S : Type 0) (m : Exec F A) (Q : A → Type 0) : Type 0 where
  pub at : (s : Indexer F) → Worked S Q (m s).0

abbrev pub Unfailing : {F A : Type 0} → Type 0 → Exec F A → Type 0
Unfailing S m = Works S m (λ _. Unit)

module _ {A : Type 0} (S : Type 0) where
  Worked-caught : (r : Outcome A) → Worked S (λ _. Unit) r → Worked S IsOk (caught r)
  Worked-caught (done a) h = tt
  Worked-caught (failed e) h = h
  Worked-caught spinning h = h

  Worked-relabelled :
      (Q : A → Type 0) (prefix : Text) (r : Outcome A)
      → Worked S Q r
      → Worked S Q (relabelled prefix r)
  Worked-relabelled Q prefix (done a) h = h
  Worked-relabelled Q prefix (failed e) h = h
  Worked-relabelled Q prefix spinning h = h

module _ {S F A : Type 0} where
  pub Works-pure : (Q : A → Type 0) (a : A) → Q a → Works {F = F} S (pure a) Q
  unfolding pure
  Works-pure Q a q = record { at = λ s. q }

  pub Works-spin : (Q : A → Type 0) → S → Works {F = F} {A = A} S spin Q
  unfolding spin
  Works-spin Q h = record { at = λ s. h }

  pub Works-ask :
      (Q : A → Type 0) (f : List (Call F) → A) (c : A → Call F)
      → ((t : List (Call F)) → Q (f t))
      → Works S (ask f c) Q
  unfolding ask
  Works-ask Q f c q = record { at = λ s. q s.calls }

  pub Unfailing-gets : (f : Indexer F → A) → Unfailing S (gets f)
  unfolding gets
  Unfailing-gets f = record { at = λ s. tt }

  pub Unfailing-must : (prefix : Text) (r : Result A) → IsOk r → Unfailing {F = F} S (must prefix r)
  unfolding must pure fail
  Unfailing-must prefix (ok a) h = record { at = λ s. tt }
  Unfailing-must prefix (err e) h = absurd h

  pub Works-must :
      (Q : A → Type 0) (prefix : Text) (r : Result A)
      → IsOk r
      → ((a : A) → r ≡ ok a → Q a)
      → Works {F = F} S (must prefix r) Q
  unfolding must pure fail
  Works-must Q prefix (ok a) h q = record { at = λ s. q a refl }
  Works-must Q prefix (err e) h q = absurd h

  pub Works-if :
      (Q : A → Type 0) (b : Bool) (m n : Exec F A)
      → (b ≡ true → Works S m Q)
      → (b ≡ false → Works S n Q)
      → Works S (if b then m else n) Q
  Works-if Q true m n em en = em refl
  Works-if Q false m n em en = en refl

  pub Works-attempt : (m : Exec F A) → Unfailing S m → Works S (attempt m) IsOk
  unfolding attempt
  Works-attempt m h = record { at = λ s. Worked-caught S (m s).0 (h.at s) }

  pub Works-prefixed :
      (Q : A → Type 0) (prefix : Text) (m : Exec F A) → Works S m Q → Works S (prefixed prefix m) Q
  unfolding prefixed
  Works-prefixed Q prefix m h = record { at = λ s. Worked-relabelled S Q prefix (m s).0 (h.at s) }

pub Unfailing-set_window : {S F : Type 0} (w : HashWindow) → Unfailing {F = F} S (set_window w)
unfolding set_window
Unfailing-set_window w = record { at = λ s. tt }

pub Unfailing-set_exhaustion :
    {S F : Type 0} (x : ExhaustionTracker) → Unfailing {F = F} S (set_exhaustion x)
unfolding set_exhaustion
Unfailing-set_exhaustion x = record { at = λ s. tt }

module _ {S F A B : Type 0} where
  Worked-continue :
      (Q : A → Type 0) (R : B → Type 0) (r : Outcome A) (f : A → Exec F B) (s : Indexer F)
      → Worked S Q r
      → ((a : A) → Q a → Works S (f a) R)
      → Worked S R (continue r f s).0
  Worked-continue Q R (done a) f s q k = (k a q).at s
  Worked-continue Q R (failed e) f s q k = q
  Worked-continue Q R spinning f s q k = q

  pub Works-bind :
      (Q : A → Type 0) (R : B → Type 0) (m : Exec F A) (f : A → Exec F B)
      → Works S m Q
      → ((a : A) → Q a → Works S (f a) R)
      → Works S (m >>= f) R
  unfolding ◌>>=◌
  Works-bind Q R m f em ef = record { at = λ s. Worked-continue Q R (m s).0 f (m s).1 (em.at s) ef }

  -- What follows an action whose value does not matter.
  pub Works-then :
      (R : B → Type 0) (m : Exec F A) (f : A → Exec F B)
      → Unfailing S m
      → ((a : A) → Works S (f a) R)
      → Works S (m >>= f) R
  Works-then R m f em ef = Works-bind (λ _. Unit) R m f em (λ a _. ef a)

module _ {A : Type 0} where
  Worked-Ended :
      (Q : A → Type 0) (r : Outcome A) → Worked Unit Q r → Ended (λ _. Unit) r → Worked ⊥ Q r
  Worked-Ended Q (done a) w e = w
  Worked-Ended Q (failed x) w e = w
  Worked-Ended Q spinning w e = e

Worked-done : (r : Outcome (Unit {0})) → Worked ⊥ (λ _. Unit) r → r ≡ done tt
Worked-done (done tt) w = refl
Worked-done (failed e) w = absurd w
Worked-done spinning w = absurd w

module _ {F : Type 0} where
  -- What neither fails nor goes on for ever succeeds.
  pub Unfailing-Halts : (m : Exec F (Unit {0})) → Unfailing Unit m → Halts m → Unfailing ⊥ m
  Unfailing-Halts m w h = record { at = λ s. Worked-Ended (λ _. Unit) (m s).0 (w.at s) (h.at s) }

  pub Unfailing-done : (m : Exec F (Unit {0})) (s : Indexer F) → Unfailing ⊥ m → (m s).0 ≡ done tt
  Unfailing-done m s w = Worked-done (m s).0 (w.at s)

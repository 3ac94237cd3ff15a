-- ===== src/Indexer/Sound.antt =====
-- Actions that may store positions: whatever their outcome, each position stored is justified.
use go_block_walk.Prelude.{ℕ, ◌≡◌, refl, subst, List, ◌∷◌, Text, Bool, true, false, if◌then◌else◌}
use go_block_walk.Errors.{GoError, Result, ok, err}
use go_block_walk.Ports.{Call}
use go_block_walk.Indexer.Actions.{
  Indexer, Outcome, done, failed, spinning, Exec, pure, fail, spin, continue, ◌>>=◌, relabelled,
  ask, gets, must, prefixed,
}
use go_block_walk.Indexer.Quiet.{Quiet}
use go_block_walk.Indexer.Post.{Post, OnDone}
use go_block_walk.Indexer.Handled.{AfterRound, Covered, Justified, Grows-Justified}

abbrev pub OnAny :
    {F A : Type 0} → ℕ → (A → List (Call F) → Type 0) → Outcome A → List (Call F) → Type 0
OnAny lo Q (done a) t = Q a t
OnAny lo Q (failed e) t = Justified lo t
OnAny lo Q spinning t = Justified lo t

-- Run from `s`, the action succeeds and leaves `Q`, or leaves justified positions.
pub record Sound {F A : Type 0} (lo : ℕ) (m : Exec F A) (s : Indexer F)
    (Q : A → List (Call F) → Type 0) : Type 0 where
  pub at : OnAny lo Q (m s).0 (m s).1.calls

module _ {F A : Type 0} (lo : ℕ) (Q : A → List (Call F) → Type 0) where
  pub Sound-pure : (a : A) (s : Indexer F) → Q a s.calls → Sound lo (pure a) s Q
  unfolding pure
  Sound-pure a s q = record { at = q }

  pub Sound-fail : (e : GoError) (s : Indexer F) → Justified lo s.calls → Sound lo (fail e) s Q
  unfolding fail
  Sound-fail e s j = record { at = j }

  pub Sound-spin : (s : Indexer F) → Justified lo s.calls → Sound lo spin s Q
  unfolding spin
  Sound-spin s j = record { at = j }

  pub Sound-if :
      (b : Bool) (m n : Exec F A) (s : Indexer F)
      → (b ≡ true → Sound lo m s Q)
      → (b ≡ false → Sound lo n s Q)
      → Sound lo (if b then m else n) s Q
  Sound-if true m n s pm pn = pm refl
  Sound-if false m n s pm pn = pn refl

  OnAny-of_OnDone :
      (r : Outcome A) (t : List (Call F))
      → OnDone Q r t
      → Justified lo t
      → OnAny lo (λ a t. Q a t × Justified lo t) r t
  OnAny-of_OnDone (done a) t q j = (q, j)
  OnAny-of_OnDone (failed e) t q j = j
  OnAny-of_OnDone spinning t q j = j

  -- A quiet action is sound with its postcondition.
  pub Sound-Quiet :
      (m : Exec F A) (s : Indexer F)
      → Quiet m
      → Justified lo s.calls
      → Post m s Q
      → Sound lo m s (λ a t. Q a t × Justified lo t)
  Sound-Quiet m s qm j p = record {
    at = OnAny-of_OnDone (m s).0 (m s).1.calls p.at (qm.at (Justified lo) (Grows-Justified lo) s j);
  }

module _ {F : Type 0} (lo : ℕ) where
  OnAny-of_AfterRound :
      (next : ℕ) (r : Outcome (Unit {0})) (t : List (Call F))
      → AfterRound lo next r t
      → OnAny lo (λ _ t. Covered lo next t) r t
  OnAny-of_AfterRound next (done _) t a = a
  OnAny-of_AfterRound next (failed e) t a = a
  OnAny-of_AfterRound next spinning t a = a

  pub Sound_of_AfterRound :
      (next : ℕ) (m : Exec F (Unit {0})) (s : Indexer F)
      → AfterRound lo next (m s).0 (m s).1.calls
      → Sound lo m s (λ _ t. Covered lo next t)
  Sound_of_AfterRound next m s a = record { at = OnAny-of_AfterRound next (m s).0 (m s).1.calls a }

  OnAny-Justified :
      (hi : ℕ) (r : Outcome (Unit {0})) (t : List (Call F))
      → OnAny lo (λ _. Covered lo hi) r t
      → Justified lo t
  OnAny-Justified hi (done _) t c = c.justified
  OnAny-Justified hi (failed e) t j = j
  OnAny-Justified hi spinning t j = j

  pub Sound-Justified :
      {hi : ℕ} (m : Exec F (Unit {0})) (s : Indexer F)
      → Sound lo m s (λ _. Covered lo hi)
      → Justified lo (m s).1.calls
  Sound-Justified {hi} m s p = OnAny-Justified hi (m s).0 (m s).1.calls p.at

  pub Sound-done :
      {hi : ℕ} (m : Exec F (Unit {0})) (s : Indexer F)
      → (m s).0 ≡ done tt
      → Sound lo m s (λ _. Covered lo hi)
      → Covered lo hi (m s).1.calls
  Sound-done {hi} m s d p = subst (λ r. OnAny lo (λ _. Covered lo hi) r (m s).1.calls) d p.at

module _ {F A B : Type 0} (lo : ℕ) where
  Sound-continue :
      (Q : A → List (Call F) → Type 0) (R : B → List (Call F) → Type 0) (r : Outcome A)
      (f : A → Exec F B) (s : Indexer F)
      → OnAny lo Q r s.calls
      → ((a : A) (s' : Indexer F) → Q a s'.calls → Sound lo (f a) s' R)
      → OnAny lo R (continue r f s).0 (continue r f s).1.calls
  Sound-continue Q R (done a) f s q k = (k a s q).at
  Sound-continue Q R (failed e) f s q k = q
  Sound-continue Q R spinning f s q k = q

  pub Sound-bind :
      (Q : A → List (Call F) → Type 0) (R : B → List (Call F) → Type 0) (m : Exec F A)
      (f : A → Exec F B) (s : Indexer F)
      → Sound lo m s Q
      → ((a : A) (s' : Indexer F) → Q a s'.calls → Sound lo (f a) s' R)
      → Sound lo (m >>= f) s R
  unfolding ◌>>=◌
  Sound-bind Q R m f s p k = record { at = Sound-continue Q R (m s).0 f (m s).1 p.at k }

module _ {F A : Type 0} (lo : ℕ) (Q : A → List (Call F) → Type 0) where
  pub Sound-ask :
      (f : List (Call F) → A) (c : A → Call F) (s : Indexer F)
      → ((a : A) → f s.calls ≡ a → Q a (c a ∷ s.calls))
      → Sound lo (ask f c) s Q
  unfolding ask
  Sound-ask f c s q = record { at = q (f s.calls) refl }

  pub Sound-gets : (f : Indexer F → A) (s : Indexer F) → Q (f s) s.calls → Sound lo (gets f) s Q
  unfolding gets
  Sound-gets f s q = record { at = q }

  pub Sound-must :
      (prefix : Text) (r : Result A) (s : Indexer F)
      → Justified lo s.calls
      → ((a : A) → r ≡ ok a → Q a s.calls)
      → Sound lo (must prefix r) s Q
  unfolding must pure fail
  Sound-must prefix (ok a) s j q = record { at = q a refl }
  Sound-must prefix (err e) s j q = record { at = j }

  OnAny-relabelled :
      (prefix : Text) (r : Outcome A) (t : List (Call F))
      → OnAny lo Q r t
      → OnAny lo Q (relabelled prefix r) t
  OnAny-relabelled prefix (done a) t q = q
  OnAny-relabelled prefix (failed e) t q = q
  OnAny-relabelled prefix spinning t q = q

  pub Sound-prefixed :
      (prefix : Text) (m : Exec F A) (s : Indexer F)
      → Sound lo m s Q
      → Sound lo (prefixed prefix m) s Q
  unfolding prefixed
  Sound-prefixed prefix m s p = record { at = OnAny-relabelled prefix (m s).0 (m s).1.calls p.at }

  OnAny-mono :
      (R : A → List (Call F) → Type 0) (r : Outcome A) (t : List (Call F))
      → ((a : A) (t : List (Call F)) → Q a t → R a t)
      → OnAny lo Q r t
      → OnAny lo R r t
  OnAny-mono R (done a) t f q = f a t q
  OnAny-mono R (failed e) t f q = q
  OnAny-mono R spinning t f q = q

  pub Sound-mono :
      (R : A → List (Call F) → Type 0) (m : Exec F A) (s : Indexer F)
      → ((a : A) (t : List (Call F)) → Q a t → R a t)
      → Sound lo m s Q
      → Sound lo m s R
  Sound-mono R m s f p = record { at = OnAny-mono R (m s).0 (m s).1.calls f p.at }

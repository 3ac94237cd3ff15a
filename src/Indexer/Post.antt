-- ===== src/Indexer/Post.antt =====
-- What holds of the calls once an action has succeeded, and rules for it.
use go_block_walk.Prelude.{◌≡◌, List, ◌∷◌, Text, Bool, true, false, if◌then◌else◌, refl}
use go_block_walk.Errors.{GoError, Result, ok, err}
use go_block_walk.Ports.{Call}
use go_block_walk.Indexer.Actions.{
  Indexer, Outcome, done, failed, spinning, Exec, pure, fail, ask, must, continue, ◌>>=◌,
}
use go_block_walk.Indexer.Quiet.{Grows, Quiet}

abbrev pub OnDone :
    {F A : Type 0} → (A → List (Call F) → Type 0) → Outcome A → List (Call F) → Type 0
OnDone Q (done a) t = Q a t
OnDone Q (failed e) t = Unit
OnDone Q spinning t = Unit

-- Run from `s`, the action either does not succeed or leaves `Q`.
pub record Post {F A : Type 0} (m : Exec F A) (s : Indexer F) (Q : A → List (Call F) → Type 0)
    : Type 0 where
  pub at : OnDone Q (m s).0 (m s).1.calls

module _ {F A : Type 0} where
  pub Post-pure :
      (Q : A → List (Call F) → Type 0) (a : A) (s : Indexer F) → Q a s.calls → Post (pure a) s Q
  unfolding pure
  Post-pure Q a s q = record { at = q }

  pub Post-fail : (Q : A → List (Call F) → Type 0) (e : GoError) (s : Indexer F) → Post (fail e) s Q
  unfolding fail
  Post-fail Q e s = record { at = tt }

  pub Post-ask :
      (Q : A → List (Call F) → Type 0) (f : List (Call F) → A) (c : A → Call F) (s : Indexer F)
      → ((a : A) → Q a (c a ∷ s.calls))
      → Post (ask f c) s Q
  unfolding ask
  Post-ask Q f c s q = record { at = q (f s.calls) }

  pub Post-must :
      (Q : A → List (Call F) → Type 0) (prefix : Text) (r : Result A) (s : Indexer F)
      → ((a : A) → r ≡ ok a → Q a s.calls)
      → Post (must prefix r) s Q
  unfolding must pure fail
  Post-must Q prefix (ok a) s q = record { at = q a refl }
  Post-must Q prefix (err e) s q = record { at = tt }

  pub Post-if :
      (Q : A → List (Call F) → Type 0) (b : Bool) (m n : Exec F A) (s : Indexer F)
      → (b ≡ true → Post m s Q)
      → (b ≡ false → Post n s Q)
      → Post (if b then m else n) s Q
  Post-if Q true m n s pm pn = pm refl
  Post-if Q false m n s pm pn = pn refl

  OnDone-mono :
      (Q R : A → List (Call F) → Type 0) (r : Outcome A) (t : List (Call F))
      → ((a : A) → Q a t → R a t)
      → OnDone Q r t
      → OnDone R r t
  OnDone-mono Q R (done a) t f q = f a q
  OnDone-mono Q R (failed e) t f q = tt
  OnDone-mono Q R spinning t f q = tt

  pub Post-mono :
      (Q R : A → List (Call F) → Type 0) (m : Exec F A) (s : Indexer F)
      → ((a : A) (t : List (Call F)) → Q a t → R a t)
      → Post m s Q
      → Post m s R
  Post-mono Q R m s f p = record { at = OnDone-mono Q R (m s).0 (m s).1.calls (λ a. f a _) p.at }

  OnDone-pure :
      (Q : List (Call F) → Type 0) (r : Outcome A) (t : List (Call F)) → Q t → OnDone (λ _. Q) r t
  OnDone-pure Q (done a) t q = q
  OnDone-pure Q (failed e) t q = tt
  OnDone-pure Q spinning t q = tt

  -- A quiet action keeps what grows with the calls.
  pub Post-quiet :
      (Q : List (Call F) → Type 0) (m : Exec F A) (s : Indexer F)
      → Grows Q
      → Quiet m
      → Q s.calls
      → Post m s (λ _. Q)
  Post-quiet Q m s g qm q = record { at = OnDone-pure Q (m s).0 (m s).1.calls (qm.at Q g s q) }

  OnDone-and :
      (Q R : A → List (Call F) → Type 0) (r : Outcome A) (t : List (Call F))
      → OnDone Q r t
      → OnDone R r t
      → OnDone (λ a t. Q a t × R a t) r t
  OnDone-and Q R (done a) t q q' = (q, q')
  OnDone-and Q R (failed e) t q q' = tt
  OnDone-and Q R spinning t q q' = tt

  pub Post-and :
      (Q R : A → List (Call F) → Type 0) (m : Exec F A) (s : Indexer F)
      → Post m s Q
      → Post m s R
      → Post m s (λ a t. Q a t × R a t)
  Post-and Q R m s p p' = record { at = OnDone-and Q R (m s).0 (m s).1.calls p.at p'.at }

module _ {F A B : Type 0} where
  Post-continue :
      (Q : A → List (Call F) → Type 0) (R : B → List (Call F) → Type 0) (r : Outcome A)
      (f : A → Exec F B) (s : Indexer F)
      → OnDone Q r s.calls
      → ((a : A) (s' : Indexer F) → Q a s'.calls → Post (f a) s' R)
      → OnDone R (continue r f s).0 (continue r f s).1.calls
  Post-continue Q R (done a) f s q k = (k a s q).at
  Post-continue Q R (failed e) f s q k = tt
  Post-continue Q R spinning f s q k = tt

  pub Post-bind :
      (Q : A → List (Call F) → Type 0) (R : B → List (Call F) → Type 0) (m : Exec F A)
      (f : A → Exec F B) (s : Indexer F)
      → Post m s Q
      → ((a : A) (s' : Indexer F) → Q a s'.calls → Post (f a) s' R)
      → Post (m >>= f) s R
  unfolding ◌>>=◌
  Post-bind Q R m f s p k = record { at = Post-continue Q R (m s).0 f (m s).1 p.at k }

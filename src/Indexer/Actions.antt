-- ===== src/Indexer/Actions.antt =====
-- Actions on the state of an Indexer. A failed action keeps the state that it left.
use go_block_walk.Prelude.{List, ◌∷◌, Text}
use go_block_walk.Errors.{GoError, wrap, Result, ok, err}
use go_block_walk.Ports.{Call}
use go_block_walk.Hashes.{HashWindow}
use go_block_walk.Exhaustion.{ExhaustionTracker}

-- The fields of `Indexer` that a sync changes, and the calls made since the sync began.
pub record Indexer (F : Type 0) : Type 0 where
  pub calls : List (Call F)
  pub window : HashWindow
  pub exhaustion : ExhaustionTracker

-- `spinning`: a loop has not come to its end within the rounds that it was given.
pub data Outcome (A : Type 0) : Type 0 where
  done : A → Outcome A
  failed : GoError → Outcome A
  spinning : Outcome A

abbrev pub Exec : Type 0 → Type 0 → Type 0
Exec F A = Indexer F → Outcome A × Indexer F

abbrev pub caught : {A : Type 0} → Outcome A → Outcome (Result A)
caught (done a) = done (ok a)
caught (failed e) = done (err e)
caught spinning = spinning

abbrev pub relabelled : {A : Type 0} → Text → Outcome A → Outcome A
relabelled prefix (done a) = done a
relabelled prefix (failed e) = failed (wrap prefix e)
relabelled prefix spinning = spinning

module _ {F A : Type 0} where
  unfoldable pub pure : A → Exec F A
  pure a s = (done a, s)

  unfoldable pub fail : GoError → Exec F A
  fail e s = (failed e, s)

  unfoldable pub spin : Exec F A
  spin s = (spinning, s)

  unfoldable pub gets : (Indexer F → A) → Exec F A
  gets f s = (done (f s), s)

  -- One call of an interface.
  unfoldable pub ask : (List (Call F) → A) → (A → Call F) → Exec F A
  ask response call s = let a = response s.calls in (done a, record s { calls = call a ∷ s.calls })

  -- if err != nil { return fmt.Errorf("<prefix>%w", err) }
  unfoldable pub must : Text → Result A → Exec F A
  must prefix (ok a) = pure a
  must prefix (err e) = fail (wrap prefix e)

  -- The same of an action: its error gets the prefix.
  unfoldable pub prefixed : Text → Exec F A → Exec F A
  prefixed prefix m s = let (r, s') = m s in (relabelled prefix r, s')

  -- The error of an action as a value.
  unfoldable pub attempt : Exec F A → Exec F (Result A)
  attempt m s = let (r, s') = m s in (caught r, s')

unfoldable pub set_window : {F : Type 0} → HashWindow → Exec F (Unit {0})
set_window w s = (done tt, record s { window = w })

unfoldable pub set_exhaustion : {F : Type 0} → ExhaustionTracker → Exec F (Unit {0})
set_exhaustion t s = (done tt, record s { exhaustion = t })

module _ {F A B : Type 0} where
  abbrev pub continue : Outcome A → (A → Exec F B) → Exec F B
  continue (done a) f s = f a s
  continue (failed e) f s = (failed e, s)
  continue spinning f s = (spinning, s)

  infixl 5 ◌>>=◌ ◌>>◌
  -- To open this is to open the actions above.
  unfoldable pub ◌>>=◌ : Exec F A → (A → Exec F B) → Exec F B
  unfolding pure fail spin gets ask must prefixed attempt set_window set_exhaustion
  ◌>>=◌ m f s = let (r, s') = m s in continue r f s'

  abbrev pub ◌>>◌ : Exec F A → Exec F B → Exec F B
  m >> n = m >>= λ _. n

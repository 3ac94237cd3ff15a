-- ===== src/Dispatcher.antt =====
-- dispatcher.go: EventDispatcher. A listener acts on a world of its own choosing, `W`, which the
-- dispatcher only passes along.
mod Tests
use go_block_walk.Prelude.{
  ℕ, ◌≡◌, ◌↔◌, inl, inr, List, [], ◌∷◌, ◌++◌, refl, Text, Option, none, some, arith, subst, ap,
  append-nil,
}
use go_block_walk.Errors.{GoError, Result, ok, err, Result-cases}

-- A `types.Log`: the program reads its block number; `content` is the rest, handed on unread.
pub record Log : Type 0 where
  pub block_number : ℕ
  pub content : Text

abbrev pub Listener : Type 0 → Type 0
Listener W = Log → ℕ → W → Result (Unit {0}) × W

pub record EventDispatcher (W : Type 0) : Type 0 where
  pub listeners : List (Listener W)

module _ {W : Type 0} where
  -- A nil slice and an empty one are the same list here.
  unfoldable pub new_event_dispatcher : Option (List (Listener W)) → EventDispatcher W
  new_event_dispatcher none = record { listeners = [] }
  new_event_dispatcher (some listeners) = record { listeners = listeners }

  -- for _, listener := range d.listeners { if err := …; err != nil { return err } }
  handle_all : List (Listener W) → Log → ℕ → W → Result (Unit {0}) × W
  handle_all [] log time w = (ok tt, w)
  handle_all (listener ∷ rest) log time w =
      let (r, w') = listener log time w in
      elim r [ ok _ ↦ handle_all rest log time w' | err e ↦ (err e, w') ]

  unfoldable pub dispatch : EventDispatcher W → Log → ℕ → W → Result (Unit {0}) × W
  unfolding handle_all
  dispatch d log time w = handle_all d.listeners log time w

  -- The listeners of `before`, one after the other, each of which accepts the log.
  pub data Accepts (log : Log) (time : ℕ) : List (Listener W) → W → W → Type 0 where
    nil : {w : W} → Accepts log time [] w w
    cons :
        {l : Listener W} {ls : List (Listener W)} {w w' w'' : W}
        → l log time w ≡ (ok tt, w')
        → Accepts log time ls w' w''
        → Accepts log time (l ∷ ls) w w''

  handle_all-Accepts :
      {log : Log} {time : ℕ} {ls : List (Listener W)} {w w' : W} (rest : List (Listener W))
      → Accepts log time ls w w'
      → handle_all (ls ++ rest) log time w ≡ handle_all rest log time w'
  unfolding handle_all
  handle_all-Accepts rest nil = refl
  handle_all-Accepts {log} {time} rest (cons e a) = ground (arith, e, handle_all-Accepts rest a)

  -- Listeners are called in order: if those before one accept the log and that one fails, dispatch
  -- returns its error, in the world that it left, and the listeners after it are not called.
  pub dispatch_stops :
      (log : Log) (time : ℕ) (before after : List (Listener W)) (l : Listener W) (e : GoError)
      (w w' w'' : W)
      → Accepts log time before w w'
      → l log time w' ≡ (err e, w'')
      → dispatch (record { listeners = before ++ l ∷ after }) log time w ≡ (err e, w'')
  unfolding dispatch
  dispatch_stops log time before after l e w w' w'' a h =
      ground (arith, handle_all-Accepts (l ∷ after) a)

  Accepts-of_ok :
      (log : Log) (time : ℕ) (ls : List (Listener W)) (w w' : W)
      → handle_all ls log time w ≡ (ok tt, w')
      → Accepts log time ls w w'
  unfolding handle_all
  Accepts-of_ok log time [] w w' h = subst (Accepts log time [] w) (ap (λ p. p.1) h) nil
  Accepts-of_ok log time (l ∷ ls) w w' h = elim (Result-cases (l log time w).0) [
    | inl (u, e) ↦
        cons (λ i. (e i, (l log time w).1))
          (Accepts-of_ok log time ls (l log time w).1 w' (ground (arith, e)))
    | inr (x, e) ↦ absurd (ground (arith, e))
  ]

  -- Dispatch returns no error exactly when every listener, in order, accepts the log.
  pub dispatch-ok_iff :
      (log : Log) (time : ℕ) (ls : List (Listener W)) (w w' : W)
      → (dispatch (record { listeners = ls }) log time w ≡ (ok tt, w')) ↔ Accepts log time ls w w'
  unfolding dispatch
  dispatch-ok_iff log time ls w w' =
      (Accepts-of_ok log time ls w w', λ a. ground (arith, handle_all-Accepts [] a, append-nil ls))

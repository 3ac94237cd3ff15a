-- ===== src/Lifecycle.antt =====
-- indexer.go: Start, Stop and IsRunning, called one after the other. The state has the fields that
-- they use, whether `stopOnce` has run, the sync loops that are running, and how often the
-- dispatcher and the pool were closed. Stop cancels the loop's context and waits for it.
pub mod Loop
mod Tests
use go_block_walk.Prelude.{
  ℕ, suc, ◌+◌, ◌≤◌, ◌≡◌, ◌↔◌, refl, ap, Bool, true, false, Option, none, some, List, [], ◌∷◌, arith,
  if◌then◌else◌,
}
use go_block_walk.Errors.{GoError, sentinel, indexer_stopped, already_running}

pub record Lifecycle : Type 0 where
  pub running : Bool
  pub stopped : Bool
  pub stop_done : Bool
  pub loops : ℕ
  pub closings : ℕ

unfoldable pub new_lifecycle : Lifecycle
new_lifecycle = record {
  running = false;
  stopped = false;
  stop_done = false;
  loops = 0;
  closings = 0;
}

unfoldable pub start : Lifecycle → Option GoError × Lifecycle
start s =
    if s.stopped
    then (some (sentinel indexer_stopped), s)
    else if s.running
    then (some (sentinel already_running), s)
    else (none, record s { running = true; loops = suc s.loops })

unfoldable pub stop : Lifecycle → Lifecycle
stop s = if s.stop_done then s else record {
  running = false;
  stopped = true;
  stop_done = true;
  loops = 0;
  closings = suc s.closings;
}

unfoldable pub is_running : Lifecycle → Bool
is_running s = s.running

pub data Op : Type 0 where
  starts stops : Op

-- After the given calls, the newest first.
abbrev pub after : List Op → Lifecycle
after [] = new_lifecycle
after (starts ∷ earlier) = (start (after earlier)).1
after (stops ∷ earlier) = stop (after earlier)

abbrev pub was_stopped : List Op → Bool
was_stopped [] = false
was_stopped (starts ∷ earlier) = was_stopped earlier
was_stopped (stops ∷ earlier) = true

abbrev was_started : List Op → Bool
was_started [] = false
was_started (_ ∷ earlier) = true

abbrev tally : Bool → ℕ
tally true = 1
tally false = 0

-- The state after any calls.
abbrev expected : List Op → Lifecycle
expected ops =
    if was_stopped ops
    then record { running = false; stopped = true; stop_done = true; loops = 0; closings = 1 }
    else record {
      running = was_started ops;
      stopped = false;
      stop_done = false;
      loops = tally (was_started ops);
      closings = 0;
    }

after-expected : (ops : List Op) → after ops ≡ expected ops
unfolding start stop new_lifecycle
after-expected [] = refl
after-expected (starts ∷ []) = refl
after-expected (stops ∷ []) = refl
after-expected (starts ∷ op ∷ earlier) = ground (arith, after-expected (op ∷ earlier))
after-expected (stops ∷ op ∷ earlier) = ground (arith, after-expected (op ∷ earlier))

-- An Indexer is one-shot: after any calls of Start and Stop, a Start succeeds exactly if there were
-- none; at most one sync loop runs, and none once Stop was called; the pool and the dispatcher have
-- been closed once if Stop was called and never otherwise.
pub start_once :
    (ops : List Op)
    → (((start (after ops)).0 ≡ none) ↔ (ops ≡ []))
      × ((after ops).loops ≤ 1)
      × (was_stopped ops ≡ true → (after ops).loops ≡ 0)
      × ((after ops).closings ≡ tally (was_stopped ops))
unfolding start stop new_lifecycle
start_once [] = ground (arith, after-expected [])
start_once (op ∷ earlier) = rw (after-expected (op ∷ earlier)) (ground arith)

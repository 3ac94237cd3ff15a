-- ===== src/Lifecycle/Loop.antt =====
-- indexer.go: Start, Stop and syncLoop as steps that interleave. Start and the part of Stop under
-- the lock are one step each; a select takes any case that is ready, and a tick may be ready at any
-- time. Only the first call of Stop runs the body of `stopOnce`.
pub mod Stopping
mod Tests
use go_block_walk.Prelude.{
  ℕ, zero, suc, ◌+◌, ◌≤◌, ◌≡◌, ◌≢◌, refl, sym, Bool, true, false, List, [], ◌∷◌, arith, ◌⊎◌, inl,
  inr,
}

-- Where Stop stands: before its call, in `wg.Wait()`, before the lock, before the closing, at its
-- end.
pub data StopAt : Type 0 where
  not_called waits locks closes returned : StopAt

-- The sync loop: not launched, at its select, in syncBlocks, or returned.
pub data LoopAt : Type 0 where
  not_launched selecting syncing ended : LoopAt

-- `launched` counts the loops that Start launched, and `late` says that one was launched by a Start
-- between Stop's wait and its lock.
pub record Service : Type 0 where
  pub is_running : Bool
  pub stopped : Bool
  pub cancelled : Bool
  pub closed : Bool
  pub stop_at : StopAt
  pub loop : LoopAt
  pub launched : ℕ
  pub late : Bool

abbrev pub new_service : Service
new_service = record {
  is_running = false;
  stopped = false;
  cancelled = false;
  closed = false;
  stop_at = not_called;
  loop = not_launched;
  launched = 0;
  late = false;
}

-- Stop has passed its wait, and has not taken the lock.
abbrev pub is_late : StopAt → Bool
is_late not_called = false
is_late waits = false
is_late locks = true
is_late closes = false
is_late returned = false

-- The wait group's counter is 0.
abbrev pub is_idle : LoopAt → Bool
is_idle not_launched = true
is_idle selecting = false
is_idle syncing = false
is_idle ended = true

pub data Step (s : Service) : Service → Type 0 where
  start :
      s.stopped ≡ false
      → s.is_running ≡ false
      → Step s (record s {
        is_running = true;
        loop = selecting;
        launched = suc s.launched;
        late = is_late s.stop_at;
      })
  stop_cancels : s.stop_at ≡ not_called → Step s (record s { stop_at = waits; cancelled = true })
  stop_waits : s.stop_at ≡ waits → is_idle s.loop ≡ true → Step s (record s { stop_at = locks })
  stop_locks :
      s.stop_at ≡ locks → Step s (record s { stop_at = closes; is_running = false; stopped = true })
  stop_closes : s.stop_at ≡ closes → Step s (record s { stop_at = returned; closed = true })
  wakes : s.loop ≡ selecting → Step s (record s { loop = syncing })
  synced : s.loop ≡ syncing → Step s (record s { loop = selecting })
  quits : s.loop ≡ selecting → s.cancelled ≡ true → Step s (record s { loop = ended })

pub data Reach (s : Service) : Service → Type 0 where
  here : Reach s s
  next : {s' s'' : Service} → Reach s s' → Step s' s'' → Reach s s''

-- ===== src/Lifecycle/Loop/Stopping.antt =====
-- What Start, Stop and the sync loop of indexer.go come to, in any order of their steps.
use go_block_walk.Prelude.{◌≤◌, ◌≡◌, ◌≢◌, refl, Bool, true, false, arith}
use go_block_walk.Lifecycle.Loop.{
  StopAt, not_called, waits, locks, closes, returned, LoopAt, not_launched, selecting, syncing,
  ended, Service, new_service, is_idle, Step, start, stop_cancels, stop_waits, stop_locks,
  stop_closes, wakes, synced, quits, Reach, here, next,
}

-- Whether a Stop has passed its wait, and whether it has passed the lock.
abbrev waited : StopAt → Bool
waited not_called = false
waited waits = false
waited locks = true
waited closes = true
waited returned = true

abbrev locked : StopAt → Bool
locked not_called = false
locked waits = false
locked locks = false
locked closes = true
locked returned = true

abbrev called : StopAt → Bool
called not_called = false
called waits = true
called locks = true
called closes = true
called returned = true

record Inv (s : Service) : Type 0 where
  none_yet : s.is_running ≡ false → s.stopped ≡ false → (s.loop ≡ not_launched) × (s.launched ≡ 0)
  once : s.launched ≤ 1
  stopped : s.stopped ≡ locked s.stop_at
  cancelled : s.cancelled ≡ called s.stop_at
  closed : s.closed ≡ true → s.stop_at ≡ returned
  shut : s.stop_at ≡ returned → s.closed ≡ true
  idle : waited s.stop_at ≡ true → s.late ≡ false → is_idle s.loop ≡ true

Inv-new : Inv new_service
Inv-new = record {
  none_yet = λ r d. (refl, refl);
  once = omega arith;
  stopped = refl;
  cancelled = refl;
  closed = λ c. absurd (cc);
  shut = λ r. absurd (cc);
  idle = λ w l. refl;
}

Step-Inv : {s s' : Service} → Step s s' → Inv s → Inv s'
Step-Inv {s} (start alive free) i =
    let (l, n) = i.none_yet free alive in
    ground (arith, i.stopped, i.cancelled, i.closed, i.shut, i.idle)
Step-Inv {s} (stop_cancels at) i =
    ground (arith, i.none_yet, i.once, i.stopped, i.cancelled, i.closed, i.shut, i.idle)
Step-Inv {s} (stop_waits at idle) i =
    ground (arith, i.none_yet, i.once, i.stopped, i.cancelled, i.closed, i.shut, i.idle)
Step-Inv {s} (stop_locks at) i =
    ground (arith, i.none_yet, i.once, i.stopped, i.cancelled, i.closed, i.shut, i.idle)
Step-Inv {s} (stop_closes at) i =
    ground (arith, i.none_yet, i.once, i.stopped, i.cancelled, i.closed, i.shut, i.idle)
Step-Inv {s} (wakes at) i =
    ground (arith, i.none_yet, i.once, i.stopped, i.cancelled, i.closed, i.shut, i.idle)
Step-Inv {s} (synced at) i =
    ground (arith, i.none_yet, i.once, i.stopped, i.cancelled, i.closed, i.shut, i.idle)
Step-Inv {s} (quits at c) i =
    ground (arith, i.none_yet, i.once, i.stopped, i.cancelled, i.closed, i.shut, i.idle)

Reach-Inv : {s s' : Service} → Reach s s' → Inv s → Inv s'
Reach-Inv here i = i
Reach-Inv (next earlier step) i = Step-Inv step (Reach-Inv earlier i)

Reach-trans : {s s' s'' : Service} → Reach s s' → Reach s' s'' → Reach s s''
Reach-trans earlier here = earlier
Reach-trans earlier (next later step) = next (Reach-trans earlier later) step

-- The pool is closed, and no loop was launched late.
abbrev Closed : Service → Type 0
Closed s = (s.closed ≡ true) × (s.late ≡ false)

Step-Closed : {s s' : Service} → Step s s' → Inv s → Closed s → Closed s'
Step-Closed {s} (start alive free) i (c, l) =
    let at = i.closed c in absurd (ground (arith, i.stopped))
Step-Closed (stop_cancels at) i c = c
Step-Closed (stop_waits at idle) i c = c
Step-Closed (stop_locks at) i c = c
Step-Closed (stop_closes at) i c = (refl, c.1)
Step-Closed (wakes at) i c = c
Step-Closed (synced at) i c = c
Step-Closed (quits at done) i c = c

Reach-Closed : {s s' : Service} → Reach s s' → Inv s → Closed s → Closed s'
Reach-Closed here i c = c
Reach-Closed (next earlier step) i c =
    Step-Closed step (Reach-Inv earlier i) (Reach-Closed earlier i c)

-- Whatever the order of the steps, at most one sync loop is ever launched; and once Stop has closed
-- the pool, if no Start came between its wait and its lock, no loop is running then or later.
pub stop_safe :
    {s later : Service}
    → Reach new_service s
    → Reach s later
    → (s.launched ≤ 1) × (s.closed ≡ true → s.late ≡ false → is_idle later.loop ≡ true)
stop_safe {s} {later} reach after =
    let i = Reach-Inv reach Inv-new in
    let i' = Reach-Inv after i in
    (
      i.once,
      λ c l.
          let c' = Reach-Closed after i (c, l) in
          let at = i'.closed c'.0 in i'.idle (ground arith) c'.1,
    )

-- A state is reached in which Stop has returned.
abbrev pub CanReturn : Service → Type 0
CanReturn s = (s' : Service) × Reach s s' × (s'.stop_at ≡ returned) × (s'.closed ≡ true)

finish_close : (s : Service) → s.stop_at ≡ closes → CanReturn s
finish_close s at = (_, next here (stop_closes at), refl, refl)

after_step : {s s' : Service} → Step s s' → CanReturn s' → CanReturn s
after_step step (last, reach, at, closed) = (last, Reach-trans (next here step) reach, at, closed)

finish_lock : (s : Service) → s.stop_at ≡ locks → CanReturn s
finish_lock s at = after_step (stop_locks at) (finish_close _ refl)

finish_select :
    (s : Service) → s.cancelled ≡ true → s.stop_at ≡ waits → s.loop ≡ selecting → CanReturn s
finish_select s c at l =
    after_step (quits l c) (after_step (stop_waits at refl) (finish_lock _ refl))

finish_wait :
    (s : Service) (l : LoopAt) → s.loop ≡ l → s.cancelled ≡ true → s.stop_at ≡ waits → CanReturn s
finish_wait s not_launched l c at = after_step (stop_waits at (ground arith)) (finish_lock _ refl)
finish_wait s ended l c at = after_step (stop_waits at (ground arith)) (finish_lock _ refl)
finish_wait s selecting l c at = finish_select s c at l
finish_wait s syncing l c at = after_step (synced l) (finish_select _ c at refl)

-- From every state that is reached and in which Stop has been called, a state can be reached in
-- which it has returned and the pool is closed.
pub stop_finishes : {s : Service} → Reach new_service s → s.stop_at ≢ not_called → CanReturn s
stop_finishes {s} reach was_called = finish s.stop_at refl
  where
    finish : (at : StopAt) → s.stop_at ≡ at → CanReturn s
    finish not_called e = absurd (was_called e)
    finish waits e =
        finish_wait s s.loop refl (ground (arith, (Reach-Inv reach Inv-new).cancelled)) e
    finish locks e = finish_lock s e
    finish closes e = finish_close s e
    finish returned e = (s, here, e, (Reach-Inv reach Inv-new).shut e)

-- ===== src/Lifecycle/Loop/Tests.antt =====
-- Runs of Start, Stop and the sync loop.
use go_block_walk.Prelude.{◌≡◌, ◌≤◌, refl, true, false}
use go_block_walk.Lifecycle.Loop.{
  Service, new_service, waits, closes, returned, syncing, ended, is_idle, Reach, here, next, start,
  stop_cancels, stop_waits, stop_locks, stop_closes, wakes, synced, quits,
}
use go_block_walk.Lifecycle.Loop.Stopping.{CanReturn, stop_safe, stop_finishes}

-- What the first run below ends in.
abbrev closing : Service
closing = record {
  is_running = false;
  stopped = true;
  cancelled = true;
  closed = true;
  stop_at = returned;
  loop = ended;
  launched = 1;
  late = false;
}

-- Start, a sync, and a Stop that waits for it.
abbrev stopped_in_time : Reach new_service (record closing { closed = false; stop_at = closes })
stopped_in_time =
    next
      (next
        (next
          (next (next (next (next here (start refl refl)) (wakes refl)) (stop_cancels refl))
            (synced refl))
          (quits refl refl))
        (stop_waits refl refl))
      (stop_locks refl)

stop_safe_example :
    (closing.launched ≤ 1) × (closing.closed ≡ true → closing.late ≡ false → is_idle ended ≡ true)
stop_safe_example = stop_safe (next stopped_in_time (stop_closes refl)) here

stop_finishes_example : CanReturn (record {
  is_running = true;
  stopped = false;
  cancelled = true;
  closed = false;
  stop_at = waits;
  loop = syncing;
  launched = 1;
  late = false;
})
stop_finishes_example =
    stop_finishes (next (next (next here (start refl refl)) (wakes refl)) (stop_cancels refl))
      (λ e. absurd (cc))

-- A Start that comes between Stop's wait and its lock: the pool is closed while a sync runs.
start_late : (s : Service) × Reach new_service s × (s.closed ≡ true) × (s.loop ≡ syncing)
start_late = (
  _,
  next
      (next
        (next (next (next (next here (stop_cancels refl)) (stop_waits refl refl)) (start refl refl))
          (wakes refl))
        (stop_locks refl))
      (stop_closes refl),
  refl,
  refl,
)

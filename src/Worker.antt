-- ===== src/Worker.antt =====
-- src/worker.c: the task queue of a worker, the tasks that are done, and the worker thread's own
-- cache of them. A queue is here the sequence that it stands for (Queue/Sequence.antt), a task the
-- object that its item holds. Sizes count allocated items, so they do not overflow.
use pthreads.Base.{
  ℕ, zero, suc, ◌+◌, Bool, true, false, Option, none, some, List, [], ◌∷◌, ◌++◌, ◌==◌,
  if◌then◌else◌, length, drop, ltb,
}
use pthreads.Base.Int.{ℤ, pos, negsuc}
use pthreads.Monitor.{Monitor, mask, joined, collect_garbage}
use pthreads.Monitor
pub mod Rounds
pub mod System
pub mod Methods
pub mod Tests

-- What happens to the objects that the items hold: `copied` and `released` are `ZVAL_COPY` and
-- `zval_ptr_dtor`, `synced` is `pthreads_store_full_sync_local_properties`, and `offered` a call of
-- the collector.
pub data TaskEvent : Type 0 where
  copied released synced offered : ℕ → TaskEvent

pub record Worker : Type 0 where
  pub monitor : Monitor
  pub queue : List ℕ
  pub gc : List ℕ
  pub running : Option ℕ
  pub tasks_collected : ℕ
  pub events : List TaskEvent

unfoldable pub data_alloc : Monitor → Worker
data_alloc m = record {
  monitor = m;
  queue = [];
  gc = [];
  running = none;
  tasks_collected = 0;
  events = [];
}

abbrev pub locked : Worker → Worker
locked w = record w { monitor = (Monitor.lock 0 w.monitor).0 }

abbrev pub unlocked : Worker → Worker
unlocked w = record w { monitor = (Monitor.unlock 0 w.monitor).0 }

abbrev pub refused : ℕ → Worker → Worker
refused result w = record w { monitor = (Monitor.lock result w.monitor).0 }

-- `result` is what `pthread_mutex_lock` returns, zero if it succeeds.
unfoldable pub task_queue_size : (result : ℕ) → Worker → Worker × ℕ
task_queue_size result w =
    if result == 0
    then (let h = locked w in (unlocked h, length h.queue))
    else (refused result w, 0)

abbrev events_of : (ℕ → TaskEvent) → List ℕ → List TaskEvent → List TaskEvent
events_of e [] t = t
events_of e (v ∷ vs) t = events_of e vs (e v ∷ t)

-- The two queues are emptied and the data freed; the monitor is what is left.
unfoldable pub data_free : (result : ℕ) → Worker → Monitor × List TaskEvent
data_free result w =
    if result == 0
    then (let h = locked w in
        (
          (Monitor.unlock 0 h.monitor).0,
          events_of released h.gc (events_of released h.queue h.events),
        ))
    else ((Monitor.lock result w.monitor).0, w.events)

unfoldable pub add_task : (result : ℕ) → Worker → ℕ → Worker × ℤ
add_task result w v =
    if result == 0
    then (let h = locked w in
        let pushed = record h { queue = h.queue ++ v ∷ []; events = copied v ∷ h.events } in
        let told =
          if length h.queue == 0
          then record pushed { monitor = Monitor.notify h.monitor }
          else pushed in
        (unlocked told, pos (length told.queue)))
    else (refused result w, negsuc 0)

abbrev pub one {ℓ} : {A : Type ℓ} → Option A → List A
one none = []
one (some a) = a ∷ []

-- The part of `pthreads_worker_add_garbage` under the lock, and the part behind it, which pushes
-- the worker thread's own connection `work` to the task on its cache. With no running task the push
-- onto the queue goes through `NULL`, a fault.
unfoldable pub add_garbage_locked : Worker → Option Worker
add_garbage_locked w =
    let h = locked w in
    elim h.running [
      | none ↦ none
      | some v ↦ some (unlocked (record h { gc = h.gc ++ v ∷ []; running = none }))
    ]

unfoldable pub cache_done : List ℕ → ℕ → List ℕ
cache_done cache work = cache ++ work ∷ []

unfoldable pub add_garbage : (result : ℕ) → Worker → List ℕ → ℕ → Option (Worker × List ℕ)
unfolding add_garbage_locked cache_done
add_garbage result w cache work =
    if result == 0
    then elim (add_garbage_locked w) [ none ↦ none | some w' ↦ some (w', cache_done cache work) ]
    else some (refused result w, cache)

-- `pthreads_queue_shift` on a sequence: the head, if there is one, and the rest.
abbrev pub head_of {ℓ} : {A : Type ℓ} → List A → Option A
head_of [] = none
head_of (v ∷ vs) = some v

unfoldable pub dequeue_task : (result : ℕ) → Worker → Worker × Option ℕ × ℕ
dequeue_task result w =
    if result == 0
    then (let h = locked w in
        let rest = drop 1 h.queue in
        (unlocked (record h { queue = rest }), head_of h.queue, length rest))
    else (refused result w, none, 0)

pub record Sweep : Type 0 where
  pub left : List ℕ
  pub collected : ℕ
  pub events : List TaskEvent

-- The collector is asked about the tasks in turn until it declines one.
unfoldable pub collect_loop : (ℕ → Bool) → List ℕ → List TaskEvent → Sweep
collect_loop collect [] t = record { left = []; collected = 0; events = t }
collect_loop collect (v ∷ vs) t =
    let asked = offered v ∷ synced v ∷ t in
    let rest = collect_loop collect vs (released v ∷ asked) in
    if collect v
    then record rest { collected = suc rest.collected }
    else record { left = v ∷ vs; collected = 0; events = asked }

unfoldable pub collect_tasks : (result : ℕ) → (ℕ → Bool) → Worker → Worker × ℕ
unfolding collect_loop
collect_tasks result collect w =
    if result == 0
    then (let h = locked w in
        let s = collect_loop collect h.gc h.events in
        let swept = record h { gc = s.left; events = s.events } in
        let told =
          if ltb 0 s.collected
          then record swept {
            tasks_collected = h.tasks_collected + s.collected;
            monitor = Monitor.add 0 h.monitor (mask collect_garbage);
          }
          else swept in
        let size = length told.queue + length told.gc + length (one told.running) in
        (unlocked told, size))
    else (refused result w, 0)

-- Whether the lock of a task's own monitor is obtained is up to `locks`.
unfoldable pub sync_loop : (locks : ℕ → Bool) → List ℕ → List TaskEvent → List TaskEvent
sync_loop locks [] t = t
sync_loop locks (v ∷ vs) t = sync_loop locks vs (if locks v then synced v ∷ t else t)

unfoldable pub sync_collectable_tasks : (result : ℕ) → (locks : ℕ → Bool) → Worker → Worker × Bool
unfolding sync_loop
sync_collectable_tasks result locks w =
    if result == 0
    then (let h = locked w in
        (unlocked (record h { events = sync_loop locks h.gc h.events }), true))
    else (refused result w, false)

-- What one round of the loop in `pthreads_worker_next_task` comes to.
pub data Round : Type 0 where
  takes : ℕ → Round
  stops waits : Round

-- The connections to collected tasks leave the worker thread's cache.
unfoldable pub clear_collected : Worker → List ℕ → Worker × List ℕ
clear_collected w cache =
    if Monitor.check w.monitor (mask collect_garbage) == 0
    then (w, cache)
    else (let kept = drop w.tasks_collected cache in
        (
          record w {
            tasks_collected = 0;
            monitor = Monitor.remove 0 w.monitor (mask collect_garbage);
          },
          kept,
        ))

unfoldable pub choose : Worker → List ℕ → Worker × Round
choose w [] = if Monitor.check w.monitor (mask joined) == 0 then (w, waits) else (w, stops)
choose w (v ∷ vs) = (record w { running = some v; queue = vs }, takes v)

unfoldable pub next_round : Worker → List ℕ → Worker × List ℕ × Round
unfolding clear_collected choose
next_round w cache =
    let (cleared, kept) = clear_collected w cache in
    let (chosen, round) = choose cleared cleared.queue in (chosen, kept, round)

-- Each wait gives up the lock, and the other threads do what the next entry of the list says.
-- `none`: the entries have run out and the worker still waits.
unfoldable pub next_loop :
    List (Worker → Worker) → Worker → List ℕ → Option (Worker × List ℕ × Option ℕ)
unfolding next_round
next_loop [] w cache =
    let (w', kept, round) = next_round w cache in
    elim round [ takes v ↦ some (w', kept, some v) | stops ↦ some (w', kept, none) | waits ↦ none ]
next_loop (others ∷ more) w cache =
    let (w', kept, round) = next_round w cache in
    let waited = record w' { monitor = (Monitor.wait none 0 w'.monitor (pos 0)).0 } in
    let again = next_loop more (others waited) kept in
    elim round [ takes v ↦ some (w', kept, some v) | stops ↦ some (w', kept, none) | waits ↦ again ]

-- `stopped` is `PTHREADS_MONITOR_JOINED`. If the lock is refused the caller is told to run a task
-- and is given none.
pub data Next : Type 0 where
  run_task : ℕ → Next
  stopped no_task : Next

abbrev pub next_of : Option ℕ → Next
next_of none = stopped
next_of (some v) = run_task v

unfoldable pub next_task :
    (result : ℕ) → List (Worker → Worker) → Worker → List ℕ → Option (Worker × List ℕ × Next)
unfolding next_loop
next_task result others w cache =
    let run = next_loop others (locked w) cache in
    if result == 0
    then elim run [ none ↦ none | some (w', kept, got) ↦ some (unlocked w', kept, next_of got) ]
    else some (refused result w, cache, no_task)

-- The objects that the garbage collector of the engine is told about.
unfoldable pub get_gc_extra : (result : ℕ) → Worker → Worker × List ℕ
get_gc_extra result w =
    if result == 0
    then (let h = locked w in (unlocked h, h.queue ++ one h.running ++ h.gc))
    else (refused result w, [])

-- `call_result` is `none` if `zend_call_function` fails, else what `zend_is_true` says of the value
-- that it returns, `none` again if that is undefined.
unfoldable pub collect_function : (call_result : Option (Option Bool)) → Bool
collect_function none = false
collect_function (some none) = false
collect_function (some (some b)) = b

-- ===== src/Worker/System.antt =====
-- A worker's data between its two threads: the creator stacks, unstacks, collects and joins, and
-- the worker thread takes tasks, runs them and puts them on the queue of done tasks. Each step is
-- one critical section, as the code takes the worker's lock, and `stores` is what `add_garbage`
-- does behind it. A thread whose wait ends takes the lock again, which is recorded as such. The
-- thread's loop is that of `pthreads_routine` in src/object.c.
use pthreads.Base.Int.{pos}
use pthreads.Base.{ℕ, ◌≡◌, Bool, Option, none, some, List, [], ◌∷◌, ◌++◌}
use pthreads.Monitor.{mask, joined}
use pthreads.Monitor
use pthreads.Worker.{
  Worker, data_alloc, add_task, dequeue_task, collect_tasks, add_garbage_locked, cache_done,
  next_round, Round, takes, stops, waits, head_of, one, locked, unlocked,
}
use pthreads.Worker.Rounds.{take_while}
pub mod Invariant
pub mod Order

-- Where the worker thread is: in `pthreads_worker_next_task`, running a task, between the two
-- halves of `pthreads_worker_add_garbage`, or out of the loop.
pub data Phase : Type 0 where
  asking : Phase
  working : ℕ → Phase
  storing : ℕ → Phase
  finished : Phase

-- `submitted`, `taken`, `begun` and `let_go` record the history: the tasks that were stacked, that
-- left the queue, that the thread began to run, and that the collector accepted, oldest first.
pub record State : Type 0 where
  pub worker : Worker
  pub cache : List ℕ
  pub phase : Phase
  pub submitted : List ℕ
  pub taken : List ℕ
  pub begun : List ℕ
  pub let_go : List ℕ

abbrev pub initial : Monitor.Monitor → State
initial m = record {
  worker = (data_alloc m);
  cache = [];
  phase = asking;
  submitted = [];
  taken = [];
  begun = [];
  let_go = [];
}

-- The thread's own connection to a task.
module _ (connection : ℕ → ℕ) where
  pub data Step (s : State) (t : State) : Type 0 where
    stacks :
        (v : ℕ)
        → t ≡ record s { worker = (add_task 0 s.worker v).0; submitted = s.submitted ++ v ∷ [] }
        → Step s t
    unstacks :
        t ≡ record s {
          worker = (dequeue_task 0 s.worker).0;
          taken = s.taken ++ one (dequeue_task 0 s.worker).1;
        }
        → Step s t
    collects :
        (p : ℕ → Bool)
        → t ≡ record s {
          worker = (collect_tasks 0 p s.worker).0;
          let_go = s.let_go ++ take_while p s.worker.gc;
        }
        → Step s t
    joins :
        t ≡ record s {
          worker = record s.worker { monitor = Monitor.add 0 s.worker.monitor (mask joined) };
        }
        → Step s t
    begins :
        (v : ℕ) (w : Worker) (kept : List ℕ)
        → s.phase ≡ asking
        → next_round (locked s.worker) s.cache ≡ (w, kept, takes v)
        → t ≡ record s {
          worker = unlocked w;
          cache = kept;
          phase = working v;
          taken = s.taken ++ v ∷ [];
          begun = s.begun ++ v ∷ [];
        }
        → Step s t
    sleeps :
        (w : Worker) (kept : List ℕ)
        → s.phase ≡ asking
        → next_round (locked s.worker) s.cache ≡ (w, kept, waits)
        → t ≡ record s {
          worker = record w { monitor = (Monitor.wait none 0 w.monitor (pos 0)).0 };
          cache = kept;
        }
        → Step s t
    leaves :
        (w : Worker) (kept : List ℕ)
        → s.phase ≡ asking
        → next_round (locked s.worker) s.cache ≡ (w, kept, stops)
        → t ≡ record s { worker = unlocked w; cache = kept; phase = finished }
        → Step s t
    completes :
        (v : ℕ) (w : Worker)
        → s.phase ≡ working v
        → add_garbage_locked s.worker ≡ some w
        → t ≡ record s { worker = w; phase = storing v }
        → Step s t
    stores :
        (v : ℕ)
        → s.phase ≡ storing v
        → t ≡ record s { cache = cache_done s.cache (connection v); phase = asking }
        → Step s t

  pub data Reach (s : State) : State → Type 0 where
    here : Reach s s
    next : {t u : State} → Reach s t → Step t u → Reach s u

-- ===== src/Worker/Tests.antt =====
-- A worker that is given two tasks, runs the first, is joined, and runs the second.
use pthreads.Base.{ℕ, ◌+◌, ◌≡◌, ◌≢◌, refl, Bool, List, [], ◌∷◌, arith, ltb}
use pthreads.Monitor.{Monitor, mask, joined, check}
use pthreads.Monitor
use pthreads.Worker.{
  Worker, data_alloc, add_task, add_garbage_locked, cache_done, next_round, locked, unlocked,
  clear_collected, choose,
}
use pthreads.Worker.System.{State, asking, working, storing, initial, Step, Reach, here, next}
use pthreads.Worker.System.Invariant.{done}
use pthreads.Worker.System.Order.{IsOrdered, Reach-IsOrdered, leaves-IsDrained}

abbrev quiet : Monitor
quiet = record { state = 0; calls = [] }

-- The thread's connection to a task.
abbrev connected : ℕ → ℕ
connected v = v + 100

abbrev stacked : State
stacked = record (initial quiet) {
  worker = (add_task 0 (data_alloc quiet) 7).0;
  submitted = 7 ∷ [];
}

abbrev begun : State
begun = record stacked {
  worker = unlocked (next_round (locked stacked.worker) []).0;
  cache = (next_round (locked stacked.worker) []).1;
  phase = working 7;
  taken = 7 ∷ [];
  begun = 7 ∷ [];
}

abbrev completed : State
completed = record begun { worker = done begun.worker 7; phase = storing 7 }

abbrev stored : State
stored = record completed { cache = cache_done completed.cache (connected 7); phase = asking }

abbrev asked_to_end : State
asked_to_end = record stored {
  worker = record stored.worker { monitor = Monitor.add 0 stored.worker.monitor (mask joined) };
}

stored-Reach : Reach connected (initial quiet) stored
unfolding add_task data_alloc next_round clear_collected choose add_garbage_locked check
    Monitor.lock Monitor.unlock Monitor.notify
stored-Reach =
    next
      (next (next (next here (Step.stacks 7 refl)) (Step.begins 7 _ _ refl refl refl))
        (Step.completes 7 _ refl refl refl))
      (Step.stores 7 refl refl)

asked_to_end-Reach : Reach connected (initial quiet) asked_to_end
asked_to_end-Reach = next stored-Reach (Step.joins refl)

Reach-IsOrdered_example : IsOrdered stored
Reach-IsOrdered_example = Reach-IsOrdered connected quiet stored (omega arith) stored-Reach

abbrev last_round : Worker × List ℕ
last_round = let r = next_round (locked asked_to_end.worker) asked_to_end.cache in (r.0, r.1)

leaves-IsDrained_example :
    (check asked_to_end.worker.monitor (mask joined) ≢ 0)
    × (asked_to_end.taken ≡ asked_to_end.submitted)
unfolding add_task data_alloc next_round clear_collected choose add_garbage_locked check Monitor.add
    Monitor.lock Monitor.unlock Monitor.notify
leaves-IsDrained_example =
    leaves-IsDrained connected quiet asked_to_end last_round.0 last_round.1 (omega arith)
      asked_to_end-Reach refl

-- Three tasks are done; the collector accepts those below 3.
abbrev three_done : Worker
three_done = record (data_alloc quiet) { gc = 1 ∷ 2 ∷ 3 ∷ [] }

abbrev below_three : ℕ → Bool
below_three v = ltb v 3

-- ===== src/Worker/Rounds.antt =====
-- What one call does: the sweep of the collector, and a round of the worker's wait for a task.
use pthreads.Base.{
  ℕ, ◌+◌, ◌<◌, ◌≡◌, ◌≢◌, refl, ◌∙◌, ◌⊎◌, inl, inr, Bool, false, Option, some, List, [], ◌∷◌, ◌++◌,
  arith, ◌==◌, if◌then◌else◌, length, drop, Bool-cases, ltb,
}
use pthreads.Monitor.{Monitor, mask, joined, collect_garbage, check, started}
use pthreads.Monitor
use pthreads.Monitor.Flags.{limit, check-add, check-remove}
use pthreads.Worker.{
  Worker, TaskEvent, released, offered, synced, one, collect_loop, collect_tasks, locked,
  clear_collected, choose, next_round, Round, takes, stops, waits,
}

-- The tasks at the front that the collector accepts, and the rest.
unfoldable pub take_while : (ℕ → Bool) → List ℕ → List ℕ
take_while p [] = []
take_while p (v ∷ vs) = if p v then v ∷ take_while p vs else []

unfoldable pub drop_while : (ℕ → Bool) → List ℕ → List ℕ
drop_while p [] = []
drop_while p (v ∷ vs) = if p v then drop_while p vs else v ∷ vs

pub collect_loop-while :
    (p : ℕ → Bool) (vs : List ℕ) (t : List TaskEvent)
    → ((collect_loop p vs t).left ≡ drop_while p vs)
      × ((collect_loop p vs t).collected ≡ length (take_while p vs))
unfolding collect_loop take_while drop_while
collect_loop-while p [] t = (refl, refl)
collect_loop-while p (v ∷ vs) t =
    ground (arith, collect_loop-while p vs (released v ∷ offered v ∷ synced v ∷ t))

pub drop_while-drop :
    (p : ℕ → Bool) (vs : List ℕ) → drop_while p vs ≡ drop (length (take_while p vs)) vs
unfolding take_while drop_while
drop_while-drop p [] = refl
drop_while-drop p (v ∷ vs) = ground (arith, drop_while-drop p vs)

pub take_while-drop_while : (p : ℕ → Bool) (vs : List ℕ) → take_while p vs ++ drop_while p vs ≡ vs
unfolding take_while drop_while
take_while-drop_while p [] = refl
take_while-drop_while p (v ∷ vs) = ground (arith, take_while-drop_while p vs)

-- The parts of a worker that a call can change, but for its monitor and events.
pub record Collected (p : ℕ → Bool) (w w' : Worker) (n : ℕ) : Type 0 where
  pub gc : w'.gc ≡ drop_while p w.gc
  pub counted : w'.tasks_collected ≡ w.tasks_collected + length (take_while p w.gc)
  pub queue : w'.queue ≡ w.queue
  pub running : w'.running ≡ w.running
  pub size : n ≡ length w.queue + length (drop_while p w.gc) + length (one w.running)
  pub bounded : w'.monitor.state < limit
  pub flagged : check w'.monitor (mask collect_garbage) ≡ (
      if ltb 0 (length (take_while p w.gc))
      then mask collect_garbage
      else check w.monitor (mask collect_garbage))
  pub joined_kept : check w'.monitor (mask joined) ≡ check w.monitor (mask joined)

ltb→zero : (n : ℕ) → ltb 0 n ≡ false → n ≡ 0
ltb→zero n h = ground arith

-- With the lock and a state within the eight flags, collecting removes exactly the tasks at the
-- front of the queue of done tasks that the collector accepts, stops at the first that it declines,
-- counts what it removed for the worker thread, sets the flag that tells it so if there was any,
-- and returns how many tasks are left in the worker.
pub collect_tasks-Collected :
    (p : ℕ → Bool) (w : Worker)
    → w.monitor.state < limit
    → let r = collect_tasks 0 p w in Collected p w r.0 r.1
unfolding collect_tasks Monitor.lock Monitor.unlock Monitor.check
collect_tasks-Collected p w h =
    let vs = collect_loop-while p w.gc w.events in
    let m = (locked w).monitor in
    let garbage = check-add m collect_garbage collect_garbage h in
    let join = check-add m collect_garbage joined h in
    elim (Bool-cases (ltb 0 (length (take_while p w.gc)))) [
      | inl more ↦ record {
        gc = rw (vs.1, more) vs.0;
        counted = rw (vs.1, more) refl;
        queue = rw (vs.1, more) refl;
        running = rw (vs.1, more) refl;
        size = rw (vs.1, more) (rw vs.0 refl);
        bounded = rw (vs.1, more) garbage.1;
        flagged = rw (vs.1, more) garbage.0;
        joined_kept = rw (vs.1, more) join.0;
      }
      | inr none_left ↦ record {
        gc = rw (vs.1, none_left) vs.0;
        counted = rw (vs.1, none_left) (omega (arith, ltb→zero _ none_left));
        queue = rw (vs.1, none_left) refl;
        running = rw (vs.1, none_left) refl;
        size = rw (vs.1, none_left) (rw vs.0 refl);
        bounded = rw (vs.1, none_left) h;
        flagged = rw (vs.1, none_left) refl;
        joined_kept = rw (vs.1, none_left) refl;
      }
    ]

-- What a round comes to, by the queue and the flag at its start.
abbrev pub outcome : List ℕ → ℕ → Round
outcome [] flag = if flag == 0 then waits else stops
outcome (v ∷ vs) flag = takes v

abbrev pub running_after : Option ℕ → Round → Option ℕ
running_after old (takes v) = some v
running_after old stops = old
running_after old waits = old

pub record Rounded (w : Worker) (cache : List ℕ) (w' : Worker) (kept : List ℕ) (r : Round)
    : Type 0 where
  pub round : r ≡ outcome w.queue (check w.monitor (mask joined))
  pub queue : w'.queue ≡ drop 1 w.queue
  pub running : w'.running ≡ running_after w.running r
  pub gc : w'.gc ≡ w.gc
  pub events : w'.events ≡ w.events
  pub cleared :
      ((check w.monitor (mask collect_garbage) ≡ 0)
        × (kept ≡ cache)
        × (w'.tasks_collected ≡ w.tasks_collected))
      ⊎ ((check w.monitor (mask collect_garbage) ≢ 0)
          × (kept ≡ drop w.tasks_collected cache)
          × (w'.tasks_collected ≡ 0))
  pub flag_down : check w'.monitor (mask collect_garbage) ≡ 0
  pub bounded : w'.monitor.state < limit
  pub joined_kept : check w'.monitor (mask joined) ≡ check w.monitor (mask joined)

record Cleared (w : Worker) (cache : List ℕ) (w' : Worker) (kept : List ℕ) : Type 0 where
  queue : w'.queue ≡ w.queue
  running : w'.running ≡ w.running
  gc : w'.gc ≡ w.gc
  events : w'.events ≡ w.events
  cleared :
      ((check w.monitor (mask collect_garbage) ≡ 0)
        × (kept ≡ cache)
        × (w'.tasks_collected ≡ w.tasks_collected))
      ⊎ ((check w.monitor (mask collect_garbage) ≢ 0)
          × (kept ≡ drop w.tasks_collected cache)
          × (w'.tasks_collected ≡ 0))
  flag_down : check w'.monitor (mask collect_garbage) ≡ 0
  bounded : w'.monitor.state < limit
  joined_kept : check w'.monitor (mask joined) ≡ check w.monitor (mask joined)

clear_collected-Cleared :
    (w : Worker) (cache : List ℕ)
    → w.monitor.state < limit
    → let r = clear_collected w cache in Cleared w cache r.0 r.1
unfolding clear_collected
clear_collected-Cleared w cache h =
    let garbage = check-remove w.monitor collect_garbage collect_garbage h in
    let join = check-remove w.monitor collect_garbage joined h in
    elim (Bool-cases (check w.monitor (mask collect_garbage) == 0)) [
      | inl down ↦
          let e : check w.monitor (mask collect_garbage) ≡ 0 = ground arith in
          record {
            queue = rw down;
            running = rw down;
            gc = rw down;
            events = rw down;
            cleared = inl (rw down (e, refl, refl));
            flag_down = rw down e;
            bounded = rw down h;
            joined_kept = rw down;
          }
      | inr up ↦ record {
        queue = rw up;
        running = rw up;
        gc = rw up;
        events = rw up;
        cleared = inr (rw up (ground arith, refl, refl));
        flag_down = rw up garbage.0;
        bounded = rw up garbage.1;
        joined_kept = rw up join.0;
      }
    ]

choose_of :
    (w : Worker) (cache : List ℕ) (u : Worker) (kept : List ℕ) (q : List ℕ)
    → Cleared w cache u kept
    → w.queue ≡ q
    → let r = choose u q in Rounded w cache r.0 kept r.1
unfolding choose
choose_of w cache u kept [] c e = elim (Bool-cases (check u.monitor (mask joined) == 0)) [
  | inl unset ↦ rw unset (record {
    round = rw (e, ← c.joined_kept, unset);
    queue = rw e (c.queue ∙ e);
    running = c.running;
    gc = c.gc;
    events = c.events;
    cleared = c.cleared;
    flag_down = c.flag_down;
    bounded = c.bounded;
    joined_kept = c.joined_kept;
  })
  | inr set ↦ rw set (record {
    round = rw (e, ← c.joined_kept, set);
    queue = rw e (c.queue ∙ e);
    running = c.running;
    gc = c.gc;
    events = c.events;
    cleared = c.cleared;
    flag_down = c.flag_down;
    bounded = c.bounded;
    joined_kept = c.joined_kept;
  })
]
choose_of w cache u kept (v ∷ vs) c e = record {
  round = rw e;
  queue = rw e;
  running = refl;
  gc = c.gc;
  events = c.events;
  cleared = c.cleared;
  flag_down = c.flag_down;
  bounded = c.bounded;
  joined_kept = c.joined_kept;
}

pub next_round-Rounded :
    (w : Worker) (cache : List ℕ)
    → w.monitor.state < limit
    → let r = next_round w cache in Rounded w cache r.0 r.1 r.2
unfolding next_round
next_round-Rounded w cache h =
    let c = clear_collected-Cleared w cache h in
    rw c.queue
      (choose_of w cache (clear_collected w cache).0 (clear_collected w cache).1 w.queue c refl)

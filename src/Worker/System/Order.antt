-- ===== src/Worker/System/Order.antt =====
-- Tasks leave the queue in the order in which they were stacked, and are collected in the order in
-- which they were run.
use pthreads.Base.{
  ℕ, ◌<◌, ◌≡◌, ◌≢◌, refl, inl, inr, sym, ap, ◌∙◌, Option, none, some, List, [], ◌∷◌, ◌++◌, arith,
  ◌==◌, length, drop, Bool-cases, subst, some_injective,
}
use mathlib.Core.List.{append_assoc, append-nil}
use pthreads.Monitor.{Monitor, mask, joined, check}
use pthreads.Monitor
use pthreads.Monitor.Flags.{limit}
use pthreads.Worker.{
  Worker, data_alloc, add_task, dequeue_task, add_garbage_locked, next_round, Round, takes, stops,
  waits, head_of, one, locked, unlocked,
}
use pthreads.Worker.Rounds.{
  take_while, drop_while, take_while-drop_while, collect_tasks-Collected, outcome, running_after,
  Rounded, next_round-Rounded,
}
use pthreads.Worker.System.{
  State, asking, working, storing, initial, Step, stacks, unstacks, collects, joins, begins, sleeps,
  leaves, completes, stores, Reach, here, next,
}
use pthreads.Worker.System.Invariant.{
  IsCached, Step-IsCached, Reach-IsCached, at_work, done, add_garbage_locked-some,
}

pub record IsOrdered (s : State) : Type 0 where
  pub queued : s.taken ++ s.worker.queue ≡ s.submitted
  pub run : s.let_go ++ s.worker.gc ++ one s.worker.running ≡ s.begun

head-rest : (xs : List ℕ) → one (head_of xs) ++ drop 1 xs ≡ xs
head-rest [] = refl
head-rest (x ∷ xs) = refl

add_task-fields :
    (w : Worker) (v : ℕ)
    → let w' = (add_task 0 w v).0 in
      (w'.queue ≡ w.queue ++ v ∷ []) × (w'.gc ≡ w.gc) × (w'.running ≡ w.running)
unfolding add_task
add_task-fields w v = elim (Bool-cases (length w.queue == 0)) [
  | inl e ↦ (rw e, rw e, rw e)
  | inr e ↦ (rw e, rw e, rw e)
]

-- A round that takes a task takes the first one.
takes-head : (v : ℕ) (q : List ℕ) (flag : ℕ) → takes v ≡ outcome q flag → v ∷ drop 1 q ≡ q
takes-head v [] flag e = ground arith
takes-head v (x ∷ q) flag e = ground arith

waits-empty : (q : List ℕ) (flag : ℕ) → waits ≡ outcome q flag → drop 1 q ≡ q
waits-empty [] flag e = refl
waits-empty (x ∷ q) flag e = ground arith

stops-empty :
    (q : List ℕ) (flag : ℕ) → stops ≡ outcome q flag → (drop 1 q ≡ q) × ((q ≡ []) × (flag ≢ 0))
stops-empty [] flag e = (refl, (refl, ground arith))
stops-empty (x ∷ q) flag e = ground arith

module _ (connection : ℕ → ℕ) where
  Rounded-of :
      (s : State) (w : Worker) (kept : List ℕ) (r : Round)
      → IsCached connection s
      → next_round (locked s.worker) s.cache ≡ (w, kept, r)
      → Rounded (locked s.worker) s.cache w kept r
  unfolding Monitor.lock
  Rounded-of s w kept r c e =
      subst (λ (x : Worker × List ℕ × Round). Rounded (locked s.worker) s.cache x.0 x.1 x.2) e
        (next_round-Rounded (locked s.worker) s.cache c.bounded)

  unstacks-IsOrdered :
      (s : State)
      → IsOrdered s
      → IsOrdered (record s {
        worker = (dequeue_task 0 s.worker).0;
        taken = s.taken ++ one (dequeue_task 0 s.worker).1;
      })
  unfolding dequeue_task
  unstacks-IsOrdered s o =
      let q = s.worker.queue in
      record {
        queued =
            append_assoc s.taken (one (head_of q)) (drop 1 q)
            ∙ ap (λ (l : List ℕ). s.taken ++ l) (head-rest q)
            ∙ o.queued;
        run = o.run;
      }

  begins-IsOrdered :
      (s : State) (v : ℕ) (w : Worker) (kept : List ℕ)
      → IsCached connection s
      → IsOrdered s
      → s.phase ≡ asking
      → Rounded (locked s.worker) s.cache w kept (takes v)
      → IsOrdered (record s {
        worker = unlocked w;
        cache = kept;
        phase = working v;
        taken = s.taken ++ v ∷ [];
        begun = s.begun ++ v ∷ [];
      })
  begins-IsOrdered s v w kept c o at k =
      let idle : s.worker.running ≡ none = c.running ∙ ap at_work at in
      let before : s.let_go ++ s.worker.gc ≡ s.begun =
        sym (append-nil (s.let_go ++ s.worker.gc))
        ∙ ap (λ (r : Option ℕ). s.let_go ++ s.worker.gc ++ one r) (sym idle)
        ∙ o.run in
      record {
        queued =
            append_assoc s.taken (v ∷ []) w.queue
            ∙ ap (λ (l : List ℕ). s.taken ++ v ∷ l) k.queue
            ∙ ap (λ (l : List ℕ). s.taken ++ l) (takes-head v s.worker.queue _ k.round)
            ∙ o.queued;
        run = rw (k.gc, k.running) (ap (λ (l : List ℕ). l ++ v ∷ []) before);
      }

  idles-IsOrdered :
      (s : State) (w : Worker) (kept : List ℕ) (r : Round)
      → IsOrdered s
      → Rounded (locked s.worker) s.cache w kept r
      → running_after s.worker.running r ≡ s.worker.running
      → drop 1 s.worker.queue ≡ s.worker.queue
      → (s.taken ++ w.queue ≡ s.submitted) × (s.let_go ++ w.gc ++ one w.running ≡ s.begun)
  idles-IsOrdered s w kept r o k same empty = (
    ap (λ (l : List ℕ). s.taken ++ l) (k.queue ∙ empty) ∙ o.queued,
    rw (k.gc, k.running, same) o.run,
  )

  completes-IsOrdered :
      (s : State) (v : ℕ) (w : Worker)
      → IsCached connection s
      → IsOrdered s
      → s.phase ≡ working v
      → add_garbage_locked s.worker ≡ some w
      → IsOrdered (record s { worker = w; phase = storing v })
  completes-IsOrdered s v w c o at e =
      let held : s.worker.running ≡ some v = c.running ∙ ap at_work at in
      let f : done s.worker v ≡ w =
        some_injective (sym (add_garbage_locked-some s.worker v held) ∙ e) in
      let before : s.let_go ++ s.worker.gc ++ v ∷ [] ≡ s.begun =
        ap (λ (r : Option ℕ). s.let_go ++ s.worker.gc ++ one r) (sym held) ∙ o.run in
      rw (← f) (record {
        queued = o.queued;
        run =
            append-nil (s.let_go ++ (s.worker.gc ++ v ∷ []))
            ∙ sym (append_assoc s.let_go s.worker.gc (v ∷ []))
            ∙ before;
      })

  Step-IsOrdered :
      (s t : State) → Step connection s t → IsCached connection s → IsOrdered s → IsOrdered t
  Step-IsOrdered s t (stacks v e) c o =
      let f = add_task-fields s.worker v in
      rw e (record {
        queued = rw f.0 (
            sym (append_assoc s.taken s.worker.queue (v ∷ []))
            ∙ ap (λ (l : List ℕ). l ++ v ∷ []) o.queued);
        run = rw (f.1, f.2) o.run;
      })
  Step-IsOrdered s t (unstacks e) c o = rw e (unstacks-IsOrdered s o)
  Step-IsOrdered s t (collects p e) c o =
      let r = collect_tasks-Collected p s.worker c.bounded in
      let g = s.worker.gc in
      rw e (record {
        queued = rw r.queue o.queued;
        run =
            rw (r.gc, r.running)
              (ap (λ (l : List ℕ). l ++ one s.worker.running)
                  (append_assoc s.let_go (take_while p g) (drop_while p g)
                    ∙ ap (λ (l : List ℕ). s.let_go ++ l) (take_while-drop_while p g))
                ∙ o.run);
      })
  Step-IsOrdered s t (joins e) c o = rw e (record { queued = o.queued; run = o.run })
  Step-IsOrdered s t (begins v w kept at r e) c o =
      rw e (begins-IsOrdered s v w kept c o at (Rounded-of s w kept (takes v) c r))
  Step-IsOrdered s t (sleeps w kept at r e) c o =
      let k = Rounded-of s w kept waits c r in
      let i = idles-IsOrdered s w kept waits o k refl (waits-empty s.worker.queue _ k.round) in
      rw e (record { queued = i.0; run = i.1 })
  Step-IsOrdered s t (leaves w kept at r e) c o =
      let k = Rounded-of s w kept stops c r in
      let i = idles-IsOrdered s w kept stops o k refl (stops-empty s.worker.queue _ k.round).0 in
      rw e (record { queued = i.0; run = i.1 })
  Step-IsOrdered s t (completes v w at r e) c o = rw e (completes-IsOrdered s v w c o at r)
  Step-IsOrdered s t (stores v at e) c o = rw e (record { queued = o.queued; run = o.run })

  Reach-IsOrdered_from :
      (s t : State)
      → Reach connection s t
      → IsCached connection s
      → IsOrdered s
      → IsCached connection t × IsOrdered t
  Reach-IsOrdered_from s _ here c o = (c, o)
  Reach-IsOrdered_from s _ (next {t} {u} r st) c o =
      let (c', o') = Reach-IsOrdered_from s t r c o in
      (Step-IsCached connection t u st c', Step-IsOrdered t u st c' o')

  -- In every state that is reached from a monitor within the eight flags, the tasks that have left
  -- the queue, followed by the queue, are the tasks that were stacked, in their order; and the
  -- tasks that were collected, followed by the queue of done tasks and the running task, are the
  -- tasks that were begun, in their order.
  pub Reach-IsOrdered :
      (m : Monitor) (t : State) → m.state < limit → Reach connection (initial m) t → IsOrdered t
  unfolding data_alloc
  Reach-IsOrdered m t h r =
      (Reach-IsOrdered_from (initial m) t r (Reach-IsCached connection m (initial m) h here)
        (record { queued = refl; run = refl })).1

  -- From a monitor within the eight flags, the worker thread leaves its loop only when the queue is
  -- empty and the worker is being joined: every task that was stacked before has been taken.
  pub leaves-IsDrained :
      (m : Monitor) (s : State) (w : Worker) (kept : List ℕ)
      → m.state < limit
      → Reach connection (initial m) s
      → next_round (locked s.worker) s.cache ≡ (w, kept, stops)
      → (check s.worker.monitor (mask joined) ≢ 0) × (s.taken ≡ s.submitted)
  unfolding Monitor.lock check
  leaves-IsDrained m s w kept h r e =
      let k = Rounded-of s w kept stops (Reach-IsCached connection m s h r) e in
      let (empty, flag) = (stops-empty s.worker.queue _ k.round) in
      (
        flag.1,
        sym (append-nil s.taken)
            ∙ ap (λ (l : List ℕ). s.taken ++ l) (sym flag.0)
            ∙ (Reach-IsOrdered m s h r).queued,
      )

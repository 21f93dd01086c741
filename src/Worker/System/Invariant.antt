-- ===== src/Worker/System/Invariant.antt =====
-- The thread's cache holds the connections to the done tasks, in step with what is collected.
use pthreads.Base.{
  ℕ, zero, suc, ◌+◌, ◌≤◌, ◌<◌, ◌≡◌, ◌≢◌, refl, sym, ap, ◌∙◌, ◌⊎◌, inl, inr, Bool, Option, none,
  some, List, [], ◌∷◌, ◌++◌, map, arith, ◌==◌, if◌then◌else◌, length, drop, Bool-cases, ltb,
  length-append, length-drop, subst, some_injective,
}
use mathlib.Core.List.{map-append, append-nil}
use pthreads.Monitor.{Monitor, mask, joined, collect_garbage, check}
use pthreads.Monitor
use pthreads.Monitor.Flags.{limit, check-add}
use pthreads.Worker.{
  Worker, data_alloc, add_task, dequeue_task, collect_tasks, add_garbage_locked, cache_done,
  next_round, Round, takes, stops, waits, one, locked, unlocked,
}
use pthreads.Worker.Rounds.{
  take_while, drop_while, drop_while-drop, take_while-drop_while, collect_tasks-Collected, Rounded,
  next_round-Rounded,
}
use pthreads.Worker.System.{
  State, Phase, asking, working, storing, finished, initial, Step, stacks, unstacks, collects,
  joins, begins, sleeps, leaves, completes, stores, Reach, here, next,
}

-- The task that is done and not yet on the cache; the task that `running` points to.
abbrev pub pending : Phase → List ℕ
pending asking = []
pending (working v) = []
pending (storing v) = v ∷ []
pending finished = []

abbrev pub at_work : Phase → Option ℕ
at_work asking = none
at_work (working v) = some v
at_work (storing v) = none
at_work finished = none

pub drop-append :
    {A : Type 0} (n : ℕ) (xs ys : List A) → n ≤ length xs → drop n (xs ++ ys) ≡ drop n xs ++ ys
drop-append zero xs ys h = refl
drop-append (suc n) [] ys h = absurd (omega arith)
drop-append (suc n) (x ∷ xs) ys h = drop-append n xs ys (omega arith)

drop-nil : {A : Type 0} (n : ℕ) → drop {A = A} n [] ≡ []
drop-nil zero = refl
drop-nil (suc n) = refl

pub drop-drop : {A : Type 0} (k n : ℕ) (xs : List A) → drop k (drop n xs) ≡ drop (n + k) xs
drop-drop k zero xs = let e : 0 + k ≡ k = omega arith in rw e
drop-drop k (suc n) [] = let e : suc n + k ≡ suc (n + k) = omega arith in rw e (drop-nil k)
drop-drop k (suc n) (x ∷ xs) =
    let e : suc n + k ≡ suc (n + k) = omega arith in rw e (drop-drop k n xs)

pub drop-map :
    {A B : Type 0} (f : A → B) (n : ℕ) (xs : List A) → drop n (map f xs) ≡ map f (drop n xs)
drop-map f zero xs = refl
drop-map f (suc n) [] = refl
drop-map f (suc n) (x ∷ xs) = drop-map f n xs

pub length-map : {A B : Type 0} (f : A → B) (xs : List A) → length (map f xs) ≡ length xs
length-map f [] = refl
length-map f (x ∷ xs) = ap suc (length-map f xs)

abbrev pub done : Worker → ℕ → Worker
done w v = let h = locked w in unlocked (record h { gc = h.gc ++ v ∷ []; running = none })

pub add_garbage_locked-some :
    (w : Worker) (v : ℕ) → w.running ≡ some v → add_garbage_locked w ≡ some (done w v)
unfolding add_garbage_locked
add_garbage_locked-some w v e = rw (e, add_garbage_locked) refl

flag_of :
    (n k n' f f' : ℕ)
    → (n ≡ 0) ⊎ (f ≢ 0)
    → n' ≡ n + k
    → f' ≡ (if ltb 0 k then mask collect_garbage else f)
    → (n' ≡ 0) ⊎ (f' ≢ 0)
flag_of n k n' f f' h e g = ground arith

module _ (connection : ℕ → ℕ) where
  pub record IsCached (s : State) : Type 0 where
    pub bounded : s.worker.monitor.state < limit
    pub running : s.worker.running ≡ at_work s.phase
    pub counted : s.worker.tasks_collected ≤ length (s.cache ++ map connection (pending s.phase))
    pub cached :
        drop s.worker.tasks_collected (s.cache ++ map connection (pending s.phase))
        ≡ map connection s.worker.gc
    pub flagged :
        (s.worker.tasks_collected ≡ 0) ⊎ (check s.worker.monitor (mask collect_garbage) ≢ 0)

  stacks-IsCached :
      (s : State) (v : ℕ)
      → IsCached s
      → IsCached
          (record s { worker = (add_task 0 s.worker v).0; submitted = s.submitted ++ v ∷ [] })
  unfolding add_task Monitor.lock Monitor.unlock Monitor.notify check
  stacks-IsCached s v c = elim (Bool-cases (length s.worker.queue == 0)) [
    | inl empty ↦ record {
      bounded = rw empty c.bounded;
      running = rw empty c.running;
      counted = rw empty c.counted;
      cached = rw empty c.cached;
      flagged = rw empty c.flagged;
    }
    | inr more ↦ record {
      bounded = rw more c.bounded;
      running = rw more c.running;
      counted = rw more c.counted;
      cached = rw more c.cached;
      flagged = rw more c.flagged;
    }
  ]

  unstacks-IsCached :
      (s : State)
      → IsCached s
      → IsCached (record s {
        worker = (dequeue_task 0 s.worker).0;
        taken = s.taken ++ one (dequeue_task 0 s.worker).1;
      })
  unfolding dequeue_task Monitor.lock Monitor.unlock check
  unstacks-IsCached s c = record {
    bounded = c.bounded;
    running = c.running;
    counted = c.counted;
    cached = c.cached;
    flagged = c.flagged;
  }

  collects-IsCached :
      (s : State) (p : ℕ → Bool)
      → IsCached s
      → IsCached (record s {
        worker = (collect_tasks 0 p s.worker).0;
        let_go = s.let_go ++ take_while p s.worker.gc;
      })
  collects-IsCached s p c =
      let r = collect_tasks-Collected p s.worker c.bounded in
      let n = s.worker.tasks_collected in
      let k = length (take_while p s.worker.gc) in
      let all = s.cache ++ map connection (pending s.phase) in
      record {
        bounded = r.bounded;
        running = r.running ∙ c.running;
        counted = omega (
          arith,
          r.counted,
          c.counted,
          length-drop n all,
          ap length c.cached,
          length-map connection s.worker.gc,
          ap length (take_while-drop_while p s.worker.gc),
          length-append (take_while p s.worker.gc) (drop_while p s.worker.gc),
        );
        cached =
            rw (r.counted, r.gc)
              (sym (drop-drop k n all)
                ∙ ap (drop k) c.cached
                ∙ drop-map connection k s.worker.gc
                ∙ ap (map connection) (sym (drop_while-drop p s.worker.gc)));
        flagged = flag_of _ _ _ _ _ c.flagged r.counted r.flagged;
      }

  joins-IsCached :
      (s : State)
      → IsCached s
      → IsCached (record s {
        worker = record s.worker { monitor = Monitor.add 0 s.worker.monitor (mask joined) };
      })
  joins-IsCached s c =
      let a = check-add s.worker.monitor joined collect_garbage c.bounded in
      record {
        bounded = a.1;
        running = c.running;
        counted = c.counted;
        cached = c.cached;
        flagged = rw a.0 c.flagged;
      }

  -- What a round leaves in the cache, for a thread that is asking for a task.
  record Kept (s : State) (w : Worker) (kept : List ℕ) : Type 0 where
    none_counted : w.tasks_collected ≡ 0
    in_step : kept ≡ map connection s.worker.gc
    same_gc : w.gc ≡ s.worker.gc
    bounded : w.monitor.state < limit

  round-Kept :
      (s : State) (w : Worker) (kept : List ℕ) (r : Round)
      → IsCached s
      → pending s.phase ≡ []
      → next_round (locked s.worker) s.cache ≡ (w, kept, r)
      → Kept s w kept × Rounded (locked s.worker) s.cache w kept r
  unfolding Monitor.lock check
  round-Kept s w kept r c idle e =
      let n = s.worker.tasks_collected in
      let rounded : Rounded (locked s.worker) s.cache w kept r =
        subst (λ (x : Worker × List ℕ × Round). Rounded (locked s.worker) s.cache x.0 x.1 x.2) e
          (next_round-Rounded (locked s.worker) s.cache c.bounded) in
      let cache_eq : s.cache ++ map connection (pending s.phase) ≡ s.cache =
        rw idle (append-nil s.cache) in
      let cached : drop n s.cache ≡ map connection s.worker.gc = rw cache_eq at c.cached in
      (
        elim rounded.cleared [
          | inl (down, same, count) ↦
              let zero_n : n ≡ 0 = elim c.flagged [ inl z ↦ z | inr up ↦ absurd (up down) ] in
              record {
                none_counted = count ∙ zero_n;
                in_step = same ∙ ap (λ (k : ℕ). drop k s.cache) (sym zero_n) ∙ cached;
                same_gc = rounded.gc;
                bounded = rounded.bounded;
              }
          | inr (up, dropped, count) ↦ record {
            none_counted = count;
            in_step = dropped ∙ cached;
            same_gc = rounded.gc;
            bounded = rounded.bounded;
          }
        ],
        rounded,
      )

  Kept-IsCached :
      (s : State) (w : Worker) (kept : List ℕ) (t : State)
      → Kept s w kept
      → t.cache ≡ kept
      → t.worker.gc ≡ w.gc
      → t.worker.tasks_collected ≡ w.tasks_collected
      → t.worker.monitor.state ≡ w.monitor.state
      → pending t.phase ≡ []
      → t.worker.running ≡ at_work t.phase
      → IsCached t
  Kept-IsCached s w kept t k same gc count state idle run =
      let zero_count : t.worker.tasks_collected ≡ 0 = count ∙ k.none_counted in
      record {
        bounded = rw state k.bounded;
        running = run;
        counted = omega (arith, zero_count);
        cached =
            rw (zero_count, idle, append-nil t.cache)
              (same ∙ k.in_step ∙ ap (map connection) (sym (gc ∙ k.same_gc)));
        flagged = inl zero_count;
      }

  completes-IsCached :
      (s : State) (v : ℕ) (w : Worker)
      → IsCached s
      → s.phase ≡ working v
      → add_garbage_locked s.worker ≡ some w
      → IsCached (record s { worker = w; phase = storing v })
  unfolding Monitor.lock Monitor.unlock check
  completes-IsCached s v w c at e =
      let held : s.worker.running ≡ some v = c.running ∙ (rw at refl) in
      let f : done s.worker v ≡ w =
        some_injective (sym (add_garbage_locked-some s.worker v held) ∙ e) in
      let n = s.worker.tasks_collected in
      let cache_eq : s.cache ++ map connection (pending s.phase) ≡ s.cache =
        rw at (append-nil s.cache) in
      let counted : n ≤ length s.cache = rw cache_eq at c.counted in
      let cached : drop n s.cache ≡ map connection s.worker.gc = rw cache_eq at c.cached in
      rw (← f) (record {
        bounded = c.bounded;
        running = refl;
        counted = omega (arith, counted, length-append {0} s.cache (connection v ∷ []));
        cached =
            drop-append n s.cache (connection v ∷ []) counted
            ∙ ap (λ (l : List ℕ). l ++ connection v ∷ []) cached
            ∙ sym (map-append connection s.worker.gc (v ∷ []));
        flagged = c.flagged;
      })

  stores-IsCached :
      (s : State) (v : ℕ)
      → IsCached s
      → s.phase ≡ storing v
      → IsCached (record s { cache = cache_done s.cache (connection v); phase = asking })
  unfolding cache_done
  stores-IsCached s v c at =
      let e : (s.cache ++ connection v ∷ []) ++ [] ≡ s.cache ++ map connection (pending s.phase) =
        rw at (append-nil (s.cache ++ connection v ∷ [])) in
      record {
        bounded = c.bounded;
        running = c.running ∙ (rw at refl);
        counted = rw e c.counted;
        cached = rw e c.cached;
        flagged = c.flagged;
      }

  -- Every step of either thread keeps the cache in step with the queue of done tasks.
  pub Step-IsCached : (s t : State) → Step connection s t → IsCached s → IsCached t
  unfolding Monitor.unlock Monitor.wait
  Step-IsCached s t (stacks v e) c = rw e (stacks-IsCached s v c)
  Step-IsCached s t (unstacks e) c = rw e (unstacks-IsCached s c)
  Step-IsCached s t (collects p e) c = rw e (collects-IsCached s p c)
  Step-IsCached s t (joins e) c = rw e (joins-IsCached s c)
  Step-IsCached s t (begins v w kept at r e) c =
      let k = round-Kept s w kept (takes v) c (ap pending at) r in
      rw e (Kept-IsCached s w kept _ k.0 refl refl refl refl refl k.1.running)
  Step-IsCached s t (sleeps w kept at r e) c =
      let k = round-Kept s w kept waits c (ap pending at) r in
      rw e
        (Kept-IsCached s w kept _ k.0 refl refl refl refl (ap pending at) (k.1.running ∙ c.running))
  Step-IsCached s t (leaves w kept at r e) c =
      let k = round-Kept s w kept stops c (ap pending at) r in
      rw e (
        Kept-IsCached s w kept _ k.0 refl refl refl refl refl
          (k.1.running ∙ c.running ∙ ap at_work at))
  Step-IsCached s t (completes v w at r e) c = rw e (completes-IsCached s v w c at r)
  Step-IsCached s t (stores v at e) c = rw e (stores-IsCached s v c at)

  initial-IsCached : (m : Monitor) → m.state < limit → IsCached (initial m)
  unfolding data_alloc
  initial-IsCached m h = record {
    bounded = h;
    running = refl;
    counted = omega arith;
    cached = refl;
    flagged = inl refl;
  }

  Reach-keeps : (s t : State) → Reach connection s t → IsCached s → IsCached t
  Reach-keeps s _ here c = c
  Reach-keeps s _ (next {t} {u} r st) c = Step-IsCached t u st (Reach-keeps s t r c)

  pub Reach-IsCached :
      (m : Monitor) (t : State) → m.state < limit → Reach connection (initial m) t → IsCached t
  Reach-IsCached m t h r = Reach-keeps (initial m) t r (initial-IsCached m h)

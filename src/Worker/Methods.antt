-- ===== src/Worker/Methods.antt =====
-- classes/worker.c: the methods of `Worker`, as they are called on an object of the calling thread.
-- Only the object that the worker was made as has its data; a connection to it has none.
use pthreads.Base.{
  ℕ, ◌≡◌, Bool, true, false, not, ◌||◌, Option, none, some, if◌then◌else◌, Bool-cases, inl, inr,
}
use pthreads.Base.Int.{ℤ}
use pthreads.Worker.{Worker, add_task, dequeue_task, task_queue_size, collect_tasks}

-- `owns` is `PTHREADS_IN_CREATOR`, `connected` that the object has an original.
pub record Handle : Type 0 where
  pub owns : Bool
  pub connected : Bool
  pub worker_data : Option Worker

-- A method throws, reads through NULL, or leaves the worker's data and returns.
pub data Outcome (A : Type 0) : Type 0 where
  not_creator fault : Outcome A
  returned : Worker → A → Outcome A

abbrev pub refuses : Handle → Bool
refuses h = not h.owns || h.connected

abbrev pub on_data : {A : Type 0} → Option Worker → (Worker → Worker × A) → Outcome A
on_data none f = fault
on_data (some w) f = let r = f w in returned r.0 r.1

unfoldable pub stack : (result : ℕ) → Handle → ℕ → Outcome ℤ
stack result h work =
    if refuses h then not_creator else on_data h.worker_data (λ w. add_task result w work)

unfoldable pub unstack : (result : ℕ) → Handle → Outcome (Option ℕ)
unstack result h =
    if refuses h
    then not_creator
    else on_data h.worker_data (λ w. let r = dequeue_task result w in (r.0, r.1))

unfoldable pub get_stacked : (result : ℕ) → Handle → Outcome ℕ
get_stacked result h = on_data h.worker_data (λ w. task_queue_size result w)

unfoldable pub collector : (collectable : ℕ) → Bool
collector collectable = true

-- With no collector given, the method `collector` of the object is looked up before the check, and
-- released after the call; the first flag says that it was taken, the second that it was released.
unfoldable pub collect :
    (result : ℕ) → (given : Option (ℕ → Bool)) → (own : ℕ → Bool) → Handle → Outcome ℕ × Bool × Bool
collect result (some f) own h = (
  if refuses h then not_creator else on_data h.worker_data (λ w. collect_tasks result f w),
  false,
  false,
)
collect result none own h = (
  if refuses h then not_creator else on_data h.worker_data (λ w. collect_tasks result own w),
  true,
  not (refuses h),
)

-- On a connection the methods that change the worker throw, but `getStacked` reads through NULL, and
-- `collect` with no collector does not release the one that it looked up.
pub methods_connected :
    (result work : ℕ) (own : ℕ → Bool) (h : Handle)
    → h.connected ≡ true
    → h.worker_data ≡ none
    → (stack result h work ≡ not_creator)
      × (unstack result h ≡ not_creator)
      × (collect result none own h ≡ (not_creator, true, false))
      × (get_stacked result h ≡ fault)
unfolding stack unstack collect get_stacked
methods_connected result work own h c n = elim (Bool-cases h.owns) [
  | inl y ↦ (simp (y, c), simp (y, c), simp (y, c), simp n)
  | inr m ↦ (simp (m, c), simp (m, c), simp (m, c), simp n)
]

-- ===== src/Pool.antt =====
-- classes/pool.c: the methods of `Pool`. Workers are objects of the engine: creating one and
-- calling its methods is recorded, with the results that the code reads as arguments.
use pthreads.Base.{
  ℕ, zero, suc, ◌+◌, Bool, true, false, not, Option, none, some, List, [], ◌∷◌, ◌++◌, map, ◌==◌,
  ltb, leb, if◌then◌else◌, decr,
}
use pthreads.Base.Int.{ℤ, pos, negsuc}
use pthreads.Zend.Key.{Key, index}
use pthreads.Zend.Hash.{HashApi}
pub mod Resize
pub mod Submit
pub mod Tests

-- Workers, tasks and classes are named by numbers.
pub data Call : Type 0 where
  construct : (class worker : ℕ) → Call
  start shutdown : (worker : ℕ) → Call
  stack : (worker task : ℕ) → Call

pub data Error : Type 0 where
  not_a_worker_class not_initialized class_not_found : Error
  no_such_worker : ℕ → Error

pub data Outcome (A : Type 0) : Type 0 where
  ok : A → Outcome A
  throw : Error → Outcome A

-- signed comparison with a number that is not negative
abbrev pub ge : ℕ → ℤ → Bool
ge n (pos k) = leb k n
ge n (negsuc k) = true

abbrev pub lt : ℤ → ℕ → Bool
lt (pos k) n = ltb k n
lt (negsuc k) n = true

abbrev pub eq : ℕ → ℤ → Bool
eq n (pos k) = n == k
eq n (negsuc k) = false

-- What the engine answers while a worker is made: the class that a name stands for, the object
-- that is created, and whether the class has a constructor.
pub record Creation : Type 0 where
  pub lookup_class : ℕ → Option ℕ
  pub object : ℕ
  pub has_constructor : Bool

-- A worker that is found is shut down.
abbrev pub shut_one : Option ℕ → List Call → List Call
shut_one none calls = calls
shut_one (some w) calls = shutdown w ∷ calls

module _ (H : HashApi ℕ) where
  -- `workers` is `none` until it is an array. `calls` holds the newest call first.
  pub record Pool : Type 0 where
    pub size : ℤ
    pub class : Option ℕ
    pub workers : Option H.Table
    pub last : ℕ
    pub calls : List Call

  -- `extends_worker` is `instanceof_function`; as in the source the fields are set also when it is
  -- not and the exception is thrown.
  unfoldable pub construct_pool :
      ℤ → (class : ℕ) → (extends_worker : Bool) → Pool × Outcome (Unit {0})
  construct_pool size class extends_worker = (
    record { size = size; class = some class; workers = none; last = 0; calls = [] },
    (if extends_worker then ok tt else throw not_a_worker_class),
  )

  -- The loop of `resize`: the entry before the last count goes, until the count is as wished.
  unfoldable pub resize_loop : ℕ → ℤ → H.Table → List Call → Option (H.Table × List Call)
  resize_loop zero wish t calls = none
  resize_loop (suc fuel) wish t calls =
      let top = index (decr (H.num_elements t)) in
      let told = shut_one (H.find t top) calls in
      let t' = H.del t top in
      let again = resize_loop fuel wish t' told in
      if eq (H.num_elements t') wish then some (t', told) else again

  abbrev pub resized : Pool → ℤ → Option (H.Table × List Call) → Option Pool
  resized p wish none = none
  resized p wish (some (t, calls)) =
      some (record p { size = wish; workers = some t; calls = calls })

  resize_table : ℕ → Pool → ℤ → Option H.Table → Option Pool
  unfolding resize_loop
  resize_table fuel p wish none = some (record p { size = wish })
  resize_table fuel p wish (some t) =
      let shrunk = resized p wish (resize_loop fuel wish t p.calls) in
      if lt wish (H.num_elements t) then shrunk else some (record p { size = wish })

  unfoldable pub resize : ℕ → Pool → ℤ → Option Pool
  unfolding resize_table
  resize fuel p wish = resize_table fuel p wish p.workers

  abbrev pub array_or_new : Option H.Table → H.Table
  array_or_new none = H.empty
  array_or_new (some t) = t

  unfoldable pub create : Creation → Pool → H.Table → (class : ℕ) → Pool
  create c p t class =
      let made = if c.has_constructor then construct class c.object ∷ p.calls else p.calls in
      record p {
        workers = some (H.update t (index p.last) c.object);
        calls = start c.object ∷ made;
      }

  unfoldable pub hand_to : Pool → (worker task : ℕ) → Pool × Outcome ℕ
  hand_to p worker task =
      (record p { last = p.last + 1; calls = stack worker task ∷ p.calls }, ok p.last)

  unfoldable pub spawn : Creation → Pool → H.Table → (task : ℕ) → Option ℕ → Pool × Outcome ℕ
  unfolding create hand_to
  spawn c p t task none = (p, throw not_initialized)
  spawn c p t task (some class) = elim (c.lookup_class class) [
    | none ↦ (p, throw class_not_found)
    | some entry ↦ hand_to (create c p t entry) c.object task
  ]

  unfoldable pub select : Creation → Pool → H.Table → (task : ℕ) → Option ℕ → Pool × Outcome ℕ
  unfolding spawn
  select c p t task none = spawn c p t task p.class
  select c p t task (some worker) = hand_to p worker task

  -- The array is made if need be, and the index of the last worker starts again at the size.
  unfoldable pub wrap : Pool → Pool
  wrap p = record p {
    workers = some (array_or_new p.workers);
    last = if ge p.last p.size then 0 else p.last;
  }

  unfoldable pub submit : Creation → Pool → (task : ℕ) → Pool × Outcome ℕ
  unfolding wrap select
  submit c p task =
      let q = wrap p in
      let t = array_or_new q.workers in select c q t task (H.find t (index q.last))

  unfoldable pub submit_to : Pool → (worker task : ℕ) → Pool × Outcome ℕ
  submit_to p worker task =
      let t = array_or_new p.workers in
      let set = record p { workers = some t } in
      elim (H.find t (index worker)) [
        | none ↦ (set, throw (no_such_worker worker))
        | some w ↦ (record set { calls = stack w task ∷ p.calls }, ok worker)
      ]

  -- `collect_tasks` is what `pthreads_worker_collect_tasks` returns for a worker.
  sum_collected : (ℕ → ℕ) → List (Key × ℕ) → ℕ
  sum_collected collect_tasks [] = 0
  sum_collected collect_tasks ((k, w) ∷ es) = collect_tasks w + sum_collected collect_tasks es

  unfoldable pub collect : (collect_tasks : ℕ → ℕ) → Pool → ℕ
  unfolding sum_collected
  collect collect_tasks p = elim p.workers [
    | none ↦ 0
    | some t ↦ sum_collected collect_tasks (H.entries t)
  ]

  -- `zend_hash_apply` calls `pthreads_pool_shutdown_worker` for each entry, which has it removed,
  -- and `zend_hash_clean` leaves the table empty.
  shut_all : List (Key × ℕ) → List Call → List Call
  shut_all [] calls = calls
  shut_all ((k, w) ∷ es) calls = shut_all es (shutdown w ∷ calls)

  unfoldable pub shutdown_pool : Pool → Pool
  unfolding shut_all
  shutdown_pool p = elim p.workers [
    | none ↦ p
    | some t ↦ record p { workers = some H.empty; calls = shut_all (H.entries t) p.calls }
  ]

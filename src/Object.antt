-- ===== src/Object.antt =====
-- src/object.c, src/thread.h and the registry of objects in src/globals.c: how the objects of PHP
-- are made, connected to one another and freed. Objects that threads share have one thread-safe
-- object, which is counted by the objects of all threads that refer to it. An address is a number,
-- and NULL is 0; an access to memory that is not there is a fault, which is `none`. The lock of the
-- registry is always obtained. The properties of an object are those of Store.
use pthreads.Base.{
  ℕ, zero, suc, ◌-◌, Bool, true, false, not, ◌||◌, Option, none, some, List, [], ◌∷◌, ◌==◌,
  if◌then◌else◌, word, is_some, ◌≡◌, ◌≢◌, ◌>>=◌,
}
use pthreads.Zend.Key.{Key, index}
use pthreads.Zend.Hash.{HashApi}
pub mod Counts
pub mod Release
pub mod Connect
pub mod Resolve
pub mod Answer
pub mod Free
pub mod System
pub mod Tests

pub data Scope : Type 0 where
  thread_scope worker_scope threaded_scope : Scope

-- `pthreads_object_t`, without its monitor and its properties. `creator` is `creator.ls`.
pub record TsObject : Type 0 where
  pub refcount : ℕ
  pub scope : Scope
  pub creator : ℕ

-- `pthreads_zend_object_t`: `owner` is `owner.ls`, `worker_data` whether there is one, `properties`
-- the keys of the object's own property table, where it has one.
pub record ZendObject : Type 0 where
  pub ts_obj : ℕ
  pub owner : ℕ
  pub original_zobj : ℕ
  pub worker_data : Bool
  pub properties : Option (List Key)

-- The addresses that the allocator answers when an object is made, and the class's kind.
pub record Fresh : Type 0 where
  pub object : ℕ
  pub ts : ℕ
  pub kind : Scope

-- What `sscanf` answers: the end of the buffer before a number, no number, or the number.
pub data Scan : Type 0 where
  eof mismatch : Scan
  number : ℕ → Scan

pub data Unserialized : Type 0 where
  object : ℕ → Unserialized
  corrupted invalid destroyed : Unserialized

-- Storage after `calloc` or `memset`.
abbrev pub zeroed : ZendObject
zeroed = record { ts_obj = 0; owner = 0; original_zobj = 0; worker_data = false; properties = none }

-- `--count` on a `zend_ulong`
abbrev pub one_less : ℕ → ℕ
one_less zero = word - 1
one_less (suc n) = n

abbrev pub is_worker : Scope → Bool
is_worker worker_scope = true
is_worker _ = false

abbrev pub set_at : (ℕ → Option TsObject) → ℕ → Option TsObject → ℕ → Option TsObject
set_at m a o x = if a == x then o else m x

abbrev pub names : Option ℕ → ℕ → Bool
names none b = false
names (some c) b = c == b

-- `pthreads_ts_object_ctor`
unfoldable pub ts_object_ctor : ℕ → Scope → TsObject
ts_object_ctor thread scope = record { refcount = 1; scope = scope; creator = thread }

unfoldable pub base_ctor : ℕ → Scope → ℕ → ZendObject
base_ctor thread scope ts = record {
  ts_obj = ts;
  owner = thread;
  original_zobj = 0;
  worker_data = is_worker scope;
  properties = none;
}

module _ (H : HashApi ZendObject) (R : HashApi ℕ) where
  -- The thread-safe objects in memory, the registry of objects, and each thread's table `resolve`.
  pub record World : Type 0 where
    pub ts_objects : ℕ → Option TsObject
    pub objects : H.Table
    pub resolve : ℕ → R.Table

  abbrev pub object_at : World → ℕ → Option ZendObject
  object_at w b = H.find w.objects (index b)

  abbrev pub set_resolve : World → ℕ → R.Table → World
  set_resolve w thread t = record w { resolve = λ (x : ℕ). if thread == x then t else w.resolve x }

  -- `pthreads_globals_object_alloc`
  unfoldable pub object_alloc : ℕ → World → World
  object_alloc b w = record w { objects = H.update w.objects (index b) zeroed }

  unfoldable pub object_valid : World → ℕ → Bool
  object_valid w b = if b == 0 then false else is_some (object_at w b)

  unfoldable pub object_delete : World → ℕ → World × Bool
  object_delete w b =
      if b == 0
      then (w, false)
      else (record w { objects = H.del w.objects (index b) }, is_some (object_at w b))

  -- `pthreads_thread_ctor`, `pthreads_worker_ctor` and `pthreads_threaded_base_ctor`, by the scope
  unfoldable pub construct : ℕ → Fresh → World → World
  construct thread f w =
      let allocated = object_alloc f.object w in
      record allocated {
        ts_objects = set_at allocated.ts_objects f.ts (some (ts_object_ctor thread f.kind));
        objects = H.update allocated.objects (index f.object) (base_ctor thread f.kind f.ts);
      }

  -- `--ts_obj->refcount == 0` and `pthreads_ts_object_free`
  unfoldable pub release : ℕ → World → Option World
  release a w = do
    t ← w.ts_objects a
    let n = one_less t.refcount
    some (record w {
      ts_objects =
          set_at w.ts_objects a (if n == 0 then none else some (record t { refcount = n }));
    })

  -- `destination->ts_obj = source->ts_obj` and what follows it.
  unfoldable pub attach : ZendObject → ℕ → ZendObject → ℕ → World → Option World
  attach s source d destination w = do
    t ← w.ts_objects s.ts_obj
    some (record w {
      ts_objects = set_at w.ts_objects s.ts_obj (some (record t { refcount = suc t.refcount }));
      objects = H.update w.objects (index destination) (record d {
        ts_obj = s.ts_obj;
        original_zobj = if s.original_zobj == 0 then source else s.original_zobj;
        worker_data = false;
        properties = if is_some d.properties then some [] else none;
      });
    })

  -- `_pthreads_connect_nolock`; the flag is whether the result is SUCCESS.
  unfoldable pub connect_nolock : ℕ → ℕ → World → Option (World × Bool)
  connect_nolock source destination w =
      if (source == 0) || (destination == 0) then some (w, false) else do
        s ← object_at w source
        d ← object_at w destination
        w1 ← if d.ts_obj == 0 then some w else release d.ts_obj w
        w2 ← attach s source d destination w1
        some (w2, true)

  -- A new connection of the thread to an object of another.
  unfoldable pub new_connection : ℕ → ℕ → ZendObject → Fresh → World → Option (World × Option ℕ)
  new_connection thread address p f w = do
    connected ← connect_nolock address f.object (construct thread f w)
    c ← object_at connected.0 f.object
    some (
      set_resolve connected.0 thread
          (R.update (connected.0.resolve thread) (index c.ts_obj) f.object),
      some f.object,
    )

  -- `pthreads_globals_object_connect`: the object that the thread gets, or none where the address is
  -- not that of an object.
  unfoldable pub object_connect : ℕ → ℕ → Fresh → World → Option (World × Option ℕ)
  object_connect thread address f w = if not (object_valid w address) then some (w, none) else do
    p ← object_at w address
    if p.owner == thread
        then some (w, some address)
        else elim (R.find (w.resolve thread) (index p.ts_obj)) [
          | some c ↦ some (w, some c)
          | none ↦ new_connection thread address p f w
        ]

  -- `pthreads_base_free`, in the thread
  unfoldable pub base_free : ℕ → ℕ → World → Option World
  base_free thread b w = do
    o ← object_at w b
    let known = w.resolve thread
    let w1 =
        if names (R.find known (index o.ts_obj)) b
        then set_resolve w thread (R.del known (index o.ts_obj))
        else w
    w2 ← release o.ts_obj w1
    some (object_delete w2 b).0

  -- The address that `pthreads_threaded_serialize` prints.
  unfoldable pub serialize : World → ℕ → Option ℕ
  serialize w b = do o ← object_at w b; some (if o.original_zobj == 0 then b else o.original_zobj)

  -- `pthreads_threaded_unserialize`, from what `sscanf` answers.
  unfoldable pub unserialize : ℕ → Scan → Fresh → World → Option (World × Unserialized)
  unserialize thread mismatch f w = some (w, corrupted)
  unserialize thread eof f w = some (w, invalid)
  unserialize thread (number a) f w = if a == 0 then some (w, invalid) else do
    r ← object_connect thread a f w
    some (r.0, elim r.1 [ some c ↦ object c | none ↦ destroyed ])

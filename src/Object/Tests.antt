-- ===== src/Object/Tests.antt =====
-- Runs of the model of src/object.c: thread 1 makes an object, thread 2 connects to it, and thread 1
-- frees it.
use pthreads.Base.{ℕ, ◌≡◌, refl, true, false, Option, none, some, ◌↔◌, is_some}
use pthreads.Zend.Hash.{HashApi}
use pthreads.Zend.Table.{list_table}
use pthreads.Object.{
  ZendObject, World, Fresh, threaded_scope, object_at, construct, base_ctor, ts_object_ctor,
  object_alloc, object_connect, object_valid, new_connection, connect_nolock, release, attach,
  base_free, object_delete,
}
use pthreads.Object.Counts.{refs_to}
use pthreads.Object.Connect.{IsFresh}
use pthreads.Object.Resolve.{IsSound}
use pthreads.Object.Free.{Freed}
use pthreads.Object.System.{
  creates, receives, frees, start, Reach, here, next, Reach-IsSound, Reach-free,
  registered_early_faults,
}

abbrev objects : HashApi ZendObject
objects = list_table ZendObject

abbrev numbers : HashApi ℕ
numbers = list_table ℕ

abbrev first : Fresh
first = record { object = 10; ts = 100; kind = threaded_scope }

abbrev second : Fresh
second = record { object = 20; ts = 200; kind = threaded_scope }

abbrev third : Fresh
third = record { object = 30; ts = 300; kind = threaded_scope }

abbrev world : Option (World objects numbers × Option ℕ) → World objects numbers
world none = start objects numbers
world (some (w, r)) = w

abbrev world_of : Option (World objects numbers) → World objects numbers
world_of none = start objects numbers
world_of (some w) = w

abbrev made : World objects numbers
made = construct objects numbers 1 first (start objects numbers)

abbrev received : World objects numbers
received = world (object_connect objects numbers 2 10 second made)

abbrev freed : World objects numbers
freed = world_of (base_free objects numbers 1 10 received)

abbrev original : ZendObject
original = record {
  ts_obj = 100;
  owner = 1;
  original_zobj = 0;
  worker_data = false;
  properties = none;
}

abbrev connection : ZendObject
connection = record {
  ts_obj = 100;
  owner = 2;
  original_zobj = 10;
  worker_data = false;
  properties = none;
}

start-IsFresh : IsFresh objects numbers (start objects numbers) first
start-IsFresh = record {
  object_ne = λ e. cc e;
  ts_ne = λ e. cc e;
  new_object = refl;
  new_ts = refl;
}

made-IsFresh : IsFresh objects numbers made second
unfolding construct object_alloc base_ctor ts_object_ctor
made-IsFresh = record { object_ne = λ e. cc e; ts_ne = λ e. cc e; new_object = refl; new_ts = refl }

made-Reach : Reach objects numbers made
made-Reach = next here (creates 1 first start-IsFresh refl)

received-Reach : Reach objects numbers received
unfolding construct object_alloc base_ctor ts_object_ctor object_connect object_valid new_connection
    connect_nolock release attach
received-Reach = next made-Reach (receives 2 10 second (some 20) made-IsFresh refl)

freed-Reach : Reach objects numbers freed
unfolding construct object_alloc base_ctor ts_object_ctor object_connect object_valid new_connection
    connect_nolock release attach base_free object_delete
freed-Reach = next received-Reach (frees 10 original refl refl)

-- The connection has outlived its original: the thread-safe object is still there.
freed-held : is_some (freed.ts_objects 100) ≡ true
unfolding construct object_alloc base_ctor ts_object_ctor object_connect object_valid new_connection
    connect_nolock release attach base_free object_delete
freed-held = refl

freed-IsFresh : IsFresh objects numbers freed third
unfolding construct object_alloc base_ctor ts_object_ctor object_connect object_valid new_connection
    connect_nolock release attach base_free object_delete
freed-IsFresh = record {
  object_ne = λ e. cc e;
  ts_ne = λ e. cc e;
  new_object = refl;
  new_ts = refl;
}

freed-connection : object_at objects numbers freed 20 ≡ some connection
unfolding construct object_alloc base_ctor ts_object_ctor object_connect object_valid new_connection
    connect_nolock release attach base_free object_delete
freed-connection = refl

made-original : object_at objects numbers made 10 ≡ some original
unfolding construct object_alloc base_ctor ts_object_ctor
made-original = refl

Reach-IsSound_example : IsSound objects numbers freed
Reach-IsSound_example = Reach-IsSound objects numbers freed freed-Reach

Reach-free_example :
    (w2 : World objects numbers) × (base_free objects numbers 2 20 freed ≡ some w2)
    × Freed objects numbers freed 20 connection freed-connection w2
    × ((w2.ts_objects 100 ≡ none) ↔ (refs_to objects numbers w2 100 ≡ 0))
Reach-free_example = Reach-free objects numbers freed 20 connection freed-Reach freed-connection

early-IsFresh : IsFresh objects numbers (object_alloc objects numbers 20 made) third
unfolding construct object_alloc base_ctor ts_object_ctor
early-IsFresh = record {
  object_ne = λ e. cc e;
  ts_ne = λ e. cc e;
  new_object = refl;
  new_ts = refl;
}

registered_early_faults_example :
    object_connect objects numbers 3 20 third (object_alloc objects numbers 20 made) ≡ none
registered_early_faults_example =
    registered_early_faults objects numbers made 3 second third made-Reach (λ e. cc e) made-IsFresh
      early-IsFresh

-- ===== src/Store/Values.antt =====
-- The values of the engine and what src/store_types.h stores of them, as src/store.c takes them
-- apart. Integers and doubles are 64-bit patterns; objects, strings and threads are named by their
-- addresses.
use pthreads.Base.{ℕ, Bool, true, false, ◌&&◌, ◌||◌, Option, some, List, ◌==◌}

-- `permanent` is the flag `IS_STR_PERMANENT`.
pub record Text : Type 0 where
  pub address : ℕ
  pub bytes : List ℕ
  pub permanent : Bool

pub record Socket : Type 0 where
  pub bsd_socket : ℕ
  pub kind : ℕ
  pub error : ℕ
  pub blocking : ℕ

-- The classes that `pthreads_store_create` tells apart. `streamed` says that the socket belongs to
-- a stream.
pub data Object : Type 0 where
  enum : (class member : List ℕ) → Object
  closure : ℕ → Object
  threaded : ℕ → Object
  socket : Socket → (streamed : Bool) → Object
  other : ℕ → Object

-- `unset` stands for a zval that is undefined or was never assigned.
pub data Zval : Type 0 where
  unset null no yes_value : Zval
  long : ℕ → Zval
  double : ℕ → Zval
  string : Text → Zval
  array : ℕ → Zval
  object : Object → Zval
  resource : ℕ → Zval
  indirect : Zval → Zval
  reference : Zval → Zval

-- `pthreads_storage`
pub data Storage : Type 0 where
  closure_of : (closure owner : ℕ) → Storage
  threaded_of : ℕ → Storage
  resource_of : (resource owner : ℕ) → Storage
  socket_of : Socket → Storage
  enum_of : (class member : List ℕ) → Storage
  string_of : Text → (owner : ℕ) → Storage

-- The zvals of the shared table: simple values, strings that any thread may use, and storages.
pub data Zstorage : Type 0 where
  null no yes_value : Zstorage
  long : ℕ → Zstorage
  double : ℕ → Zstorage
  plain : Text → Zstorage
  ptr : Storage → Zstorage

-- What the calling thread and the rest of the process answer: the thread, which objects exist and
-- which share their thread-safe object, the original of a connection, and the engine's ways to make
-- the local counterpart of a stored value.
pub record Env : Type 0 where
  pub thread : ℕ
  pub valid : ℕ → Bool
  pub ts_of : ℕ → ℕ
  pub original_of : ℕ → Option ℕ
  pub connect : ℕ → Option ℕ
  pub copy_closure : ℕ → Option ℕ
  pub find_case : List ℕ → List ℕ → Option ℕ
  pub find_resource : ℕ → Option ℕ
  pub copy_text : ℕ → ℕ
  pub to_threaded : ℕ → ℕ
  pub handle_numeric : List ℕ → Option ℕ
  pub to_bytes : Zval → List ℕ

-- `pthreads_store_retain_in_local_cache`
unfoldable pub retain_in_local_cache : Zval → Bool
retain_in_local_cache (object (Object.threaded a)) = true
retain_in_local_cache (object (Object.closure a)) = true
retain_in_local_cache (object (Object.socket s streamed)) = true
retain_in_local_cache (string s) = true
retain_in_local_cache _ = false

unfoldable pub valid_local_cache_item : Zval → Bool
valid_local_cache_item (indirect v) = false
valid_local_cache_item _ = true

unfoldable pub storage_is_cacheable : Option Zstorage → Bool
storage_is_cacheable (some (ptr (threaded_of a))) = true
storage_is_cacheable (some (ptr (closure_of c o))) = true
storage_is_cacheable (some (ptr (socket_of s))) = true
storage_is_cacheable (some (ptr (string_of s o))) = true
storage_is_cacheable _ = false

-- The conditions under which `pthreads_store_sync_local_properties` keeps a cached value.
unfoldable pub still_matches : Env → Zstorage → Zval → Bool
still_matches e (ptr (threaded_of a)) (object (Object.threaded b)) =
    a == b || (e.valid a && (e.ts_of a == e.ts_of b))
still_matches e (ptr (closure_of c o)) (object (Object.closure d)) = c == d
still_matches e (ptr (socket_of s)) (object (Object.socket t streamed)) =
    s.bsd_socket == t.bsd_socket
still_matches e (ptr (string_of s owner)) (string t) =
    (owner == e.thread) && (s.address == t.address)
still_matches e _ _ = false

-- `ZVAL_DEINDIRECT`
abbrev pub deindirect : Zval → Zval
deindirect (indirect v) = v
deindirect v = v

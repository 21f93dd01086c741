-- ===== src/Store/Convert.antt =====
-- Values into the shared table and out of it: `pthreads_store_create`, `pthreads_store_save_zval`,
-- `pthreads_store_convert`, `pthreads_store_restore_zval_ex`, the copies for `merge` and for a
-- connection that goes away. Allocation succeeds.
use pthreads.Base.{
  ℕ, Bool, true, false, not, Option, none, some, List, [], ◌∷◌, ◌==◌, if◌then◌else◌,
}
use pthreads.Store.Values.{
  Text, Socket, Object, enum, closure, threaded, socket, other, Zval, unset, string, array, object,
  resource, indirect, reference, Storage, closure_of, threaded_of, resource_of, socket_of, enum_of,
  string_of, Zstorage, plain, ptr, Env, storage_is_cacheable,
}
pub mod RoundTrip

-- A copy in persistent memory, unless the string is permanent.
unfoldable pub save_string : Env → Text → Text
save_string e s =
    if s.permanent then s else record s { address = e.copy_text s.address; permanent = false }

unfoldable pub restore_string : Env → Text → Text
restore_string e s =
    if s.permanent then s else record s { address = e.copy_text s.address; permanent = false }

-- A connection is stored as the object that it is connected to.
unfoldable pub create_object : Env → (source : ℕ) → Object → Option Storage
create_object e source (enum c m) = some (enum_of c m)
create_object e source (closure c) = some (closure_of c source)
create_object e source (threaded a) = elim (e.original_of a) [
  | none ↦ some (threaded_of a)
  | some o ↦ some (threaded_of o)
]
create_object e source (socket s streamed) = if streamed then none else some (socket_of s)
create_object e source (other a) = none

unfoldable pub create : Env → (source : ℕ) → Zval → Option Storage
unfolding create_object
create e source (indirect v) = create e source v
create e source (reference v) = create e source v
create e source (string s) = some (string_of s source)
create e source (resource r) = some (resource_of r e.thread)
create e source (object o) = create_object e source o
create e source _ = none

abbrev pub as_ptr : Option Storage → Option Zstorage
as_ptr none = none
as_ptr (some s) = some (ptr s)

-- `source` is the thread that owns the object that is written to.
unfoldable pub save_zval : Env → (source : ℕ) → Zval → Option Zstorage
unfolding create
save_zval e source Zval.null = some Zstorage.null
save_zval e source Zval.no = some Zstorage.no
save_zval e source Zval.yes_value = some Zstorage.yes_value
save_zval e source (Zval.long n) = some (Zstorage.long n)
save_zval e source (Zval.double d) = some (Zstorage.double d)
save_zval e source (string s) =
    if s.permanent then some (plain s) else as_ptr (create e source (string s))
save_zval e source v = as_ptr (create e source v)

-- A stored object that no longer exists throws, and gives null. For an enum case that is not found
-- an exception is thrown, and the result is left as it was.
unfoldable pub convert : Env → Storage → Zval
unfolding restore_string
convert e (string_of s owner) = if owner == e.thread then string s else string (restore_string e s)
convert e (resource_of r owner) =
    if owner == e.thread
    then resource r
    else elim (e.find_resource r) [ none ↦ resource r | some found ↦ resource found ]
convert e (closure_of c owner) = elim (e.copy_closure c) [
  | none ↦ Zval.null
  | some local ↦ object (closure local)
]
convert e (threaded_of a) = elim (e.connect a) [
  | none ↦ Zval.null
  | some local ↦ object (threaded local)
]
convert e (socket_of s) = object (socket s false)
convert e (enum_of c m) = elim (e.find_case c m) [ none ↦ unset | some member ↦ object (enum c m) ]

-- The value, and whether its storage is one that connections cache.
unfoldable pub restore_zval_ex : Env → Zstorage → Zval × Bool
unfolding restore_string convert
restore_zval_ex e Zstorage.null = (Zval.null, false)
restore_zval_ex e Zstorage.no = (Zval.no, false)
restore_zval_ex e Zstorage.yes_value = (Zval.yes_value, false)
restore_zval_ex e (Zstorage.long n) = (Zval.long n, false)
restore_zval_ex e (Zstorage.double d) = (Zval.double d, false)
restore_zval_ex e (plain s) = (string (restore_string e s), false)
restore_zval_ex e (ptr s) = (convert e s, storage_is_cacheable (some (ptr s)))

unfoldable pub restore_zval : Env → Zstorage → Zval
unfolding restore_zval_ex
restore_zval e z = (restore_zval_ex e z).0

-- Strings that one thread owns are copied for good, since the destination may outlive it.
unfoldable pub hard_copy_storage : Env → Zstorage → Zstorage
unfolding save_string
hard_copy_storage e (ptr (string_of s owner)) = plain (save_string e s)
hard_copy_storage e (plain s) = plain (save_string e s)
hard_copy_storage e z = z

-- `pthreads_store_persist_local_properties` on one entry, when a connection is freed.
unfoldable pub persist : Env → Zstorage → Zstorage
unfolding save_string
persist e (ptr (string_of s owner)) =
    if owner == e.thread then plain (save_string e s) else ptr (string_of s owner)
persist e z = z

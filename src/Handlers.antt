-- ===== src/Handlers.antt =====
-- src/handlers.c: how PHP code reads, writes, asks for and unsets the properties and the elements of a
-- shared object, over the operations of Store. Classes are the engine's: their magic methods are PHP
-- code, which gets the object and leaves it changed.
use pthreads.Base.{
  ℕ, Bool, true, false, not, Option, none, some, List, [], ◌∷◌, ◌==◌, if◌then◌else◌, ◌&&◌, ◌||◌,
}
use pthreads.Zend.Key.{Key, same_bytes}
use pthreads.Zend.Hash.{HashApi}
use pthreads.Store.Values.{Text, Zval, unset, null, string, Zstorage, Env}
use pthreads.Store.{State, Query, Fetch, bp_var_r, bp_var_is, bp_var_w, delete, isset}
use pthreads.Store.Access.{
  Read, got, missing, refused, read, Write, written, failed, unsupported, write, count,
}
use pthreads.Store.Whole.{tohash}
pub mod Properties
pub mod Tests

-- `IN_GET`, `IN_SET`, `IN_UNSET` and `IN_ISSET`
pub data Access : Type 0 where
  in_get in_set in_unset in_isset : Access

abbrev pub same_access : Access → Access → Bool
same_access in_get in_get = true
same_access in_set in_set = true
same_access in_unset in_unset = true
same_access in_isset in_isset = true
same_access _ _ = false

-- `zend_get_property_info`: a property that may not be accessed from here, one that the class does not
-- declare, or one that it does, with its mangled name.
pub data Info : Type 0 where
  wrong dynamic : Info
  declared : (mangled : Text) → (static : Bool) → Info

-- Of these, the first is a warning and the others are exceptions.
pub data Error : Type 0 where
  undefined_property uninitialized_property cannot_assign : Error

-- A value, less where nothing was found.
abbrev pub answer : Read → Option Zval
answer (got unset) = none
answer (got v) = some v
answer missing = none
answer refused = none

-- The name under which the store keeps a property.
abbrev pub place_of : Info → Text → Option Text
place_of wrong member = none
place_of dynamic member = some member
place_of (declared mangled static) member = if static then some member else some mangled

module _ (S : HashApi Zstorage) (L : HashApi Zval) where
  -- An object as the calling thread has it, with its property guards and the errors so far.
  pub record Obj : Type 0 where
    pub store : State S L
    pub guard : Access → List ℕ → Bool
    pub errors : List Error

  -- A class: its magic methods, which get the member and the value to be set, its properties,
  -- `zend_verify_property_type`, which may convert a value, and `zend_is_true`.
  pub record Class : Type 0 where
    pub magic : Access → Option (Text → Option Zval → Obj → Obj × Zval)
    pub info : Text → Info
    pub verify : Info → Zval → Option Zval
    pub is_true : Zval → Bool

  abbrev pub set_guard : Access → List ℕ → Bool → Obj → Obj
  set_guard a member b o = record o {
    guard = λ (x : Access) (m : List ℕ).
        if same_access a x && same_bytes member m then b else o.guard x m;
  }

  abbrev pub raise : Error → Obj → Obj
  raise x o = record o { errors = x ∷ o.errors }

  abbrev pub unless_guarded :
      Bool
      → Option (Text → Option Zval → Obj → Obj × Zval)
      → Option (Text → Option Zval → Obj → Obj × Zval)
  unless_guarded guarded none = none
  unless_guarded guarded (some f) = if guarded then none else some f

  -- The magic method that is called, unless it is running for the member already.
  abbrev pub magic_for :
      Class → Obj → Access → Text → Option (Text → Option Zval → Obj → Obj × Zval)
  magic_for c o a member = unless_guarded (o.guard a member.bytes) (c.magic a)

  -- The call, with the guard set meanwhile.
  abbrev pub guarded_call :
      (Text → Option Zval → Obj → Obj × Zval) → Access → Text → Option Zval → Obj → Obj × Zval
  guarded_call f a member value o =
      let called = f member value (set_guard a member.bytes true o) in
      (set_guard a member.bytes false called.0, called.1)

  module _ (e : Env) (locks : Bool) (rebuilt : L.Table) where
    unfoldable pub count_properties : Obj → ℕ
    count_properties o = count S L locks o.store

    -- `pthreads_read_debug`: the temporary table starts empty.
    unfoldable pub read_debug : (defaults : List (Key × Zval)) → Obj → Obj
    read_debug defaults o = record o {
      store = tohash S L e locks rebuilt defaults o.store (some L.empty);
    }

    -- `pthreads_read_properties`: the object's own table, `none` for the table to fill.
    unfoldable pub read_properties : (defaults : List (Key × Zval)) → Obj → Obj
    read_properties defaults o = record o {
      store = tohash S L e locks rebuilt defaults o.store none;
    }

    unfoldable pub read_dimension : Zval → Fetch → Obj → Obj × Option Zval
    read_dimension member fetch o =
        let r = read S L e locks rebuilt o.store member fetch in
        (record o { store = r.0 }, answer r.1)

    abbrev pub is_quiet : Fetch → Bool
    is_quiet bp_var_is = true
    is_quiet _ = false

    -- What is read, or the value NULL and an error.
    abbrev pub found_or : Error → Fetch → Obj → Option Zval → Obj × Zval
    found_or x fetch o (some v) = (o, v)
    found_or x fetch o none = (if is_quiet fetch then o else raise x o, null)

    unfoldable pub read_stored : Error → Text → Fetch → Obj → Obj × Zval
    unfolding read_dimension
    read_stored x key fetch o =
        let r = read_dimension (string key) fetch o in found_or x fetch r.0 r.1

    abbrev pub read_error : Info → Error
    read_error (declared mangled static) =
        if static then undefined_property else uninitialized_property
    read_error _ = undefined_property

    abbrev pub read_at : Info → Fetch → Obj → Option Text → Obj × Zval
    read_at i fetch o none = (o, null)
    read_at i fetch o (some key) = read_stored (read_error i) key fetch o

    abbrev pub read_by :
        Class → Text → Fetch → Obj → Option (Text → Option Zval → Obj → Obj × Zval) → Obj × Zval
    read_by c member fetch o (some f) = guarded_call f in_get member none o
    read_by c member fetch o none =
        read_at (c.info member) fetch o (place_of (c.info member) member)

    unfoldable pub read_property : Class → Text → Fetch → Obj → Obj × Zval
    read_property c member fetch o = read_by c member fetch o (magic_for c o in_get member)

    abbrev pub assigned : Write S L → Obj → Obj
    assigned written o = o
    assigned _ o = raise cannot_assign o

    unfoldable pub write_dimension : (next : ℕ) → Option Zval → Zval → Obj → Obj
    write_dimension next member value o =
        let w = write S L e locks rebuilt next o.store member value false in
        assigned w.1 (record o { store = w.0 })

    -- The value that is stored: only a declared property that is not static is checked.
    abbrev pub checked : Class → Info → Zval → Option Zval
    checked c (declared mangled static) value =
        if static then some value else c.verify (declared mangled static) value
    checked c _ value = some value

    abbrev pub write_at : (next : ℕ) → Obj → Option Text → Option Zval → Obj
    write_at next o none v = o
    write_at next o (some key) none = o
    write_at next o (some key) (some v) = write_dimension next (some (string key)) v o

    abbrev pub write_by :
        Class
        → (next : ℕ) → Text
        → Zval
        → Obj
        → Option (Text → Option Zval → Obj → Obj × Zval)
        → Obj
    write_by c next member value o (some f) = (guarded_call f in_set member (some value) o).0
    write_by c next member value o none =
        write_at next o (place_of (c.info member) member) (checked c (c.info member) value)

    unfoldable pub write_property : Class → (next : ℕ) → Text → Zval → Obj → Obj
    write_property c next member value o =
        write_by c next member value o (magic_for c o in_set member)

    unfoldable pub has_dimension : Zval → Query → Obj → Bool
    has_dimension member q o = isset S L e locks o.store member q

    -- What the code takes as the result: none where `isset` was never assigned.
    abbrev pub truth : Class → Zval → Option Bool
    truth c unset = none
    truth c v = some (c.is_true v)

    abbrev pub has_at : Query → Obj → Option Text → Bool
    has_at q o none = false
    has_at q o (some key) = has_dimension (string key) q o

    abbrev pub has_by :
        Class
        → Text
        → Query
        → Obj
        → Option (Text → Option Zval → Obj → Obj × Zval)
        → Obj × Option Bool
    has_by c member q o (some f) =
        let called = guarded_call f in_isset member none o in (called.0, truth c called.1)
    has_by c member q o none = (o, some (has_at q o (place_of (c.info member) member)))

    unfoldable pub has_property : Class → Text → Query → Obj → Obj × Option Bool
    has_property c member q o = has_by c member q o (magic_for c o in_isset member)

    unfoldable pub unset_dimension : Zval → Obj → Obj
    unset_dimension member o = record o { store = (delete S L e locks o.store member).0 }

    abbrev pub unset_at : Obj → Option Text → Obj
    unset_at o none = o
    unset_at o (some key) = unset_dimension (string key) o

    abbrev pub unset_by : Class → Text → Obj → Option (Text → Option Zval → Obj → Obj × Zval) → Obj
    unset_by c member o (some f) = (guarded_call f in_unset member none o).0
    unset_by c member o none = unset_at o (place_of (c.info member) member)

    unfoldable pub unset_property : Class → Text → Obj → Obj
    unset_property c member o = unset_by c member o (magic_for c o in_unset member)

-- `pthreads_compare_objects`, by the thread-safe objects.
unfoldable pub compare_objects : (left right : ℕ) → ℕ
compare_objects left right = if left == right then 0 else 1

-- ===== src/Prepare/Methods.antt =====
-- src/prepare.c: the methods of a copied class, and the functions among them that the engine calls by
-- themselves.
use Prim.Native.String.{String}
use Prim.Native.Char.{code}
use pthreads.Base.{
  ℕ, ◌≡◌, ◌≢◌, refl, Bool, not, ◌&&◌, Option, none, some, List, [], ◌∷◌, ◌==◌, if◌then◌else◌,
  is_some, ==_ne,
}
use pthreads.Zend.Key.{Key, name}
use pthreads.Zend.Hash.{HashApi}
use pthreads.Copy.{ZString}
use pthreads.Prepare.Classes.{
  Outcome, done, ◌>>=◌, each, Slot, constructor, clone, get_magic, set_magic, unset_magic,
  isset_magic, call, callstatic, serialize_magic, unserialize_magic, tostring, destructor,
  debug_info, IteratorSlot, new_iterator, valid, current, key, next, rewind, ArraySlot, offset_get,
  offset_exists, offset_set, offset_unset, PropertyInfo, ClassConstant, Class, Thread, Source,
  modify, copy_into,
}

abbrev pub codes : String → List ℕ
codes String.[] = []
codes (String.◌∷◌ c s) = code c ∷ codes s

-- The name under which a function is looked up; `__debuginfo` is not.
abbrev pub slot_name : Slot → Option (List ℕ)
slot_name constructor = some (codes "__construct")
slot_name clone = some (codes "__clone")
slot_name get_magic = some (codes "__get")
slot_name set_magic = some (codes "__set")
slot_name unset_magic = some (codes "__unset")
slot_name isset_magic = some (codes "__isset")
slot_name call = some (codes "__call")
slot_name callstatic = some (codes "__callstatic")
slot_name serialize_magic = some (codes "__serialize")
slot_name unserialize_magic = some (codes "__unserialize")
slot_name tostring = some (codes "__tostring")
slot_name destructor = some (codes "__destruct")
slot_name debug_info = none

abbrev pub iterator_name : IteratorSlot → List ℕ
iterator_name new_iterator = codes "new_iterator"
iterator_name valid = codes "valid"
iterator_name current = codes "current"
iterator_name key = codes "key"
iterator_name next = codes "next"
iterator_name rewind = codes "rewind"

abbrev pub array_name : ArraySlot → List ℕ
array_name offset_get = codes "offsetget"
array_name offset_exists = codes "offsetexists"
array_name offset_set = codes "offsetset"
array_name offset_unset = codes "offsetunset"

abbrev pub or_else : {A : Type 0} → Option A → Option A → Option A
or_else none o = o
or_else (some a) o = some a

module _ (F : HashApi ZString) (R : HashApi ℕ) (P : HashApi PropertyInfo)
    (K : HashApi ClassConstant) where
  -- `FIND_AND_SET`
  abbrev pub find_and_set : R.Table → Option ℕ → Option (List ℕ) → Option ℕ
  find_and_set methods old none = old
  find_and_set methods old (some n) =
      if not (is_some old) && not (R.num_elements methods == 0)
      then R.find methods (name n)
      else old

  abbrev pub find_constructor : R.Table → Option ℕ → ZString → Option ℕ
  find_constructor methods old class_name =
      if not (is_some old) && not (R.num_elements methods == 0)
      then or_else (R.find methods (name (codes "__construct")))
          (R.find methods (name class_name.bytes))
      else old

  -- Whether the slot is that of the constructor.
  abbrev pub find_slot : Class F R P K → Slot → Option ℕ
  find_slot c constructor = find_constructor c.function_table (c.magic constructor) c.class_name
  find_slot c other = find_and_set c.function_table (c.magic other) (slot_name other)

  -- `SET_FUNC_REF` for each function behind `Iterator`, or `ArrayAccess` since PHP 8.2.
  unfoldable pub prepare_class_interceptors : Bool → Class F R P K → Class F R P K → Class F R P K
  prepare_class_interceptors before_82 candidate prepared = record prepared {
    magic = find_slot prepared;
    iterator_funcs =
        if is_some candidate.iterator_funcs
        then some (λ i. R.find prepared.function_table (name (iterator_name i)))
        else none;
    arrayaccess_funcs =
        if before_82
        then prepared.arrayaccess_funcs
        else (if is_some candidate.arrayaccess_funcs
            then some (λ i. R.find prepared.function_table (name (array_name i)))
            else none);
  }

  unfoldable pub prepare_class_handlers : Class F R P K → Class F R P K → Class F R P K
  prepare_class_handlers candidate prepared = record prepared {
    class_handlers = candidate.class_handlers;
  }

  abbrev pub add_method : Key → ℕ → Class F R P K → Class F R P K
  add_method k c x = record x { function_table = R.update x.function_table k c }

  -- One round of the loop in `prepare_class_function_table`, for the copy at `p`.
  unfoldable pub prepare_method :
      Source F R P K → ℕ → Key × ℕ → Thread F R P K → Outcome (Thread F R P K)
  prepare_method w p (k, f) s =
      if is_some (R.find (s.classes p).function_table k)
      then done s
      else (do (t, c) ← copy_into F R P K w f s; done (modify F R P K p (add_method k c) t))

  unfoldable pub prepare_class_function_table :
      Source F R P K → Class F R P K → ℕ → Thread F R P K → Outcome (Thread F R P K)
  prepare_class_function_table w candidate p =
      each (prepare_method w p) (R.entries candidate.function_table)

  -- Where there is no `__construct`, the method under the name of the class becomes the constructor,
  -- and `__debuginfo` is not set.
  pub constructor_by_name :
      (before_82 : Bool) (c q : Class F R P K) (f : ℕ)
      → q.magic constructor ≡ none
      → R.num_elements q.function_table ≢ 0
      → R.find q.function_table (name (codes "__construct")) ≡ none
      → R.find q.function_table (name q.class_name.bytes) ≡ some f
      → ((prepare_class_interceptors before_82 c q).magic constructor ≡ some f)
        × ((prepare_class_interceptors before_82 c q).magic debug_info ≡ q.magic debug_info)
  unfolding prepare_class_interceptors
  constructor_by_name before_82 c q f unset_yet some_methods no_construct named =
      (rw (unset_yet, ==_ne some_methods, no_construct, named) refl, refl)

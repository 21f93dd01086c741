-- ===== src/Prepare/Properties.antt =====
-- src/prepare.c: the declared properties of a copied class, with their types and default values.
use pthreads.Base.{
  ℕ, leb, ◌≡◌, refl, Bool, true, false, not, ◌&&◌, Option, none, some, List, [], ◌++◌, map, ◌==◌,
  take, drop, if◌then◌else◌, is_some, length,
}
use mathlib.Core.Option.{map as map_option}
use pthreads.Zend.Key.{Key}
use pthreads.Zend.Hash.{HashApi}
use pthreads.Copy.{
  Engine, ZString, Value, null, string, array, threaded, closure, foreign, resource, constant_ast,
  reference, copy_string, copy_zval,
}
use pthreads.Copy.Function.{ZendType, builtin, named, types, Types, no_types, add_type}
use pthreads.Prepare.Traits.{write_pointer, allocate}
use pthreads.Prepare.Classes.{
  Outcome, done, ◌>>=◌, each, or_dangling, failed, dangling, PropertyInfo, ClassConstant, Class,
  Thread, Source,
}
use pthreads.Prepare.Entry.{Recur, Change, change}

abbrev pub is_at : Option ℕ → ℕ → Bool
is_at none x = false
is_at (some a) x = a == x

-- The loop over the types of a property: names are copied, also in a list, but no list inside a list.
abbrev pub copy_single_type : Engine → ZendType → ZendType
copy_single_type e (builtin mask) = builtin mask
copy_single_type e (named mask s) = named mask (copy_string e s)
copy_single_type e (types mask ts) = types mask ts

abbrev pub copy_single_types : Engine → Types → Types
copy_single_types e no_types = no_types
copy_single_types e (add_type t ts) = add_type (copy_single_type e t) (copy_single_types e ts)

unfoldable pub copy_property_type : Engine → ZendType → ZendType
copy_property_type e (types mask ts) = types mask (copy_single_types e ts)
copy_property_type e t = copy_single_type e t

-- A list inside the list is left as it is, in the other thread's memory.
pub copy_property_type-nested :
    (e : Engine) (mask mask' : ℕ) (us : Types)
    → copy_property_type e (types mask (add_type (types mask' us) no_types))
      ≡ types mask (add_type (types mask' us) no_types)
unfolding copy_property_type
copy_property_type-nested e mask mask' us = refl

module _ (F : HashApi ZString) (R : HashApi ℕ) (P : HashApi PropertyInfo)
    (K : HashApi ClassConstant) where
  -- The class of a property, or of a constant, as the thread has it.
  unfoldable pub owner_copy :
      Recur F R P K → ℕ → ℕ → Option ℕ → Thread F R P K → Outcome (Thread F R P K × Option ℕ)
  owner_copy recur x p owner s = if is_at owner x then done (s, some p) else recur owner true s

  abbrev pub copied_info : Source F R P K → Option ℕ → PropertyInfo → PropertyInfo
  copied_info w owner i = record i {
    property_name = copy_string w.engine i.property_name;
    owner = owner;
    property_type = copy_property_type w.engine i.property_type;
    property_comment =
        if w.inherit_comments then map_option (copy_string w.engine) i.property_comment else none;
  }

  -- `zend_hash_str_add_ptr`, which leaves what is there.
  abbrev pub add_property :
      Source F R P K → Key → Option ℕ → PropertyInfo → Class F R P K → Class F R P K
  add_property w k r i q = record q {
    properties_info =
        if is_some (P.find q.properties_info k)
        then q.properties_info
        else P.update q.properties_info k (copied_info w r i);
  }

  abbrev pub set_properties :
      List Value → List (Option PropertyInfo) → Class F R P K → Class F R P K
  set_properties vs slots q = record q { default_properties = vs; properties_table = slots }

  abbrev pub drop_defaults : Class F R P K → Class F R P K
  drop_defaults q = record q { default_properties = [] }

  unfoldable pub prepare_property :
      Recur F R P K → Source F R P K → ℕ → ℕ → Key × PropertyInfo → Change F R P K
  prepare_property recur w x p (k, i) s = do
    (t, r) ← owner_copy recur x p i.owner s
    change F R P K p (add_property w k r i) t

  -- `Z_REFCOUNTED`
  abbrev pub refcounted : Source F R P K → Value → Bool
  refcounted w (string s) = not s.interned
  refcounted w (array persistent es) = w.counted_array es
  refcounted w (threaded a) = true
  refcounted w (closure f) = true
  refcounted w (foreign o) = true
  refcounted w (resource r) = true
  refcounted w (constant_ast a) = true
  refcounted w (reference v) = true
  refcounted w v = false

  -- What is not counted is left as it is.
  unfoldable pub copy_default : Source F R P K → Value → Value
  copy_default w v =
      if refcounted w v
      then (let copied = copy_zval w.engine v v in if copied.0 then copied.1 else null)
      else v

  unfoldable pub set_property_slot :
      ℕ → Key × PropertyInfo → List (Option PropertyInfo) → Outcome (List (Option PropertyInfo))
  set_property_slot p (k, i) slots =
      if is_at i.owner p && not i.is_static
      then or_dangling (write_pointer slots i.slot (some i))
      else done slots

  -- The first `n` slots of the parent over those of the class.
  unfoldable pub copy_parent_slots :
      ℕ
      → List (Option PropertyInfo)
      → List (Option PropertyInfo)
      → Outcome (List (Option PropertyInfo))
  copy_parent_slots n from slots =
      if leb n (length from) && leb n (length slots)
      then done (take n from ++ drop n slots)
      else failed dangling

  unfoldable pub parent_slots :
      Thread F R P K → Option ℕ → List (Option PropertyInfo) → Outcome (List (Option PropertyInfo))
  parent_slots s none slots = done slots
  parent_slots s (some a) slots =
      copy_parent_slots (length (s.classes a).default_properties) (s.classes a).properties_table
        slots

  -- `properties_info_table` of a linked class
  unfoldable pub prepare_property_slots :
      Class F R P K → ℕ → Thread F R P K → Outcome (List (Option PropertyInfo))
  prepare_property_slots c p s = do
    let q = s.classes p
    let blank = allocate none (length c.default_properties)
    slots ← parent_slots s q.parent blank
    each (set_property_slot p) (P.entries q.properties_info) slots

  abbrev pub default_count : Class F R P K → ℕ
  default_count c = length c.default_properties

  unfoldable pub prepare_class_property_table :
      Recur F R P K → Source F R P K → ℕ → ℕ → Change F R P K
  prepare_class_property_table recur w x p s = do
    let c = s.classes x
    s1 ← each (prepare_property recur w x p) (P.entries c.properties_info) s
    if default_count c == 0 then change F R P K p drop_defaults s1 else (do
      slots ← if (s1.classes p).linked then prepare_property_slots c p s1 else done []
      change F R P K p (set_properties (map (copy_default w) c.default_properties) slots) s1)

  -- A default value that is an interned string stays the other thread's string.
  pub copy_default-interned :
      (w : Source F R P K) (s : ZString) → s.interned ≡ true → copy_default w (string s) ≡ string s
  unfolding copy_default
  copy_default-interned w s h = rw h refl

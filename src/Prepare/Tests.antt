-- ===== src/Prepare/Tests.antt =====
-- Runs of the model of src/prepare.c on a class "c" with a parent "p", neither of which a new thread has.
use pthreads.Base.{
  ◌≤◌, length, ℕ, suc, ◌+◌, ◌≡◌, ◌<◌, refl, inl, inr, Bool, Bool-cases, true, false, none, some,
  List, [], ◌∷◌, ◌==◌, if◌then◌else◌, is_some, arith,
}
use pthreads.Zend.Key.{Key, name, same_key}
use pthreads.Zend.Hash.{HashApi}
use pthreads.Zend.Table.{list_table}
use pthreads.Copy.{null, long, copy_zval, Engine, ZString, copy_string}
use pthreads.Copy.Function.{builtin}
use pthreads.Prepare.Traits.{
  TraitAlias, copy_trait_alias, prepare_class_traits, prepare_class_traits-Copied,
}
use pthreads.Prepare.Classes.{plain, done, PropertyInfo, ClassConstant, Class, Source}
use pthreads.Prepare.Late.{copy_constant_value}
use pthreads.Prepare.Create.{create_entry}
use pthreads.Prepare.Frame.{IsFit, room, Runs, Origin, Ours, IsSound, Grows, All}
use pthreads.Prepare.Missing.{Owned, IsOrdered}
use pthreads.Prepare.Ends.{create_entry-Registered}
use pthreads.Prepare.Startup.{copy_classes}
use pthreads.Prepare.Inherit.{Prepared, copy_classes-Prepared}
use pthreads.Prepare.Ini.{
  IniEntry, Settings, inherited, inherited_entry, text_of, prepare_ini, prepare_ini-Inherited,
}

abbrev made : List ℕ → Bool → ZString
made b p = record {
  bytes = b;
  hash = 0;
  interned = false;
  permanent = false;
  persistent = p;
  memory = 2;
}

abbrev engine : Engine
engine = record {
  thread = 2;
  before_81 = false;
  hard_copy = false;
  intern = made;
  dup = made;
  unwritten = null;
  connect = λ a. some (a + 100);
  copy_closure = λ f. f + 100;
  intern_bytes = λ b p. refl;
  dup_bytes = λ b p. refl;
  intern_kept = λ b p. inr refl;
  dup_kept = λ b p. inr refl;
}

abbrev names : HashApi ZString
names = list_table ZString

abbrev numbers : HashApi ℕ
numbers = list_table ℕ

abbrev infos : HashApi PropertyInfo
infos = list_table PropertyInfo

abbrev constants : HashApi ClassConstant
constants = list_table ClassConstant

abbrev letter : ℕ → ZString
letter n = made (n ∷ []) false

abbrev number_property : (owner slot : ℕ) → PropertyInfo
number_property owner slot = record {
  property_name = letter 120;
  owner = some owner;
  is_static = false;
  slot = slot;
  property_type = builtin 16;
  property_comment = none;
}

abbrev limit_constant : ClassConstant
limit_constant = record {
  constant_value = plain (long 7);
  constant_owner = some 0;
  constant_comment = none;
}

abbrev parent_properties : infos.Table
parent_properties = infos.update infos.empty (name (120 ∷ [])) (number_property 0 0)

-- "c" is at 1, and "p" anywhere else: "p" declares the property "x" and a constant, "c" the property "y".
abbrev class_at : ℕ → Class names numbers infos constants
class_at a = record {
  class_name = letter (if a == 1 then 99 else 112);
  builtin = false;
  preloaded = false;
  immutable = false;
  linked = true;
  anonymous = false;
  parent = if a == 1 then some 0 else none;
  parent_name = none;
  interfaces = [];
  interface_names = [];
  traits = record { trait_names = []; trait_aliases = none; trait_precedences = none };
  class_handlers = record {
    create_object = 0;
    serialize = 0;
    unserialize = 0;
    get_iterator = 0;
    interface_gets_implemented = 0;
    get_static_method = 0;
  };
  function_table = numbers.empty;
  magic = λ slot. none;
  iterator_funcs = none;
  arrayaccess_funcs = none;
  class_comment = none;
  filename = none;
  properties_info =
      if a == 1
      then infos.update parent_properties (name (121 ∷ [])) (number_property 1 1)
      else parent_properties;
  default_properties = if a == 1 then long 1 ∷ long 2 ∷ [] else long 1 ∷ [];
  properties_table =
      if a == 1
      then some (number_property 0 0) ∷ some (number_property 1 1) ∷ []
      else some (number_property 0 0) ∷ [];
  constants_table = constants.update constants.empty (name (76 ∷ [])) limit_constant;
  default_statics = [];
}

abbrev source : Source names numbers infos constants
source = record {
  engine = engine;
  opcodes = record { send_val = 65; send_val_ex = 116; qm_assign = 31 };
  places = λ n. record { function_at = n; opcodes_at = n; literals_at = n; cache_at = n };
  lower = λ b. b;
  inherit_comments = true;
  before_82 = false;
  lookup_class = λ n. none;
  counted_array = λ es. true;
  init_statics = λ s a. s.static_members;
  source_statics = λ a. none;
  source_classes =
      numbers.update (numbers.update numbers.empty (name (112 ∷ [])) 0) (name (99 ∷ [])) 1;
  source_functions = numbers.empty;
}

abbrev origin : Origin
origin = record {
  F = names;
  R = numbers;
  P = infos;
  K = constants;
  source = source;
  entries = class_at;
  base = 2;
  slots_of = λ k. if same_key k (name (99 ∷ [])) then 2 else 1;
}

abbrev new_thread : Ours origin
new_thread = record {
  classes = class_at;
  class_table = numbers.empty;
  function_table = numbers.empty;
  functions = record { functions = λ a. none; resolve = numbers.empty; filenames = names.empty };
  scope = λ f. none;
  static_members = λ a. none;
  next = 2;
}

class_at-IsFit : (a : ℕ) → IsFit origin (class_at a)
class_at-IsFit a = elim (Bool-cases (a == 1)) [
  | inl child ↦ record {
    linked = refl;
    fits = rw child ((λ d. omega arith), ((λ d. omega arith), tt));
    counted = rw child (omega arith);
    covered = rw child (omega arith);
  }
  | inr other ↦ record {
    linked = refl;
    fits = rw other ((λ d. omega arith), tt);
    counted = rw other (omega arith);
    covered = rw other (omega arith);
  }
]

parent_room :
    (a b : ℕ)
    → (class_at a).parent ≡ some b
    → (b < 2) × (room origin (class_at b) ≤ room origin (class_at a))
parent_room a b h = elim (Bool-cases (a == 1)) [
  | inl child ↦ ground arith
  | inr other ↦ absurd (cc (rw other at h))
]

class_slots : (a : ℕ) → a < 2 → room origin (class_at a) ≤ length (class_at a).default_properties
class_slots a l = elim (Bool-cases (a == 1)) [
  | inl child ↦ rw child (omega arith)
  | inr other ↦ rw other (omega arith)
]

new_thread-IsSound : IsSound origin new_thread
new_thread-IsSound = record {
  fit = class_at-IsFit;
  heirs = parent_room;
  named = λ k a h. absurd (cc h);
  unchanged = λ a l. refl;
  known = λ a. refl;
  placed = λ f a h. absurd (cc h);
  tabled = λ k a h. absurd (cc h);
  above = omega arith;
  resolved = λ f c h. absurd (cc h);
  methods = λ a l. tt;
  closures = tt;
}

abbrev rank : ℕ → ℕ
rank a = a

parent_of : (a b : ℕ) → a < 2 → (class_at a).parent ≡ some b → (b < 2) × (rank b < rank a)
parent_of a b l h = ground arith

in_source : (k : Key) (a : ℕ) → numbers.find source.source_classes k ≡ some a → a < 2
in_source k a h = ground arith

properties_owned :
    (a : ℕ)
    → All origin (λ e. Owned origin (e.1).owner) (infos.entries (class_at a).properties_info)
properties_owned a = elim (Bool-cases (a == 1)) [
  | inl child ↦ rw child ((λ b h. ground arith), ((λ b h. ground arith), tt))
  | inr other ↦ rw other ((λ b h. ground arith), tt)
]

is_ordered : IsOrdered origin rank 2
unfolding prepare_class_traits copy_constant_value copy_zval
is_ordered = record {
  bounded = λ a l. l;
  parents = parent_of;
  interfaces = λ a l. tt;
  properties = λ a l. properties_owned a;
  constants = λ a l. ((λ b h. ground arith), tt);
  traits =
      λ a l. (record { trait_names = []; trait_aliases = none; trait_precedences = none }, refl);
  values = λ a l. ((plain (long 7), refl), tt);
  tables = in_source;
  slots = class_slots;
  builtins = λ n a h. absurd (cc h);
}

-- The child is copied with its parent, with fuel for five calls.
create_entry-Registered_example :
    Runs
      (λ r.
        Grows origin new_thread (r.0)
        × (numbers.find (r.0).class_table (name (99 ∷ [])) ≡ r.1)
        × (is_some (r.1) ≡ true)
        × ((m : ℕ) (late : Bool)
            → create_entry names numbers infos constants (suc m) source (some 1) late (r.0)
              ≡ done r))
      (create_entry names numbers infos constants 6 source (some 1) true new_thread)
create_entry-Registered_example =
    create_entry-Registered origin rank 2 is_ordered 6 1 true new_thread new_thread-IsSound
      (omega arith) refl refl (omega arith)

copy_classes-Prepared_example :
    Runs
      (λ t.
        IsSound origin t
        × Grows origin new_thread t
        × All origin (Prepared origin t) (numbers.entries source.source_classes))
      (copy_classes names numbers infos constants 6 source new_thread)
copy_classes-Prepared_example =
    copy_classes-Prepared origin rank 2 is_ordered 6 new_thread new_thread-IsSound (omega arith)
      ((omega arith, refl), ((omega arith, refl), tt))

abbrev setting : ℕ → IniEntry
setting n = record {
  value = some (letter n);
  orig_value = none;
  modifiable = 7;
  orig_modifiable = 0;
  modified = false;
}

abbrev directives : HashApi IniEntry
directives = list_table IniEntry

abbrev theirs : directives.Table
theirs = directives.update directives.empty (name (109 ∷ [])) (setting 49)

abbrev ours : Settings directives
ours = record {
  directives = directives.update directives.empty (name (109 ∷ [])) (setting 48);
  modified_directives = none;
  on_modify_calls = [];
}

prepare_ini-Inherited_example :
    ((j : Key)
      → directives.find (prepare_ini directives engine true (λ s. s) theirs ours).directives j
        ≡ inherited_entry directives engine
            (directives.find theirs j)
            (directives.find ours.directives j))
    × (directives.find
          (prepare_ini directives engine true (λ s. s) theirs ours).directives
          (name (109 ∷ []))
        ≡ some (inherited directives engine (some (setting 49)) (setting 48)))
    × (text_of directives (inherited directives engine (some (setting 49)) (setting 48)).value
        ≡ some (49 ∷ []))
    × ((inherited directives engine (some (setting 49)) (setting 48)).modifiable ≡ 7)
prepare_ini-Inherited_example =
    prepare_ini-Inherited directives engine true (λ s. s) theirs ours (name (109 ∷ [])) (setting 49)
      (setting 48) (letter 49) (letter 48) refl refl refl refl

abbrev alias_a : TraitAlias
alias_a = record {
  trait_method = record { method_name = some (letter 102); class_name = none };
  alias = some (letter 103);
  modifiers = 1;
}

prepare_class_traits-Copied_example :
    prepare_class_traits engine (some alias_a) none (record {
      trait_names = (letter 84, letter 116) ∷ [];
      trait_aliases = some (some alias_a ∷ none ∷ some alias_a ∷ []);
      trait_precedences = none;
    })
    ≡ some (record {
      trait_names = (letter 84, letter 116) ∷ [];
      trait_aliases = some (some (copy_trait_alias engine alias_a) ∷ none ∷ []);
      trait_precedences = none;
    })
unfolding copy_string
prepare_class_traits-Copied_example =
    prepare_class_traits-Copied engine (some alias_a) none ((letter 84, letter 116) ∷ [])
      (some (alias_a ∷ [])) none (some alias_a ∷ []) []

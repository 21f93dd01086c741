-- ===== src/Prepare/Classes.antt =====
-- src/prepare.c: class entries, and a thread with the classes and functions that it has. A class or a
-- function is named by its address; those of all threads are in one memory, since immutable ones are
-- shared. Classes below `next` are in use.
use pthreads.Base.{ℕ, suc, Bool, Option, none, some, List, [], ◌∷◌, ◌==◌, ◌&&◌, if◌then◌else◌}
use pthreads.Zend.Key.{Key}
use pthreads.Zend.Hash.{HashApi}
use pthreads.Copy.{Engine, ZString, Value, Entries}
use pthreads.Copy.Function.{Opcodes, ZendType}
use pthreads.Copy.Function.Whole.{Places, Functions, copy_function}
use pthreads.Prepare.Traits.{Traits}

-- Why no thread comes back: an error that ends it, an access outside an array or through an address at
-- which there is nothing, or the end of the fuel.
pub data Failure : Type 0 where
  fatal dangling no_fuel : Failure

pub data Outcome (A : Type 0) : Type 0 where
  done : A → Outcome A
  failed : Failure → Outcome A

infixl 5 ◌>>=◌
unfoldable pub ◌>>=◌ : {A B : Type 0} → Outcome A → (A → Outcome B) → Outcome B
done a >>= f = f a
failed w >>= f = failed w

-- A loop over the entries of a table or the elements of an array.
unfoldable pub each : {A S : Type 0} → (A → S → Outcome S) → List A → S → Outcome S
each body [] s = done s
each body (a ∷ as') s = body a s >>= each body as'

unfoldable pub or_dangling : {A : Type 0} → Option A → Outcome A
or_dangling none = failed dangling
or_dangling (some a) = done a

-- The functions of a class entry that the engine calls by themselves.
pub data Slot : Type 0 where
  constructor clone get_magic set_magic unset_magic isset_magic call callstatic : Slot
  serialize_magic unserialize_magic tostring destructor debug_info : Slot

-- The functions behind `Iterator` and `ArrayAccess`.
pub data IteratorSlot : Type 0 where
  new_iterator valid current key next rewind : IteratorSlot

pub data ArraySlot : Type 0 where
  offset_get offset_exists offset_set offset_unset : ArraySlot

-- The handlers of a class, pointers into the program.
pub record Handlers : Type 0 where
  pub create_object : ℕ
  pub serialize : ℕ
  pub unserialize : ℕ
  pub get_iterator : ℕ
  pub interface_gets_implemented : ℕ
  pub get_static_method : ℕ

-- `zend_property_info`, with the class in which it is declared.
pub record PropertyInfo : Type 0 where
  pub property_name : ZString
  pub owner : Option ℕ
  pub is_static : Bool
  pub slot : ℕ
  pub property_type : ZendType
  pub property_comment : Option ZString

-- The value of a class constant: of a resolved case of an enumeration, the object by its backing value.
pub data ConstantValue : Type 0 where
  plain : Value → ConstantValue
  enum_case : (backing : Option Value) → ConstantValue

-- `zend_class_constant`
pub record ClassConstant : Type 0 where
  pub constant_value : ConstantValue
  pub constant_owner : Option ℕ
  pub constant_comment : Option ZString

-- A static property of the class itself, or an indirection to one of an ancestor.
pub data StaticSlot : Type 0 where
  own : Value → StaticSlot
  inherited : (ancestor index : ℕ) → StaticSlot

module _ (F : HashApi ZString) (R : HashApi ℕ) (P : HashApi PropertyInfo)
    (K : HashApi ClassConstant) where
  -- `zend_class_entry`, with the flags that are looked at.
  pub record Class : Type 0 where
    pub class_name : ZString
    pub builtin : Bool
    pub preloaded : Bool
    pub immutable : Bool
    pub linked : Bool
    pub anonymous : Bool
    pub parent : Option ℕ
    pub parent_name : Option ZString
    pub interfaces : List (Option ℕ)
    pub interface_names : List (ZString × ZString)
    pub traits : Traits
    pub class_handlers : Handlers
    pub function_table : R.Table
    pub magic : Slot → Option ℕ
    pub iterator_funcs : Option (IteratorSlot → Option ℕ)
    pub arrayaccess_funcs : Option (ArraySlot → Option ℕ)
    pub class_comment : Option ZString
    pub filename : Option ZString
    pub properties_info : P.Table
    pub default_properties : List Value
    pub properties_table : List (Option PropertyInfo)
    pub constants_table : K.Table
    pub default_statics : List StaticSlot

  -- A thread, with the memory of classes and of functions, the class of each function, and the thread's
  -- current static properties of each class.
  pub record Thread : Type 0 where
    pub classes : ℕ → Class
    pub class_table : R.Table
    pub function_table : R.Table
    pub functions : Functions F R
    pub scope : ℕ → Option ℕ
    pub static_members : ℕ → Option (List StaticSlot)
    pub next : ℕ

  -- What the code takes from elsewhere: the engine of src/copy.c; the arrangement of opcodes; the
  -- allocator's answers; the lower case of a name; the flag for comments;
  -- whether a literal array is counted; `zend_lookup_class`; what `zend_class_init_statics` of a
  -- class makes of each class's static properties; and the tables and static properties of the thread
  -- that is copied from.
  pub record Source : Type 0 where
    pub engine : Engine
    pub opcodes : Opcodes
    pub places : ℕ → Places
    pub lower : List ℕ → List ℕ
    pub inherit_comments : Bool
    pub before_82 : Bool
    pub lookup_class : List ℕ → Option ℕ
    pub counted_array : Entries → Bool
    pub init_statics : Thread → ℕ → ℕ → Option (List StaticSlot)
    pub source_statics : ℕ → Option (List StaticSlot)
    pub source_classes : R.Table
    pub source_functions : R.Table

  abbrev pub modify : ℕ → (Class → Class) → Thread → Thread
  modify p f s = record s { classes = λ (x : ℕ). if p == x then f (s.classes x) else s.classes x }

  abbrev pub register : Key → ℕ → Thread → Thread
  register k a s = record s { class_table = R.update s.class_table k a }

  -- `pthreads_copy_function`; a copy belongs to the class of its original until that is changed.
  unfoldable pub copy_into : Source → ℕ → Thread → Outcome (Thread × ℕ)
  copy_into w f s = do
    (fs, c) ← or_dangling (copy_function F R w.engine w.opcodes (w.places s.next) f s.functions)
    done (
      record s {
        functions = fs;
        scope = λ (x : ℕ).
            if (c == x) && ((w.places s.next).function_at == x) then s.scope f else s.scope x;
        next = suc s.next;
      },
      c,
    )

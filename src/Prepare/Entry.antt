-- ===== src/Prepare/Entry.antt =====
-- src/prepare.c: how the entry of a class is copied, with those that it needs. `recur` stands for
-- `pthreads_create_entry`, which each of these is called from; `x` is the address of the candidate and
-- `p` that of its copy.
use pthreads.Base.{
  ℕ, suc, Bool, true, Option, none, some, [], ◌∷◌, ◌++◌, map, if◌then◌else◌, is_some,
}
use mathlib.Core.Option.{map as map_option}
use pthreads.Zend.Hash.{HashApi}
use pthreads.Copy.{ZString, copy_string}
use pthreads.Copy.Function.Whole.{copy_filename, Functions}
use pthreads.Prepare.Traits.{Traits, prepare_class_traits}
use pthreads.Prepare.Classes.{
  Outcome, done, ◌>>=◌, each, or_dangling, PropertyInfo, ClassConstant, Class, Thread, Source,
  modify,
}
use pthreads.Prepare.Methods.{
  prepare_class_interceptors, prepare_class_handlers, prepare_class_function_table,
}

module _ (F : HashApi ZString) (R : HashApi ℕ) (P : HashApi PropertyInfo)
    (K : HashApi ClassConstant) where
  abbrev pub Recur : Type 0
  Recur = Option ℕ → Bool → Thread F R P K → Outcome (Thread F R P K × Option ℕ)

  abbrev pub Change : Type 0
  Change = Thread F R P K → Outcome (Thread F R P K)

  unfoldable pub change : ℕ → (Class F R P K → Class F R P K) → Change
  change p f s = done (modify F R P K p f s)

  -- The flags of the candidate, of which the copy has had others till now.
  abbrev pub take_flags : Class F R P K → Class F R P K → Class F R P K
  take_flags c q = record q {
    preloaded = c.preloaded;
    immutable = c.immutable;
    linked = c.linked;
    anonymous = c.anonymous;
  }

  abbrev pub set_parent : Option ℕ → Class F R P K → Class F R P K
  set_parent r q = record q { parent = r; parent_name = none }

  abbrev pub drop_parent_name : Class F R P K → Class F R P K
  drop_parent_name q = record q { parent_name = none }

  abbrev pub set_parent_name : Source F R P K → Class F R P K → Class F R P K → Class F R P K
  set_parent_name w c q = record q {
    parent_name =
        if is_some c.parent_name
        then map_option (copy_string w.engine) c.parent_name
        else q.parent_name;
  }

  abbrev pub drop_interfaces : Class F R P K → Class F R P K
  drop_interfaces q = record q { interfaces = []; interface_names = [] }

  abbrev pub add_interface : Option ℕ → Class F R P K → Class F R P K
  add_interface r q = record q { interfaces = q.interfaces ++ (r ∷ []) }

  abbrev pub set_interface_names : Source F R P K → Class F R P K → Class F R P K → Class F R P K
  set_interface_names w c q = record q {
    interfaces = [];
    interface_names =
        map (λ n. (copy_string w.engine (n.0), copy_string w.engine (n.1))) c.interface_names;
  }

  abbrev pub set_traits : Traits → Class F R P K → Class F R P K
  set_traits copied q = record q { traits = copied }

  -- The parent of a linked candidate, else its name.
  unfoldable pub link_parent : Recur → Source F R P K → Class F R P K → ℕ → Change
  link_parent recur w c p s =
      if c.linked
      then (if is_some c.parent
          then (do (t, r) ← recur c.parent true s; change p (set_parent r) t)
          else change p drop_parent_name s)
      else change p (set_parent_name w c) s

  unfoldable pub link_interface : Recur → ℕ → Option ℕ → Change
  link_interface recur p i s = do (t, r) ← recur i true s; change p (add_interface r) t

  unfoldable pub link_interfaces : Recur → Source F R P K → Class F R P K → ℕ → Change
  link_interfaces recur w c p s =
      if c.linked
      then (do t ← change p drop_interfaces s; each (link_interface recur p) c.interfaces t)
      else change p (set_interface_names w c) s

  -- `prepare_class_traits`, into arrays that hold `NULL` till they are written.
  unfoldable pub link_traits : Source F R P K → Class F R P K → ℕ → Change
  link_traits w c p s = do
    copied ← or_dangling (prepare_class_traits w.engine none none c.traits)
    change p (set_traits copied) s

  -- `pthreads_complete_entry`
  unfoldable pub complete_entry : Recur → Source F R P K → ℕ → ℕ → Change
  complete_entry recur w x p s = do
    let c = s.classes x
    s1 ← change p (take_flags c) s
    s2 ← link_parent recur w c p s1
    s3 ← link_interfaces recur w c p s2
    s4 ← link_traits w c p s3
    s5 ← change p (prepare_class_handlers F R P K c) s4
    s6 ← prepare_class_function_table F R P K w c p s5
    change p (prepare_class_interceptors F R P K w.before_82 c) s6

  -- The start of `pthreads_copy_entry`, before the entry is completed.
  abbrev pub fresh_entry : Source F R P K → Option ZString → Class F R P K → Class F R P K
  fresh_entry w filename c = record {
    class_name = copy_string w.engine c.class_name;
    builtin = c.builtin;
    preloaded = c.preloaded;
    immutable = c.immutable;
    linked = c.linked;
    anonymous = c.anonymous;
    parent = none;
    parent_name = none;
    interfaces = [];
    interface_names = [];
    traits = record { trait_names = []; trait_aliases = none; trait_precedences = none };
    class_handlers = record {
      create_object = 0;
      serialize = 0;
      unserialize = 0;
      get_iterator = 0;
      interface_gets_implemented = 0;
      get_static_method = 0;
    };
    function_table = R.empty;
    magic = λ slot. none;
    iterator_funcs = none;
    arrayaccess_funcs = none;
    class_comment =
        if w.inherit_comments then map_option (copy_string w.engine) c.class_comment else none;
    filename = filename;
    properties_info = P.empty;
    default_properties = [];
    properties_table = [];
    constants_table = K.empty;
    default_statics = [];
  }

  abbrev pub copied_filename :
      Source F R P K → Functions F R → Option ZString → Functions F R × Option ZString
  copied_filename w fs none = (fs, none)
  copied_filename w fs (some n) =
      let (names, copy) = copy_filename F w.engine fs.filenames n in
      (record fs { filenames = names }, some copy)

  -- `pthreads_copy_entry`, with the copy's address
  unfoldable pub copy_entry :
      Recur → Source F R P K → ℕ → Thread F R P K → Outcome (Thread F R P K × ℕ)
  copy_entry recur w x s = do
    let p = s.next
    let named = copied_filename w s.functions (s.classes x).filename
    let fresh = fresh_entry w (named.1) (s.classes x)
    let s1 = modify F R P K p (λ q. fresh) (record s { functions = named.0; next = suc s.next })
    t ← complete_entry recur w x p s1
    done (t, p)

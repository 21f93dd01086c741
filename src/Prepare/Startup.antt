-- ===== src/Prepare/Startup.antt =====
-- src/prepare.c: how a new thread starts, with what its creator's options let it take over, and how it
-- ends. The registry's lock is held all the time.
use Prim.Native.Nat.{bit_and}
use pthreads.Base.{
  ℕ, Bool, true, false, not, ◌&&◌, ◌||◌, Option, none, some, List, [], ◌∷◌, ◌==◌, if◌then◌else◌,
  is_some, map,
}
use pthreads.Zend.Key.{Key, index, name}
use pthreads.Zend.Hash.{HashApi}
use pthreads.Copy.{Engine, ZString, Value, resource, copy_string, copy_zval}
use pthreads.Monitor.{Monitor, mask, add}
use pthreads.Monitor.{Flag}
use pthreads.Prepare.Classes.{
  Outcome, done, failed, fatal, ◌>>=◌, each, or_dangling, PropertyInfo, ClassConstant, Thread,
  Source, copy_into,
}
use pthreads.Prepare.Entry.{Change}
use pthreads.Prepare.Late.{late_bindings}
use pthreads.Prepare.Create.{create_entry, prepare_closures}
use pthreads.Prepare.Ini.{IniEntry, Settings, prepare_ini}

-- `PTHREADS_INHERIT_INI` and so on.
pub data ThreadOption : Type 0 where
  inherit_ini inherit_constants inherit_functions inherit_classes inherit_includes : ThreadOption
  inherit_comments allow_headers : ThreadOption

abbrev pub option_mask : ThreadOption → ℕ
option_mask inherit_ini = 0x00000001
option_mask inherit_constants = 0x00000010
option_mask inherit_functions = 0x00000100
option_mask inherit_classes = 0x00001000
option_mask inherit_includes = 0x00010000
option_mask inherit_comments = 0x00100000
option_mask allow_headers = 0x10000000

abbrev pub has_option : ℕ → ThreadOption → Bool
has_option options o = not (bit_and options (option_mask o) == 0)

-- `zend_constant`, and the string under which the table has it; some have no name.
pub record Constant : Type 0 where
  pub table_name : ZString
  pub constant_name : Option ZString
  pub constant_value : Value
  pub constant_flags : ℕ

-- What the server interface and the engine keep of the request.
pub record Request : Type 0 where
  pub server_context : ℕ
  pub argc : ℕ
  pub argv : ℕ
  pub expose_php : Bool
  pub auto_globals_jit : Bool
  pub during_request_startup : Bool
  pub sapi_started : Bool
  pub headers_sent : Bool
  pub no_headers : Bool

-- An entry of `auto_globals`: what its callback answers, if it has one, and the flag.
pub record AutoGlobal : Type 0 where
  pub callback : Option Bool
  pub armed : Bool

abbrev pub is_resource : Value → Bool
is_resource (resource r) = true
is_resource v = false

-- A class whose name starts with a zero byte was declared at run time.
abbrev pub starts_with_zero : Key → Bool
starts_with_zero (name (b ∷ bs)) = b == 0
starts_with_zero (name []) = true
starts_with_zero (index i) = true

unfoldable pub prepare_sapi : (options : ℕ) → Request → Request
prepare_sapi options r =
    let begun = record r { sapi_started = false } in
    if has_option options allow_headers
    then begun
    else record begun { headers_sent = true; no_headers = true }

-- Without a callback the flag is cleared.
abbrev pub armed_by : Option Bool → Bool
armed_by none = false
armed_by (some answer) = answer

unfoldable pub arm : AutoGlobal → AutoGlobal
arm g = record g { armed = armed_by g.callback }

module _ (C : HashApi Constant) where
  -- `pthreads_constant_exists`
  unfoldable pub constant_exists : (List ℕ → List ℕ) → C.Table → List ℕ → Bool
  constant_exists lower t n = is_some (C.find t (name n)) || is_some (C.find t (name (lower n)))

  -- A constant that is neither a resource nor there already is copied and registered.
  unfoldable pub copy_constant :
      Engine → (C.Table → Constant → C.Table) → Constant → C.Table → Outcome C.Table
  copy_constant e register c t =
      let copied = copy_zval e e.unwritten c.constant_value in
      if copied.0
      then done (
          register t (record c {
            constant_name = some (copy_string e c.table_name);
            constant_value = copied.1;
          }))
      else failed fatal

  abbrev pub key_bytes : Key → List ℕ
  key_bytes (name n) = n
  key_bytes (index i) = []

  unfoldable pub prepare_constant :
      Engine
      → (List ℕ → List ℕ)
      → (C.Table → Constant → C.Table)
      → Key × Constant
      → C.Table
      → Outcome C.Table
  prepare_constant e lower register (k, c) t =
      if is_some c.constant_name
        && not (is_resource c.constant_value)
        && not (constant_exists lower t (key_bytes k))
      then copy_constant e register c t
      else done t

  unfoldable pub prepare_constants :
      Engine
      → (List ℕ → List ℕ)
      → (C.Table → Constant → C.Table)
      → C.Table
      → C.Table
      → Outcome C.Table
  prepare_constants e lower register source =
      each (prepare_constant e lower register) (C.entries source)

module _ (F : HashApi ZString) (R : HashApi ℕ) (P : HashApi PropertyInfo)
    (K : HashApi ClassConstant) where
  unfoldable pub prepare_function : Source F R P K → Key × ℕ → Change F R P K
  prepare_function w (k, f) s = do
    g ← or_dangling (s.functions.functions f)
    if not g.is_user || is_some (R.find s.function_table k) then done s else (do
      (t, c) ← copy_into F R P K w f s
      done (record t { function_table = R.update t.function_table k c }))

  unfoldable pub prepare_functions : Source F R P K → Change F R P K
  prepare_functions w = each (prepare_function w) (R.entries w.source_functions)

  -- One round of the loop in `pthreads_prepare_classes`
  unfoldable pub prepare_class : ℕ → Source F R P K → Key × ℕ → Change F R P K
  prepare_class fuel w (k, a) s =
      if is_some (R.find s.class_table k) || starts_with_zero k
      then done s
      else (do (t, r) ← create_entry F R P K fuel w (some a) false s; done t)

  -- One round of the loop in `pthreads_context_late_bindings`
  unfoldable pub bind_late : ℕ → Source F R P K → Key × ℕ → Change F R P K
  bind_late fuel w (k, p) s = if (s.classes p).builtin then done s else (do
    x ← or_dangling (R.find w.source_classes k)
    late_bindings F R P K (create_entry F R P K fuel w) w x p s)

  unfoldable pub context_late_bindings : ℕ → Source F R P K → Change F R P K
  context_late_bindings fuel w s = each (bind_late fuel w) (R.entries s.class_table) s

  unfoldable pub copy_classes : ℕ → Source F R P K → Change F R P K
  copy_classes fuel w = each (prepare_class fuel w) (R.entries w.source_classes)

  unfoldable pub prepare_classes : ℕ → Source F R P K → Change F R P K
  prepare_classes fuel w s = do t ← copy_classes fuel w s; context_late_bindings fuel w t

  -- The class of the thread itself, where the others are not taken over.
  unfoldable pub prepare_own_class : ℕ → Source F R P K → ℕ → Change F R P K
  prepare_own_class fuel w thread_ce s = do
    (t, r) ← create_entry F R P K fuel w (some thread_ce) false s
    context_late_bindings fuel w t

  module _ (I : HashApi IniEntry) (C : HashApi Constant) where
    -- A new thread. Included files are the keys of `included_files`.
    pub record Started : Type 0 where
      pub thread : Thread F R P K
      pub settings : Settings I
      pub constants : C.Table
      pub included_files : R.Table
      pub request : Request
      pub auto_globals : List AutoGlobal
      pub options : ℕ
      pub own_destructor : Bool
      pub ready : Monitor

    -- The thread that creates it, with its tables, and what the engine does at the start of a request.
    pub record Creator : Type 0 where
      pub source : Source F R P K
      pub creator_settings : I.Table
      pub creator_constants : C.Table
      pub creator_files : R.Table
      pub creator_request : Request
      pub register_constant : C.Table → Constant → C.Table
      pub without_headers : Settings I → Settings I
      pub request_startup : Started → Started

    unfoldable pub include_file : Key × ℕ → R.Table → R.Table
    include_file (k, f) t = if is_some (R.find t k) then t else R.update t k 0

    abbrev pub include_files : List (Key × ℕ) → R.Table → R.Table
    include_files [] t = t
    include_files (e ∷ es) t = include_files es (include_file e t)

    -- `pthreads_prepare_includes`
    unfoldable pub prepare_includes : R.Table → R.Table → R.Table
    prepare_includes source = include_files (R.entries source)

    -- The request as `pthreads_prepared_startup` sets it before the engine's start of a request.
    abbrev pub take_request : Request → Request → Request
    take_request creator r = record r {
      server_context = creator.server_context;
      argc = creator.argc;
      argv = creator.argv;
      expose_php = false;
      auto_globals_jit = false;
    }

    abbrev pub begin : Creator → (options : ℕ) → Started → Started
    begin c options s =
        let t =
          c.request_startup (record s { request = take_request c.creator_request s.request }) in
        record t {
          request = prepare_sapi options (record t.request { during_request_startup = false });
          auto_globals = map arm t.auto_globals;
          options = options;
        }

    -- The five parts that the options let a thread take over.
    abbrev pub with_ini : Creator → ℕ → Started → Started
    with_ini c options s =
        if has_option options inherit_ini
        then record s {
          settings =
              prepare_ini I c.source.engine (has_option options allow_headers) c.without_headers
                c.creator_settings s.settings;
        }
        else s

    abbrev pub with_constants : Creator → ℕ → Started → Outcome Started
    with_constants c options s =
        if has_option options inherit_constants
        then (do
          t ←
              prepare_constants C c.source.engine c.source.lower c.register_constant
                c.creator_constants s.constants
          done (record s { constants = t }))
        else done s

    abbrev pub with_functions : Creator → ℕ → Started → Outcome Started
    with_functions c options s = do
      t ←
          if has_option options inherit_functions
          then prepare_functions c.source s.thread
          else prepare_closures F R P K c.source s.thread
      done (record s { thread = t })

    abbrev pub with_classes : ℕ → Creator → (options thread_ce : ℕ) → Started → Outcome Started
    with_classes fuel c options thread_ce s = do
      t ←
          if has_option options inherit_classes
          then prepare_classes fuel c.source s.thread
          else prepare_own_class fuel c.source thread_ce s.thread
      done (record s { thread = t })

    abbrev pub with_includes : Creator → ℕ → Started → Started
    with_includes c options s =
        if has_option options inherit_includes
        then record s { included_files = prepare_includes c.creator_files s.included_files }
        else s

    -- `pthreads_prepared_startup`; `locked` is the result of taking the lock of `ready`.
    unfoldable pub prepared_startup :
        (fuel : ℕ) → Creator → (options thread_ce locked : ℕ) → Started → Outcome Started
    prepared_startup fuel c options thread_ce locked s = do
      s1 ← with_constants c options (with_ini c options (begin c options s))
      s2 ← with_functions c options s1
      s3 ← with_classes fuel c options thread_ce s2
      let s4 = with_includes c options s3
      done (record s4 { own_destructor = true; ready = add locked s4.ready (mask Flag.ready) })

-- ===== src/Copy/Function/Whole.antt =====
-- src/copy.c: `pthreads_copy_user_function` and `pthreads_copy_function`. Functions are named by their
-- addresses. Functions declared inside a function, and attributes, are left out.
use pthreads.Base.{
  ℕ, suc, ◌+◌, ◌*◌, ◌/◌, ◌≡◌, Bool, true, false, not, ◌&&◌, Option, none, some, List, length, ◌==◌,
  if◌then◌else◌, is_some, ◌>>=◌,
}
use mathlib.Core.Option.{map as map_option}
use pthreads.Zend.Key.{Key, index, name}
use pthreads.Zend.Hash.{HashApi}
use pthreads.Copy.{Engine, ZString, Value, Entries, end, copy_string}
use pthreads.Copy.Function.{
  Op, Opcodes, ArgPointer, copy_statics, copy_variables, copy_literals, copy_arginfo, copy_opcodes,
}
pub mod Again

-- A runtime cache of the function's own, or none yet.
pub data RuntimeCache : Type 0 where
  own_cache : ℕ → RuntimeCache
  no_cache : RuntimeCache

-- `zend_op_array`, with the addresses of the opcodes and of the literals. `refcount` is `NULL` where
-- the parts are in shared memory; live ranges and `try` blocks are copied byte by byte.
pub record OpArray : Type 0 where
  pub function_name : ZString
  pub prototype : Option ℕ
  pub refcount : Option ℕ
  pub heap_rt_cache : Bool
  pub run_time_cache : RuntimeCache
  pub doc_comment : Option ZString
  pub filename : ZString
  pub done_pass_two : Bool
  pub opcodes_at : ℕ
  pub opcodes : List Op
  pub literals_at : ℕ
  pub literals : Option (List Value)
  pub has_return : Bool
  pub variadic : Bool
  pub arg_info : Option ArgPointer
  pub num_args : ℕ
  pub live_range : List ℕ
  pub try_catch : List ℕ
  pub vars : List ZString
  pub static_variables : Option Entries

-- `zend_function`, with the flags that are looked at and the references to its name.
pub record Function : Type 0 where
  pub is_user : Bool
  pub immutable : Bool
  pub closure : Bool
  pub arena_allocated : Bool
  pub name_refs : ℕ
  pub op_array : OpArray

-- What the allocator answers for a copy.
pub record Places : Type 0 where
  pub function_at : ℕ
  pub opcodes_at : ℕ
  pub literals_at : ℕ
  pub cache_at : ℕ

abbrev pub length_of : Option (List Value) → ℕ
length_of none = 0
length_of (some vs) = length vs

-- `ZEND_MM_ALIGNED_SIZE_EX(size, 16)`
abbrev pub aligned : ℕ → ℕ
aligned size = (size + 15) / 16 * 16

-- After the second pass the literals stand in one block with the opcodes.
abbrev pub literals_memory : Places → OpArray → ℕ
literals_memory p o =
    if o.done_pass_two then p.opcodes_at + aligned (32 * length o.opcodes) else p.literals_at

-- The parts of a function that is not in shared memory.
unfoldable pub copy_parts : Engine → Opcodes → Places → OpArray → OpArray
copy_parts e z p o =
    let new_literals = if is_some o.literals then literals_memory p o else o.literals_at in
    record o {
      opcodes_at = p.opcodes_at;
      opcodes = copy_opcodes z o.opcodes_at p.opcodes_at o.literals_at new_literals o.opcodes;
      literals_at = new_literals;
      literals = map_option (copy_literals e) o.literals;
      arg_info = map_option (λ a. copy_arginfo e o.has_return o.variadic a o.num_args) o.arg_info;
      vars = copy_variables e o.vars;
    }

module _ (F : HashApi ZString) where
  -- One copy of a file's name for the thread.
  unfoldable pub copy_filename : Engine → F.Table → ZString → F.Table × ZString
  copy_filename e filenames s = elim (F.find filenames (name s.bytes)) [
    | some known ↦ (filenames, known)
    | none ↦ let copy = copy_string e s in (F.update filenames (name copy.bytes) copy, copy)
  ]

  unfoldable pub copy_user_function :
      Engine → Opcodes → Places → F.Table → Function → F.Table × Function
  copy_user_function e z p filenames f =
      let o = f.op_array in
      let named = copy_filename e filenames o.filename in
      let own = record o {
        function_name = copy_string e o.function_name;
        prototype = none;
        refcount = map_option (λ n. 1) o.refcount;
        run_time_cache = if o.heap_rt_cache then own_cache p.cache_at else no_cache;
        doc_comment = map_option (copy_string e) o.doc_comment;
        filename = named.1;
      } in
      let parts = if is_some o.refcount then copy_parts e z p own else own in
      (
        named.0,
        record f {
          name_refs = 1;
          op_array = record parts {
            static_variables = map_option (λ es. copy_statics e es end) o.static_variables;
          };
        },
      )

  -- `pthreads_copy_internal_function`
  unfoldable pub copy_internal_function : Function → Function
  copy_internal_function f = record f { arena_allocated = true }

  module _ (R : HashApi ℕ) where
    -- The functions in memory, the thread's table `resolve` and its table of file names.
    pub record Functions : Type 0 where
      pub functions : ℕ → Option Function
      pub resolve : R.Table
      pub filenames : F.Table

    abbrev pub put : ℕ → Function → Functions → Functions
    put a f s = record s { functions = λ (x : ℕ). if a == x then some f else s.functions x }

    -- One more use of a copy: its parts, where they are counted, and its name.
    abbrev pub used_again : Function → Function
    used_again f = record f {
      name_refs = suc f.name_refs;
      op_array = record f.op_array {
        refcount =
            if f.is_user then map_option (λ n. suc n) f.op_array.refcount else f.op_array.refcount;
      };
    }

    abbrev pub copy_of : Engine → Opcodes → Places → Function → F.Table → F.Table × Function
    copy_of e z p f filenames =
        if f.is_user
        then copy_user_function e z p filenames f
        else (filenames, copy_internal_function f)

    unfoldable pub make_copy : Engine → Opcodes → Places → ℕ → Function → Functions → Functions × ℕ
    make_copy e z p address f s =
        let made = copy_of e z p f s.filenames in
        let kept = put p.function_at made.1 (record s { filenames = made.0 }) in
        if f.closure then (kept, p.function_at) else (
          record kept { resolve = R.update s.resolve (index address) p.function_at },
          p.function_at,
        )

    abbrev pub known_copy : Bool → Option ℕ → Option ℕ
    known_copy true o = none
    known_copy false o = o

    abbrev pub copy_or_use :
        Engine → Opcodes → Places → ℕ → Function → Functions → Option ℕ → Option (Functions × ℕ)
    copy_or_use e z p address f s none = some (make_copy e z p address f s)
    copy_or_use e z p address f s (some c) = do g ← s.functions c; some (put c (used_again g) s, c)

    unfoldable pub copy_function :
        Engine → Opcodes → Places → ℕ → Functions → Option (Functions × ℕ)
    copy_function e z p address s = do
      f ← s.functions address
      if f.immutable
          then some (s, address)
          else copy_or_use e z p address f s
              (known_copy f.closure (R.find s.resolve (index address)))

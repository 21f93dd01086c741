-- ===== src/Copy/Function.antt =====
-- src/copy.c: the parts of a function that are copied with it: its static variables, literals, names
-- of variables, argument information and opcodes. Pointers are 64-bit patterns, for a platform on
-- which the operands of opcodes are offsets (`ZEND_USE_ABS_CONST_ADDR` and `ZEND_USE_ABS_JMP_ADDR`
-- are 0).
use pthreads.Base.{
  ℕ, suc, ◌+◌, ◌-◌, ◌*◌, ◌/◌, ◌%◌, ◌^◌, ◌≡◌, Bool, true, false, not, ◌&&◌, ◌||◌, Option, none, some,
  List, [], ◌∷◌, ◌==◌, if◌then◌else◌, map, length, take, drop, ltb, word,
}
use mathlib.Core.Option.{map as map_option}
use pthreads.Zend.Key.{same_key}
use pthreads.Copy.{
  Engine, ZString, ArrayKey, Value, null, reference, Entries, end, entry, copy_string, copy_key,
  copy_zval, key_of,
}
pub mod Operands
pub mod Arguments
pub mod Whole

-- `while (Z_TYPE_P(next) == IS_REFERENCE)`
abbrev pub dereferenced : Value → Value
dereferenced (reference v) = dereferenced v
dereferenced v = v

abbrev pub has_key : ArrayKey → Entries → Bool
has_key k end = false
has_key k (entry j v es) = same_key (key_of j) (key_of k) || has_key k es

-- `zend_hash_add`, which keeps what is there.
abbrev pub append : ArrayKey → Value → Entries → Entries
append k v end = entry k v end
append k v (entry j w es) = entry j w (append k v es)

abbrev pub add : ArrayKey → Value → Entries → Entries
add k v es = if has_key k es then es else append k v es

-- `pthreads_copy_statics` from an entry on; a value that cannot be copied becomes NULL.
unfoldable pub copy_statics : Engine → Entries → Entries → Entries
copy_statics e end statics = statics
copy_statics e (entry k v es) statics =
    let copied = copy_zval e e.unwritten (dereferenced v) in
    copy_statics e es (add (copy_key e k) (if copied.0 then copied.1 else null) statics)

-- `pthreads_copy_variables`
unfoldable pub copy_variables : Engine → List ZString → List ZString
copy_variables e [] = []
copy_variables e (s ∷ old) = copy_string e s ∷ copy_variables e old

-- `pthreads_copy_literals`
unfoldable pub copy_literals : Engine → List Value → List Value
copy_literals e [] = []
copy_literals e (v ∷ old) =
    let copied = copy_zval e e.unwritten v in
    (if copied.0 then copied.1 else null) ∷ copy_literals e old

-- `zend_type`: a mask with nothing, a name or a list of types.
mutual
  pub data ZendType : Type 0 where
    builtin : (mask : ℕ) → ZendType
    named : (mask : ℕ) → ZString → ZendType
    types : (mask : ℕ) → Types → ZendType

  pub data Types : Type 0 where
    no_types : Types
    add_type : ZendType → Types → Types

-- `pthreads_copy_zend_type`
unfoldable mutual
  pub copy_zend_type : Engine → ZendType → ZendType
  copy_zend_type e (builtin mask) = builtin mask
  copy_zend_type e (named mask s) = named mask (copy_string e s)
  copy_zend_type e (types mask ts) = types mask (copy_types e ts)

  pub copy_types : Engine → Types → Types
  copy_types e no_types = no_types
  copy_types e (add_type t ts) = add_type (copy_zend_type e t) (copy_types e ts)

-- `zend_arg_info`
pub record ArgInfo : Type 0 where
  pub arg_name : Option ZString
  pub arg_type : ZendType

-- `arg_info` points into a block, at the first argument.
pub record ArgPointer : Type 0 where
  pub block : List ArgInfo
  pub at_index : ℕ

unfoldable pub copy_arg : Engine → ArgInfo → ArgInfo
copy_arg e a = record {
  arg_name = map_option (copy_string e) a.arg_name;
  arg_type = copy_zend_type e a.arg_type;
}

-- `pthreads_copy_arginfo`: `old--` where there is a return type, which stands in front.
unfoldable pub copy_arginfo :
    Engine → (has_return variadic : Bool) → ArgPointer → (num_args : ℕ) → ArgPointer
copy_arginfo e has_return variadic old num_args =
    let from = if has_return then old.at_index - 1 else old.at_index in
    let counted = if has_return then num_args + 1 else num_args in
    let count = if variadic then counted + 1 else counted in
    record {
      block = map (copy_arg e) (take count (drop from old.block));
      at_index = if has_return then 1 else 0;
    }

-- An opcode, by what is looked at of it. `specialised` says that the handler was chosen anew.
pub record Op : Type 0 where
  pub opcode : ℕ
  pub op1_const : Bool
  pub op1 : ℕ
  pub op2_const : Bool
  pub op2 : ℕ
  pub specialised : Bool

-- `(char*) base + (int32_t) constant`
abbrev pub sign_extend : ℕ → ℕ
sign_extend c = if ltb c (2 ^ 31) then c else c + (word - 2 ^ 32)

abbrev pub target : ℕ → ℕ → ℕ
target base constant = (base + sign_extend constant) % word

-- The operand of an opcode at `new_op` that was at `old_op`, where a literal takes 16 bytes: the
-- address of the same literal in the new table, less that of the opcode.
unfoldable pub relocate : (old_op new_op old_literals new_literals constant : ℕ) → ℕ
relocate old_op new_op old_literals new_literals constant =
    let literal = (target old_op constant + (word - old_literals)) % word / 16 in
    (new_literals + 16 * literal + (word - new_op)) % word % 2 ^ 32

-- The opcodes whose handlers are chosen anew: `ZEND_SEND_VAL`, `ZEND_SEND_VAL_EX`, `ZEND_QM_ASSIGN`.
pub record Opcodes : Type 0 where
  pub send_val : ℕ
  pub send_val_ex : ℕ
  pub qm_assign : ℕ

abbrev pub is_sent : Opcodes → ℕ → Bool
is_sent z n = (n == z.send_val) || (n == z.send_val_ex) || (n == z.qm_assign)

-- The loop of `pthreads_copy_opcodes`, where an opcode takes 32 bytes.
unfoldable pub copy_opcodes :
    Opcodes → (old_op new_op old_literals new_literals : ℕ) → List Op → List Op
copy_opcodes z old_op new_op old_literals new_literals [] = []
copy_opcodes z old_op new_op old_literals new_literals (o ∷ ops) =
    record o {
      op1 = if o.op1_const then relocate old_op new_op old_literals new_literals o.op1 else o.op1;
      op2 = if o.op2_const then relocate old_op new_op old_literals new_literals o.op2 else o.op2;
      specialised = if o.op1_const && is_sent z o.opcode then true else o.specialised;
    }
    ∷ copy_opcodes z (old_op + 32) (new_op + 32) old_literals new_literals ops

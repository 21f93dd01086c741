-- ===== src/Copy/Tests.antt =====
-- Runs of the model of src/copy.c on a table with two strings, and on the tree of a constant
-- expression.
use pthreads.Base.{
  ◌==◌, if◌then◌else◌, ℕ, ◌+◌, ◌≡◌, refl, inr, Bool, true, false, none, some, List, [], ◌∷◌, arith,
}
use pthreads.Copy.{
  unset, null, Engine, ZString, index, name, Value, long, string, array, reference, constant_ast,
  end, entry, Ast, zval_node, constant_node, list_node, node, last, absent, child, copy_zval,
}
use pthreads.Copy.Function.{Op, Opcodes, ArgInfo, ArgPointer, builtin, named}
use pthreads.Copy.Function.Arguments.{CopiedArgs, copy_arginfo-CopiedArgs}
use pthreads.Copy.Function.Operands.{SameOps}
use pthreads.Copy.Function.Whole.{
  OpArray, no_cache, Places, Function, Functions, literals_memory, copy_parts,
}
use pthreads.Copy.Function.Whole.Again.{copy_parts-SameOps}
use pthreads.Zend.Hash.{HashApi}
use pthreads.Zend.Table.{list_table}
use pthreads.Copy.Tree.{Sizes, Memory}
use pthreads.Copy.Block.{LaidOut, copy_ast_ref-LaidOut}
use pthreads.Copy.Kept.{Keeps, copy_zval-Keeps}
use pthreads.Copy.Content.{content, IsData, copy_zval-content}

abbrev made : List ℕ → Bool → ZString
made b p = record {
  bytes = b;
  hash = 0;
  interned = false;
  permanent = false;
  persistent = p;
  memory = 2;
}

abbrev engine : Engine
engine = record {
  thread = 2;
  before_81 = false;
  hard_copy = false;
  intern = made;
  dup = made;
  unwritten = null;
  connect = λ a. some (a + 100);
  copy_closure = λ f. f + 100;
  intern_bytes = λ b p. refl;
  dup_bytes = λ b p. refl;
  intern_kept = λ b p. inr refl;
  dup_kept = λ b p. inr refl;
}

abbrev word_a : ZString
word_a = record {
  bytes = 97 ∷ [];
  hash = 7;
  interned = true;
  permanent = false;
  persistent = false;
  memory = 1;
}

abbrev tree : Ast
tree = node 512 0 (
    child (zval_node 0 (string word_a))
      (absent (child (list_node 128 0 (child (constant_node 1 word_a) last)) last)))

abbrev table : Value
table = array false (
    entry (name word_a) (reference (string word_a))
      (entry (index 3) (constant_ast tree) (entry (index 4) (long 5) end)))

abbrev sizes : Sizes
sizes = record {
  zval = 24;
  ast = 16;
  list = 24;
  ref = 8;
  zval_filled = omega arith;
  ast_filled = omega arith;
  list_filled = omega arith;
  ref_filled = omega arith;
}

abbrev memory : Memory
memory = λ x. none

table-IsData : IsData table
unfolding IsData
table-IsData = (refl, tt, (refl, (tt, ((tt, tt), tt)), (refl, tt, tt)))

copy_ast_ref-LaidOut_example : LaidOut sizes engine tree 1000 memory
copy_ast_ref-LaidOut_example = copy_ast_ref-LaidOut sizes engine tree 1000 memory

copy_zval-Keeps_example : Keeps engine (copy_zval engine unset table).1
unfolding Keeps
copy_zval-Keeps_example = copy_zval-Keeps engine refl tt unset table tt

copy_zval-content_example :
    ((copy_zval engine unset table).0 ≡ true)
    × (content (copy_zval engine unset table).1 ≡ content table)
copy_zval-content_example = copy_zval-content engine unset table table-IsData

abbrev opcodes : Opcodes
opcodes = record { send_val = 65; send_val_ex = 116; qm_assign = 31 }

-- An opcode at 4096 whose first operand is the literal 1 of the table at 8192.
abbrev op : Op
op = record {
  opcode = 31;
  op1_const = true;
  op1 = 4112;
  op2_const = false;
  op2 = 96;
  specialised = false;
}

abbrev return_info : ArgInfo
return_info = record { arg_name = none; arg_type = builtin 16 }

abbrev arg_info : ArgInfo
arg_info = record { arg_name = some word_a; arg_type = named 0 word_a }

abbrev args : ArgPointer
args = record { block = return_info ∷ arg_info ∷ arg_info ∷ []; at_index = 1 }

-- A function of one opcode with two literals, after its second pass.
abbrev op_array : OpArray
op_array = record {
  function_name = word_a;
  prototype = none;
  refcount = some 1;
  heap_rt_cache = false;
  run_time_cache = no_cache;
  doc_comment = none;
  filename = word_a;
  done_pass_two = true;
  opcodes_at = 4096;
  opcodes = op ∷ [];
  literals_at = 8192;
  literals = some (null ∷ string word_a ∷ []);
  has_return = true;
  variadic = true;
  arg_info = some args;
  num_args = 1;
  live_range = [];
  try_catch = [];
  vars = word_a ∷ [];
  static_variables = none;
}

abbrev places : Places
places = record { function_at = 900; opcodes_at = 65536; literals_at = 0; cache_at = 0 }

copy_parts-SameOps_example :
    SameOps 2 4096 65536 8192
      (literals_memory places op_array)
      (op ∷ [])
      ((copy_parts engine opcodes places op_array).opcodes)
copy_parts-SameOps_example =
    copy_parts-SameOps engine opcodes places op_array (null ∷ string word_a ∷ []) refl refl
      (omega arith) (omega arith) (omega arith)

abbrev names : HashApi ZString
names = list_table ZString

abbrev numbers : HashApi ℕ
numbers = list_table ℕ

abbrev function : Function
function = record {
  is_user = true;
  immutable = false;
  closure = false;
  arena_allocated = true;
  name_refs = 1;
  op_array = op_array;
}

abbrev functions : Functions names numbers
functions = record {
  functions = λ a. if a == 800 then some function else none;
  resolve = numbers.empty;
  filenames = names.empty;
}

copy_arginfo-CopiedArgs_example : CopiedArgs engine true true args 1
copy_arginfo-CopiedArgs_example = copy_arginfo-CopiedArgs engine true true args 1 (λ h. omega arith)

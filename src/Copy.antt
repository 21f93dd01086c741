-- ===== src/Copy.antt =====
-- src/copy.c: how values, and the constant expressions and functions that hold them, are copied from
-- one thread's memory into that of the calling thread. Strings carry the thread whose memory they
-- are in; objects are named by their addresses.
use pthreads.Base.{
  ℕ, ◌≡◌, ◌⊎◌, Bool, true, false, not, ◌&&◌, ◌||◌, Option, none, some, List, ◌==◌, if◌then◌else◌,
}
use pthreads.Zend.Key.{Key, same_key}
pub mod Tree
pub mod Layout
pub mod Block
pub mod Function
pub mod Kept
pub mod Content
pub mod Tests

-- `zend_string`
pub record ZString : Type 0 where
  pub bytes : List ℕ
  pub hash : ℕ
  pub interned : Bool
  pub permanent : Bool
  pub persistent : Bool
  pub memory : ℕ

-- A string that the thread may keep: its own, or one that lasts as long as the process.
abbrev pub IsKept : ℕ → ZString → Type 0
IsKept thread s = (s.permanent ≡ true) ⊎ (s.memory ≡ thread)

pub data ArrayKey : Type 0 where
  index : ℕ → ArrayKey
  name : ZString → ArrayKey

-- Values, arrays as the entries of their tables in order, and syntax trees, of which an absent child
-- is `NULL`. `foreign` is an object that is neither a `ThreadedBase` nor a closure.
mutual
  pub data Value : Type 0 where
    unset null no yes_value : Value
    long : ℕ → Value
    double : ℕ → Value
    string : ZString → Value
    array : (persistent : Bool) → Entries → Value
    threaded : ℕ → Value
    closure : ℕ → Value
    foreign : ℕ → Value
    resource : ℕ → Value
    constant_ast : Ast → Value
    indirect : Value → Value
    reference : Value → Value

  pub data Entries : Type 0 where
    end : Entries
    entry : ArrayKey → Value → Entries → Entries

  pub data Ast : Type 0 where
    zval_node : (attr : ℕ) → Value → Ast
    constant_node : (attr : ℕ) → ZString → Ast
    list_node : (kind attr : ℕ) → Children → Ast
    node : (kind attr : ℕ) → Children → Ast

  pub data Children : Type 0 where
    last : Children
    absent : Children → Children
    child : Ast → Children → Children

-- What the code takes from the engine and from the rest of the extension, with what it relies on:
-- the calling thread; whether the engine is older than 8.1; the flag `hard_copy_interned_strings`;
-- `zend_new_interned_string(zend_string_init(...))` and `zend_string_dup`, by the bytes and the flag
-- for persistent memory; what a variable or memory that was not written yet holds, taken to be the
-- same everywhere; `pthreads_globals_object_connect`; and the closure of a copied function.
pub record Engine : Type 0 where
  pub thread : ℕ
  pub before_81 : Bool
  pub hard_copy : Bool
  pub intern : List ℕ → Bool → ZString
  pub dup : List ℕ → Bool → ZString
  pub unwritten : Value
  pub connect : ℕ → Option ℕ
  pub copy_closure : ℕ → ℕ
  pub intern_bytes : (b : List ℕ) (p : Bool) → (intern b p).bytes ≡ b
  pub dup_bytes : (b : List ℕ) (p : Bool) → (dup b p).bytes ≡ b
  pub intern_kept : (b : List ℕ) (p : Bool) → IsKept thread (intern b p)
  pub dup_kept : (b : List ℕ) (p : Bool) → IsKept thread (dup b p)

-- What the engine's tables compare of a key.
abbrev pub key_of : ArrayKey → Key
key_of (index i) = Key.index i
key_of (name s) = Key.name s.bytes

-- `zend_hash_update` and `zend_hash_index_update` on the entries
abbrev pub update : ArrayKey → Value → Entries → Entries
update k v end = entry k v end
update k v (entry j w es) =
    if same_key (key_of j) (key_of k) then entry j v es else entry j w (update k v es)

-- A connection that fails writes nothing.
abbrev pub connected : (d : Value) → Option ℕ → Value
connected d none = d
connected d (some c) = threaded c

-- `pthreads_copy_string`
unfoldable pub copy_string : Engine → ZString → ZString
copy_string e s =
    if s.interned
    then (if s.permanent || (e.before_81 && not e.hard_copy)
        then s
        else record (e.intern s.bytes s.persistent) { hash = s.hash })
    else record (e.dup s.bytes s.persistent) { hash = s.hash }

unfoldable pub copy_key : Engine → ArrayKey → ArrayKey
copy_key e (index i) = index i
copy_key e (name s) = name (copy_string e s)

-- `pthreads_copy_zval` to a destination that holds `d`: whether it succeeds and what the destination
-- then holds, which is `d` where nothing is written. `pthreads_copy_hash` from an entry on, where its
-- variable `newzval` holds `d`, and the tree that `pthreads_copy_ast` makes. The results of connecting
-- and of copying a tree's values are not looked at.
module _ (e : Engine) where
  unfoldable mutual
    pub copy_zval : (d : Value) → Value → Bool × Value
    copy_zval d unset = (false, d)
    copy_zval d null = (true, null)
    copy_zval d no = (true, no)
    copy_zval d yes_value = (true, yes_value)
    copy_zval d (long n) = (true, long n)
    copy_zval d (double x) = (true, double x)
    copy_zval d (string s) = (true, string (copy_string e s))
    copy_zval d (array persistent es) = (true, array persistent (copy_hash e.unwritten es end))
    copy_zval d (threaded a) = (true, connected d (e.connect a))
    copy_zval d (closure f) = (true, closure (e.copy_closure f))
    copy_zval d (foreign o) = (false, d)
    copy_zval d (resource r) = (false, d)
    copy_zval d (constant_ast a) = (true, constant_ast (copy_ast a))
    copy_zval d (indirect v) = copy_zval d v
    copy_zval d (reference v) = copy_zval d v

    pub copy_hash : (d : Value) → Entries → Entries → Entries
    copy_hash d end ht = ht
    copy_hash d (entry k v es) ht =
        let copied = copy_zval d v in
        copy_hash copied.1 es (if copied.0 then update (copy_key e k) copied.1 ht else ht)

    pub copy_ast : Ast → Ast
    copy_ast (zval_node attr v) = zval_node attr (copy_zval e.unwritten v).1
    copy_ast (constant_node attr s) = constant_node attr (copy_string e s)
    copy_ast (list_node kind attr cs) = list_node kind attr (copy_children cs)
    copy_ast (node kind attr cs) = node kind attr (copy_children cs)

    pub copy_children : Children → Children
    copy_children last = last
    copy_children (absent cs) = absent (copy_children cs)
    copy_children (child a cs) = child (copy_ast a) (copy_children cs)

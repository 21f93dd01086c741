-- ===== src/Copy/Kept.antt =====
-- A value that `pthreads_copy_zval` in src/copy.c has copied keeps nothing of another thread's.
use pthreads.Base.{ℕ, ◌≡◌, inl, inr, refl, false, not, ◌&&◌, some, Bool-cases, Option-cases}
use pthreads.Zend.Key.{same_key}
use pthreads.Copy.{
  Engine, ZString, IsKept, ArrayKey, index, name, Value, unset, null, no, yes_value, long, double,
  string, array, threaded, closure, foreign, resource, constant_ast, indirect, reference, Entries,
  end, entry, Ast, zval_node, constant_node, list_node, node, Children, last, absent, child,
  copy_string, copy_key, copy_zval, copy_hash, copy_ast, copy_children, update, connected, key_of,
}

module _ (e : Engine) where
  abbrev pub KeepsKey : ArrayKey → Type 0
  KeepsKey (index i) = Unit
  KeepsKey (name s) = IsKept e.thread s

  -- Every string is the thread's own or lasts, and every object is one that the thread was given.
  unfoldable mutual
    pub Keeps : Value → Type 0
    Keeps unset = Unit
    Keeps null = Unit
    Keeps no = Unit
    Keeps yes_value = Unit
    Keeps (long n) = Unit
    Keeps (double d) = Unit
    Keeps (string s) = IsKept e.thread s
    Keeps (array persistent es) = KeepsEntries es
    Keeps (threaded a) = (b : ℕ) × (e.connect b ≡ some a)
    Keeps (closure f) = (b : ℕ) × (e.copy_closure b ≡ f)
    Keeps (foreign o) = ⊥
    Keeps (resource r) = ⊥
    Keeps (constant_ast a) = KeepsAst a
    Keeps (indirect v) = ⊥
    Keeps (reference v) = ⊥

    pub KeepsEntries : Entries → Type 0
    KeepsEntries end = Unit
    KeepsEntries (entry k v es) = KeepsKey k × Keeps v × KeepsEntries es

    pub KeepsAst : Ast → Type 0
    KeepsAst (zval_node attr v) = Keeps v
    KeepsAst (constant_node attr s) = IsKept e.thread s
    KeepsAst (list_node kind attr cs) = KeepsChildren cs
    KeepsAst (node kind attr cs) = KeepsChildren cs

    pub KeepsChildren : Children → Type 0
    KeepsChildren last = Unit
    KeepsChildren (absent cs) = KeepsChildren cs
    KeepsChildren (child a cs) = KeepsAst a × KeepsChildren cs

  update-KeepsEntries :
      (k : ArrayKey) (v : Value) (es : Entries)
      → KeepsKey k
      → Keeps v
      → KeepsEntries es
      → KeepsEntries (update k v es)
  unfolding Keeps
  update-KeepsEntries k v end a b c = (a, b, tt)
  update-KeepsEntries k v (entry j w es) a b (c, d, f) =
      elim (Bool-cases (same_key (key_of j) (key_of k))) [
        | inl y ↦ rw y (c, b, f)
        | inr n ↦ rw n (c, d, update-KeepsEntries k v es a b f)
      ]

  connected-Keeps : (d : Value) (b : ℕ) → Keeps d → Keeps (connected d (e.connect b))
  unfolding Keeps
  connected-Keeps d b kept = elim (Option-cases (e.connect b)) [
    | inl n ↦ rw n kept
    | inr (a, s) ↦ rw s (b, s)
  ]

  module _ (copies : (e.before_81 && not e.hard_copy) ≡ false) (clean : Keeps e.unwritten) where
    copy_string-IsKept : (s : ZString) → IsKept e.thread (copy_string e s)
    unfolding copy_string
    copy_string-IsKept s = elim (Bool-cases s.interned) [
      | inr n ↦ rw n (e.dup_kept s.bytes s.persistent)
      | inl y ↦ elim (Bool-cases s.permanent) [
        | inl p ↦ rw (y, p) (inl refl)
        | inr n ↦ rw (y, n, copies) (e.intern_kept s.bytes s.persistent)
      ]
    ]

    copy_key-KeepsKey : (k : ArrayKey) → KeepsKey (copy_key e k)
    unfolding copy_key
    copy_key-KeepsKey (index i) = tt
    copy_key-KeepsKey (name s) = copy_string-IsKept s

    mutual
      unfolding copy_zval Keeps

      own_zval : (d v : Value) → Keeps d → Keeps (copy_zval e d v).1
      own_zval d unset kept = kept
      own_zval d null kept = tt
      own_zval d no kept = tt
      own_zval d yes_value kept = tt
      own_zval d (long n) kept = tt
      own_zval d (double x) kept = tt
      own_zval d (string s) kept = copy_string-IsKept s
      own_zval d (array persistent es) kept = own_hash e.unwritten es end clean tt
      own_zval d (threaded a) kept = connected-Keeps d a kept
      own_zval d (closure f) kept = (f, refl)
      own_zval d (foreign o) kept = kept
      own_zval d (resource r) kept = kept
      own_zval d (constant_ast a) kept = own_ast a
      own_zval d (indirect v) kept = own_zval d v kept
      own_zval d (reference v) kept = own_zval d v kept

      own_hash :
          (d : Value) (es ht : Entries)
          → Keeps d
          → KeepsEntries ht
          → KeepsEntries (copy_hash e d es ht)
      own_hash d end ht kept k = k
      own_hash d (entry j v es) ht kept k =
          let copied = own_zval d v kept in
          elim (Bool-cases (copy_zval e d v).0) [
            | inl y ↦ rw y (
                own_hash (copy_zval e d v).1 es (update (copy_key e j) (copy_zval e d v).1 ht)
                  copied
                  (update-KeepsEntries (copy_key e j) (copy_zval e d v).1 ht (copy_key-KeepsKey j)
                    copied k))
            | inr n ↦ rw n (own_hash (copy_zval e d v).1 es ht copied k)
          ]

      own_ast : (a : Ast) → KeepsAst (copy_ast e a)
      own_ast (zval_node attr v) = own_zval e.unwritten v clean
      own_ast (constant_node attr s) = copy_string-IsKept s
      own_ast (list_node kind attr cs) = own_children cs
      own_ast (node kind attr cs) = own_children cs

      own_children : (cs : Children) → KeepsChildren (copy_children e cs)
      own_children last = tt
      own_children (absent cs) = own_children cs
      own_children (child a cs) = (own_ast a, own_children cs)

    -- On PHP 8.1 and later, or with the flag for hard copies, whatever a value holds at any depth, and
    -- whatever connections fail: its copy holds only strings that are the calling thread's own or last as
    -- long as the process, objects that the registry gave the thread, closures of copied functions, and no
    -- resource or other object, if the same is true of what the destination and memory that was not
    -- written yet held, which a failed connection leaves there.
    pub copy_zval-Keeps : (d v : Value) → Keeps d → Keeps (copy_zval e d v).1
    copy_zval-Keeps d v kept = own_zval d v kept

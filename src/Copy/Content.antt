-- ===== src/Copy/Content.antt =====
-- A copy that `pthreads_copy_zval` in src/copy.c makes has the content of its source.
use pthreads.Base.{
  ◌≡◌, inl, inr, refl, sym, ap, ◌∙◌, Bool, true, false, not, ◌&&◌, ◌||◌, Bool-cases, arith,
  or_false,
}
use pthreads.Zend.Key.{Key, same_key, same_key-sym}
use pthreads.Copy.{
  Engine, ZString, ArrayKey, index, name, Value, unset, null, no, yes_value, long, double, string,
  array, threaded, closure, foreign, resource, constant_ast, indirect, reference, Entries, end,
  entry, Ast, zval_node, constant_node, list_node, node, Children, last, absent, child, copy_string,
  copy_key, copy_zval, copy_hash, copy_ast, copy_children, update, key_of,
}

-- A string less where it is kept.
abbrev pub text : ZString → ZString
text s = record s { interned = false; permanent = false; persistent = false; memory = 0 }

abbrev pub text_key : ArrayKey → ArrayKey
text_key (index i) = index i
text_key (name s) = name (text s)

-- A value less where its strings are kept and what refers to it.
unfoldable mutual
  pub content : Value → Value
  content (string s) = string (text s)
  content (array persistent es) = array persistent (content_entries es)
  content (constant_ast a) = constant_ast (content_ast a)
  content (indirect v) = content v
  content (reference v) = content v
  content v = v

  pub content_entries : Entries → Entries
  content_entries end = end
  content_entries (entry k v es) = entry (text_key k) (content v) (content_entries es)

  pub content_ast : Ast → Ast
  content_ast (zval_node attr v) = zval_node attr (content v)
  content_ast (constant_node attr s) = constant_node attr (text s)
  content_ast (list_node kind attr cs) = list_node kind attr (content_children cs)
  content_ast (node kind attr cs) = node kind attr (content_children cs)

  pub content_children : Children → Children
  content_children last = last
  content_children (absent cs) = absent (content_children cs)
  content_children (child a cs) = child (content_ast a) (content_children cs)

abbrev pub holds_key : Key → Entries → Bool
holds_key x end = false
holds_key x (entry k v es) = same_key (key_of k) x || holds_key x es

-- Data at every depth: no object, resource or undefined value, and no key twice.
unfoldable mutual
  pub IsData : Value → Type 0
  IsData unset = ⊥
  IsData null = Unit
  IsData no = Unit
  IsData yes_value = Unit
  IsData (long n) = Unit
  IsData (double d) = Unit
  IsData (string s) = Unit
  IsData (array persistent es) = AreData es
  IsData (threaded a) = ⊥
  IsData (closure f) = ⊥
  IsData (foreign o) = ⊥
  IsData (resource r) = ⊥
  IsData (constant_ast a) = IsDataAst a
  IsData (indirect v) = IsData v
  IsData (reference v) = IsData v

  pub AreData : Entries → Type 0
  AreData end = Unit
  AreData (entry k v es) = (holds_key (key_of k) es ≡ false) × IsData v × AreData es

  pub IsDataAst : Ast → Type 0
  IsDataAst (zval_node attr v) = IsData v
  IsDataAst (constant_node attr s) = Unit
  IsDataAst (list_node kind attr cs) = AreDataChildren cs
  IsDataAst (node kind attr cs) = AreDataChildren cs

  pub AreDataChildren : Children → Type 0
  AreDataChildren last = Unit
  AreDataChildren (absent cs) = AreDataChildren cs
  AreDataChildren (child a cs) = IsDataAst a × AreDataChildren cs

abbrev join : Entries → Entries → Entries
join end es = es
join (entry k v ds) es = entry k v (join ds es)

join_end : (ds : Entries) → join ds end ≡ ds
join_end end = refl
join_end (entry k v ds) = ap (entry k v) (join_end ds)

join_assoc : (ds es fs : Entries) → join (join ds es) fs ≡ join ds (join es fs)
join_assoc end es fs = refl
join_assoc (entry k v ds) es fs = ap (entry k v) (join_assoc ds es fs)

-- No key of the first stands in the second.
abbrev AreApart : Entries → Entries → Type 0
AreApart end ht = Unit
AreApart (entry k v es) ht = (holds_key (key_of k) ht ≡ false) × AreApart es ht

apart_end : (es : Entries) → AreApart es end
apart_end end = tt
apart_end (entry k v es) = (refl, apart_end es)

content-update :
    (k : ArrayKey) (v : Value) (ht : Entries)
    → holds_key (key_of k) ht ≡ false
    → content_entries (update k v ht)
      ≡ join (content_entries ht) (entry (text_key k) (content v) end)
unfolding content
content-update k v end h = refl
content-update k v (entry j w ht) h = elim (Bool-cases (same_key (key_of j) (key_of k))) [
  | inl y ↦ absurd (let p = (rw y at h) in cc p)
  | inr n ↦ rw n (ap (entry (text_key j) (content w)) (content-update k v ht (rw n at h)))
]

holds-update :
    (k : ArrayKey) (v : Value) (x : Key) (ht : Entries)
    → same_key (key_of k) x ≡ false
    → holds_key x ht ≡ false
    → holds_key x (update k v ht) ≡ false
holds-update k v x end n h = rw n refl
holds-update k v x (entry j w ht) n h = elim (Bool-cases (same_key (key_of j) (key_of k))) [
  | inl y ↦ rw y (ground arith)
  | inr d ↦ rw d (ground (arith, holds-update k v x ht n))
]

apart-update :
    (k : ArrayKey) (v : Value) (es ht : Entries)
    → holds_key (key_of k) es ≡ false
    → AreApart es ht
    → AreApart es (update k v ht)
apart-update k v end ht h a = tt
apart-update k v (entry j w es) ht h (b, a) = (
  holds-update k v (key_of j) ht
      (same_key-sym (key_of k) (key_of j)
        ∙ (or_false (same_key (key_of j) (key_of k)) (holds_key (key_of k) es) h).0)
      b,
  apart-update k v es ht (or_false (same_key (key_of j) (key_of k)) (holds_key (key_of k) es) h).1
      a,
)

module _ (e : Engine) where
  text-copy_string : (s : ZString) → text (copy_string e s) ≡ text s
  unfolding copy_string
  text-copy_string s = elim (Bool-cases s.interned) [
    | inr n ↦ rw (n, e.dup_bytes s.bytes s.persistent) refl
    | inl y ↦ elim (Bool-cases (s.permanent || (e.before_81 && not e.hard_copy))) [
      | inl p ↦ rw (y, p) refl
      | inr q ↦ rw (y, q, e.intern_bytes s.bytes s.persistent) refl
    ]
  ]

  text-copy_key : (k : ArrayKey) → text_key (copy_key e k) ≡ text_key k
  unfolding copy_key
  text-copy_key (index i) = refl
  text-copy_key (name s) = ap name (text-copy_string s)

  key_of-copy_key : (k : ArrayKey) → key_of (copy_key e k) ≡ key_of k
  unfolding copy_key
  key_of-copy_key (index i) = refl
  key_of-copy_key (name s) = ap (λ t. Key.name (ZString.bytes t)) (text-copy_string s)

  mutual
    unfolding copy_zval content IsData

    same_zval :
        (x v : Value)
        → IsData v
        → ((copy_zval e x v).0 ≡ true) × (content (copy_zval e x v).1 ≡ content v)
    same_zval u unset d = absurd d
    same_zval u null d = (refl, refl)
    same_zval u no d = (refl, refl)
    same_zval u yes_value d = (refl, refl)
    same_zval u (long n) d = (refl, refl)
    same_zval u (double x) d = (refl, refl)
    same_zval u (string s) d = (refl, ap string (text-copy_string s))
    same_zval u (array persistent es) d =
        (refl, ap (array persistent) (same_hash e.unwritten es end d (apart_end es)))
    same_zval u (threaded a) d = absurd d
    same_zval u (closure f) d = absurd d
    same_zval u (foreign o) d = absurd d
    same_zval u (resource r) d = absurd d
    same_zval u (constant_ast a) d = (refl, ap constant_ast (same_ast a d))
    same_zval u (indirect v) d = same_zval u v d
    same_zval u (reference v) d = same_zval u v d

    same_hash :
        (x : Value) (es ht : Entries)
        → AreData es
        → AreApart es ht
        → content_entries (copy_hash e x es ht) ≡ join (content_entries ht) (content_entries es)
    same_hash u end ht d a = sym (join_end (content_entries ht))
    same_hash u (entry k v es) ht (fresh, dv, ds) (new, a) =
        let (ok, same) = same_zval u v dv in
        let copied = (copy_zval e u v).1 in
        let j = copy_key e k in
        let q : key_of j ≡ key_of k = key_of-copy_key k in
        rw ok (
          same_hash copied es (update j copied ht) ds (apart-update j copied es ht (rw q fresh) a)
          ∙ ap (λ t. join t (content_entries es)) (content-update j copied ht (rw q new))
          ∙ join_assoc (content_entries ht) (entry (text_key j) (content copied) end)
              (content_entries es)
          ∙ rw (text-copy_key k, same) refl)

    same_ast : (a : Ast) → IsDataAst a → content_ast (copy_ast e a) ≡ content_ast a
    same_ast (zval_node attr v) d = ap (zval_node attr) (same_zval e.unwritten v d).1
    same_ast (constant_node attr s) d = ap (constant_node attr) (text-copy_string s)
    same_ast (list_node kind attr cs) d = ap (list_node kind attr) (same_children cs d)
    same_ast (node kind attr cs) d = ap (node kind attr) (same_children cs d)

    same_children :
        (cs : Children)
        → AreDataChildren cs
        → content_children (copy_children e cs) ≡ content_children cs
    same_children last d = refl
    same_children (absent cs) d = ap absent (same_children cs d)
    same_children (child a cs) (d, ds) = rw (same_ast a d, same_children cs ds) refl

  -- Whatever the destination held, a value that is data at every depth is copied with success, and the
  -- copy has its content: the same
  -- numbers, the strings by their bytes and hashes, the arrays with the same keys in the same order,
  -- and the same constant expressions, without indirections and references.
  pub copy_zval-content :
      (u v : Value)
      → IsData v
      → ((copy_zval e u v).0 ≡ true) × (content (copy_zval e u v).1 ≡ content v)
  copy_zval-content u v d = same_zval u v d

-- ===== src/Object/Counts.antt =====
-- How many registered objects refer to a thread-safe object, and what the making, the counting and
-- the deleting of objects in src/object.c do to that number.
use pthreads.Base.{
  ℕ, ◌+◌, ◌≡◌, ◌≢◌, refl, sym, ◌∙◌, Option, none, some, List, [], ◌∷◌, arith, one_if, Bool-cases,
  inl, inr,
}
use pthreads.Zend.Key.{Key, index, same_key}
use pthreads.Zend.Hash.{HashApi, lookup, put, erase}
use pthreads.Object.{TsObject, ZendObject, World, object_at}

abbrev pub refs : ℕ → List (Key × ZendObject) → ℕ
refs a [] = 0
refs a ((k, o) ∷ es) = one_if o.ts_obj a + refs a es

abbrev pub refers : ℕ → Option ZendObject → ℕ
refers a none = 0
refers a (some o) = one_if o.ts_obj a

abbrev pub refcount_of : Option TsObject → ℕ
refcount_of none = 0
refcount_of (some t) = t.refcount

one_if_refl : (a : ℕ) → one_if a a ≡ 1
one_if_refl a = ground arith

refs-put :
    (a : ℕ) (k : Key) (v : ZendObject) (es : List (Key × ZendObject))
    → refs a (put k v es) + refers a (lookup k es) ≡ refs a es + one_if v.ts_obj a
refs-put a k v [] = omega arith
refs-put a k v ((j, o) ∷ es) = elim (Bool-cases (same_key j k)) [
  | inl e ↦ rw e (omega arith)
  | inr n ↦ rw n (omega (arith, refs-put a k v es))
]

refs-erase :
    (a : ℕ) (k : Key) (es : List (Key × ZendObject))
    → refs a (erase k es) + refers a (lookup k es) ≡ refs a es
refs-erase a k [] = refl
refs-erase a k ((j, o) ∷ es) = elim (Bool-cases (same_key j k)) [
  | inl e ↦ rw e (omega arith)
  | inr n ↦ rw n (omega (arith, refs-erase a k es))
]

module _ (H : HashApi ZendObject) (R : HashApi ℕ) where
  abbrev pub refs_to : World H R → ℕ → ℕ
  refs_to w a = refs a (H.entries w.objects)

  abbrev pub refcount_at : World H R → ℕ → ℕ
  refcount_at w a = refcount_of (w.ts_objects a)

  pub refs_to-update :
      (w : World H R) (a b : ℕ) (o : ZendObject)
      → refs_to (record w { objects = H.update w.objects (index b) o }) a
          + refers a (object_at H R w b)
        ≡ refs_to w a + one_if o.ts_obj a
  refs_to-update w a b o =
      rw (H.entries_update w.objects (index b) o, H.find_entries w.objects (index b))
        (refs-put a (index b) o (H.entries w.objects))

  pub refs_to-del :
      (w : World H R) (a b : ℕ)
      → refs_to (record w { objects = H.del w.objects (index b) }) a + refers a (object_at H R w b)
        ≡ refs_to w a
  refs_to-del w a b =
      rw (H.entries_del w.objects (index b), H.find_entries w.objects (index b))
        (refs-erase a (index b) (H.entries w.objects))

  -- A registered object is among those that refer to its thread-safe object.
  pub refs_to-object :
      (w : World H R) (b : ℕ) (o : ZendObject) → object_at H R w b ≡ some o → refs_to w o.ts_obj ≢ 0
  refs_to-object w b o h e =
      let erased = refs-erase o.ts_obj (index b) (H.entries w.objects) in
      let found : lookup (index b) (H.entries w.objects) ≡ some o =
        sym (H.find_entries w.objects (index b)) ∙ h in
      let there : refs o.ts_obj (erase (index b) (H.entries w.objects)) + one_if o.ts_obj o.ts_obj
          ≡ 0 =
        (rw found at erased) ∙ e in
      omega (arith, there, one_if_refl o.ts_obj)

-- ===== src/Store/Take.antt =====
-- `pthreads_store_shift` and `pthreads_store_pop` take the entries at the two ends of the table.
use pthreads.Base.{
  ◌≡◌, refl, ap, subst, ◌∙◌, true, false, Option, none, some, List, [], ◌∷◌, ◌++◌, arith,
}
use pthreads.Zend.Key.{Key, same_key, same_key_refl, same_key-sym}
use pthreads.Zend.Hash.{HashApi, IsKeyed, has_key, erase}
use pthreads.Store.Values.{Zval, Zstorage, Env}
use pthreads.Store.Convert.{restore_zval, restore_zval_ex}
use pthreads.Store.{State, find_prop, bump_if, del_shared}
use pthreads.Store.Ends.{shift, pop, take_entry, take_out, last?}
use pthreads.Store.Changes.{bumped-table, bumped-props, del_prop-find_prop}

module _ {V : Type 0} where
  last-append : (es : List (Key × V)) (a : Key × V) → last? (es ++ a ∷ []) ≡ some a
  last-append [] a = refl
  last-append (b ∷ []) a = refl
  last-append (b ∷ c ∷ es) a = last-append (c ∷ es) a

  has_key-end : (k : Key) (v : V) (es : List (Key × V)) → has_key k (es ++ (k, v) ∷ []) ≡ true
  has_key-end k v [] = ground (arith, same_key_refl k)
  has_key-end k v ((j, w) ∷ es) = ground (arith, has_key-end k v es)

  has_key-front :
      (j k : Key) (v : V) (es : List (Key × V))
      → has_key j (es ++ (k, v) ∷ []) ≡ false
      → same_key k j ≡ false
  has_key-front j k v [] h = ground (arith, h)
  has_key-front j k v ((i, w) ∷ es) h = has_key-front j k v es (ground (arith, h))

  erase-end :
      (k : Key) (v : V) (es : List (Key × V))
      → IsKeyed (es ++ (k, v) ∷ [])
      → erase k (es ++ (k, v) ∷ []) ≡ es
  erase-end k v [] d = rw (same_key_refl k) refl
  erase-end k v ((j, w) ∷ es) d =
      let apart : same_key j k ≡ false = same_key-sym j k ∙ has_key-front j k v es d.0 in
      rw apart (ap (λ (r : List (Key × V)). (j, w) ∷ r) (erase-end k v es d.1))

module _ (S : HashApi Zstorage) (L : HashApi Zval) where
  -- The entry `(k, z)` has left the table, in which `es` are left, and the connection's cache.
  pub record Took (e : Env) (k : Key) (z : Zstorage) (es : List (Key × Zstorage))
      (run : Option (State S L × Zval)) : Type 0 where
    pub state : State S L
    pub runs : run ≡ some (state, restore_zval e z)
    pub left : S.entries state.shared.hash ≡ es
    pub uncached : find_prop S L state.local.props k ≡ none

  taken-Took :
      (e : Env) (s : State S L) (k : Key) (z : Zstorage) (es : List (Key × Zstorage))
      → S.entries (S.del s.shared.hash k) ≡ es
      → Took e k z es (some (take_entry S L e s (some (k, z))))
  unfolding take_entry take_out restore_zval
  taken-Took e s k z es gone =
      let c = (restore_zval_ex e z).1 in
      record {
        state = bump_if S L c (take_out S L s k);
        runs = refl;
        left = ap S.entries (bumped-table S L c (take_out S L s k)) ∙ gone;
        uncached =
            ap (λ (o : Option L.Table). find_prop S L o k) (bumped-props S L c (take_out S L s k))
            ∙ del_prop-find_prop S L (del_shared S L s k) k;
      }

  -- With the lock, `shift` gives the first entry of a table as the calling thread restores it, and
  -- takes it out of the table and out of the connection's cache; the others stay in their order.
  pub shift-Took :
      (e : Env) (s : State S L) (k : Key) (z : Zstorage) (es : List (Key × Zstorage))
      → S.entries s.shared.hash ≡ (k, z) ∷ es
      → Took e k z es (shift S L e true s)
  unfolding shift
  shift-Took e s k z es here =
      rw here (taken-Took e s k z es (rw (S.entries_del, here, same_key_refl k) refl))

  -- With the lock, `pop` gives the last entry of a table as the calling thread restores it, and takes
  -- it out of the table and out of the connection's cache; the others stay in their order.
  pub pop-Took :
      (e : Env) (s : State S L) (k : Key) (z : Zstorage) (es : List (Key × Zstorage))
      → S.entries s.shared.hash ≡ es ++ (k, z) ∷ []
      → Took e k z es (pop S L e true s)
  unfolding pop
  pop-Took e s k z es here =
      let keyed : IsKeyed (es ++ (k, z) ∷ []) = subst IsKeyed here (S.keyed s.shared.hash) in
      rw (here, last-append es (k, z))
        (taken-Took e s k z es (rw (S.entries_del, here) (erase-end k z es keyed)))

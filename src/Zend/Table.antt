-- ===== src/Zend/Table.antt =====
-- A table that meets the interface: its entries, with the proof that no key stands twice.
use pthreads.Base.{◌≡◌, refl, false, List, [], ◌∷◌, arith, length, Bool-cases, inl, inr}
use pthreads.Zend.Key.{Key, same_key, same_key-sym}
use pthreads.Zend.Hash.{HashApi, lookup, put, erase, has_key, IsKeyed}

module _ {V : Type 0} where
  -- A key other than the one that is put is not made present.
  has_key-put :
      (k j : Key) (v : V) (es : List (Key × V))
      → same_key k j ≡ false
      → has_key j es ≡ false
      → has_key j (put k v es) ≡ false
  has_key-put k j v [] n h = ground arith
  has_key-put k j v ((i, w) ∷ es) n h = ground (arith, has_key-put k j v es)

  has_key-erase :
      (k j : Key) (es : List (Key × V)) → has_key j es ≡ false → has_key j (erase k es) ≡ false
  has_key-erase k j [] h = refl
  has_key-erase k j ((i, w) ∷ es) h = ground (arith, has_key-erase k j es)

  pub put-IsKeyed : (k : Key) (v : V) (es : List (Key × V)) → IsKeyed es → IsKeyed (put k v es)
  put-IsKeyed k v [] d = (refl, tt)
  put-IsKeyed k v ((i, w) ∷ es) d = elim (Bool-cases (same_key i k)) [
    | inl e ↦ rw e d
    | inr n ↦ rw n (ground (arith, put-IsKeyed k v es, has_key-put k i v es, same_key-sym k i))
  ]

  pub erase-IsKeyed : (k : Key) (es : List (Key × V)) → IsKeyed es → IsKeyed (erase k es)
  erase-IsKeyed k [] d = tt
  erase-IsKeyed k ((i, w) ∷ es) d = ground (arith, erase-IsKeyed k es, has_key-erase k i es)

abbrev pub list_table : (V : Type 0) → HashApi V
list_table V = record {
  Table = (es : List (Key × V)) × IsKeyed es;
  empty = ([], tt);
  find = λ t k. lookup k t.0;
  update = λ t k v. (put k v t.0, put-IsKeyed k v t.0 t.1);
  del = λ t k. (erase k t.0, erase-IsKeyed k t.0 t.1);
  num_elements = λ t. length t.0;
  entries = λ t. t.0;
  entries_empty = refl;
  find_entries = λ t k. refl;
  entries_update = λ t k v. refl;
  entries_del = λ t k. refl;
  num_entries = λ t. refl;
  keyed = λ t. t.1;
}

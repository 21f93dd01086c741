-- ===== src/Store/Iterate.antt =====
-- src/store.c: the positions by which a table is iterated, and the iterator of src/object.c over them.
-- A position is the number of an entry of the shared table in its order, `none` for `HT_INVALID_IDX`.
use pthreads.Base.{
  ℕ, zero, suc, ◌+◌, ◌<◌, ◌≤◌, ◌≡◌, refl, sym, ap, ◌∙◌, Bool, true, false, not, Option, none, some,
  List, [], ◌∷◌, if◌then◌else◌, length, drop, map, ltb, ◌==◌, arith, ◌>>=◌, Bool-cases, inl, inr,
  Option-cases,
}
use pthreads.Zend.Key.{Key, index, name}
use pthreads.Zend.Hash.{HashApi}
use pthreads.Store.Values.{Text, Zval, null, long, string, Zstorage, Env}
use pthreads.Store.{
  State, Shared, Local, bp_var_r, sync_local_properties, find_prop, update_local_property, coerce,
}
use pthreads.Store.Access.{Read, got, missing, refused, read, sync_if_cached, cached_item}
pub mod Each

-- The key at a position.
abbrev pub key_from : List (Key × Zstorage) → ℕ → Option Key
key_from [] n = none
key_from ((k, z) ∷ es) zero = some k
key_from ((k, z) ∷ es) (suc n) = key_from es n

-- A key as PHP code gets it; the string is copied to the address.
abbrev pub key_zval : (copied : ℕ) → Option Key → Zval
key_zval copied none = null
key_zval copied (some (index n)) = long n
key_zval copied (some (name b)) = string (record { address = copied; bytes = b; permanent = false })

module _ (S : HashApi Zstorage) (L : HashApi Zval) where
  -- `zend_hash_has_more_elements_ex`
  abbrev pub within : State S L → ℕ → Option ℕ
  within s n = if ltb n (length (S.entries s.shared.hash)) then some n else none

  abbrev pub current_key : State S L → Option ℕ → Option Key
  current_key s none = none
  current_key s (some n) = key_from (S.entries s.shared.hash) n

  -- `position` is left alone without the lock.
  unfoldable pub reset : (locks : Bool) → State S L → Option ℕ → Option ℕ
  reset locks s position = if locks then within s 0 else position

  abbrev pub after : State S L → Option ℕ → Option ℕ
  after s none = none
  after s (some n) = within s (suc n)

  unfoldable pub forward : (locks : Bool) → State S L → Option ℕ → Option ℕ
  forward locks s position = if locks then after s position else position

  unfoldable pub key : (copied : ℕ) → State S L → Option ℕ → Zval
  key copied s position = key_zval copied (current_key s position)

  -- The value is `missing` or `refused` where `pthreads_store_read` fails.
  unfoldable pub data_at :
      Env → (rebuilt : L.Table) → (copied : ℕ) → State S L → Option ℕ → State S L × Read
  data_at e rebuilt copied s position =
      read S L e true rebuilt s (key_zval copied (current_key s position)) bp_var_r

  -- `pthreads_object_iterator_create`: none is the exception for an iteration by reference.
  unfoldable pub iterator_create : (by_ref : Bool) → State S L → Option (Option ℕ)
  iterator_create by_ref s = if by_ref then none else some (reset true s none)

  -- `foreach` over the iterator: its keys and values, on fuel.
  unfoldable pub each :
      Env
      → (rebuilt : L.Table) → (copied : ℕ) → ℕ
      → State S L
      → Option ℕ
      → Option (State S L × List (Zval × Read))
  each e rebuilt copied zero s position = none
  each e rebuilt copied (suc n) s none = some (s, [])
  each e rebuilt copied (suc n) s (some p) = do
    let r = data_at e rebuilt copied s (some p)
    rest ← each e rebuilt copied n r.0 (forward true r.0 (some p))
    some (rest.0, (key copied s (some p), r.1) ∷ rest.1)

-- ===== src/Store/Access.antt =====
-- `pthreads_store_read`, `pthreads_store_write` and `pthreads_store_count`.
use pthreads.Base.{ℕ, ◌^◌, Bool, true, false, ◌||◌, Option, none, some, ◌==◌, if◌then◌else◌}
use pthreads.Zend.Key.{Key, index}
use pthreads.Zend.Hash.{HashApi}
use pthreads.Store.Values.{
  Zval, array, object, Object, Zstorage, ptr, threaded_of, Env, valid_local_cache_item, deindirect,
}
use pthreads.Store.Convert.{save_zval, restore_zval}
use pthreads.Store.{
  State, Fetch, bp_var_r, bp_var_is, bp_var_w, find_prop, sync_local_properties, coerce,
  update_local_property, update_shared_property, bump_if, member_is_cacheable,
}

-- `missing` is a failure with no exception, `refused` one with an exception.
pub data Read : Type 0 where
  got : Zval → Read
  missing refused : Read

abbrev pub is_threaded_storage : Zstorage → Bool
is_threaded_storage (ptr (threaded_of a)) = true
is_threaded_storage _ = false

abbrev pub is_plain_read : Fetch → Bool
is_plain_read bp_var_r = true
is_plain_read bp_var_is = true
is_plain_read bp_var_w = false

abbrev pub cached_item : Option Zval → Option Zval
cached_item none = none
cached_item (some v) = if valid_local_cache_item v then some v else none

module _ (S : HashApi Zstorage) (L : HashApi Zval) where
  -- A connection with no property table has nothing to bring into step.
  abbrev pub sync_if_cached : Env → State S L → Option L.Table → State S L
  sync_if_cached e s none = s
  sync_if_cached e s (some t) = sync_local_properties S L e s

  read_shared :
      Env → (rebuilt : L.Table) → State S L → Key → Fetch → Option Zstorage → State S L × Read
  read_shared e rebuilt s k fetch none = (s, missing)
  read_shared e rebuilt s k fetch (some z) =
      let v = restore_zval e z in
      if is_threaded_storage z || is_plain_read fetch
      then (record s { local = update_local_property S L rebuilt s.local k v }, got v)
      else (s, refused)

  read_cached : Env → (rebuilt : L.Table) → State S L → Key → Fetch → Option Zval → State S L × Read
  unfolding read_shared
  read_cached e rebuilt s k fetch none = read_shared e rebuilt s k fetch (S.find s.shared.hash k)
  read_cached e rebuilt s k fetch (some v) = (s, got (deindirect v))

  unfoldable pub read :
      Env → (locks : Bool) → (rebuilt : L.Table) → State S L → Zval → Fetch → State S L × Read
  unfolding read_cached
  read e locks rebuilt s key fetch =
      let k = coerce S L e key in
      let synced = sync_if_cached e s s.local.props in
      if locks
      then read_cached e rebuilt synced k fetch (cached_item (find_prop S L synced.local.props k))
      else (s, missing)

  pub data Write : Type 0 where
    written failed unsupported : Write

  -- With `coerces`, an array becomes a new `ThreadedArray`.
  abbrev pub coerce_array : Env → (coerces : Bool) → Zval → Zval
  coerce_array e true (array a) = object (Object.threaded (e.to_threaded a))
  coerce_array e _ v = v

  -- With no key, the next free integer: `next` is what `zend_hash_next_free_element` gives.
  abbrev pub member_of : Env → (next : ℕ) → Option Zval → Key
  member_of e next none = index (if next == 2 ^ 63 then 0 else next)
  member_of e next (some key) = coerce S L e key

  -- The part of `write` under the lock.
  unfoldable pub store_member : Env → State S L → Key → Zstorage → State S L
  store_member e s k z =
      let updated = record s { shared = update_shared_property S L s.shared k z } in
      sync_local_properties S L e (bump_if S L (member_is_cacheable S L s k) updated)

  write_saved :
      Env
      → (locks : Bool) → (rebuilt : L.Table) → State S L
      → Key
      → Zval
      → Option Zstorage
      → State S L × Write
  unfolding store_member
  write_saved e locks rebuilt s k v none = (s, unsupported)
  write_saved e locks rebuilt s k v (some z) =
      let stored = store_member e s k z in
      if locks
      then (record stored { local = update_local_property S L rebuilt stored.local k v }, written)
      else (s, failed)

  unfoldable pub write :
      Env
      → (locks : Bool) → (rebuilt : L.Table) → (next : ℕ) → State S L
      → Option Zval
      → Zval
      → (coerces : Bool) → State S L × Write
  unfolding write_saved
  write e locks rebuilt next s key value coerces =
      let v = coerce_array e coerces value in
      write_saved e locks rebuilt s (member_of e next key) v (save_zval e s.local.owner v)

  unfoldable pub count : (locks : Bool) → State S L → ℕ
  count locks s = if locks then S.num_elements s.shared.hash else 0

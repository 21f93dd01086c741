-- ===== src/Store/Whole.antt =====
-- Operations on the whole table: `pthreads_store_tohash`, `pthreads_store_merge` and
-- `pthreads_store_persist_local_properties`.
use pthreads.Base.{
  Bool, true, false, not, ◌&&◌, ◌||◌, Option, none, some, List, [], ◌∷◌, if◌then◌else◌, decr,
  is_some,
}
use pthreads.Zend.Key.{Key, index, name}
use pthreads.Zend.Hash.{HashApi}
use pthreads.Store.Values.{Zval, string, indirect, Zstorage, Env}
use pthreads.Store.Convert.{restore_zval, hard_copy_storage, persist}
use pthreads.Store.{
  State, Shared, sync_local_properties, init_local_properties, set_props, update_shared_property,
  bump_if, member_is_cacheable, del_prop,
}
use pthreads.Store.Access.{write, cached_item}

module _ (S : HashApi Zstorage) (L : HashApi Zval) where
  pub record Listing : Type 0 where
    pub hash : L.Table
    pub changed : Bool

  -- One entry goes into another table: the cached value if there is one, else a restored one. Only
  -- the latter counts as a change.
  list_cached : Env → Key → Zstorage → Listing → Option Zval → Listing
  list_cached e k z r none = record { hash = L.update r.hash k (restore_zval e z); changed = true }
  list_cached e k z r (some v) = record r { hash = L.update r.hash k v }

  unfoldable pub list_entries : Env → L.Table → List (Key × Zstorage) → Listing → Listing
  unfolding list_cached
  list_entries e cache [] r = r
  list_entries e cache ((k, z) ∷ es) r =
      list_entries e cache es (list_cached e k z r (cached_item (L.find cache k)))

  -- The same into the object's own property table, where a cached value stays.
  own_cached : Env → Key → Zstorage → Listing → Option Zval → Listing
  own_cached e k z r none = record { hash = L.update r.hash k (restore_zval e z); changed = true }
  own_cached e k z r (some v) = r

  unfoldable pub list_own : Env → List (Key × Zstorage) → Listing → Listing
  unfolding own_cached
  list_own e [] r = r
  list_own e ((k, z) ∷ es) r = list_own e es (own_cached e k z r (cached_item (L.find r.hash k)))

  -- Declared properties, with the slot that each stands for, that are not in the table yet.
  unfoldable pub add_declared : List (Key × Zval) → Listing → Listing
  add_declared [] r = r
  add_declared ((k, slot) ∷ ds) r = add_declared ds (
      if is_some (L.find r.hash k)
      then r
      else record { hash = L.update r.hash k (indirect slot); changed = true })

  -- `hash` is `none` for the object's own table; the result is the table that was filled.
  fill : Env → L.Table → State S L → List (Key × Zval) → Option L.Table → State S L × L.Table
  unfolding list_entries list_own add_declared
  fill e own s declared none =
      let r =
        add_declared declared
          (list_own e (S.entries s.shared.hash) (record { hash = own; changed = false })) in
      let l = set_props S L s.local (some r.hash) in
      (
        record s {
          local = if r.changed then record l { modcount = decr s.shared.modcount } else l;
        },
        r.hash,
      )
  fill e own s declared (some hash) =
      let r =
        add_declared declared (
          list_entries e own (S.entries s.shared.hash) (record { hash = hash; changed = false })) in
      (s, r.hash)

  filled_own :
      Env
      → State S L
      → List (Key × Zval)
      → Option L.Table
      → L.Table
      → Option L.Table
      → State S L × L.Table
  unfolding fill
  filled_own e s declared hash rebuilt none = fill e rebuilt s declared hash
  filled_own e s declared hash rebuilt (some own) = fill e own s declared hash

  unfoldable pub tohash :
      Env
      → (locks : Bool) → (rebuilt : L.Table) → (declared : List (Key × Zval)) → State S L
      → Option L.Table
      → State S L
  unfolding filled_own
  tohash e locks rebuilt declared s hash =
      let own = init_local_properties S L rebuilt s.local.props in
      let ready = record s { local = set_props S L s.local (some own) } in
      let synced = sync_local_properties S L e ready in
      if locks then (filled_own e synced declared hash rebuilt synced.local.props).0 else ready

  -- From a `ThreadedArray`: the entries of its table, whose storages are copied.
  pub record Merge : Type 0 where
    pub state : State S L
    pub overwrote_cacheable : Bool

  unfoldable pub merge_entries : Env → (overwrite : Bool) → List (Key × Zstorage) → Merge → Merge
  merge_entries e overwrite [] m = m
  merge_entries e overwrite ((k, z) ∷ es) m =
      let s = m.state in
      let taken = record s {
        shared = update_shared_property S L s.shared k (hard_copy_storage e z);
      } in
      merge_entries e overwrite es (
        if not overwrite && is_some (S.find s.shared.hash k) then m else record {
          state = del_prop S L taken k;
          overwrote_cacheable = m.overwrote_cacheable || member_is_cacheable S L s k;
        })

  -- `locks_own` and `locks_other` are the locks of the destination and of the source.
  unfoldable pub merge_threaded :
      Env
      → (locks_own locks_other : Bool) → State S L
      → S.Table
      → (overwrite : Bool) → State S L × Bool
  unfolding merge_entries
  merge_threaded e locks_own locks_other s other overwrite =
      let m =
        merge_entries e overwrite (S.entries other)
          (record { state = s; overwrote_cacheable = false }) in
      if locks_own
      then ((if locks_other then bump_if S L m.overwrote_cacheable m.state else s), true)
      else (s, false)

  -- From an array or a plain object: a write for each of its entries.
  abbrev pub zval_of_key : Key → Zval
  zval_of_key (index n) = Zval.long n
  zval_of_key (name b) = string (record { address = 0; bytes = b; permanent = false })

  unfoldable pub merge_values :
      Env
      → (rebuilt : L.Table) → (overwrite coerces : Bool) → List (Key × Zval)
      → State S L
      → State S L
  merge_values e rebuilt overwrite coerces [] s = s
  merge_values e rebuilt overwrite coerces ((k, v) ∷ es) s =
      merge_values e rebuilt overwrite coerces es (
        if not overwrite && is_some (S.find s.shared.hash k)
        then s
        else (write S L e true rebuilt 0 s (some (zval_of_key k)) v coerces).0)

  -- Each entry of the shared table in place.
  unfoldable pub persist_entries : Env → List (Key × Zstorage) → S.Table → S.Table
  persist_entries e [] h = h
  persist_entries e ((k, z) ∷ es) h = persist_entries e es (S.update h k (persist e z))

  unfoldable pub persist_local_properties : Env → (locks : Bool) → Shared S L → Shared S L
  unfolding persist_entries
  persist_local_properties e locks sh =
      if locks then record sh { hash = persist_entries e (S.entries sh.hash) sh.hash } else sh

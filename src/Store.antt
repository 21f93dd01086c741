-- ===== src/Store.antt =====
-- src/store.c: the properties of a thread-safe object. The shared table and its count of changes
-- belong to all connections; each connection has a cache of values in its own property table, and
-- the count up to which that cache is in step.
use pthreads.Base.{
  ℕ, zero, suc, ◌^◌, Bool, true, false, not, ◌&&◌, ◌||◌, Option, none, some, List, [], ◌∷◌, ◌==◌,
  ltb, if◌then◌else◌, incr, decr, length,
}
use pthreads.Base.Int.{ℤ, pos, negsuc}
use pthreads.Zend.Key.{Key, index, name}
use pthreads.Zend.Hash.{HashApi}
use pthreads.Store.Values.{
  Zval, unset, string, array, object, resource, Zstorage, plain, ptr, Storage, string_of, Env,
  retain_in_local_cache, valid_local_cache_item, storage_is_cacheable, still_matches, deindirect,
  threaded_of,
}
use pthreads.Store.Convert.{save_zval, restore_zval, restore_zval_ex, hard_copy_storage, persist}
pub mod Values
pub mod Convert
pub mod Access
pub mod Ends
pub mod Whole
pub mod Full
pub mod Iterate
pub mod Cache
pub mod Sync
pub mod Changes
pub mod Take
pub mod Merge
pub mod Delete
pub mod Sequence
pub mod Tests

-- How a key is asked about, and how a property is fetched.
pub data Query : Type 0 where
  not_empty is_set exists : Query

pub data Fetch : Type 0 where
  bp_var_r bp_var_is bp_var_w : Fetch

module _ (S : HashApi Zstorage) (L : HashApi Zval) where
  -- `pthreads_store_t`
  pub record Shared : Type 0 where
    pub hash : S.Table
    pub modcount : ℕ

  -- The part of `pthreads_zend_object_t` that the store uses: the owner, the count and the property
  -- table, `none` until it is needed.
  pub record Local : Type 0 where
    pub owner : ℕ
    pub modcount : ℕ
    pub props : Option L.Table

  pub record State : Type 0 where
    pub shared : Shared
    pub local : Local

  unfoldable pub init : Shared
  init = record { hash = S.empty; modcount = 0 }

  -- `base_ctor`: a new connection is not in step.
  unfoldable pub new_local : (owner : ℕ) → Shared → Local
  new_local owner sh = record { owner = owner; modcount = decr sh.modcount; props = none }

  abbrev pub set_props : Local → Option L.Table → Local
  set_props l t = record l { props = t }

  abbrev pub map_props : (L.Table → L.Table) → Option L.Table → Option L.Table
  map_props f none = none
  map_props f (some t) = some (f t)

  abbrev pub find_prop : Option L.Table → Key → Option Zval
  find_prop none k = none
  find_prop (some t) k = L.find t k

  abbrev pub keeps : Env → Option Zstorage → Zval → Bool
  keeps e none v = false
  keeps e (some z) v = still_matches e z (deindirect v)

  -- The loop of `sync`: what does not match the shared table leaves the cache.
  unfoldable pub sweep : Env → S.Table → List (Key × Zval) → L.Table → L.Table
  sweep e h [] t = t
  sweep e h ((k, v) ∷ es) t = sweep e h es (if keeps e (S.find h k) v then t else L.del t k)

  abbrev pub sweep_all : Env → S.Table → L.Table → L.Table
  sweep_all e h t = sweep e h (L.entries t) t

  unfoldable pub sync_local_properties : Env → State → State
  sync_local_properties e s = if s.local.modcount == s.shared.modcount then s else record s {
    local = record s.local {
      modcount = s.shared.modcount;
      props = map_props (sweep_all e s.shared.hash) s.local.props;
    };
  }

  unfoldable pub bump_modcount : State → State
  bump_modcount s = record {
    shared = record s.shared { modcount = incr s.shared.modcount };
    local = record s.local {
      modcount =
          if s.local.modcount == s.shared.modcount then incr s.local.modcount else s.local.modcount;
    };
  }

  abbrev pub bump_if : Bool → State → State
  bump_if true s = bump_modcount s
  bump_if false s = s

  -- A numeric string is an integer key; other types become strings.
  unfoldable pub coerce : Env → Zval → Key
  coerce e (string s) = elim (e.handle_numeric s.bytes) [ none ↦ name s.bytes | some n ↦ index n ]
  coerce e (Zval.long n) = index n
  coerce e v = name (e.to_bytes v)

  abbrev pub member_is_cacheable : State → Key → Bool
  member_is_cacheable s k = storage_is_cacheable (S.find s.shared.hash k)

  abbrev pub del_shared : State → Key → State
  del_shared s k = record s { shared = record s.shared { hash = S.del s.shared.hash k } }

  abbrev pub del_prop : State → Key → State
  del_prop s k = record s {
    local = set_props s.local (map_props (λ (t : L.Table). L.del t k) s.local.props);
  }

  abbrev pub is_found : Option Zstorage → Bool
  is_found none = false
  is_found (some z) = true

  -- `locks` says whether the monitor's lock is obtained.
  unfoldable pub delete : Env → (locks : Bool) → State → Zval → State × Bool
  unfolding coerce
  delete e locks s key =
      let k = coerce e key in
      let found = is_found (S.find s.shared.hash k) in
      let bumped = bump_if (found && member_is_cacheable s k) (del_shared s k) in
      if locks
      then (if found then (del_prop bumped k, true) else (del_shared s k, false))
      else (s, false)

  -- `Z_STRVAL_P(zstorage)[0] == '0'`, as in the source, whatever follows.
  abbrev pub starts_with_zero : List ℕ → Bool
  starts_with_zero [] = true
  starts_with_zero (b ∷ bs) = b == b'0'

  abbrev pub is_empty_storage : Zstorage → Bool
  is_empty_storage Zstorage.null = true
  is_empty_storage Zstorage.no = true
  is_empty_storage Zstorage.yes_value = false
  is_empty_storage (Zstorage.long n) = n == 0
  is_empty_storage (Zstorage.double d) = (d == 0) || (d == 2 ^ 63)
  is_empty_storage (plain s) = starts_with_zero s.bytes
  is_empty_storage (ptr (string_of s owner)) = starts_with_zero s.bytes
  is_empty_storage (ptr _) = false

  abbrev pub is_null_storage : Zstorage → Bool
  is_null_storage Zstorage.null = true
  is_null_storage _ = false

  abbrev pub answers : Query → Option Zstorage → Bool
  answers q none = false
  answers not_empty (some z) = not (is_empty_storage z)
  answers is_set (some z) = not (is_null_storage z)
  answers exists (some z) = true

  unfoldable pub isset : Env → (locks : Bool) → State → Zval → Query → Bool
  unfolding coerce
  isset e locks s key q = locks && answers q (S.find s.shared.hash (coerce e key))

  -- `rebuilt` is the table that `rebuild_object_properties` makes.
  abbrev pub init_local_properties : (rebuilt : L.Table) → Option L.Table → L.Table
  init_local_properties rebuilt none = rebuilt
  init_local_properties rebuilt (some t) = t

  unfoldable pub update_local_property : (rebuilt : L.Table) → Local → Key → Zval → Local
  update_local_property rebuilt l k v =
      if retain_in_local_cache v
      then set_props l (some (L.update (init_local_properties rebuilt l.props) k v))
      else l

  unfoldable pub update_shared_property : Shared → Key → Zstorage → Shared
  update_shared_property sh k z = record sh { hash = S.update sh.hash k z }

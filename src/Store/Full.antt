-- ===== src/Store/Full.antt =====
-- src/store.c: `pthreads_store_full_sync_local_properties`, which fills a connection's cache.
use pthreads.Base.{
  ℕ, ◌≡◌, refl, sym, ap, ◌∙◌, Bool, true, false, not, Option, none, some, List, [], ◌∷◌, ◌++◌,
  if◌then◌else◌, is_some, Bool-cases, inl, inr,
}
use pthreads.Zend.Key.{Key, same_key, same_key-eq}
use pthreads.Zend.Hash.{HashApi, lookup, lookup-absent, IsKeyed, has_key, find-update}
use pthreads.Store.Values.{Zval, object, Object, Zstorage, Env, storage_is_cacheable}
use pthreads.Store.Convert.{restore_zval}
use pthreads.Store.{State, find_prop, sync_local_properties, init_local_properties, set_props}
use pthreads.Store.Access.{cached_item}

-- The shared objects among the restored values, which are filled in turn.
abbrev pub shared_object : Zval → List ℕ
shared_object (object (Object.threaded a)) = a ∷ []
shared_object _ = []

module _ (S : HashApi Zstorage) (L : HashApi Zval) where
  -- The loop over the shared table: the connection's own table, and the objects that are filled.
  unfoldable pub fill_cache : Env → List (Key × Zstorage) → L.Table → L.Table × List ℕ
  fill_cache e [] own = (own, [])
  fill_cache e ((k, z) ∷ es) own =
      let v = restore_zval e z in
      let filled = fill_cache e es (L.update own k v) in
      let skipped = fill_cache e es own in
      if is_some (cached_item (L.find own k))
      then skipped
      else if storage_is_cacheable (some z)
      then (filled.0, shared_object v ++ filled.1)
      else skipped

  -- The objects that are filled in turn, and whether the worker's collectable tasks are synced.
  pub record FullSync : Type 0 where
    pub state : State S L
    pub objects : List ℕ
    pub syncs_tasks : Bool

  -- `recursive` says that the object is being filled already; objects that are filled in turn do not
  -- come back to it.
  unfoldable pub full_sync_local_properties :
      Env → (recursive locks has_worker : Bool) → (rebuilt : L.Table) → State S L → FullSync
  full_sync_local_properties e recursive locks has_worker rebuilt s =
      let synced = sync_local_properties S L e s in
      let own = init_local_properties S L rebuilt synced.local.props in
      let filled = fill_cache e (S.entries synced.shared.hash) own in
      if recursive
      then record { state = s; objects = []; syncs_tasks = false }
      else if not locks
      then record { state = s; objects = []; syncs_tasks = false }
      else record {
        state = record synced { local = set_props S L synced.local (some filled.0) };
        objects = filled.1;
        syncs_tasks = has_worker;
      }

  abbrev from_storage : Env → Option Zval → Option Zstorage → Option Zval
  from_storage e cached none = cached
  from_storage e cached (some z) =
      if storage_is_cacheable (some z) then some (restore_zval e z) else cached

  -- What is cached for a key at the end: what was, if that is usable, or the restored storage, if that
  -- is cacheable.
  abbrev pub filled_with : Env → Option Zval → Option Zstorage → Option Zval
  filled_with e cached stored =
      if is_some (cached_item cached) then cached else from_storage e cached stored

  filled_with-none : (e : Env) (cached : Option Zval) → filled_with e cached none ≡ cached
  filled_with-none e cached = elim (Bool-cases (is_some (cached_item cached))) [
    | inl y ↦ rw y refl
    | inr n ↦ rw n refl
  ]

  find-fill_cache :
      (e : Env) (es : List (Key × Zstorage)) (own : L.Table) (j : Key)
      → IsKeyed es
      → L.find (fill_cache e es own).0 j ≡ filled_with e (L.find own j) (lookup j es)
  unfolding fill_cache
  find-fill_cache e [] own j d = sym (filled_with-none e (L.find own j))
  find-fill_cache e ((k, z) ∷ es) own j (a, d) = elim (Bool-cases (same_key k j)) [
    | inr n ↦ elim (Bool-cases (is_some (cached_item (L.find own k)))) [
      | inl y ↦ rw (n, y) (find-fill_cache e es own j d)
      | inr c ↦ elim (Bool-cases (storage_is_cacheable (some z))) [
        | inr u ↦ rw (n, c, u) (find-fill_cache e es own j d)
        | inl w ↦
            rw (n, c, w)
              (find-fill_cache e es (L.update own k (restore_zval e z)) j d
                ∙ rw (find-update L own k j (restore_zval e z), n) refl)
      ]
    ]
    | inl s ↦
        let p = same_key-eq k j s in
        let gone : lookup j es ≡ none = lookup-absent j es (ap (λ x. has_key x es) (sym p) ∙ a) in
        let last : (t : L.Table) → L.find (fill_cache e es t).0 j ≡ L.find t j =
          λ t. find-fill_cache e es t j d ∙ rw gone (filled_with-none e (L.find t j)) in
        elim (Bool-cases (is_some (cached_item (L.find own k)))) [
          | inl y ↦
              let y' : is_some (cached_item (L.find own j)) ≡ true =
                ap (λ x. is_some (cached_item (L.find own x))) (sym p) ∙ y in
              rw (y, s, y') (last own)
          | inr c ↦
              let c' : is_some (cached_item (L.find own j)) ≡ false =
                ap (λ x. is_some (cached_item (L.find own x))) (sym p) ∙ c in
              elim (Bool-cases (storage_is_cacheable (some z))) [
                | inl w ↦
                    rw (c, w, s, c', w)
                      (last (L.update own k (restore_zval e z))
                        ∙ find-update L own k j (restore_zval e z)
                        ∙ rw s refl)
                | inr u ↦ rw (c, u, s, c', u) (last own)
              ]
        ]
  ]

  -- With the lock, for an object that is not being filled already: filling the cache leaves the shared
  -- table alone, and under each key the connection then has what it had after it was brought into
  -- step, if that was usable, else what is stored there as the thread restores it, if that is
  -- cacheable, else what it had.
  pub full_sync-filled_with :
      (e : Env) (has_worker : Bool) (rebuilt : L.Table) (s : State S L) (j : Key)
      → let r = full_sync_local_properties e false true has_worker rebuilt s in
        let synced = sync_local_properties S L e s in
        (r.state.shared ≡ synced.shared)
        × (find_prop S L r.state.local.props j
            ≡ filled_with e
                (L.find (init_local_properties S L rebuilt synced.local.props) j)
                (S.find synced.shared.hash j))
  unfolding full_sync_local_properties
  full_sync-filled_with e has_worker rebuilt s j =
      let synced = sync_local_properties S L e s in
      (
        refl,
        find-fill_cache e (S.entries synced.shared.hash)
              (init_local_properties S L rebuilt synced.local.props) j (S.keyed synced.shared.hash)
            ∙ rw⁻¹ (S.find_entries synced.shared.hash j) refl,
      )

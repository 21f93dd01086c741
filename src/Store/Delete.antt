-- ===== src/Store/Delete.antt =====
-- `pthreads_store_delete` of src/store.c, and what reads and `isset` give after it.
use pthreads.Base.{◌≡◌, refl, ap, ◌∙◌, Bool, true, false, Option, none, some, ◌==◌, if◌then◌else◌}
use pthreads.Zend.Key.{Key, same_key, same_key_refl}
use pthreads.Zend.Hash.{HashApi, find-del}
use pthreads.Store.Values.{Zval, Zstorage, Env, storage_is_cacheable}
use pthreads.Store.{
  State, Shared, exists, Fetch, find_prop, sync_local_properties, coerce, delete, isset, bump_if,
  is_found, del_prop, del_shared,
}
use pthreads.Store.Access.{read, missing, sync_if_cached}
use pthreads.Store.Changes.{bumped-table, del_prop-find_prop}
use pthreads.Store.Cache.{sync-kept}

module _ (S : HashApi Zstorage) (L : HashApi Zval) where
  deleted : State S L → Key → State S L
  deleted s k =
      del_prop S L
        (bump_if S L (storage_is_cacheable (S.find s.shared.hash k)) (del_shared S L s k)) k

  delete-found :
      (e : Env) (s : State S L) (key : Zval)
      → is_found S L (S.find s.shared.hash (coerce S L e key)) ≡ true
      → delete S L e true s key ≡ (deleted s (coerce S L e key), true)
  unfolding delete deleted
  delete-found e s key found = rw found refl

  deleted-find :
      (s : State S L) (k j : Key)
      → S.find (deleted s k).shared.hash j ≡ (if same_key k j then none else S.find s.shared.hash j)
  unfolding deleted
  deleted-find s k j =
      ap (λ (t : S.Table). S.find t j)
        (bumped-table S L (storage_is_cacheable (S.find s.shared.hash k)) (del_shared S L s k))
      ∙ find-del S s.shared.hash k j

  deleted-find_prop : (s : State S L) (k : Key) → find_prop S L (deleted s k).local.props k ≡ none
  unfolding deleted
  deleted-find_prop s k =
      del_prop-find_prop S L
        (bump_if S L (storage_is_cacheable (S.find s.shared.hash k)) (del_shared S L s k)) k

  -- A key that the shared table does not hold, and that is not in the cache once in step.
  read-missing :
      (e : Env) (rebuilt : L.Table) (s : State S L) (key : Zval) (fetch : Fetch)
      → let t = sync_if_cached S L e s s.local.props in
        find_prop S L t.local.props (coerce S L e key) ≡ none
        → S.find t.shared.hash (coerce S L e key) ≡ none
        → (read S L e true rebuilt s key fetch).1 ≡ missing
  unfolding read
  read-missing e rebuilt s key fetch uncached gone = rw (uncached, gone) refl

  synced-missing :
      (e : Env) (s : State S L) (k : Key)
      → find_prop S L s.local.props k ≡ none
      → S.find s.shared.hash k ≡ none
      → (find_prop S L (sync_local_properties S L e s).local.props k ≡ none)
        × (S.find (sync_local_properties S L e s).shared.hash k ≡ none)
  synced-missing e s k uncached gone =
      let r = sync-kept S L e s k in
      (
        r.3 ∙ rw uncached (either_none (s.local.modcount == s.shared.modcount)),
        ap (λ (h : Shared S L). S.find h.hash k) r.0 ∙ gone,
      )
    where
      either_none : (b : Bool) → ◌≡◌ {A = Option Zval} (if b then none else none) none
      either_none true = refl
      either_none false = refl

  sync_if_cached-missing :
      (e : Env) (s : State S L) (k : Key)
      → find_prop S L s.local.props k ≡ none
      → S.find s.shared.hash k ≡ none
      → (o : Option L.Table)
      → let t = sync_if_cached S L e s o in
        (find_prop S L t.local.props k ≡ none) × (S.find t.shared.hash k ≡ none)
  sync_if_cached-missing e s k uncached gone none = (uncached, gone)
  sync_if_cached-missing e s k uncached gone (some t) = synced-missing e s k uncached gone

  -- Deleting a key that the object holds succeeds: the key is then not set, a read through the same
  -- connection finds nothing, whatever was cached, and every other key keeps its storage.
  pub delete-read :
      (e : Env) (rebuilt : L.Table) (s : State S L) (key : Zval) (fetch : Fetch)
      → is_found S L (S.find s.shared.hash (coerce S L e key)) ≡ true
      → let (t, result) = delete S L e true s key in
        (result ≡ true)
        × (isset S L e true t key exists ≡ false)
        × ((read S L e true rebuilt t key fetch).1 ≡ missing)
        × ((j : Key)
            → same_key (coerce S L e key) j ≡ false
            → S.find t.shared.hash j ≡ S.find s.shared.hash j)
  unfolding isset
  delete-read e rebuilt s key fetch found =
      let k = coerce S L e key in
      let t = deleted s k in
      let gone : S.find t.shared.hash k ≡ none = deleted-find s k k ∙ rw (same_key_refl k) refl in
      let both = sync_if_cached-missing e t k (deleted-find_prop s k) gone t.local.props in
      rw (delete-found e s key found) (
        refl,
        rw gone refl,
        read-missing e rebuilt t key fetch both.0 both.1,
        λ j other. deleted-find s k j ∙ rw other refl,
      )

-- ===== src/Store/Sync.antt =====
-- Writes, reads and deletes of src/store.c through one connection and through another.
use pthreads.Base.{
  ℕ, ◌≡◌, ◌||◌, refl, sym, ap, ◌∙◌, Bool, true, false, Option, none, some, arith, ◌==◌, incr,
}
use pthreads.Zend.Key.{Key, same_key_refl}
use pthreads.Zend.Hash.{HashApi, find-update}
use pthreads.Store.Values.{
  Text, Zval, string, array, object, indirect, Zstorage, plain, Env, retain_in_local_cache,
  deindirect, valid_local_cache_item, storage_is_cacheable,
}
use pthreads.Store.Convert.{save_zval, restore_zval}
use pthreads.Store.{
  State, Shared, Local, Fetch, bp_var_r, find_prop, sync_local_properties, coerce,
  update_local_property, bump_modcount, init_local_properties, bump_if, update_shared_property,
}
use pthreads.Store.Access.{
  got, read, written, write, store_member, coerce_array, sync_if_cached, cached_item,
  is_threaded_storage,
}
use pthreads.Store.Changes.{bumped-table}
use pthreads.Store.Cache.{kept, sync-kept, sync_done, incr_ne}

retained-cached :
    (v : Zval)
    → retain_in_local_cache v ≡ true
    → (cached_item (some v) ≡ some v) × (deindirect v ≡ v)
unfolding retain_in_local_cache valid_local_cache_item
retained-cached (indirect w) h = absurd (ground (arith, h))
retained-cached (array a) h = (refl, refl)
retained-cached Zval.unset h = (refl, refl)
retained-cached Zval.null h = (refl, refl)
retained-cached Zval.no h = (refl, refl)
retained-cached Zval.yes_value h = (refl, refl)
retained-cached (Zval.long n) h = (refl, refl)
retained-cached (Zval.double n) h = (refl, refl)
retained-cached (string s) h = (refl, refl)
retained-cached (object o) h = (refl, refl)
retained-cached (Zval.resource r) h = (refl, refl)
retained-cached (Zval.reference w) h = (refl, refl)

module _ (S : HashApi Zstorage) (L : HashApi Zval) where
  retained-coerce_array :
      (e : Env) (c : Bool) (v : Zval) → retain_in_local_cache v ≡ true → coerce_array S L e c v ≡ v
  unfolding retain_in_local_cache
  retained-coerce_array e true (array a) h = absurd (ground (arith, h))
  retained-coerce_array e true Zval.unset h = refl
  retained-coerce_array e true Zval.null h = refl
  retained-coerce_array e true Zval.no h = refl
  retained-coerce_array e true Zval.yes_value h = refl
  retained-coerce_array e true (Zval.long n) h = refl
  retained-coerce_array e true (Zval.double n) h = refl
  retained-coerce_array e true (string s) h = refl
  retained-coerce_array e true (object o) h = refl
  retained-coerce_array e true (Zval.resource r) h = refl
  retained-coerce_array e true (indirect w) h = refl
  retained-coerce_array e true (Zval.reference w) h = refl
  retained-coerce_array e false v h = refl

  -- What a connection in step with a retained value in its cache gives on a read.
  read_in_step :
      (e : Env) (rebuilt : L.Table) (s : State S L) (key : Zval) (fetch : Fetch) (v : Zval)
      → s.local.modcount ≡ s.shared.modcount
      → find_prop S L s.local.props (coerce S L e key) ≡ some v
      → retain_in_local_cache v ≡ true
      → read S L e true rebuilt s key fetch ≡ (s, got v)
  unfolding read
  read_in_step e rebuilt s key fetch v step found keep =
      rw (sync_if_cached-step s.local.props)
        (rw (found, (retained-cached v keep).0) (rw ((retained-cached v keep).1) refl))
    where
      sync_if_cached-step : (o : Option L.Table) → sync_if_cached S L e s o ≡ s
      sync_if_cached-step none = refl
      sync_if_cached-step (some t) = sync_done S L e s step

  -- The shared half of `write` leaves the connection in step, and the storage under its key.
  stored :
      (e : Env) (s : State S L) (k : Key) (z : Zstorage)
      → let t = store_member S L e s k z in
        (t.local.modcount ≡ t.shared.modcount) × (S.find t.shared.hash k ≡ some z)
  unfolding store_member update_shared_property
  stored e s k z =
      let u : State S L = record s { shared = update_shared_property S L s.shared k z } in
      let b = storage_is_cacheable (S.find s.shared.hash k) in
      let r = sync-kept S L e (bump_if S L b u) k in
      (
        r.1 ∙ sym (ap (λ (h : Shared S L). h.modcount) r.0),
        ap (λ (h : Shared S L). S.find h.hash k) r.0
            ∙ ap (λ (t : S.Table). S.find t k) (bumped-table S L b u)
            ∙ find-update S s.shared.hash k k z
            ∙ rw (same_key_refl k) refl,
      )

  cached :
      (rebuilt : L.Table) (l : Local S L) (k : Key) (v : Zval)
      → retain_in_local_cache v ≡ true
      → let m = update_local_property S L rebuilt l k v in
        (m.modcount ≡ l.modcount) × (find_prop S L m.props k ≡ some v)
  unfolding update_local_property
  cached rebuilt l k v keep = rw keep (
    refl,
    find-update L (init_local_properties S L rebuilt l.props) k k v ∙ rw (same_key_refl k) refl,
  )

  -- `write` of a value that is stored as `z`.
  written_as : Env → (rebuilt : L.Table) → State S L → Key → Zval → Zstorage → State S L
  written_as e rebuilt s k v z =
      let t = store_member S L e s k z in
      record t { local = update_local_property S L rebuilt t.local k v }

  write-saved :
      (e : Env) (rebuilt : L.Table) (next : ℕ) (s : State S L) (key v : Zval) (coerces : Bool)
      (z : Zstorage)
      → save_zval e s.local.owner v ≡ some z
      → coerce_array S L e coerces v ≡ v
      → write S L e true rebuilt next s (some key) v coerces
        ≡ (written_as e rebuilt s (coerce S L e key) v z, written)
  unfolding write written_as
  write-saved e rebuilt next s key v coerces z saved same = rw (same, saved) refl

  written_as-cached :
      (e : Env) (rebuilt : L.Table) (s : State S L) (k : Key) (v : Zval) (z : Zstorage)
      → retain_in_local_cache v ≡ true
      → let t = written_as e rebuilt s k v z in
        (t.local.modcount ≡ t.shared.modcount)
        × (find_prop S L t.local.props k ≡ some v)
        × (S.find t.shared.hash k ≡ some z)
  unfolding written_as
  written_as-cached e rebuilt s k v z keep =
      let st = stored e s k z in
      let ca = cached rebuilt (store_member S L e s k z).local k v keep in (ca.0 ∙ st.0, ca.1, st.1)

  -- A written value that connections retain is read back as it is, whatever was stored and cached
  -- before, through the connection that wrote it; the read changes nothing.
  pub write-read :
      (e : Env) (rebuilt rebuilt' : L.Table) (next : ℕ) (s : State S L) (key v : Zval)
      (coerces : Bool) (fetch : Fetch) (z : Zstorage)
      → save_zval e s.local.owner v ≡ some z
      → retain_in_local_cache v ≡ true
      → let w = write S L e true rebuilt next s (some key) v coerces in
        (w.1 ≡ written) × (read S L e true rebuilt' w.0 key fetch ≡ (w.0, got v))
  write-read e rebuilt rebuilt' next s key v coerces fetch z saved keep =
      let q =
        write-saved e rebuilt next s key v coerces z saved
          (retained-coerce_array e coerces v keep) in
      let c = written_as-cached e rebuilt s (coerce S L e key) v z keep in
      rw q (refl, read_in_step e rebuilt' _ key fetch v c.0 c.1 keep)

  written_as-find :
      (e : Env) (rebuilt : L.Table) (s : State S L) (k : Key) (v : Zval) (z : Zstorage)
      → S.find (written_as e rebuilt s k v z).shared.hash k ≡ some z
  unfolding written_as
  written_as-find e rebuilt s k v z = (stored e s k z).1

  long-coerce_array :
      (e : Env) (c : Bool) (n : ℕ) → coerce_array S L e c (Zval.long n) ≡ Zval.long n
  long-coerce_array e true n = refl
  long-coerce_array e false n = refl

  unbumped :
      (e : Env) (rebuilt : L.Table) (t : State S L) (k : Key) (n : ℕ)
      → t.local.modcount ≡ t.shared.modcount
      → storage_is_cacheable (S.find t.shared.hash k) ≡ false
      → (written_as e rebuilt t k (Zval.long n) (Zstorage.long n)).local ≡ t.local
        × (written_as e rebuilt t k (Zval.long n) (Zstorage.long n)).shared.modcount
          ≡ t.shared.modcount
  unfolding written_as store_member update_local_property retain_in_local_cache
      update_shared_property
  unbumped e rebuilt t k n step plain_there =
      let u : State S L = record t {
        shared = update_shared_property S L t.shared k (Zstorage.long n);
      } in
      rw plain_there (rw (sync_done S L e u step) (refl, refl))

  -- A permanent string that a connection wrote stays in its cache when the same connection then
  -- writes an integer under the same key: every read through that connection still gives the
  -- string, although the shared table holds the integer.
  pub overwritten_string_is_stale :
      (e : Env) (rebuilt : L.Table) (next : ℕ) (s : State S L) (key : Zval) (w : Text) (n : ℕ)
      (coerces : Bool) (fetch : Fetch)
      → w.permanent ≡ true
      → let once = (write S L e true rebuilt next s (some key) (string w) coerces).0 in
        let twice = (write S L e true rebuilt next once (some key) (Zval.long n) coerces).0 in
        (S.find twice.shared.hash (coerce S L e key) ≡ some (Zstorage.long n))
        × (read S L e true rebuilt twice key fetch ≡ (twice, got (string w)))
  unfolding save_zval retain_in_local_cache storage_is_cacheable
  overwritten_string_is_stale e rebuilt next s key w n coerces fetch perm =
      let k = coerce S L e key in
      let t : State S L = written_as e rebuilt s k (string w) (plain w) in
      let first =
        write-saved e rebuilt next s key (string w) coerces (plain w) (rw perm refl)
          (retained-coerce_array e coerces (string w) refl) in
      let second =
        write-saved e rebuilt next t key (Zval.long n) coerces (Zstorage.long n) refl
          (long-coerce_array e coerces n) in
      let c = written_as-cached e rebuilt s k (string w) (plain w) refl in
      let u = unbumped e rebuilt t k n c.0 (rw (c.2) refl) in
      rw (first, second)
        (
          written_as-find e rebuilt t k (Zval.long n) (Zstorage.long n),
          read_in_step e rebuilt _ key fetch (string w)
              (ap (λ (l : Local S L). l.modcount) u.0 ∙ c.0 ∙ sym u.1)
              (ap (λ (l : Local S L). find_prop S L l.props k) u.0 ∙ c.1) refl,
        )

  bumped :
      (e : Env) (s : State S L) (k : Key) (z : Zstorage)
      → storage_is_cacheable (S.find s.shared.hash k) ≡ true
      → (store_member S L e s k z).shared.modcount ≡ incr s.shared.modcount
  unfolding store_member bump_modcount update_shared_property
  bumped e s k z cacheable =
      let u : State S L = record s { shared = update_shared_property S L s.shared k z } in
      ap (λ (h : Shared S L). h.modcount)
        (sync-kept S L e (bump_if S L (storage_is_cacheable (S.find s.shared.hash k)) u) k).0
      ∙ rw cacheable refl

  written_as-modcount :
      (e : Env) (rebuilt : L.Table) (s : State S L) (k : Key) (v : Zval) (z : Zstorage)
      → storage_is_cacheable (S.find s.shared.hash k) ≡ true
      → (written_as e rebuilt s k v z).shared.modcount ≡ incr s.shared.modcount
  unfolding written_as
  written_as-modcount e rebuilt s k v z cacheable = bumped e s k z cacheable

  any_or_true : (z : Zstorage) → (is_threaded_storage z || true) ≡ true
  any_or_true z = ground arith

  -- A read through a connection out of step, whose cached value does not stand for the storage.
  read_behind :
      (e : Env) (rebuilt : L.Table) (s : State S L) (t : L.Table) (key : Zval) (z : Zstorage)
      → s.local.props ≡ some t
      → (s.local.modcount == s.shared.modcount) ≡ false
      → S.find s.shared.hash (coerce S L e key) ≡ some z
      → kept S L e (some z) (L.find t (coerce S L e key)) ≡ none
      → (read S L e true rebuilt s key bp_var_r).1 ≡ got (restore_zval e z)
  unfolding read
  read_behind e rebuilt s t key z table behind found gone =
      let k = coerce S L e key in
      let r = sync-kept S L e s k in
      let synced : sync_if_cached S L e s s.local.props ≡ sync_local_properties S L e s =
        rw table refl in
      let uncached : find_prop S L (sync_local_properties S L e s).local.props k ≡ none =
        r.3 ∙ rw (behind, table, found) gone in
      let there : S.find (sync_local_properties S L e s).shared.hash k ≡ some z =
        ap (λ (h : Shared S L). S.find h.hash k) r.0 ∙ found in
      rw synced (rw (uncached, there) (rw (any_or_true z) refl))

  -- When one connection overwrites a storage that connections cache, a read for reading through any
  -- other connection that was in step, and has a property table, gives the new value as its thread
  -- restores it, unless what it had cached under the key stands for the new storage.
  pub write-seen :
      (e e' : Env) (rebuilt rebuilt' : L.Table) (next : ℕ) (s : State S L) (l : Local S L)
      (t : L.Table) (key v : Zval) (coerces : Bool) (z : Zstorage)
      → save_zval e s.local.owner v ≡ some z
      → coerce_array S L e coerces v ≡ v
      → storage_is_cacheable (S.find s.shared.hash (coerce S L e key)) ≡ true
      → coerce S L e' key ≡ coerce S L e key
      → l.modcount ≡ s.shared.modcount
      → l.props ≡ some t
      → kept S L e' (some z) (L.find t (coerce S L e key)) ≡ none
      → let w = (write S L e true rebuilt next s (some key) v coerces).0 in
        (read S L e' true rebuilt' (record { shared = w.shared; local = l }) key bp_var_r).1
        ≡ got (restore_zval e' z)
  write-seen e e' rebuilt rebuilt' next s l t key v coerces z saved same cacheable keyed step table
        gone =
      let k = coerce S L e key in
      let w : State S L = written_as e rebuilt s k v z in
      let count : w.shared.modcount ≡ incr s.shared.modcount =
        written_as-modcount e rebuilt s k v z cacheable in
      rw (write-saved e rebuilt next s key v coerces z saved same) (
        read_behind e' rebuilt' (record { shared = w.shared; local = l }) t key z table
          (rw (step, count) (incr_ne S L e' s.shared.modcount))
          (rw keyed (written_as-find e rebuilt s k v z)) (rw keyed gone))

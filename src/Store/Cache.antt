-- ===== src/Store/Cache.antt =====
-- What `pthreads_store_sync_local_properties` leaves in a connection's cache.
use pthreads.Base.{
  ℕ, ◌≡◌, refl, sym, ap, ◌∙◌, true, false, Option, none, some, List, [], ◌∷◌, arith, ◌==◌,
  if◌then◌else◌, Bool-cases, inl, inr, incr,
}
use pthreads.Zend.Key.{Key, same_key, same_key-eq, same_key_refl}
use pthreads.Zend.Hash.{HashApi, lookup, has_key, IsKeyed, lookup-absent, find-del}
use pthreads.Store.Values.{Zval, Zstorage, Env}
use pthreads.Store.{State, keeps, sweep, sweep_all, find_prop, map_props, sync_local_properties}

module _ (S : HashApi Zstorage) (L : HashApi Zval) (e : Env) where
  -- A cached value that is kept in view of the stored one.
  abbrev pub kept : Option Zstorage → Option Zval → Option Zval
  kept z none = none
  kept z (some v) = if keeps S L e z v then some v else none

  abbrev survivor : S.Table → Key → Option Zval → Option Zval → Option Zval
  survivor h k none found = found
  survivor h k (some v) found = if keeps S L e (S.find h k) v then found else none

  sweep-find :
      (h : S.Table) (es : List (Key × Zval)) (t : L.Table) (k : Key)
      → IsKeyed es
      → L.find (sweep S L e h es t) k ≡ survivor h k (lookup k es) (L.find t k)
  unfolding sweep
  sweep-find h [] t k d = refl
  sweep-find h ((j, v) ∷ es) t k d = elim (Bool-cases (same_key j k)) [
    | inl same ↦
        let q : j ≡ k = same_key-eq j k same in
        let gone : lookup k es ≡ none =
          lookup-absent k es (ap (λ (x : Key). has_key x es) (sym q) ∙ d.0) in
        sweep-find h es _ k d.1 ∙ rw (same, gone) (at_key j q same)
    | inr other ↦
        sweep-find h es _ k d.1 ∙ rw other (ap (survivor h k (lookup k es)) (spared other))
  ]
    where
      at_key :
          (i : Key)
          → i ≡ k
          → same_key i k ≡ true
          → L.find (if keeps S L e (S.find h i) v then t else L.del t i) k
            ≡ (if keeps S L e (S.find h k) v then L.find t k else none)
      at_key i q same = rw q (elim (Bool-cases (keeps S L e (S.find h k) v)) [
        | inl keep ↦ rw keep refl
        | inr drop ↦ rw drop (find-del L t k k ∙ rw (same_key_refl k) refl)
      ])

      spared :
          same_key j k ≡ false
          → L.find (if keeps S L e (S.find h j) v then t else L.del t j) k ≡ L.find t k
      spared other = elim (Bool-cases (keeps S L e (S.find h j) v)) [
        | inl keep ↦ rw keep refl
        | inr drop ↦ rw drop (find-del L t j k ∙ rw other refl)
      ]

  survivor-kept :
      (h : S.Table) (t : L.Table) (k : Key) (o : Option Zval)
      → L.find t k ≡ o
      → survivor h k o o ≡ kept (S.find h k) o
  survivor-kept h t k none q = refl
  survivor-kept h t k (some v) q = refl

  sweep_all-find :
      (h : S.Table) (t : L.Table) (k : Key)
      → L.find (sweep_all S L e h t) k ≡ kept (S.find h k) (L.find t k)
  sweep_all-find h t k =
      sweep-find h (L.entries t) t k (L.keyed t)
      ∙ ap (λ (o : Option Zval). survivor h k o (L.find t k)) (sym (L.find_entries t k))
      ∙ survivor-kept h t k (L.find t k) refl

  find-map_props :
      (h : S.Table) (o : Option L.Table) (k : Key)
      → find_prop S L (map_props S L (sweep_all S L e h) o) k
        ≡ kept (S.find h k) (find_prop S L o k)
  find-map_props h none k = refl
  find-map_props h (some t) k = sweep_all-find h t k

  -- Bringing a connection into step removes exactly the cached values that no longer match what is
  -- stored under their key, keeps every other, leaves the shared table alone and marks the
  -- connection as in step; a connection that is in step already is left alone.
  pub sync-kept :
      (s : State S L) (k : Key)
      → let t = sync_local_properties S L e s in
        (t.shared ≡ s.shared)
        × (t.local.modcount ≡ s.shared.modcount)
        × (t.local.owner ≡ s.local.owner)
        × (find_prop S L t.local.props k ≡ (
            if s.local.modcount == s.shared.modcount
            then find_prop S L s.local.props k
            else kept (S.find s.shared.hash k) (find_prop S L s.local.props k)))
  unfolding sync_local_properties
  sync-kept s k = elim (Bool-cases (s.local.modcount == s.shared.modcount)) [
    | inl step ↦ (rw step refl, rw step (ground arith), rw step refl, rw step refl)
    | inr behind ↦ (
      rw behind refl,
      rw behind refl,
      rw behind refl,
      rw behind (find-map_props s.shared.hash s.local.props k),
    )
  ]

  -- Bringing into step twice is the same as once.
  pub sync_done :
      (s : State S L) → s.local.modcount ≡ s.shared.modcount → sync_local_properties S L e s ≡ s
  unfolding sync_local_properties
  sync_done s h = let q : (s.local.modcount == s.shared.modcount) ≡ true = ground arith in rw q refl

  -- A change by another connection puts this one out of step.
  pub incr_ne : (n : ℕ) → (n == incr n) ≡ false
  incr_ne n = ground arith

-- ===== src/Store/Iterate/Each.antt =====
-- Iterating a shared object in src/store.c and src/object.c meets every entry.
use pthreads.Base.{
  ℕ, zero, suc, ◌+◌, ◌<◌, ◌≤◌, ◌≡◌, refl, sym, ap, ◌∙◌, true, false, Option, none, some, List, [],
  ◌∷◌, length, drop, map, ltb, ◌==◌, arith, Bool-cases, inl, inr, Option-cases,
}
use pthreads.Zend.Key.{Key}
use pthreads.Zend.Hash.{HashApi}
use pthreads.Store.Values.{Zval, Zstorage, Env}
use pthreads.Store.{State, bp_var_r, sync_local_properties, find_prop, coerce}
use pthreads.Store.Access.{Read, read, cached_item, sync_if_cached, is_threaded_storage}
use pthreads.Store.Iterate.{
  key_from, key_zval, within, current_key, reset, forward, key, data_at, iterator_create, each,
}

module _ (S : HashApi Zstorage) (L : HashApi Zval) (e : Env) (rebuilt : L.Table) where
  sync-shared : (s : State S L) → (sync_local_properties S L e s).shared ≡ s.shared
  unfolding sync_local_properties
  sync-shared s = elim (Bool-cases (s.local.modcount == s.shared.modcount)) [
    | inl y ↦ rw y refl
    | inr n ↦ rw n refl
  ]

  sync_if_cached-shared :
      (s : State S L) (o : Option L.Table) → (sync_if_cached S L e s o).shared ≡ s.shared
  sync_if_cached-shared s none = refl
  sync_if_cached-shared s (some t) = sync-shared s

  -- A read leaves the shared table alone.
  read-shared :
      (s : State S L) (k : Zval) → (read S L e true rebuilt s k bp_var_r).0.shared ≡ s.shared
  unfolding read
  read-shared s k =
      let m = sync_if_cached S L e s s.local.props in
      let same = sync_if_cached-shared s s.local.props in
      let i = coerce S L e k in
      elim (Option-cases (cached_item (find_prop S L m.local.props i))) [
        | inr (v, h) ↦ rw h same
        | inl h ↦ elim (Option-cases (S.find m.shared.hash i)) [
          | inl n ↦ rw (h, n) same
          | inr (z, q) ↦ elim (Bool-cases (is_threaded_storage z)) [
            | inl y ↦ rw (h, q, y) same
            | inr n ↦ rw (h, q, n) same
          ]
        ]
      ]

  drop_entry :
      (es : List (Key × Zstorage)) (p : ℕ)
      → p < length es
      → (k : Key) × (z : Zstorage) × (key_from es p ≡ some k)
        × (drop p es ≡ (k, z) ∷ drop (suc p) es)
  drop_entry [] p l = absurd (omega (arith, l))
  drop_entry ((k, z) ∷ es) zero l = (k, z, refl, refl)
  drop_entry ((k, z) ∷ es) (suc p) l = drop_entry es p (omega (arith, l))

  drop_all : (es : List (Key × Zstorage)) (p : ℕ) → length es ≤ p → drop p es ≡ []
  drop_all [] zero l = refl
  drop_all [] (suc p) l = refl
  drop_all (x ∷ es) zero l = absurd (omega (arith, l))
  drop_all (x ∷ es) (suc p) l = drop_all es p (omega (arith, l))

  module _ (copied : ℕ) where
    -- The keys of entries as PHP code gets them.
    abbrev pub keys_of : List (Key × Zstorage) → List Zval
    keys_of es = map (λ x. key_zval copied (some x.0)) es

    -- `each` ends and meets the entries from a position on.
    abbrev pub MeetsFrom : ℕ → ℕ → State S L → List (Key × Zstorage) → Type 0
    MeetsFrom n p s es =
        (t : State S L) × (out : List (Zval × Read)) × (each S L e rebuilt copied n s
            (within S L s p)
          ≡ some (t, out))
        × (map (λ x. x.0) out ≡ keys_of (drop p es))

    each_step :
        (n p : ℕ) (s t : State S L) (k : Key) (out : List (Zval × Read))
        → within S L s p ≡ some p
        → current_key S L s (some p) ≡ some k
        → let r = read S L e true rebuilt s (key_zval copied (some k)) bp_var_r in
          each S L e rebuilt copied n r.0 (within S L r.0 (suc p)) ≡ some (t, out)
          → each S L e rebuilt copied (suc n) s (within S L s p)
            ≡ some (t, (key_zval copied (some k), r.1) ∷ out)
    unfolding each data_at forward key
    each_step n p s t k out at_p is_k ran = rw (at_p, is_k, ran) refl

    each_end :
        (n p : ℕ) (s : State S L)
        → within S L s p ≡ none
        → each S L e rebuilt copied (suc n) s (within S L s p) ≡ some (s, [])
    unfolding each
    each_end n p s past = rw past refl

    keys_of-drop :
        (es : List (Key × Zstorage)) (p : ℕ) (k : Key) (z : Zstorage)
        → drop p es ≡ (k, z) ∷ drop (suc p) es
        → key_zval copied (some k) ∷ keys_of (drop (suc p) es) ≡ keys_of (drop p es)
    keys_of-drop es p k z d = sym (ap keys_of d)

    each-MeetsFrom :
        (n p : ℕ) (s : State S L) (es : List (Key × Zstorage))
        → S.entries s.shared.hash ≡ es
        → p ≤ length es
        → length es < p + n
        → MeetsFrom n p s es
    each-MeetsFrom zero p s es same low high = absurd (omega (arith, low, high))
    each-MeetsFrom (suc n) p s es same low high = elim (Bool-cases (ltb p (length es))) [
      | inr past ↦ (
        s,
        [],
        each_end n p s (rw (same, past) refl),
        ap keys_of (sym (drop_all es p (ground arith))),
      )
      | inl before ↦
          let (k, z, at_p, dropped) = drop_entry es p (ground arith) in
          let r = read S L e true rebuilt s (key_zval copied (some k)) bp_var_r in
          let (t, out, ran, met) =
            each-MeetsFrom n (suc p) r.0 es
              (ap (λ h. S.entries h.hash) (read-shared s (key_zval copied (some k))) ∙ same)
              (ground arith) (omega (arith, high)) in
          (
            t,
            (key_zval copied (some k), r.1) ∷ out,
            each_step n p s t k out (rw (same, before) refl) (rw same at_p) ran,
            ap (λ ks. key_zval copied (some k) ∷ ks) met ∙ keys_of-drop es p k z dropped,
          )
    ]

    -- With more fuel than there are entries, iterating a shared object from its start ends, whatever
    -- its reads do to the cache, and meets the keys of the shared table, each once and in order; and
    -- iterating it by reference is refused.
    pub each-keys :
        (n : ℕ) (s : State S L)
        → length (S.entries s.shared.hash) < n
        → (iterator_create S L true s ≡ none)
          × (iterator_create S L false s ≡ some (within S L s 0))
          × MeetsFrom n 0 s (S.entries s.shared.hash)
    unfolding iterator_create reset
    each-keys n s enough = (
      refl,
      refl,
      each-MeetsFrom n 0 s (S.entries s.shared.hash) refl (omega arith) (omega (arith, enough)),
    )

-- ===== src/Store/Merge.antt =====
-- What merging one `ThreadedArray` into another leaves in the destination's table.
use pthreads.Base.{
  ◌≡◌, refl, sym, ap, ◌∙◌, Bool, true, false, not, ◌&&◌, Option, none, some, List, [], ◌∷◌, arith,
  if◌then◌else◌, is_some, Bool-cases, inl, inr,
}
use pthreads.Zend.Key.{Key, same_key, same_key-eq}
use pthreads.Zend.Hash.{HashApi, lookup, has_key, IsKeyed, lookup-absent, find-update}
use pthreads.Store.Values.{Zval, Zstorage, Env}
use pthreads.Store.Convert.{hard_copy_storage}
use pthreads.Store.{State, update_shared_property}
use pthreads.Store.Changes.{bumped-table}
use pthreads.Store.Whole.{Merge, merge_entries, merge_threaded}

-- The destination's storage under a key, by its old one and the source's.
abbrev pub merged : Env → (overwrite : Bool) → Option Zstorage → Option Zstorage → Option Zstorage
merged e overwrite old none = old
merged e overwrite none (some z) = some (hard_copy_storage e z)
merged e overwrite (some y) (some z) = if overwrite then some (hard_copy_storage e z) else some y

merged-skip :
    (e : Env) (overwrite : Bool) (o : Option Zstorage) (z : Zstorage)
    → (not overwrite && is_some o) ≡ true
    → merged e overwrite o (some z) ≡ o
merged-skip e true o z h = absurd (ground (arith, h))
merged-skip e false none z h = absurd (ground (arith, h))
merged-skip e false (some y) z h = refl

merged-take :
    (e : Env) (overwrite : Bool) (o : Option Zstorage) (z : Zstorage)
    → (not overwrite && is_some o) ≡ false
    → merged e overwrite o (some z) ≡ some (hard_copy_storage e z)
merged-take e overwrite none z h = refl
merged-take e true (some y) z h = refl
merged-take e false (some y) z h = absurd (ground (arith, h))

module _ (S : HashApi Zstorage) (L : HashApi Zval) where
  -- One entry of the source.
  merge_one : Env → Bool → Key → Zstorage → Merge S L → Merge S L
  unfolding merge_entries
  merge_one e overwrite k z m = merge_entries S L e overwrite ((k, z) ∷ []) m

  table_of : Merge S L → S.Table
  table_of m = m.state.shared.hash

  merge_one-find :
      (e : Env) (overwrite : Bool) (j k : Key) (z : Zstorage) (m : Merge S L)
      → S.find (table_of (merge_one e overwrite j z m)) k ≡ (
          if same_key j k
          then merged e overwrite (S.find (table_of m) k) (some z)
          else S.find (table_of m) k)
  unfolding merge_one merge_entries table_of update_shared_property
  merge_one-find e overwrite j k z m =
      let t = m.state.shared.hash in
      elim (Bool-cases (not overwrite && is_some (S.find t j))) [
        | inl skip ↦ elim (Bool-cases (same_key j k)) [
          | inl same ↦
              let q : j ≡ k = same_key-eq j k same in
              let skip' : (not overwrite && is_some (S.find t k)) ≡ true = rw q at skip in
              rw (skip, same) (sym (merged-skip e overwrite (S.find t k) z skip'))
          | inr other ↦ rw (skip, other) refl
        ]
        | inr take ↦ elim (Bool-cases (same_key j k)) [
          | inl same ↦
              let q : j ≡ k = same_key-eq j k same in
              let take' : (not overwrite && is_some (S.find t k)) ≡ false = rw q at take in
              rw (take, same)
                (find-update S t j k (hard_copy_storage e z)
                  ∙ rw same (sym (merged-take e overwrite (S.find t k) z take')))
          | inr other ↦
              rw (take, other) (find-update S t j k (hard_copy_storage e z) ∙ rw other refl)
        ]
      ]

  merge_entries-find :
      (e : Env) (overwrite : Bool) (es : List (Key × Zstorage)) (m : Merge S L) (k : Key)
      → IsKeyed es
      → S.find (table_of (merge_entries S L e overwrite es m)) k
        ≡ merged e overwrite (S.find (table_of m) k) (lookup k es)
  unfolding merge_one merge_entries
  merge_entries-find e overwrite [] m k d = refl
  merge_entries-find e overwrite ((j, z) ∷ es) m k d = elim (Bool-cases (same_key j k)) [
    | inl same ↦
        let q : j ≡ k = same_key-eq j k same in
        let gone : lookup k es ≡ none =
          lookup-absent k es (ap (λ (x : Key). has_key x es) (sym q) ∙ d.0) in
        merge_entries-find e overwrite es (merge_one e overwrite j z m) k d.1
        ∙ rw (gone, same) (merge_one-find e overwrite j k z m ∙ rw same refl)
    | inr other ↦
        merge_entries-find e overwrite es (merge_one e overwrite j z m) k d.1
        ∙ rw (merge_one-find e overwrite j k z m, other) refl
  ]

  -- Merging a `ThreadedArray` into another, with both locks: under each key the destination holds
  -- what it held if the source has nothing there, or if it held something and is not to be
  -- overwritten, and else a permanent copy of the source's storage.
  pub merge_threaded-find :
      (e : Env) (s : State S L) (other : S.Table) (overwrite : Bool) (k : Key)
      → let (t, result) = merge_threaded S L e true true s other overwrite in
        (result ≡ true)
        × (S.find t.shared.hash k ≡ merged e overwrite (S.find s.shared.hash k) (S.find other k))
  unfolding merge_threaded table_of
  merge_threaded-find e s other overwrite k =
      let start : Merge S L = record { state = s; overwrote_cacheable = false } in
      let m = merge_entries S L e overwrite (S.entries other) start in
      (
        refl,
        ap (λ (t : S.Table). S.find t k) (bumped-table S L m.overwrote_cacheable m.state)
            ∙ merge_entries-find e overwrite (S.entries other) start k (S.keyed other)
            ∙ rw (S.find_entries other k) refl,
      )

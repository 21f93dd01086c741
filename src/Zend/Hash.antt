-- ===== src/Zend/Hash.antt =====
-- The documented behaviour of `HashTable`: entries in the order of their insertion, where an update
-- of a present key keeps its place. The engine's table is a parameter: what the extension relies on
-- are the laws of `HashApi`, by the entries that an iteration meets.
use pthreads.Base.{
  ℕ, suc, ◌+◌, ◌≡◌, refl, ap, sym, ◌∙◌, ◌⊎◌, Bool, false, ◌||◌, Option, none, some, List, [], ◌∷◌,
  arith, if◌then◌else◌, is_some, length, Bool-cases, inl, inr,
}
use pthreads.Zend.Key.{Key, same_key, same_key-eq, same_key_refl}

module _ {V : Type 0} where
  abbrev pub lookup : Key → List (Key × V) → Option V
  lookup j [] = none
  lookup j ((k, v) ∷ es) = if same_key k j then some v else lookup j es

  abbrev pub put : Key → V → List (Key × V) → List (Key × V)
  put j w [] = (j, w) ∷ []
  put j w ((k, v) ∷ es) = if same_key k j then (k, w) ∷ es else (k, v) ∷ put j w es

  abbrev pub erase : Key → List (Key × V) → List (Key × V)
  erase j [] = []
  erase j ((k, v) ∷ es) = if same_key k j then es else (k, v) ∷ erase j es

  abbrev pub has_key : Key → List (Key × V) → Bool
  has_key j [] = false
  has_key j ((k, v) ∷ es) = same_key k j || has_key j es

  -- No key stands twice.
  abbrev pub IsKeyed : List (Key × V) → Type 0
  IsKeyed [] = Unit
  IsKeyed ((k, v) ∷ es) = (has_key k es ≡ false) × IsKeyed es

-- `zend_hash_find`, `zend_hash_update`, `zend_hash_del` and the like, and their laws.
pub record HashApi (V : Type 0) : Type 1 where
  pub Table : Type 0
  pub empty : Table
  pub find : Table → Key → Option V
  pub update : Table → Key → V → Table
  pub del : Table → Key → Table
  pub num_elements : Table → ℕ
  pub entries : Table → List (Key × V)
  pub entries_empty : entries empty ≡ []
  pub find_entries : (t : Table) (k : Key) → find t k ≡ lookup k (entries t)
  pub entries_update : (t : Table) (k : Key) (v : V) → entries (update t k v) ≡ put k v (entries t)
  pub entries_del : (t : Table) (k : Key) → entries (del t k) ≡ erase k (entries t)
  pub num_entries : (t : Table) → num_elements t ≡ length (entries t)
  pub keyed : (t : Table) → IsKeyed (entries t)

-- Two different keys are not both the same as a third.
apart : (i k j : Key) → same_key i k ≡ false → (same_key i j ≡ false) ⊎ (same_key k j ≡ false)
apart i k j n = elim (Bool-cases (same_key i j)) [
  | inr no_i ↦ inl no_i
  | inl e ↦ elim (Bool-cases (same_key k j)) [
    | inr no_k ↦ inr no_k
    | inl f ↦
        let p : i ≡ k = same_key-eq i j e ∙ sym (same_key-eq k j f) in
        absurd (ground (arith, same_key_refl k, rw p at n))
  ]
]

module _ {V : Type 0} where
  pub lookup-put :
      (k j : Key) (v : V) (es : List (Key × V))
      → lookup j (put k v es) ≡ (if same_key k j then some v else lookup j es)
  lookup-put k j v [] = refl
  lookup-put k j v ((i, w) ∷ es) = elim (Bool-cases (same_key i k)) [
    | inl e ↦ rw (e, same_key-eq i k e) (ground arith)
    | inr n ↦ rw n (ground (arith, lookup-put k j v es, apart i k j n))
  ]

  pub lookup-absent : (j : Key) (es : List (Key × V)) → has_key j es ≡ false → lookup j es ≡ none
  lookup-absent j [] h = refl
  lookup-absent j ((i, w) ∷ es) h = ground (arith, lookup-absent j es)

  pub lookup-erase :
      (k j : Key) (es : List (Key × V))
      → IsKeyed es
      → lookup j (erase k es) ≡ (if same_key k j then none else lookup j es)
  lookup-erase k j [] d = ground arith
  lookup-erase k j ((i, w) ∷ es) d = elim (Bool-cases (same_key i k)) [
    | inl e ↦
        rw (e, same_key-eq i k e)
          (elim (Bool-cases (same_key k j)) [
            | inl f ↦ rw f (
                lookup-absent j es (
                  ap (λ (x : Key). has_key x es) (sym (same_key-eq i k e ∙ same_key-eq k j f))
                  ∙ d.0))
            | inr f ↦ rw f refl
          ])
    | inr n ↦ rw n (ground (arith, lookup-erase k j es, apart i k j n))
  ]

  length-put :
      (k : Key) (v : V) (es : List (Key × V))
      → length (put k v es) ≡ (if is_some (lookup k es) then length es else suc (length es))
  length-put k v [] = refl
  length-put k v ((i, w) ∷ es) = ground (arith, length-put k v es)

  length-erase :
      (k : Key) (es : List (Key × V))
      → length (erase k es) + (if is_some (lookup k es) then 1 else 0) ≡ length es
  length-erase k [] = refl
  length-erase k ((i, w) ∷ es) = ground (arith, length-erase k es)

  module _ (H : HashApi V) where
    pub find-empty : (j : Key) → H.find H.empty j ≡ none
    find-empty j = rw (H.find_entries, H.entries_empty)

    pub find-update :
        (t : H.Table) (k j : Key) (v : V)
        → H.find (H.update t k v) j ≡ (if same_key k j then some v else H.find t j)
    find-update t k j v =
        rw (H.find_entries (H.update t k v) j, H.entries_update, H.find_entries t j)
          (lookup-put k j v (H.entries t))

    pub find-del :
        (t : H.Table) (k j : Key)
        → H.find (H.del t k) j ≡ (if same_key k j then none else H.find t j)
    find-del t k j =
        rw (H.find_entries (H.del t k) j, H.entries_del, H.find_entries t j)
          (lookup-erase k j (H.entries t) (H.keyed t))

    pub num_elements-empty : H.num_elements H.empty ≡ 0
    num_elements-empty = rw (H.num_entries, H.entries_empty)

    pub num_elements-update :
        (t : H.Table) (k : Key) (v : V)
        → H.num_elements (H.update t k v)
          ≡ (if is_some (H.find t k) then H.num_elements t else suc (H.num_elements t))
    num_elements-update t k v =
        rw (H.num_entries (H.update t k v), H.entries_update, H.num_entries t, H.find_entries)
          (length-put k v (H.entries t))

    pub num_elements-del :
        (t : H.Table) (k : Key)
        → H.num_elements (H.del t k) + (if is_some (H.find t k) then 1 else 0) ≡ H.num_elements t
    num_elements-del t k =
        rw (H.num_entries (H.del t k), H.entries_del, H.num_entries t, H.find_entries)
          (length-erase k (H.entries t))

-- ===== src/Zend/Key.antt =====
-- Keys of a PHP array: a 64-bit integer pattern or the bytes of a string.
use pthreads.Base.{
  ℕ, ◌≡◌, refl, sym, ◌∙◌, ap, Bool, true, false, ◌&&◌, List, [], ◌∷◌, arith, ◌==◌, ◌≢◌, inl, inr,
  Bool-cases,
}

pub data Key : Type 0 where
  index : ℕ → Key
  name : List ℕ → Key

abbrev pub same_bytes : List ℕ → List ℕ → Bool
same_bytes [] [] = true
same_bytes [] (b ∷ bs) = false
same_bytes (a ∷ as') [] = false
same_bytes (a ∷ as') (b ∷ bs) = (a == b) && same_bytes as' bs

abbrev pub same_key : Key → Key → Bool
same_key (index i) (index j) = i == j
same_key (index i) (name s) = false
same_key (name s) (index i) = false
same_key (name s) (name t) = same_bytes s t

pub same_bytes-eq : (s t : List ℕ) → same_bytes s t ≡ true → s ≡ t
same_bytes-eq [] [] h = refl
same_bytes-eq [] (b ∷ t) h = cc
same_bytes-eq (a ∷ s) [] h = cc
same_bytes-eq (a ∷ s) (b ∷ t) h = ground (arith, same_bytes-eq s t)

same_bytes_refl : (s : List ℕ) → same_bytes s s ≡ true
same_bytes_refl [] = refl
same_bytes_refl (a ∷ s) = ground (arith, same_bytes_refl s)

pub same_key-eq : (k j : Key) → same_key k j ≡ true → k ≡ j
same_key-eq (index i) (index j) h = ground arith
same_key-eq (index i) (name s) h = cc
same_key-eq (name s) (index i) h = cc
same_key-eq (name s) (name t) h = ap name (same_bytes-eq s t h)

pub same_key_refl : (k : Key) → same_key k k ≡ true
same_key_refl (index i) = ground arith
same_key_refl (name s) = same_bytes_refl s

pub same_key-ne : (k j : Key) → same_key k j ≡ false → k ≢ j
same_key-ne k j h e = let r : same_key j j ≡ false = (rw e at h) in cc (r, same_key_refl j)

pub same_key-sym : (k j : Key) → same_key k j ≡ same_key j k
same_key-sym k j = elim (Bool-cases (same_key k j)) [
  | inl e ↦ let p = same_key-eq k j e in rw p refl
  | inr n ↦ elim (Bool-cases (same_key j k)) [
    | inl f ↦ let p = same_key-eq j k f in rw p refl
    | inr g ↦ n ∙ sym g
  ]
]

-- ===== src/Prepare/Missing.antt =====
-- src/prepare.c: the classes of another thread, in order, and how many of them a thread does not have.
use pthreads.Base.{
  none, ℕ, zero, suc, ◌+◌, ◌*◌, ◌≡◌, ◌≤◌, ◌<◌, inl, inr, refl, Bool, true, false, not, Option, some,
  List, ◌==◌, if◌then◌else◌, arith, length, Bool-cases,
}
use pthreads.Zend.Key.{Key, name}
use pthreads.Prepare.Traits.{Traits, prepare_class_traits}
use pthreads.Prepare.Bindings.{CopiedTo}
use pthreads.Prepare.Frame.{room, Origin, Ours, key_of, found, Grows, found-Grows, All}

-- How many of the numbers below `n` pass a test.
abbrev pub count_below : (ℕ → Bool) → ℕ → ℕ
count_below p zero = 0
count_below p (suc n) = (if p n then 1 else 0) + count_below p n

count_below-le :
    (p q : ℕ → Bool) (n : ℕ)
    → ((a : ℕ) → a < n → q a ≡ true → p a ≡ true)
    → count_below q n ≤ count_below p n
count_below-le p q zero h = omega arith
count_below-le p q (suc n) h = ground (arith, h n, count_below-le p q n (λ a l. h a (omega arith)))

pub count_below-lt :
    (p q : ℕ → Bool) (n x : ℕ)
    → ((a : ℕ) → a < n → q a ≡ true → p a ≡ true)
    → x < n
    → p x ≡ true
    → q x ≡ false
    → count_below q n < count_below p n
count_below-lt p q zero x h l e e' = absurd (omega arith)
count_below-lt p q (suc n) x h l e e' = elim (Bool-cases (x == n)) [
  | inl same ↦
      let y : x ≡ n = ground arith in
      ground (arith, rw y at e, rw y at e', count_below-le p q n (λ a k. h a (omega arith)))
  | inr other ↦
      ground (arith, h n, count_below-lt p q n x (λ a k. h a (omega arith)) (ground arith) e e')
]

pub mul_mono : (a b d : ℕ) → a ≤ b → a * d ≤ b * d
mul_mono a b d h = grind arith

module _ (o : Origin) where
  open o use {F, R, P, K, source, entries, base}

  abbrev pub Owned : Option ℕ → Type 0
  Owned a = (b : ℕ) → a ≡ some b → b < base

  -- Parents and interfaces rank below what has them, all that is named is of the other thread, the arrays
  -- of traits end, the constants have values that can be copied, and a class has no fewer default values
  -- of properties than its name says.
  pub record IsOrdered (rank : ℕ → ℕ) (depth : ℕ) : Type 0 where
    pub bounded : (a : ℕ) → a < base → rank a < depth
    pub parents :
        (a b : ℕ) → a < base → (entries a).parent ≡ some b → (b < base) × (rank b < rank a)
    pub interfaces :
        (a : ℕ)
        → a < base
        → All o (λ i. (b : ℕ) → i ≡ some b → (b < base) × (rank b < rank a)) (entries a).interfaces
    pub properties :
        (a : ℕ) → a < base → All o (λ e. Owned (e.1).owner) (P.entries (entries a).properties_info)
    pub constants :
        (a : ℕ)
        → a < base
        → All o (λ e. Owned (e.1).constant_owner) (K.entries (entries a).constants_table)
    pub traits :
        (a : ℕ)
        → a < base
        → (r : Traits) × (prepare_class_traits source.engine none none (entries a).traits ≡ some r)
    pub values :
        (a : ℕ)
        → a < base
        → All o (λ e. CopiedTo o (e.1).constant_value) (K.entries (entries a).constants_table)
    pub tables : (k : Key) (a : ℕ) → R.find source.source_classes k ≡ some a → a < base
    pub slots : (a : ℕ) → a < base → room o (entries a) ≤ length (entries a).default_properties
    pub builtins :
        (n : List ℕ) (a : ℕ)
        → source.lookup_class n ≡ some a
        → (a < base) × (room o (entries a) ≤ o.slots_of (name (source.lower n)))

  -- The classes of the other thread whose names the thread does not know yet.
  abbrev pub missing : Ours o → ℕ
  missing s = count_below (λ a. not (found o s (key_of o (entries a)))) base

  pub missing-Grows : {s t : Ours o} → Grows o s t → missing t ≤ missing s
  missing-Grows {s} {t} g = count_below-le _ _ base (λ a l h.
      elim (Bool-cases (found o s (key_of o (entries a)))) [
        | inl there ↦ absurd (cc (h, found-Grows o (key_of o (entries a)) g there))
        | inr not_there ↦ rw not_there refl
      ])

  pub missing-lt :
      {s t : Ours o} (x : ℕ)
      → Grows o s t
      → x < base
      → found o s (key_of o (entries x)) ≡ false
      → found o t (key_of o (entries x)) ≡ true
      → missing t < missing s
  missing-lt {s} {t} x g low before after =
      count_below-lt _ _ base x
        (λ a l h. elim (Bool-cases (found o s (key_of o (entries a)))) [
          | inl there ↦ absurd (cc (h, found-Grows o (key_of o (entries a)) g there))
          | inr not_there ↦ rw not_there refl
        ])
        low (rw before refl) (rw after refl)

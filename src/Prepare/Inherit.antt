-- ===== src/Prepare/Inherit.antt =====
-- src/prepare.c: what a new thread has after the loop over its creator's classes.
use pthreads.Base.{
  ℕ, ◌+◌, ◌*◌, ◌≡◌, ◌≤◌, ◌<◌, inl, inr, refl, Bool, true, false, ◌&&◌, ◌||◌, not, Option, some,
  List, [], ◌∷◌, is_some, arith, Bool-cases, or_false,
}
use pthreads.Zend.Key.{Key}
use pthreads.Prepare.Classes.{Outcome, each}
use pthreads.Prepare.Create.{create_entry}
use pthreads.Prepare.Startup.{starts_with_zero, prepare_class, copy_classes}
use pthreads.Prepare.Frame.{
  Runs, ends, Runs->>=, Runs-map, Origin, Ours, key_of, found, IsSound, Grows, Grows-refl,
  Grows-trans, found-Grows, All,
}
use pthreads.Prepare.Calls.{Answers}
use pthreads.Prepare.Missing.{IsOrdered, missing, missing-Grows, mul_mono}
use pthreads.Prepare.Ends.{create_entry-Answers, create_entry-Registered}

Runs-both :
    {A : Type 0} {Q Q' : A → Type 0} {m : Outcome A}
    → Runs Q m
    → Runs Q' m
    → Runs (λ a. Q a × Q' a) m
Runs-both (ends q) (ends q') = ends (q, q')

module _ (o : Origin) where
  open o use {F, R, P, K, source, entries, base}

  -- The classes of programs, that is neither the engine's own nor preloaded ones, with a plain name.
  abbrev pub copied : Key × ℕ → Bool
  copied (k, a) = not ((entries a).builtin || (entries a).preloaded) && not (starts_with_zero k)

  -- Classes stand under their names.
  abbrev pub IsNamed : Key × ℕ → Type 0
  IsNamed (k, a) = (a < base) × (k ≡ key_of o (entries a))

  abbrev pub Prepared : Ours o → Key × ℕ → Type 0
  Prepared t e = (not (copied e) || found o t (e.0)) ≡ true

  or_true : (b : Bool) → (b || true) ≡ true
  or_true true = refl
  or_true false = refl

  Prepared-Grows : {s t : Ours o} (e : Key × ℕ) → Grows o s t → Prepared s e → Prepared t e
  Prepared-Grows {s} {t} (k, a) g h = elim (Bool-cases (found o s k)) [
    | inl there ↦ rw (found-Grows o k g there) (or_true (not (copied (k, a))))
    | inr not_there ↦ elim (Bool-cases (copied (k, a))) [
      | inl is_copied ↦ absurd (cc (rw (is_copied, not_there) at h))
      | inr other ↦ rw other refl
    ]
  ]

  module _ (rank : ℕ → ℕ) (depth : ℕ) (ordered : IsOrdered o rank depth) where
    prepare_class-Prepared :
        (fuel : ℕ) (k : Key) (a : ℕ) (s : Ours o)
        → IsSound o s
        → missing o s * depth + depth ≤ fuel
        → IsNamed (k, a)
        → Runs
            (λ t. IsSound o t × Grows o s t × Prepared t (k, a))
            (prepare_class F R P K fuel source (k, a) s)
    unfolding prepare_class
    prepare_class-Prepared fuel k a s sound enough named =
        elim (Bool-cases (found o s k || starts_with_zero k)) [
          | inl skipped ↦ rw skipped (ends (sound, Grows-refl o s, skip skipped))
          | inr new ↦ rw new (elim (Bool-cases ((entries a).builtin || (entries a).preloaded)) [
            | inl internal ↦ Runs->>= answered (λ r q. ends (q.0, q.1, rw internal refl))
            | inr user ↦
                let (own, loaded) = or_false _ _ user in
                Runs->>=
                  (Runs-both answered (
                    create_entry-Registered o rank depth ordered fuel a false s sound (named.0) own
                      loaded room))
                  (λ r q. ends (q.0.0, q.0.1, entered (r.0) (r.1) (q.1.1) (q.1.2)))
          ])
        ]
      where
        room : missing o s * depth + rank a < fuel
        room = omega (arith, ordered.bounded a (named.0))

        answered : Answers o s (some a) (create_entry F R P K fuel source (some a) false s)
        answered =
            create_entry-Answers o rank depth ordered fuel s false (some a) sound
              (inl (named.0, room))

        skip : (found o s k || starts_with_zero k) ≡ true → Prepared s (k, a)
        skip h = elim (Bool-cases (found o s k)) [
          | inl there ↦ ground arith
          | inr not_there ↦ ground arith
        ]

        entered :
            (t : Ours o) (r : Option ℕ)
            → R.find t.class_table (key_of o (entries a)) ≡ r
            → is_some r ≡ true
            → Prepared t (k, a)
        entered t r e some_r =
            rw (named.1, e, some_r) (or_true (not (copied (key_of o (entries a), a))))

    classes-Prepared :
        (fuel : ℕ) (es : List (Key × ℕ)) (s : Ours o)
        → IsSound o s
        → missing o s * depth + depth ≤ fuel
        → All o IsNamed es
        → Runs
            (λ t. IsSound o t × Grows o s t × All o (Prepared t) es)
            (each (prepare_class F R P K fuel source) es s)
    unfolding each
    classes-Prepared fuel [] s sound enough named = ends (sound, Grows-refl o s, tt)
    classes-Prepared fuel ((k, a) ∷ es) s sound enough named =
        Runs->>= (prepare_class-Prepared fuel k a s sound enough (named.0)) (λ t q.
          Runs-map
            (classes-Prepared fuel es t (q.0)
              (omega (arith, mul_mono (missing o t) (missing o s) depth (missing-Grows o (q.1))))
              (named.1))
            (λ u q'.
              (q'.0, Grows-trans o (q.1) (q'.1), (Prepared-Grows (k, a) (q'.1) (q.2), q'.2))))

    -- Under the conditions on classes of `IsOrdered`, in a sound state, and where classes stand under their
    -- names: with fuel for all classes that are missing the loop over the creator's classes comes back
    -- without a fault, and the thread then has each class of a program that is not preloaded and was not
    -- declared at run time, and the classes that it had.
    pub copy_classes-Prepared :
        (fuel : ℕ) (s : Ours o)
        → IsSound o s
        → missing o s * depth + depth ≤ fuel
        → All o IsNamed (R.entries source.source_classes)
        → Runs
            (λ t. IsSound o t × Grows o s t × All o (Prepared t) (R.entries source.source_classes))
            (copy_classes F R P K fuel source s)
    unfolding copy_classes
    copy_classes-Prepared fuel s sound enough named =
        classes-Prepared fuel (R.entries source.source_classes) s sound enough named

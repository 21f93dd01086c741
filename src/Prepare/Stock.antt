-- ===== src/Prepare/Stock.antt =====
-- src/copy.c: where a function is in memory, and the copies that the thread's table names are, copying
-- the function does not fault, and no function goes.
use pthreads.Base.{
  ℕ, ◌≡◌, refl, Bool, true, false, Option, none, some, ◌==◌, is_some, Bool-cases, Option-cases, inl,
  inr, some_injective, subst, ==_refl,
}
use pthreads.Zend.Key.{index, same_key}
use pthreads.Zend.Hash.{HashApi, find-update}
use pthreads.Copy.{Engine, ZString}
use pthreads.Copy.Function.{Opcodes}
use pthreads.Copy.Function.Whole.{
  Places, Function, Functions, put, used_again, copy_of, make_copy, known_copy, copy_or_use,
  copy_function,
}

module _ (F : HashApi ZString) (R : HashApi ℕ) where
  abbrev pub IsThere : Functions F R → ℕ → Type 0
  IsThere s f = is_some (s.functions f) ≡ true

  -- The copies that the table names are in memory.
  abbrev pub IsResolved : Functions F R → Type 0
  IsResolved s = (f c : ℕ) → R.find s.resolve (index f) ≡ some c → IsThere s c

  -- What a copy leaves: all functions that there were, and a table whose copies are in memory.
  abbrev pub Stocked : Functions F R → Functions F R → Type 0
  Stocked s t = ((g : ℕ) → IsThere s g → IsThere t g) × IsResolved t

  put-IsThere :
      (a g : ℕ) (f : Function) (s : Functions F R) → IsThere s g → IsThere (put F R a f s) g
  put-IsThere a g f s h = elim (Bool-cases (a == g)) [ inl e ↦ rw e refl | inr e ↦ rw e h ]

  put-at : (a : ℕ) (f : Function) (s : Functions F R) → IsThere (put F R a f s) a
  put-at a f s = rw (==_refl a) refl

  module _ (e : Engine) (z : Opcodes) (p : Places) (address : ℕ) (f : Function) (s : Functions F R)
      (resolved : IsResolved s) where
    make_copy-Stocked : Stocked s (make_copy F R e z p address f s).0
    unfolding make_copy
    make_copy-Stocked =
        let made = copy_of F R e z p f s.filenames in
        let start : Functions F R = record s { filenames = made.0 } in
        let kept : Functions F R = put F R p.function_at (made.1) start in
        let there : (g : ℕ) → IsThere s g → IsThere kept g =
          λ g h. put-IsThere p.function_at g (made.1) start h in
        elim (Bool-cases f.closure) [
          | inl closed ↦ simp closed (there, λ a c h. there c (resolved a c h))
          | inr open_one ↦ simp open_one (
            there,
            λ a c h. elim (Bool-cases (same_key (index address) (index a))) [
              | inl same ↦
                  subst (IsThere kept)
                    (some_injective (
                      rw (find-update R s.resolve (index address) (index a) p.function_at, same) at
                        h))
                    (put-at p.function_at (made.1) start)
              | inr other ↦ there c (
                  resolved a c (
                    rw (find-update R s.resolve (index address) (index a) p.function_at, other) at
                      h))
            ],
          )
        ]

    copy_or_use-Stocked :
        (o : Option ℕ)
        → known_copy F R f.closure (R.find s.resolve (index address)) ≡ o
        → (r : Functions F R × ℕ) × (copy_or_use F R e z p address f s o ≡ some r) × Stocked s (r.0)
    copy_or_use-Stocked none known = (make_copy F R e z p address f s, refl, make_copy-Stocked)
    copy_or_use-Stocked (some c) known = elim (Option-cases (s.functions c)) [
      | inl nothing ↦ absurd (cc (rw nothing at (resolved address c (found f.closure known))))
      | inr (g, there) ↦ (
        (put F R c (used_again F R g) s, c),
        rw there refl,
        (
          λ a h. put-IsThere c a (used_again F R g) s h,
          λ a b h. put-IsThere c b (used_again F R g) s (resolved a b h),
        ),
      )
    ]
      where
        found :
            (closed : Bool)
            → known_copy F R closed (R.find s.resolve (index address)) ≡ some c
            → R.find s.resolve (index address) ≡ some c
        found true h = absurd (cc h)
        found false h = h

    pub copy_function-Stocked :
        s.functions address ≡ some f
        → (r : Functions F R × ℕ) × (copy_function F R e z p address s ≡ some r) × Stocked s (r.0)
    unfolding copy_function
    copy_function-Stocked there = rw there (elim (Bool-cases f.immutable) [
      | inl fixed ↦ simp fixed ((s, address), refl, (λ g h. h, resolved))
      | inr own ↦
          simp own
            (copy_or_use-Stocked (known_copy F R f.closure (R.find s.resolve (index address))) refl)
    ])

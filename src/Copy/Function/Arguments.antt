-- ===== src/Copy/Function/Arguments.antt =====
-- The argument information that src/copy.c copies, with the return type in front and the variadic
-- argument behind.
use pthreads.Base.{
  ℕ, zero, suc, ◌+◌, ◌-◌, ◌<◌, ◌≤◌, ◌≡◌, refl, ap, subst, Bool, true, false, arith, if◌then◌else◌,
  ◌∙◌, List, [], ◌∷◌, take, drop, map, Option, none, some,
}
use mathlib.Core.Option.{map as map_option}
use pthreads.Copy.{Engine}
use pthreads.Copy.Function.{ArgInfo, ArgPointer, copy_arg, copy_arginfo}

one_more : (n i : ℕ) → suc (n + i) ≡ suc n + i
one_more n i = omega arith

module _ {ℓ} {A : Type ℓ} where
  abbrev pub get_elem? : List A → ℕ → Option A
  get_elem? [] i = none
  get_elem? (x ∷ xs) zero = some x
  get_elem? (x ∷ xs) (suc i) = get_elem? xs i

  get_elem?-drop : (n : ℕ) (xs : List A) (i : ℕ) → get_elem? (drop n xs) i ≡ get_elem? xs (n + i)
  get_elem?-drop zero xs i = ap (get_elem? xs) (omega arith)
  get_elem?-drop (suc n) [] i = refl
  get_elem?-drop (suc n) (x ∷ xs) i = get_elem?-drop n xs i ∙ ap (get_elem? (x ∷ xs)) (one_more n i)

  get_elem?-take : (n : ℕ) (xs : List A) (i : ℕ) → i < n → get_elem? (take n xs) i ≡ get_elem? xs i
  get_elem?-take zero xs i l = absurd (omega (arith, l))
  get_elem?-take (suc n) [] i l = refl
  get_elem?-take (suc n) (x ∷ xs) zero l = refl
  get_elem?-take (suc n) (x ∷ xs) (suc i) l = get_elem?-take n xs i (omega (arith, l))

  get_elem?-map :
      (f : A → A) (xs : List A) (i : ℕ) → get_elem? (map f xs) i ≡ map_option f (get_elem? xs i)
  get_elem?-map f [] i = refl
  get_elem?-map f (x ∷ xs) zero = refl
  get_elem?-map f (x ∷ xs) (suc i) = get_elem?-map f xs i

-- The argument at a place from the pointer on; `return_of` is the place in front of it.
abbrev pub arg_at : ArgPointer → ℕ → Option ArgInfo
arg_at p i = get_elem? p.block (p.at_index + i)

abbrev pub return_of : ArgPointer → Option ArgInfo
return_of p = get_elem? p.block (p.at_index - 1)

-- What is copied of the arguments from the index `from` on.
copied_at :
    (e : Engine) (xs : List ArgInfo) (from count i : ℕ)
    → i < count
    → get_elem? (map (copy_arg e) (take count (drop from xs))) i
      ≡ map_option (copy_arg e) (get_elem? xs (from + i))
copied_at e xs from count i l =
    get_elem?-map (copy_arg e) (take count (drop from xs)) i
    ∙ ap (map_option (copy_arg e))
        (get_elem?-take count (drop from xs) i l ∙ get_elem?-drop from xs i)

copied_place :
    (e : Engine) (xs : List ArgInfo) (from count i place old_place : ℕ)
    → i < count
    → i ≡ place
    → from + i ≡ old_place
    → get_elem? (map (copy_arg e) (take count (drop from xs))) place
      ≡ map_option (copy_arg e) (get_elem? xs old_place)
copied_place e xs from count i place old_place l p q =
    subst
      (λ j.
        get_elem? (map (copy_arg e) (take count (drop from xs))) j
        ≡ map_option (copy_arg e) (get_elem? xs old_place))
      p (copied_at e xs from count i l ∙ ap (λ j. map_option (copy_arg e) (get_elem? xs j)) q)

within : (variadic : Bool) (n i : ℕ) → i < n → i < (if variadic then n + 1 else n)
within true n i l = omega (arith, l)
within false n i l = l

-- What stands at a place of the copy is the copy of what stands there.
pub record CopiedArgs (e : Engine) (has_return variadic : Bool) (old : ArgPointer) (n : ℕ)
    : Type 0 where
  pub args :
      (i : ℕ)
      → i < n
      → arg_at (copy_arginfo e has_return variadic old n) i ≡ map_option (copy_arg e) (arg_at old i)
  pub last_args :
      variadic ≡ true
      → arg_at (copy_arginfo e has_return variadic old n) n ≡ map_option (copy_arg e) (arg_at old n)
  pub returned :
      has_return ≡ true
      → return_of (copy_arginfo e has_return variadic old n)
        ≡ map_option (copy_arg e) (return_of old)

-- For argument information that points behind a return type where there is one, what the copy's
-- pointer has at each argument, at the variadic one if there is one, and in front for the return type
-- is the copy of what the old pointer has there.
pub copy_arginfo-CopiedArgs :
    (e : Engine) (has_return variadic : Bool) (old : ArgPointer) (n : ℕ)
    → (has_return ≡ true → 1 ≤ old.at_index)
    → CopiedArgs e has_return variadic old n
unfolding copy_arginfo
copy_arginfo-CopiedArgs e false variadic old n there = record {
  args = λ i l.
      copied_place e old.block old.at_index (if variadic then n + 1 else n) i (0 + i)
        (old.at_index + i) (within variadic n i l) (omega arith) refl;
  last_args = λ v. rw v (
      copied_place e old.block old.at_index (n + 1) n (0 + n) (old.at_index + n) (omega arith)
        (omega arith) refl);
  returned = λ h. absurd (cc h);
}
copy_arginfo-CopiedArgs e true variadic old n there =
    let from = old.at_index - 1 in
    let low = there refl in
    record {
      args = λ i l.
          copied_place e old.block from (if variadic then n + 1 + 1 else n + 1) (1 + i) (1 + i)
            (old.at_index + i) (within variadic (n + 1) (1 + i) (omega (arith, l))) refl
            (omega (arith, low));
      last_args = λ v. rw v (
          copied_place e old.block from (n + 1 + 1) (1 + n) (1 + n) (old.at_index + n) (omega arith)
            refl (omega (arith, low)));
      returned = λ h.
          copied_place e old.block from (if variadic then n + 1 + 1 else n + 1) 0 (1 - 1)
            (old.at_index - 1) (within variadic (n + 1) 0 (omega arith)) (omega arith)
            (omega arith);
    }

-- ===== src/Prepare/Traits.antt =====
-- src/prepare.c: how the traits of a class are copied, with the arrays of pointers that end with NULL.
-- An access outside an array is a fault, which is `none`.
use pthreads.Base.{
  ℕ, zero, suc, ◌≡◌, refl, sym, ap, Option, none, some, List, [], ◌∷◌, ◌++◌, map, length,
  length-append, arith, ◌>>=◌,
}
use mathlib.Core.List.{append_assoc, append-nil}
use mathlib.Core.Option.{map as map_option}
use pthreads.Copy.{Engine, ZString, copy_string}

-- `zend_trait_method_reference`
pub record MethodReference : Type 0 where
  pub method_name : Option ZString
  pub class_name : Option ZString

-- `zend_trait_alias`
pub record TraitAlias : Type 0 where
  pub trait_method : MethodReference
  pub alias : Option ZString
  pub modifiers : ℕ

-- `zend_trait_precedence`
pub record TraitPrecedence : Type 0 where
  pub trait_method : MethodReference
  pub exclude_class_names : List ZString

-- The traits of a class entry: names with their lower case, and the two arrays where there are any.
pub record Traits : Type 0 where
  pub trait_names : List (ZString × ZString)
  pub trait_aliases : Option (List (Option TraitAlias))
  pub trait_precedences : Option (List (Option TraitPrecedence))

unfoldable pub copy_reference : Engine → MethodReference → MethodReference
copy_reference e r = record {
  method_name = map_option (copy_string e) r.method_name;
  class_name = map_option (copy_string e) r.class_name;
}

unfoldable pub copy_trait_alias : Engine → TraitAlias → TraitAlias
copy_trait_alias e a = record {
  trait_method = copy_reference e a.trait_method;
  alias = map_option (copy_string e) a.alias;
  modifiers = a.modifiers;
}

unfoldable pub copy_trait_precedence : Engine → TraitPrecedence → TraitPrecedence
copy_trait_precedence e p = record {
  trait_method = copy_reference e p.trait_method;
  exclude_class_names = map (copy_string e) p.exclude_class_names;
}

module _ {A : Type 0} where
  -- `while (array[n]) n++`
  unfoldable pub count_pointers : List (Option A) → Option ℕ
  count_pointers [] = none
  count_pointers (none ∷ xs) = some 0
  count_pointers (some a ∷ xs) = map_option (λ n. suc n) (count_pointers xs)

  unfoldable pub write_pointer : List (Option A) → ℕ → Option A → Option (List (Option A))
  write_pointer [] i v = none
  write_pointer (x ∷ xs) zero v = some (v ∷ xs)
  write_pointer (x ∷ xs) (suc i) v = map_option (λ r. x ∷ r) (write_pointer xs i v)

  -- The second loop, from the index `i` on, and the NULL behind it.
  unfoldable pub fill : (A → A) → List (Option A) → ℕ → List (Option A) → Option (List (Option A))
  fill f [] i block = none
  fill f (none ∷ xs) i block = write_pointer block i none
  fill f (some a ∷ xs) i block = write_pointer block i (some (f a)) >>= fill f xs (suc i)

  -- What `emalloc` gives holds anything.
  unfoldable pub allocate : Option A → ℕ → List (Option A)
  allocate junk zero = []
  allocate junk (suc n) = junk ∷ allocate junk n

  unfoldable pub copy_array : Option A → (A → A) → List (Option A) → Option (List (Option A))
  copy_array junk f xs = do n ← count_pointers xs; fill f xs 0 (allocate junk (suc n))

copy_pointers :
    {A : Type 0} → Option A → (A → A) → Option (List (Option A)) → Option (Option (List (Option A)))
copy_pointers junk f none = some none
copy_pointers junk f (some xs) = map_option (λ ys. some ys) (copy_array junk f xs)

unfoldable pub prepare_class_traits :
    Engine → Option TraitAlias → Option TraitPrecedence → Traits → Option Traits
unfolding copy_pointers
prepare_class_traits e junk_a junk_p t = do
  aliases ← copy_pointers junk_a (copy_trait_alias e) t.trait_aliases
  precedences ← copy_pointers junk_p (copy_trait_precedence e) t.trait_precedences
  some (record {
    trait_names = map (λ n. (copy_string e (n.0), copy_string e (n.1))) t.trait_names;
    trait_aliases = aliases;
    trait_precedences = precedences;
  })

-- An array of pointers to these, and NULL behind them.
abbrev pub ended : {A : Type 0} → List A → List (Option A)
ended [] = none ∷ []
ended (a ∷ as') = some a ∷ ended as'

module _ {A : Type 0} where
  count_pointers-ended :
      (as' : List A) (rest : List (Option A))
      → count_pointers (ended as' ++ rest) ≡ some (length as')
  unfolding count_pointers
  count_pointers-ended [] rest = refl
  count_pointers-ended (a ∷ as') rest = rw (count_pointers-ended as' rest) refl

  write_pointer-append :
      (done block : List (Option A)) (x v : Option A)
      → write_pointer (done ++ x ∷ block) (length done) v ≡ some (done ++ v ∷ block)
  unfolding write_pointer
  write_pointer-append [] block x v = refl
  write_pointer-append (d ∷ done) block x v = rw (write_pointer-append done block x v) refl

  append_one :
      (done : List (Option A)) (x : Option A) (r : List (Option A))
      → (done ++ (x ∷ [])) ++ r ≡ done ++ x ∷ r
  append_one done x r = append_assoc done (x ∷ []) r

  length-one :
      (done : List (Option A)) (x : Option A) → length (done ++ (x ∷ [])) ≡ suc (length done)
  length-one done x = omega (arith, length-append done (x ∷ []))

  -- Every slot of the block is written, and none behind it.
  fill-ended :
      (f : A → A) (junk : Option A) (as' : List A) (rest done : List (Option A))
      → fill f (ended as' ++ rest) (length done) (done ++ allocate junk (suc (length as')))
        ≡ some (done ++ ended (map f as'))
  unfolding fill allocate
  fill-ended f junk [] rest done = write_pointer-append done [] junk none
  fill-ended f junk (a ∷ as') rest done =
      let one : List (Option A) = some (f a) ∷ [] in
      rw
        (
          write_pointer-append done (allocate junk (suc (length as'))) junk (some (f a)),
          ← append_one done (some (f a)) (allocate junk (suc (length as'))),
          ← length-one done (some (f a)),
          fill-ended f junk as' rest (done ++ one),
          append_one done (some (f a)) (ended (map f as')),
        )
        refl

  copy_array-ended :
      (f : A → A) (junk : Option A) (as' : List A) (rest : List (Option A))
      → copy_array junk f (ended as' ++ rest) ≡ some (ended (map f as'))
  unfolding copy_array
  copy_array-ended f junk as' rest =
      rw (count_pointers-ended as' rest) (fill-ended f junk as' rest [])

abbrev pub ended_option :
    {A : Type 0} → Option (List A) → List (Option A) → Option (List (Option A))
ended_option none rest = none
ended_option (some as') rest = some (ended as' ++ rest)

copy_pointers-ended :
    {A : Type 0} (f : A → A) (junk : Option A) (as' : Option (List A)) (rest : List (Option A))
    → copy_pointers junk f (ended_option as' rest) ≡ some (ended_option (map_option (map f) as') [])
unfolding copy_pointers
copy_pointers-ended f junk none rest = refl
copy_pointers-ended f junk (some as') rest =
    rw (copy_array-ended f junk as' rest) (ap (λ (r : List _). some (some r)) (sym (append-nil _)))

-- Whatever stands behind the NULL that ends the two arrays of a class, and whatever was in the memory of
-- the new ones: no access is outside an array, and the new arrays have exactly the copied aliases and
-- precedences and a NULL behind them; the names of the traits are copied.
pub prepare_class_traits-Copied :
    (e : Engine) (junk_a : Option TraitAlias) (junk_p : Option TraitPrecedence)
    (names : List (ZString × ZString)) (aliases : Option (List TraitAlias))
    (precedences : Option (List TraitPrecedence)) (rest_a : List (Option TraitAlias))
    (rest_p : List (Option TraitPrecedence))
    → prepare_class_traits e junk_a junk_p (record {
      trait_names = names;
      trait_aliases = ended_option aliases rest_a;
      trait_precedences = ended_option precedences rest_p;
    })
      ≡ some (record {
        trait_names = map (λ n. (copy_string e (n.0), copy_string e (n.1))) names;
        trait_aliases = ended_option (map_option (map (copy_trait_alias e)) aliases) [];
        trait_precedences =
            ended_option (map_option (map (copy_trait_precedence e)) precedences) [];
      })
unfolding prepare_class_traits
prepare_class_traits-Copied e junk_a junk_p names aliases precedences rest_a rest_p =
    rw
      (
        copy_pointers-ended (copy_trait_alias e) junk_a aliases rest_a,
        copy_pointers-ended (copy_trait_precedence e) junk_p precedences rest_p,
      )
      refl

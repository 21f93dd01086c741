-- ===== src/Queue/Links.antt =====
-- When a memory holds a doubly linked run of items, and when a queue stands for a sequence.
use pthreads.Base.{
  ℕ, ◌%◌, ◌≡◌, ◌≢◌, refl, Bool, true, false, ◌||◌, Option, some, List, [], ◌∷◌, ◌++◌, arith, ◌==◌,
  length, word,
}
use pthreads.Queue.{Ptr, null, Item, item, write, Queue}

-- The addresses and values of a run, in order.
abbrev pub Cells : Type 0
Cells = List (Ptr × ℕ)

abbrev pub has : Ptr → Cells → Bool
has a [] = false
has a ((p, v) ∷ xs) = (a == p) || has a xs

-- The address of the first and of the last item, or what stands there if the run is empty.
abbrev pub first_or : Ptr → Cells → Ptr
first_or after [] = after
first_or after ((p, v) ∷ xs) = p

abbrev pub last_or : Ptr → Cells → Ptr
last_or before [] = before
last_or before ((p, v) ∷ xs) = last_or p xs

-- The items of the run are linked both ways, between `before` and `after`.
abbrev pub IsLinked : (Ptr → Option Item) → Ptr → Cells → Ptr → Type 0
IsLinked h before [] after = Unit
IsLinked h before ((p, v) ∷ xs) after =
    (h p ≡ some (item (first_or after xs) before v)) × (p ≢ null) × IsLinked h p xs after

abbrev pub IsDistinct : Cells → Type 0
IsDistinct [] = Unit
IsDistinct ((p, v) ∷ xs) = (has p xs ≡ false) × IsDistinct xs

-- `q` stands for the sequence `xs` in `h`.
pub record Represents (h : Ptr → Option Item) (q : Queue) (xs : Cells) : Type 0 where
  pub head : q.head ≡ first_or null xs
  pub tail : q.tail ≡ last_or null xs
  pub linked : IsLinked h null xs null
  pub distinct : IsDistinct xs
  pub size : q.size ≡ length xs % word

abbrev pub SameOutside : Cells → (Ptr → Option Item) → (Ptr → Option Item) → Type 0
SameOutside xs h g = (a : Ptr) → has a xs ≡ false → g a ≡ h a

pub has-append : (a : Ptr) (xs ys : Cells) → has a (xs ++ ys) ≡ (has a xs || has a ys)
has-append a [] ys = refl
has-append a (x ∷ xs) ys = ground (arith, has-append a xs ys)

pub IsDistinct-append :
    (xs ys : Cells)
    → IsDistinct (xs ++ ys)
    → IsDistinct xs × IsDistinct ys × ((a : Ptr) → has a xs ≡ true → has a ys ≡ false)
IsDistinct-append [] ys d = (tt, d, λ a i. ground arith)
IsDistinct-append ((p, v) ∷ xs) ys d =
    let r = IsDistinct-append xs ys d.1 in
    (
      ground (arith, has-append p xs ys, d.0, r.0),
      r.1,
      λ a i. ground (arith, has-append p xs ys, d.0, r.2 a),
    )

pub IsDistinct-join :
    (xs ys : Cells)
    → IsDistinct xs
    → IsDistinct ys
    → ((a : Ptr) → has a xs ≡ true → has a ys ≡ false)
    → IsDistinct (xs ++ ys)
IsDistinct-join [] ys d e apart = e
IsDistinct-join ((p, v) ∷ xs) ys d e apart = (
  ground (arith, has-append p xs ys, apart p),
  IsDistinct-join xs ys d.1 e (λ a i. ground (arith, apart a)),
)

pub first_or-append :
    (n : Ptr) (xs ys : Cells) → first_or n (xs ++ ys) ≡ first_or (first_or n ys) xs
first_or-append n [] ys = refl
first_or-append n (x ∷ xs) ys = refl

pub last_or-append : (n : Ptr) (xs ys : Cells) → last_or n (xs ++ ys) ≡ last_or (last_or n xs) ys
last_or-append n [] ys = refl
last_or-append n ((p, v) ∷ xs) ys = last_or-append p xs ys

module _ (h : Ptr → Option Item) where
  pub IsLinked-append :
      (before after : Ptr) (xs ys : Cells)
      → IsLinked h before (xs ++ ys) after
      → IsLinked h before xs (first_or after ys) × IsLinked h (last_or before xs) ys after
  IsLinked-append before after [] ys l = (tt, l)
  IsLinked-append before after ((p, v) ∷ xs) ys l =
      let r = IsLinked-append p after xs ys l.2 in ((subst_first l.0, l.1, r.0), r.1)
    where
      subst_first :
          h p ≡ some (item (first_or after (xs ++ ys)) before v)
          → h p ≡ some (item (first_or (first_or after ys) xs) before v)
      subst_first e = ground (arith, first_or-append after xs ys)

  pub IsLinked-join :
      (before after : Ptr) (xs ys : Cells)
      → IsLinked h before xs (first_or after ys)
      → IsLinked h (last_or before xs) ys after
      → IsLinked h before (xs ++ ys) after
  IsLinked-join before after [] ys l r = r
  IsLinked-join before after ((p, v) ∷ xs) ys l r =
      (ground (arith, first_or-append after xs ys, l.0), l.1, IsLinked-join p after xs ys l.2 r)

  -- A run survives every change of memory that spares its addresses.
  pub frame :
      (g : Ptr → Option Item) (before after : Ptr) (xs : Cells)
      → IsLinked h before xs after
      → ((a : Ptr) → has a xs ≡ true → g a ≡ h a)
      → IsLinked g before xs after
  frame g before after [] l same = tt
  frame g before after ((p, v) ∷ xs) l same =
      (ground (arith, same p, l.0), l.1, frame g p after xs l.2 (λ a i. ground (arith, same a)))

  pub frame-write :
      (p : Ptr) (c : Option Item) (before after : Ptr) (xs : Cells)
      → IsLinked h before xs after
      → has p xs ≡ false
      → IsLinked (write h p c) before xs after
  unfolding write
  frame-write p c before after xs l out =
      frame (write h p c) before after xs l (λ a i. ground arith)

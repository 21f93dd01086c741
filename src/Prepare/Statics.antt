-- ===== src/Prepare/Statics.antt =====
-- src/prepare.c: the static properties of a copied class, their default and their current values.
use pthreads.Base.{
  ℕ, zero, suc, ◌≡◌, ◌<◌, refl, arith, Bool, not, ◌&&◌, Option, none, some, List, [], ◌∷◌, ◌==◌,
  leb, ltb, drop, if◌then◌else◌, is_some, length,
}
use pthreads.Zend.Hash.{HashApi}
use pthreads.Copy.{ZString, Value, null, copy_zval}
use pthreads.Prepare.Classes.{
  done, PropertyInfo, ClassConstant, StaticSlot, own, inherited, Class, Thread, Source,
}
use pthreads.Prepare.Entry.{Change, change}

abbrev pub from_to : ℕ → ℕ → ℕ → Bool
from_to lo hi k = leb lo k && ltb k hi

-- The static properties from `lo` up to `hi` become indirections to those of an ancestor.
abbrev pub redirect : (ancestor lo hi k : ℕ) → List StaticSlot → List StaticSlot
redirect a lo hi k [] = []
redirect a lo hi k (v ∷ vs) =
    (if from_to lo hi k then inherited a k else v) ∷ redirect a lo hi (suc k) vs

module _ (F : HashApi ZString) (R : HashApi ℕ) (P : HashApi PropertyInfo)
    (K : HashApi ClassConstant) where
  -- A class's own static property, over the other thread's value, which `memcpy` has put there. Without
  -- assertions that one stays where it cannot be copied, since PHP 8.1.
  abbrev pub copy_static : Source F R P K → StaticSlot → StaticSlot
  copy_static w (inherited a k) = inherited a k
  copy_static w (own v) =
      let copied = copy_zval w.engine v v in
      own (if not (copied.0) && w.engine.before_81 then null else copied.1)

  -- The properties from `lo` on are copied.
  abbrev pub own_statics : Source F R P K → (lo k : ℕ) → List StaticSlot → List StaticSlot
  own_statics w lo k [] = []
  own_statics w lo k (v ∷ vs) =
      (if leb lo k then copy_static w v else v) ∷ own_statics w lo (suc k) vs

  abbrev pub static_count : Thread F R P K → Option ℕ → ℕ
  static_count s none = 0
  static_count s (some a) = length (s.classes a).default_statics

  abbrev pub least : ℕ → ℕ → ℕ
  least a b = if leb a b then a else b

  -- `while (parent && parent->default_static_members_table)`, with the properties below `hi` to do
  unfoldable pub inherit_statics :
      Thread F R P K → (fuel : ℕ) → Option ℕ → (hi : ℕ) → List StaticSlot → List StaticSlot
  inherit_statics s fuel none hi vs = vs
  inherit_statics s zero (some a) hi vs = vs
  inherit_statics s (suc fuel) (some a) hi vs =
      let lo = static_count s (s.classes a).parent in
      let rest =
        inherit_statics s fuel (s.classes a).parent (least hi lo) (redirect a lo hi 0 vs) in
      if static_count s (some a) == 0 then vs else rest

  abbrev pub set_default_statics : List StaticSlot → Class F R P K → Class F R P K
  set_default_statics vs q = record q { default_statics = vs }

  unfoldable pub prepare_class_statics : Source F R P K → Class F R P K → ℕ → Change F R P K
  prepare_class_statics w c p s =
      let q = s.classes p in
      let parent = if q.linked then q.parent else none in
      let lo = static_count s parent in
      change F R P K p
        (set_default_statics
          (inherit_statics s s.next parent lo (own_statics w lo 0 c.default_statics)))
        s

  abbrev pub slot_at : List StaticSlot → ℕ → Option StaticSlot
  slot_at [] k = none
  slot_at (v ∷ vs) zero = some v
  slot_at (v ∷ vs) (suc k) = slot_at vs k

  abbrev pub deindirect : (parent index : ℕ) → Option StaticSlot → StaticSlot
  deindirect a k (some (inherited b j)) = inherited b j
  deindirect a k other = inherited a k

  abbrev pub current_value : Source F R P K → Option StaticSlot → Value
  current_value w none = null
  current_value w (some (inherited b j)) = null
  current_value w (some (own v)) =
      let copied = copy_zval w.engine w.engine.unwritten v in if copied.0 then copied.1 else null

  -- An indirection to a static property of the parent, or to where that one leads.
  abbrev pub through_parent : Option (List StaticSlot) → (parent index : ℕ) → StaticSlot
  through_parent none a k = inherited a k
  through_parent (some vs) a k = deindirect a k (slot_at vs k)

  -- The current static properties: the indirections, and copies of what the thread has that is copied
  -- from.
  abbrev pub current_statics :
      Source F R P K
      → Option (List StaticSlot)
      → (parent k : ℕ) → List StaticSlot
      → List StaticSlot
      → List StaticSlot
  current_statics w above a k [] now = []
  current_statics w above a k (inherited b j ∷ vs) now =
      through_parent above a k ∷ current_statics w above a (suc k) vs (drop 1 now)
  current_statics w above a k (own v ∷ vs) now =
      own (current_value w (slot_at now 0)) ∷ current_statics w above a (suc k) vs (drop 1 now)

  abbrev pub parent_or_zero : Option ℕ → ℕ
  parent_or_zero none = 0
  parent_or_zero (some a) = a

  abbrev pub ready_statics : Source F R P K → ℕ → Thread F R P K → Thread F R P K
  ready_statics w p s =
      let q = s.classes p in
      if q.linked && is_some q.parent
      then record s { static_members = w.init_statics s (parent_or_zero q.parent) }
      else s

  abbrev pub set_statics : ℕ → List StaticSlot → Thread F R P K → Thread F R P K
  set_statics p vs s = record s {
    static_members = λ (x : ℕ). if p == x then some vs else s.static_members x;
  }

  -- What the thread that is copied from has of them, for the candidate `c`.
  unfoldable pub take_statics :
      Source F R P K
      → Class F R P K
      → ℕ
      → Option (List StaticSlot)
      → Thread F R P K
      → Thread F R P K
  take_statics w c p none s = s
  take_statics w c p (some now) s =
      if not (length c.default_statics == 0) && c.linked && not (is_some (s.static_members p))
      then (let t = ready_statics w p s in
          let q = t.classes p in
          let a = parent_or_zero q.parent in
          set_statics p (current_statics w (t.static_members a) a 0 q.default_statics now) t)
      else s

  -- For the candidate at `x`.
  unfoldable pub init_class_statics : Source F R P K → ℕ → ℕ → Change F R P K
  init_class_statics w x p s = done (take_statics w (s.classes x) p (w.source_statics x) s)

  -- Where parents rank below what has them, the loop over the ancestors ends: all fuel that is above the
  -- rank of the first one gives the same.
  pub inherit_statics-ends :
      (s : Thread F R P K) (rank : ℕ → ℕ)
      → ((a b : ℕ) → (s.classes a).parent ≡ some b → rank b < rank a)
      → (m n : ℕ) (p : Option ℕ) (hi : ℕ) (vs : List StaticSlot)
      → ((a : ℕ) → p ≡ some a → (rank a < m) × (rank a < n))
      → inherit_statics s m p hi vs ≡ inherit_statics s n p hi vs
  unfolding inherit_statics
  inherit_statics-ends s rank up m n none hi vs enough = refl
  inherit_statics-ends s rank up zero n (some a) hi vs enough =
      absurd (omega (arith, (enough a refl).0))
  inherit_statics-ends s rank up (suc m) zero (some a) hi vs enough =
      absurd (omega (arith, (enough a refl).1))
  inherit_statics-ends s rank up (suc m) (suc n) (some a) hi vs enough =
      rw
        (inherit_statics-ends s rank up m n (s.classes a).parent
          (least hi (static_count s (s.classes a).parent))
          (redirect a (static_count s (s.classes a).parent) hi 0 vs)
          (λ b e. (
            omega (arith, up a b e, (enough a refl).0),
            omega (arith, up a b e, (enough a refl).1),
          )))
        refl

-- ===== src/Queue/Clean.antt =====
-- `pthreads_queue_clean`.
use pthreads.Base.{
  ℕ, zero, suc, ◌<◌, ◌≡◌, refl, false, Option, none, some, List, [], ◌∷◌, arith, ◌==◌,
  if◌then◌else◌, length,
}
use pthreads.Queue.{
  Ptr, null, Item, item, Memory, Queue, Effect, released, write, clean, clean_loop,
}
use pthreads.Queue.Links.{Cells, has, first_or, IsLinked, IsDistinct, Represents, frame-write}
use pthreads.Queue.Relink.{with_cell, load-some, efree-some}

-- The trace once the values of the run are released, in its order.
abbrev pub release_all : Cells → List Effect → List Effect
release_all [] t = t
release_all ((p, v) ∷ xs) t = release_all xs (released v ∷ t)

-- The memory less the items of the run.
abbrev pub Without : Cells → (Ptr → Option Item) → (Ptr → Option Item) → Type 0
Without xs h g = (a : Ptr) → g a ≡ (if has a xs then none else h a)

gone :
    (h : Ptr → Option Item) (p : Ptr) (v : ℕ) (xs : Cells) (g : Ptr → Option Item) (a : Ptr)
    → g a ≡ (if has a xs then none else write h p none a)
    → g a ≡ (if has a ((p, v) ∷ xs) then none else h a)
unfolding write
gone h p v xs g a e = ground arith

clean_loop-Without :
    (fuel : ℕ) (m : Memory) (before : Ptr) (xs : Cells)
    → IsLinked m.cell before xs null
    → IsDistinct xs
    → length xs < fuel
    → (g : Ptr → Option Item) × (clean_loop fuel (first_or null xs) m
        ≡ some (tt, record { cell = g; trace = release_all xs m.trace }))
      × Without xs m.cell g
unfolding clean_loop
clean_loop-Without zero m before xs l d h = absurd (omega arith)
clean_loop-Without (suc k) m before [] l d h = (m.cell, refl, λ a. refl)
clean_loop-Without (suc k) m before ((p, v) ∷ xs) l d h =
    let i = item (first_or null xs) before v in
    let logged : Memory = record m { trace = released v ∷ m.trace } in
    let freed = with_cell logged (write m.cell p none) in
    let solid : (p == null) ≡ false = ground (arith, l.1) in
    let rest =
      clean_loop-Without k freed p xs (frame-write m.cell p none p null xs l.2 d.0) d.1
        (omega arith) in
    (
      rest.0,
      rw (solid, load-some m p i l.1 l.0, efree-some logged p i l.1 l.0, rest.1),
      λ a. gone m.cell p v xs rest.0 a (rest.2 a),
    )

-- Cleaning a queue that stands for a sequence, with more fuel than it has items, ends without a fault: every value is released
-- once, in the queue's order, every item is freed, and no other memory changes.
pub clean-Without :
    (fuel : ℕ) (m : Memory) (q : Queue) (xs : Cells)
    → Represents m.cell q xs
    → length xs < fuel
    → (g : Ptr → Option Item) × (clean fuel q m
        ≡ some (tt, record { cell = g; trace = release_all xs m.trace }))
      × Without xs m.cell g
unfolding clean
clean-Without fuel m q xs r h = rw r.head (clean_loop-Without fuel m null xs r.linked r.distinct h)

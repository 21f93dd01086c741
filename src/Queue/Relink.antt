-- ===== src/Queue/Relink.antt =====
-- What the writes of queue.c do to a run of linked items.
use pthreads.Base.{ℕ, ◌≡◌, ◌≢◌, false, Option, none, some, [], ◌∷◌, arith, ◌==◌}
use pthreads.Queue.{
  Ptr, null, Item, item, Memory, write, load, set_next, set_prev, set_prev_and_next, efree,
}
use pthreads.Queue.Links.{Cells, first_or, last_or, IsLinked, IsDistinct, SameOutside, frame-write}

abbrev pub with_cell : Memory → (Ptr → Option Item) → Memory
with_cell m g = record m { cell = g }

-- Every item of a run stands at an address, so its ends are not `NULL`.
pub last-ne-null :
    (h : Ptr → Option Item) (before after p : Ptr) (v : ℕ) (xs : Cells)
    → IsLinked h before ((p, v) ∷ xs) after
    → last_or p xs ≢ null
last-ne-null h before after p v [] l = l.1
last-ne-null h before after p v ((q, w) ∷ xs) l = last-ne-null h p after q w xs l.2

module _ (m : Memory) (p : Ptr) (i : Item) (ne : p ≢ null) (held : m.cell p ≡ some i) where
  pub load-some : load p m ≡ some (i, m)
  unfolding load
  load-some = ground arith

  pub set_next-some :
      (n : Ptr)
      → set_next p n m ≡ some (tt, with_cell m (write m.cell p (some (record i { next = n }))))
  unfolding set_next
  set_next-some n = rw load-some

  pub set_prev-some :
      (n : Ptr)
      → set_prev p n m ≡ some (tt, with_cell m (write m.cell p (some (record i { prev = n }))))
  unfolding set_prev
  set_prev-some n = rw load-some

  pub efree-some : efree p m ≡ some (tt, with_cell m (write m.cell p none))
  unfolding efree
  efree-some = rw load-some

module _ (m : Memory) (p : Ptr) (i : Item) (ne : p ≢ null) (held : m.cell p ≡ some i) where
  -- An item that is linked anew keeps its value, and no other item is written.
  pub set_prev_and_next_lem :
      (b n : Ptr)
      → (g : Ptr → Option Item) × (set_prev_and_next p b n m ≡ some (tt, with_cell m g))
        × (g p ≡ some (item n b i.value))
        × ((a : Ptr) → (a == p) ≡ false → g a ≡ m.cell a)
  unfolding set_prev_and_next write
  set_prev_and_next_lem b n =
      let first = write m.cell p (some (record i { prev = b })) in
      let second = write first p (some (item n b i.value)) in
      (
        second,
        rw (set_prev-some m p i ne held b)
            (set_next-some (with_cell m first) p (record i { prev = b }) ne (ground arith) n),
        ground arith,
        ground arith,
      )

-- Writing the `next` of the last item.
pub set_next-last :
    (m : Memory) (before after n p : Ptr) (v : ℕ) (xs : Cells)
    → IsLinked m.cell before ((p, v) ∷ xs) after
    → IsDistinct ((p, v) ∷ xs)
    → (g : Ptr → Option Item) × (set_next (last_or p xs) n m ≡ some (tt, with_cell m g))
      × IsLinked g before ((p, v) ∷ xs) n
      × SameOutside ((p, v) ∷ xs) m.cell g
unfolding write
set_next-last m before after n p v [] l d = (
  write m.cell p (some (item n before v)),
  set_next-some m p (item after before v) l.1 l.0 n,
  (ground arith, l.1, tt),
  ground arith,
)
set_next-last m before after n p v ((q, w) ∷ xs) l d =
    let r = set_next-last m p after n q w xs l.2 d.1 in
    (r.0, r.1, (ground (arith, r.3 p, l.0, d.0), l.1, r.2), λ a o. r.3 a (ground arith))

-- Writing the `prev` of the first item.
pub set_prev-first :
    (m : Memory) (before after b p : Ptr) (v : ℕ) (xs : Cells)
    → IsLinked m.cell before ((p, v) ∷ xs) after
    → IsDistinct ((p, v) ∷ xs)
    → (g : Ptr → Option Item) × (set_prev p b m ≡ some (tt, with_cell m g))
      × IsLinked g b ((p, v) ∷ xs) after
      × SameOutside ((p, v) ∷ xs) m.cell g
unfolding write
set_prev-first m before after b p v xs l d =
    let i = item (first_or after xs) b v in
    (
      write m.cell p (some i),
      set_prev-some m p (item (first_or after xs) before v) l.1 l.0 b,
      (ground arith, l.1, frame-write m.cell p (some i) p after xs l.2 d.0),
      ground arith,
    )

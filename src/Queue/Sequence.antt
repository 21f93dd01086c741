-- ===== src/Queue/Sequence.antt =====
-- The queue as a sequence: what `push_new`, `unshift_new` and `remove` do to it.
use pthreads.Base.{
  ==_refl, ℕ, suc, ==_ne, ◌+◌, ◌%◌, ◌<◌, ◌≡◌, ◌≢◌, refl, ap, ◌∙◌, Bool, true, false, Option, none,
  some, List, [], ◌∷◌, ◌++◌, arith, ◌==◌, if◌then◌else◌, length, word, incr, decr,
}
use pthreads.Queue.{
  Ptr, null, Item, item, Memory, Queue, Garbage, free_item, nothing, Removed, copied, released,
  write, push_new, unshift_new, unlink, remove, discard, item_new,
}
use pthreads.Queue.Links.{
  Cells, has, IsDistinct, Represents, SameOutside, frame-write, has-append, IsDistinct-append,
  IsDistinct-join,
}
use pthreads.Queue.Relink.{with_cell, load-some, efree-some}
use pthreads.Queue.Push.{push_cells, unshift_cells}
use pthreads.Queue.Remove.{unlink-Unlinked, not-mem_of_apart}

-- The memory after `item_new`.
abbrev allocated : Memory → Ptr → ℕ → Memory
allocated m fresh v = record {
  cell = write m.cell fresh (some (item null null v));
  trace = copied v ∷ m.trace;
}

Represents-write :
    (h : Ptr → Option Item) (q : Queue) (xs : Cells) (p : Ptr) (c : Option Item)
    → Represents h q xs
    → has p xs ≡ false
    → Represents (write h p c) q xs
Represents-write h q xs p c r out = record {
  head = r.head;
  tail = r.tail;
  distinct = r.distinct;
  size = r.size;
  linked = frame-write h p c null null xs r.linked out;
}

module _ (m : Memory) (q : Queue) (fresh : Ptr) (v : ℕ) (xs : Cells) (ne : fresh ≢ null)
    (r : Represents m.cell q xs) (out : has fresh xs ≡ false) where
  -- For a queue that stands for a sequence, and a fresh address that is not null and not one of its
  -- items: pushing a value copies it once into a new item behind the last one, counts the size up,
  -- and writes no item outside the queue.
  pub push_new-append :
      (q' : Queue) × (g : Ptr → Option Item) × (push_new fresh q v m
        ≡ some (q', record { cell = g; trace = copied v ∷ m.trace }))
      × Represents g q' (xs ++ (fresh, v) ∷ [])
      × SameOutside (xs ++ (fresh, v) ∷ []) m.cell g
  unfolding push_new item_new write
  push_new-append =
      let h = allocated m fresh v in
      let start = Represents-write m.cell q xs fresh (some (item null null v)) r out in
      let t = push_cells h q fresh (item null null v) ne (ground arith) xs start out in
      (t.0, t.1, t.2, t.3, λ a o. t.4 a o ∙ ground (arith, has-append a xs ((fresh, v) ∷ [])))

  -- Under the same conditions unshifting a value links its item in front, but the stored size stays
  -- behind: the queue would stand for the longer sequence only if the size were counted up.
  pub unshift_new-cons :
      (q' : Queue) × (g : Ptr → Option Item) × (unshift_new fresh q v m
        ≡ some (q', record { cell = g; trace = copied v ∷ m.trace }))
      × Represents g (record q' { size = incr q'.size }) ((fresh, v) ∷ xs)
      × (q'.size ≡ q.size)
      × ¬ Represents g q' ((fresh, v) ∷ xs)
  unfolding unshift_new item_new write
  unshift_new-cons =
      let h = allocated m fresh v in
      let start = Represents-write m.cell q xs fresh (some (item null null v)) r out in
      let t = unshift_cells h q fresh (item null null v) ne (ground arith) xs start out in
      (
        t.0,
        t.1,
        t.2,
        t.4,
        t.3,
        λ bad. absurd (off_by_one t.0.size q.size (length xs) t.3 r.size bad.size),
      )
    where
      off_by_one : (s n k : ℕ) → s ≡ n → n ≡ k % word → s ≡ suc k % word → ⊥
      off_by_one s n k e f g = omega arith

-- The item's cell after `remove`, and the trace.
abbrev pub after_garbage : Garbage → (Ptr → Option Item) → Ptr → Ptr → Option Item
after_garbage free_item h p = write h p none
after_garbage nothing h p = h

-- What is left of an item: freed, or as it was for the caller to free.
abbrev pub left_of : Garbage → Option Item → Option Item
left_of free_item i = none
left_of nothing i = i

after_garbage-at :
    (garbage : Garbage) (h : Ptr → Option Item) (p : Ptr)
    → after_garbage garbage h p p ≡ left_of garbage (h p)
unfolding write
after_garbage-at free_item h p = rw (==_refl p) refl
after_garbage-at nothing h p = refl

discard-some :
    (garbage : Garbage) (m : Memory) (p : Ptr) (i : Item)
    → p ≢ null
    → m.cell p ≡ some i
    → discard garbage p m ≡ some (tt, with_cell m (after_garbage garbage m.cell p))
unfolding discard
discard-some free_item m p i ne held = efree-some m p i ne held
discard-some nothing m p i ne held = refl

Represents-garbage :
    (garbage : Garbage) (h : Ptr → Option Item) (q : Queue) (xs : Cells) (p : Ptr)
    → Represents h q xs
    → has p xs ≡ false
    → Represents (after_garbage garbage h p) q xs
Represents-garbage free_item h q xs p r out = Represents-write h q xs p none r out
Represents-garbage nothing h q xs p r out = r

abbrev pub after_hand_out : Bool → ℕ → Memory → Memory
after_hand_out true v m = m
after_hand_out false v m = record m { trace = released v ∷ m.trace }

IsDistinct-without :
    (xs ys : Cells) (p : Ptr) (v : ℕ)
    → IsDistinct (xs ++ (p, v) ∷ ys)
    → IsDistinct (xs ++ ys) × (has p (xs ++ ys) ≡ false)
IsDistinct-without xs ys p v d =
    let s = IsDistinct-append xs ((p, v) ∷ ys) d in
    (
      IsDistinct-join xs ys s.0 s.1.1 (λ a i. ground (arith, s.2 a)),
      ground (arith, has-append p xs ys, not-mem_of_apart p v xs ys s.2, s.1.0),
    )

-- What `remove` does to the item `(p, v)` of `xs ++ (p, v) ∷ ys`.
pub record Taken (m : Memory) (q : Queue) (xs ys : Cells) (p : Ptr) (v : ℕ) (wanted : Bool)
    (garbage : Garbage) : Type 0 where
  pub result : Removed
  pub cell : Ptr → Option Item
  pub ran :
      remove q p wanted garbage m
      ≡ some
          (result, record { cell = cell; trace = if wanted then m.trace else released v ∷ m.trace })
  pub represents : Represents cell result.queue (xs ++ ys)
  pub value : result.value ≡ (if wanted then some v else none)
  pub returned : result.returned ≡ length (xs ++ ys) % word
  pub item_left : cell p ≡ left_of garbage (m.cell p)
  pub same : (a : Ptr) → has a (xs ++ (p, v) ∷ ys) ≡ false → cell a ≡ m.cell a

decr-suc : (s n k : ℕ) → s ≡ n → n ≡ (k + 1) % word → k < word → decr s ≡ k % word
decr-suc s n k e f h = omega arith

length-middle {ℓ} :
    {A : Type ℓ} (a : A) (xs ys : List A) → length (xs ++ a ∷ ys) ≡ length (xs ++ ys) + 1
length-middle a [] ys = omega arith
length-middle a (x ∷ xs) ys = omega (arith, length-middle a xs ys)

remove-some :
    (wanted : Bool) (garbage : Garbage) (m : Memory) (q left : Queue) (p : Ptr) (v n b : ℕ)
    (h : Ptr → Option Item)
    → unlink q p m ≡ some (left, with_cell m h)
    → (p == null) ≡ false
    → p ≢ null
    → h p ≡ some (item n b v)
    → let s = decr left.size in
      remove q p wanted garbage m
      ≡ some (
        record {
          queue = record left { size = s };
          value = if wanted then some v else none;
          returned = s;
        },
        record {
          cell = after_garbage garbage h p;
          trace = if wanted then m.trace else released v ∷ m.trace;
        },
      )
unfolding remove
remove-some true garbage m q left p v n b h ran solid ne held =
    let i = item n b v in
    rw (
      solid,
      ran,
      load-some (with_cell m h) p i ne held,
      discard-some garbage (with_cell m h) p i ne held,
    )
remove-some false garbage m q left p v n b h ran solid ne held =
    let i = item n b v in
    let logged = after_hand_out false v (with_cell m h) in
    rw (solid, ran, load-some (with_cell m h) p i ne held, discard-some garbage logged p i ne held)

after_garbage-same :
    (garbage : Garbage) (h : Ptr → Option Item) (p a : Ptr)
    → (a == p) ≡ false
    → after_garbage garbage h p a ≡ h a
unfolding write
after_garbage-same free_item h p a e = rw e
after_garbage-same nothing h p a e = refl

outside :
    (a p : Ptr) (v : ℕ) (xs ys : Cells)
    → has a (xs ++ (p, v) ∷ ys) ≡ false
    → (has a (xs ++ ys) ≡ false) × ((a == p) ≡ false)
outside a p v xs ys o = ground (arith, has-append a xs ys, has-append a xs ((p, v) ∷ ys))

-- Removing any item of a queue that stands for a sequence of at most 2 ^ 64 items gives back its
-- value or releases it once, leaves nothing at the item's address or the item as it was, as told, and
-- leaves a queue of the others in their order.
pub remove-Taken :
    (m : Memory) (q : Queue) (xs ys : Cells) (p : Ptr) (v : ℕ) (wanted : Bool) (garbage : Garbage)
    → Represents m.cell q (xs ++ (p, v) ∷ ys)
    → length (xs ++ ys) < word
    → Taken m q xs ys p v wanted garbage
unfolding remove
remove-Taken m q xs ys p v wanted garbage r bound =
    let u = unlink-Unlinked m q p v xs ys r in
    let (n, b, held) = u.still in
    let w = IsDistinct-without xs ys p v r.distinct in
    let size : decr u.queue.size ≡ length (xs ++ ys) % word =
      decr-suc u.queue.size q.size (length (xs ++ ys)) u.size
        (r.size ∙ ap (λ k. k % word) (length-middle (p, v) xs ys)) bound in
    let left : Queue = record u.queue { size = decr u.queue.size } in
    let solid : (p == null) ≡ false = ==_ne u.ne_null in
    let still : Represents u.cell left (xs ++ ys) = record {
      head = u.head;
      tail = u.tail;
      linked = u.linked;
      distinct = w.0;
      size = size;
    } in
    record {
      result = record {
        queue = left;
        value = if wanted then some v else none;
        returned = decr u.queue.size;
      };
      cell = after_garbage garbage u.cell p;
      ran = remove-some wanted garbage m q u.queue p v n b u.cell u.ran solid u.ne_null held;
      represents = Represents-garbage garbage u.cell left (xs ++ ys) p still w.1;
      value = refl;
      returned = size;
      item_left = after_garbage-at garbage u.cell p ∙ ap (left_of garbage) (u.same p w.1);
      same = λ a o.
          let out = outside a p v xs ys o in
          after_garbage-same garbage u.cell p a out.1 ∙ u.same a out.0;
    }

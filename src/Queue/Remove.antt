-- ===== src/Queue/Remove.antt =====
-- The four ways in which `pthreads_queue_remove` unlinks an item.
use mathlib.Core.Bool.{false≢true}
use mathlib.Core.List.{append-nil}
use pthreads.Base.{
  ℕ, ◌≡◌, ◌≢◌, refl, sym, ◌∙◌, Bool, true, false, ◌&&◌, Option, some, [], ◌∷◌, ◌++◌, arith, ◌==◌,
  Bool-cases, ==_refl, inl, inr, subst,
}
use pthreads.Queue.{Ptr, null, Item, item, Memory, Queue, unlink}
use pthreads.Queue.Links.{
  Cells, has, first_or, last_or, IsLinked, Represents, SameOutside, frame, has-append,
  IsDistinct-append, IsLinked-append, IsLinked-join, last_or-append,
}
use pthreads.Queue.Relink.{with_cell, load-some, set_next-last, set_prev-first}

has-last : (p : Ptr) (v : ℕ) (xs : Cells) → has (last_or p xs) ((p, v) ∷ xs) ≡ true
has-last p v [] = ground arith
has-last p v ((q, w) ∷ xs) = ground (arith, has-last q w xs)

ne_of_has : (a p : Ptr) (xs : Cells) → has a xs ≡ true → has p xs ≡ false → (a == p) ≡ false
ne_of_has a p [] i o = cc
ne_of_has a p ((x, v) ∷ xs) i o = ground (arith, ne_of_has a p xs)

has-first : (p : Ptr) (v : ℕ) (xs : Cells) → has p ((p, v) ∷ xs) ≡ true
has-first p v xs = ground arith

pub not-mem_of_apart :
    (p : Ptr) (v : ℕ) (xs ys : Cells)
    → ((a : Ptr) → has a xs ≡ true → has a ((p, v) ∷ ys) ≡ false)
    → has p xs ≡ false
not-mem_of_apart p v xs ys apart = elim (Bool-cases (has p xs)) [
  | inl i ↦ absurd (false≢true (sym (apart p i) ∙ has-first p v ys))
  | inr o ↦ o
]

-- The address that a test compares, replaced by the one it is known to be.
test_of_eq : {a b : Ptr} {t : Bool} (p : Ptr) → a ≡ b → (b == p) ≡ t → (a == p) ≡ t
test_of_eq p e h = rw e h

-- The queue and the memory after the item is unlinked; the size is not yet counted down.
pub record Unlinked (m : Memory) (q : Queue) (p : Ptr) (v : ℕ) (xs : Cells) : Type 0 where
  pub queue : Queue
  pub cell : Ptr → Option Item
  pub ran : unlink q p m ≡ some (queue, with_cell m cell)
  pub size : queue.size ≡ q.size
  pub head : queue.head ≡ first_or null xs
  pub tail : queue.tail ≡ last_or null xs
  pub linked : IsLinked cell null xs null
  pub ne_null : p ≢ null
  pub still : (n : Ptr) × (b : Ptr) × (cell p ≡ some (item n b v))
  pub same : SameOutside xs m.cell cell

not-mem-append :
    (a : Ptr) (xs ys : Cells) → has a (xs ++ ys) ≡ false → (has a xs ≡ false) × (has a ys ≡ false)
not-mem-append a xs ys o = ground (arith, has-append a xs ys)

module _ (m : Memory) (q : Queue) (p : Ptr) (v : ℕ) where
  unlink_only : Represents m.cell q ((p, v) ∷ []) → Unlinked m q p v []
  unfolding unlink
  unlink_only r =
      let test : ((q.head == p) && (q.tail == p)) ≡ true = ground (arith, r.head, r.tail) in
      record {
        queue = record q { head = null; tail = null };
        cell = m.cell;
        ran = rw test;
        size = refl;
        head = refl;
        tail = refl;
        linked = tt;
        ne_null = r.linked.1;
        still = (null, null, r.linked.0);
        same = λ a o. refl;
      }

  unlink_head :
      (y : Ptr) (w : ℕ) (ys : Cells)
      → Represents m.cell q ((p, v) ∷ (y, w) ∷ ys)
      → Unlinked m q p v ((y, w) ∷ ys)
  unfolding unlink
  unlink_head y w ys r =
      let other : (last_or y ys == p) ≡ false =
        ne_of_has (last_or y ys) p ((y, w) ∷ ys) (has-last y w ys) r.distinct.0 in
      let both : ((q.head == p) && (q.tail == p)) ≡ false = ground (arith, r.tail, other) in
      let first : (q.head == p) ≡ true = ground (arith, r.head) in
      let t = set_prev-first m p null null y w ys r.linked.2 r.distinct.1 in
      record {
        queue = record q { head = y };
        cell = t.0;
        ran = rw (both, first, load-some m p (item y null v) r.linked.1 r.linked.0, t.1);
        size = refl;
        head = refl;
        tail = r.tail;
        linked = t.2;
        ne_null = r.linked.1;
        still = (y, null, t.3 p r.distinct.0 ∙ r.linked.0);
        same = t.3;
      }

  module _ (x : Ptr) (u : ℕ) (xs : Cells) where
    unlink_tail :
        Represents m.cell q (((x, u) ∷ xs) ++ (p, v) ∷ []) → Unlinked m q p v ((x, u) ∷ xs)
    unfolding unlink
    unlink_tail r =
        let d = IsDistinct-append ((x, u) ∷ xs) ((p, v) ∷ []) r.distinct in
        let l = IsLinked-append m.cell null null ((x, u) ∷ xs) ((p, v) ∷ []) r.linked in
        let out = not-mem_of_apart p v ((x, u) ∷ xs) [] d.2 in
        let other = test_of_eq p r.head (ne_of_has x p ((x, u) ∷ xs) (has-first x u xs) out) in
        let both : ((q.head == p) && (q.tail == p)) ≡ false = rw other in
        let end = r.tail ∙ last_or-append null ((x, u) ∷ xs) ((p, v) ∷ []) in
        let last : (q.tail == p) ≡ true = test_of_eq p end (==_refl p) in
        let t = set_next-last m null p null x u xs l.0 d.0 in
        record {
          queue = record q { tail = last_or x xs };
          cell = t.0;
          ran = rw (both, other, last, load-some m p (item null (last_or x xs) v) l.1.1 l.1.0, t.1);
          size = refl;
          head = r.head;
          tail = refl;
          linked = t.2;
          ne_null = l.1.1;
          still = (null, last_or x xs, t.3 p out ∙ l.1.0);
          same = t.3;
        }

    unlink_middle :
        (y : Ptr) (w : ℕ) (ys : Cells)
        → Represents m.cell q (((x, u) ∷ xs) ++ (p, v) ∷ (y, w) ∷ ys)
        → Unlinked m q p v (((x, u) ∷ xs) ++ (y, w) ∷ ys)
    unfolding unlink
    unlink_middle y w ys r =
        let front : Cells = (x, u) ∷ xs in
        let back : Cells = (y, w) ∷ ys in
        let before = last_or x xs in
        let d = IsDistinct-append front ((p, v) ∷ back) r.distinct in
        let l = IsLinked-append m.cell null null front ((p, v) ∷ back) r.linked in
        let out = not-mem_of_apart p v front back d.2 in
        let other = test_of_eq p r.head (ne_of_has x p front (has-first x u xs) out) in
        let both : ((q.head == p) && (q.tail == p)) ≡ false = rw other in
        let end = r.tail ∙ last_or-append null front ((p, v) ∷ back) in
        let inside = test_of_eq p end (ne_of_has (last_or y ys) p back (has-last y w ys) d.1.0) in
        let i = load-some m p (item y before v) l.1.1 l.1.0 in
        let t = set_prev-first m p null before y w ys l.1.2 d.1.1 in
        let kept = frame m.cell t.0 null p front l.0 (λ a j. t.3 a (apart-tail a (d.2 a j))) in
        let s = set_next-last (with_cell m t.0) null p y x u xs kept d.0 in
        record {
          queue = q;
          cell = s.0;
          ran = rw (both, other, inside, i, t.1, s.1);
          size = refl;
          head = r.head;
          tail = end ∙ sym (last_or-append null front back);
          linked = IsLinked-join s.0 null null front back s.2 (
              frame t.0 s.0 before null back t.2
                (λ a j. s.3 a (not-mem_of_mem a front back (d.2 a) j)));
          ne_null = l.1.1;
          still = (y, before, s.3 p out ∙ t.3 p d.1.0 ∙ l.1.0);
          same = λ a o. let n = not-mem-append a front back o in s.3 a n.0 ∙ t.3 a n.1;
        }
      where
        apart-tail : (a : Ptr) → has a ((p, v) ∷ (y, w) ∷ ys) ≡ false → has a ((y, w) ∷ ys) ≡ false
        apart-tail a o = ground arith

        not-mem_of_mem :
            (a : Ptr) (fs bs : Cells)
            → (has a fs ≡ true → has a ((p, v) ∷ bs) ≡ false)
            → has a bs ≡ true
            → has a fs ≡ false
        not-mem_of_mem a fs bs apart j = ground arith

-- `pthreads_queue_remove` takes any item of the queue out of the links and leaves the others as
-- they were, whichever of the four cases applies.
pub unlink-Unlinked :
    (m : Memory) (q : Queue) (p : Ptr) (v : ℕ) (xs ys : Cells)
    → Represents m.cell q (xs ++ (p, v) ∷ ys)
    → Unlinked m q p v (xs ++ ys)
unlink-Unlinked m q p v [] [] r = unlink_only m q p v r
unlink-Unlinked m q p v [] ((y, w) ∷ ys) r = unlink_head m q p v y w ys r
unlink-Unlinked m q p v ((x, u) ∷ xs) [] r =
    subst (Unlinked m q p v) (sym (append-nil ((x, u) ∷ xs))) (unlink_tail m q p v x u xs r)
unlink-Unlinked m q p v ((x, u) ∷ xs) ((y, w) ∷ ys) r = unlink_middle m q p v x u xs y w ys r

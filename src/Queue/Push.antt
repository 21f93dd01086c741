-- ===== src/Queue/Push.antt =====
-- `pthreads_queue_push` and `pthreads_queue_unshift`.
use pthreads.Base.{
  ℕ, ◌+◌, ◌%◌, ◌≡◌, ◌≢◌, refl, sym, ◌∙◌, true, false, Option, some, [], ◌∷◌, ◌++◌, arith, ◌==◌,
  length-append, word, incr,
}
use pthreads.Queue.{Ptr, null, Item, Memory, Queue, push, unshift}
use pthreads.Queue.Links.{
  Cells, has, last_or, Represents, SameOutside, frame, has-append, IsDistinct-join, IsLinked-join,
  last_or-append,
}
use pthreads.Queue.Relink.{
  with_cell, set_prev_and_next_lem, set_next-last, set_prev-first, last-ne-null,
}

apart_of_not_mem : (a p : Ptr) (xs : Cells) → has a xs ≡ true → has p xs ≡ false → (a == p) ≡ false
apart_of_not_mem a p [] i o = cc
apart_of_not_mem a p ((x, v) ∷ xs) i o = ground (arith, apart_of_not_mem a p xs)

not-mem-append :
    (a p : Ptr) (v : ℕ) (xs : Cells)
    → has a (xs ++ (p, v) ∷ []) ≡ false
    → (has a xs ≡ false) × ((a == p) ≡ false)
not-mem-append a p v xs o = ground (arith, has-append a xs ((p, v) ∷ []))

module _ (m : Memory) (q : Queue) (p : Ptr) (i : Item) (ne : p ≢ null)
    (held : m.cell p ≡ some i) where
  pub push_cells :
      (xs : Cells)
      → Represents m.cell q xs
      → has p xs ≡ false
      → (q' : Queue) × (g : Ptr → Option Item) × (push q p m ≡ some (q', with_cell m g))
        × Represents g q' (xs ++ (p, i.value) ∷ [])
        × SameOutside (xs ++ (p, i.value) ∷ []) m.cell g
  unfolding push
  push_cells [] r out =
      let s = set_prev_and_next_lem m p i ne held null null in
      (
        record { size = (q.size + 1) % word; head = p; tail = p },
        s.0,
        rw (r.tail, s.1),
        record {
          head = refl;
          tail = refl;
          linked = (s.2, ne, tt);
          distinct = (refl, tt);
          size = ground (arith, r.size);
        },
        λ a o. s.3 a (ground arith),
      )
  push_cells ((x, v) ∷ xs) r out =
      let end = last_or x xs in
      let t = set_next-last m null null p x v xs r.linked r.distinct in
      let s = set_prev_and_next_lem (with_cell m t.0) p i ne (t.3 p out ∙ held) end null in
      let solid : (end == null) ≡ false =
        ground (arith, last-ne-null m.cell null null x v xs r.linked) in
      let apart : (a : Ptr) → has a ((x, v) ∷ xs) ≡ true → (a == p) ≡ false =
        λ a j. apart_of_not_mem a p ((x, v) ∷ xs) j out in
      (
        record q { size = incr q.size; tail = p },
        s.0,
        rw (r.tail, solid, t.1, s.1),
        record {
          head = r.head;
          tail = sym (last_or-append null ((x, v) ∷ xs) ((p, i.value) ∷ []));
          linked =
              IsLinked-join s.0 null null ((x, v) ∷ xs) ((p, i.value) ∷ [])
                (frame t.0 s.0 null p ((x, v) ∷ xs) t.2 (λ a j. s.3 a (apart a j))) (s.2, ne, tt);
          distinct =
              IsDistinct-join ((x, v) ∷ xs) ((p, i.value) ∷ []) r.distinct (refl, tt)
                (λ a j. ground (arith, apart a j));
          size = omega (arith, r.size, length-append {0} xs ((p, i.value) ∷ []));
        },
        λ a o.
            let (other, new) = not-mem-append a p i.value ((x, v) ∷ xs) o in
            s.3 a new ∙ t.3 a other,
      )

  -- `unshift` relinks as `push` does, at the other end, but leaves the stored size as it was.
  pub unshift_cells :
      (xs : Cells)
      → Represents m.cell q xs
      → has p xs ≡ false
      → (q' : Queue) × (g : Ptr → Option Item) × (unshift q p m ≡ some (q', with_cell m g))
        × (q'.size ≡ q.size)
        × Represents g (record q' { size = incr q'.size }) ((p, i.value) ∷ xs)
        × SameOutside ((p, i.value) ∷ xs) m.cell g
  unfolding unshift
  unshift_cells [] r out =
      let s = set_prev_and_next_lem m p i ne held null null in
      (
        record q { head = p; tail = p },
        s.0,
        rw (r.head, s.1),
        refl,
        record {
          head = refl;
          tail = refl;
          linked = (s.2, ne, tt);
          distinct = (refl, tt);
          size = ground (arith, r.size);
        },
        λ a o. s.3 a (ground arith),
      )
  unshift_cells ((x, v) ∷ xs) r out =
      let t = set_prev-first m null null p x v xs r.linked r.distinct in
      let s = set_prev_and_next_lem (with_cell m t.0) p i ne (t.3 p out ∙ held) null x in
      let solid : (x == null) ≡ false = ground (arith, r.linked.1) in
      let apart : (a : Ptr) → has a ((x, v) ∷ xs) ≡ true → (a == p) ≡ false =
        λ a j. apart_of_not_mem a p ((x, v) ∷ xs) j out in
      (
        record q { head = p },
        s.0,
        rw (r.head, solid, t.1, s.1),
        refl,
        record {
          head = refl;
          tail = r.tail;
          linked = (s.2, ne, frame t.0 s.0 p null ((x, v) ∷ xs) t.2 (λ a j. s.3 a (apart a j)));
          distinct = (out, r.distinct);
          size = omega (arith, r.size);
        },
        λ a o. ground (arith, s.3 a, t.3 a),
      )

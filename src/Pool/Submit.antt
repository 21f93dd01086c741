-- ===== src/Pool/Submit.antt =====
-- What `Pool::submit` does with a pool whose workers stand at 0, ..., n - 1.
use pthreads.Base.{
  ℕ, suc, ◌+◌, ◌≤◌, ◌<◌, ◌≡◌, ◌⊎◌, refl, sym, ap, ◌∙◌, true, false, Option, none, some, List, ◌∷◌,
  arith, ◌==◌, ltb, leb, if◌then◌else◌, is_some, decr, word, Bool-cases, Option-cases, inl, inr,
}
use pthreads.Base.Int.{pos}
use pthreads.Zend.Key.{index, same_key, same_key-eq, same_key_refl}
use pthreads.Zend.Hash.{HashApi, find-update, num_elements-update, num_elements-empty, find-empty}
use pthreads.Pool.{
  construct, start, Pool, Call, Outcome, stack, ok, ge, wrap, submit, select, spawn, hand_to,
  create, Creation, array_or_new, resize,
}
use pthreads.Pool.Resize.{IsContiguous, worker_at, resize_gap_hangs}

decr-suc : (n : ℕ) → n < word → decr (suc n) ≡ n
decr-suc n h = omega arith

module _ (H : HashApi ℕ) where
  empty-IsContiguous : IsContiguous H 0 H.empty
  empty-IsContiguous = record {
    small = omega arith;
    count = num_elements-empty H;
    present = λ i. rw (find-empty H (index i)) (ground arith);
  }

  -- At most `s` workers, and the next index is one of theirs, the next free one, or past the size.
  pub record IsFilled (s n : ℕ) (p : Pool H) : Type 0 where
    pub size : p.size ≡ pos s
    pub room : n ≤ s
    pub filled : IsContiguous H n (array_or_new H p.workers)
    pub next_index : (p.last ≤ n) ⊎ (s ≤ p.last)

  -- A worker that is put at the next free index, or at one that is taken.
  update-IsContiguous :
      (n i w : ℕ) (t : H.Table)
      → IsContiguous H n t
      → i ≤ n
      → suc n < word
      → IsContiguous H (if i == n then suc n else n) (H.update t (index i) w)
  update-IsContiguous n i w t c h bound = record {
    small = ground (arith, c.small);
    count = num_elements-update H t (index i) w ∙ rw (c.present i, c.count) (ground arith);
    present = λ j. rw (find-update H t (index i) (index j) w) (after j (c.present j));
  }
    where
      after :
          (j : ℕ)
          → is_some (worker_at H t j) ≡ ltb j n
          → is_some (if i == j then some w else worker_at H t j)
            ≡ ltb j (if i == n then suc n else n)
      after j e = ground arith

  -- The index that `submit` uses.
  abbrev pub turn : ℕ → ℕ → ℕ
  turn s last = if leb s last then 0 else last

  abbrev pub workers_of : Pool H → H.Table
  workers_of p = array_or_new H p.workers

  -- The worker that a task goes to, where `found` stands at the index.
  abbrev pub worker_for : Creation → (found : Option ℕ) → ℕ
  worker_for c none = c.object
  worker_for c (some w) = w

  abbrev pub constructed : Creation → (class : ℕ) → List Call → List Call
  constructed c class calls = if c.has_constructor then construct class c.object ∷ calls else calls

  -- The calls before the task is stacked: a missing worker is constructed and then started.
  abbrev pub calls_before : Creation → (class : ℕ) → (found : Option ℕ) → List Call → List Call
  calls_before c class none calls = start c.object ∷ constructed c class calls
  calls_before c class (some w) calls = calls

  pub record Submitted (c : Creation) (p : Pool H) (task s n class : ℕ) : Type 0 where
    pub pool : Pool H
    pub ran : submit H c p task ≡ (pool, ok (turn s p.last))
    pub in_range : turn s p.last < s
    pub selected :
        worker_at H (workers_of pool) (turn s p.last)
        ≡ some (worker_for c (worker_at H (workers_of p) (turn s p.last)))
    pub called :
        pool.calls
        ≡ stack (worker_for c (worker_at H (workers_of p) (turn s p.last))) task
          ∷ calls_before c class (worker_at H (workers_of p) (turn s p.last)) p.calls
    pub next_turn : pool.last ≡ turn s p.last + 1
    pub kept :
        (i v : ℕ) → worker_at H (workers_of p) i ≡ some v → worker_at H (workers_of pool) i ≡ some v
    pub filled : IsFilled s (if turn s p.last == n then suc n else n) pool

  abbrev chosen : Creation → ℕ → Pool H → Pool H × Outcome ℕ
  chosen c task q = select H c q (workers_of q) task (worker_at H (workers_of q) q.last)

  submit-wrap :
      (c : Creation) (p : Pool H) (task : ℕ) → submit H c p task ≡ chosen c task (wrap H p)
  unfolding submit
  submit-wrap c p task = refl

  wrap_at :
      (p : Pool H) (l : ℕ)
      → (if ge p.last p.size then 0 else p.last) ≡ l
      → wrap H p ≡ record p { workers = some (workers_of p); last = l }
  unfolding wrap
  wrap_at p l e = ap at e
    where
      at : ℕ → Pool H
      at i = record p { workers = some (workers_of p); last = i }

  module _ (c : Creation) (p : Pool H) (task s n class entry : ℕ) (f : IsFilled s n p)
      (some_room : 0 < s) (bound : suc s < word) (named : p.class ≡ some class)
      (found : c.lookup_class class ≡ some entry) where
    turn_bounds : (turn s p.last < s) × (turn s p.last ≤ n)
    turn_bounds = ground (arith, f.next_index)

    abbrev wrapped : Pool H
    wrapped = record p { workers = some (workers_of p); last = turn s p.last }

    submit-wrapped :
        submit H c p task
        ≡ select H c wrapped (workers_of p) task (worker_at H (workers_of p) (turn s p.last))
    submit-wrapped = submit-wrap c p task ∙ ap (chosen c task) wrap_eq
      where
        wrap_eq : wrap H p ≡ wrapped
        wrap_eq = wrap_at p (turn s p.last) (rw f.size refl)

    spawn_made :
        spawn H c wrapped (workers_of p) task (some class)
        ≡ hand_to H (create H c wrapped (workers_of p) entry) c.object task
    unfolding spawn
    spawn_made = rw (found, spawn) refl

    other :
        (i v : ℕ)
        → worker_at H (workers_of p) (turn s p.last) ≡ none
        → worker_at H (workers_of p) i ≡ some v
        → same_key (index (turn s p.last)) (index i) ≡ false
    other i v missing e = elim (Bool-cases (same_key (index (turn s p.last)) (index i))) [
      | inr no_match ↦ no_match
      | inl same ↦
          let q = same_key-eq (index (turn s p.last)) (index i) same in
          let e' : H.find (workers_of p) (index (turn s p.last)) ≡ some v = rw q e in
          absurd (ground (arith, missing, e'))
    ]

    -- For a filled pool of a size from 1 up to below 2 ^ 64 - 1, with a class that is found: a task
    -- goes to the worker whose turn it is, in a round over the size of the pool. A worker that
    -- is not there yet is made at that index: its constructor, if it has one, and then `start` are
    -- called once each before the task is stacked, and nothing else is called. The others stay, there
    -- are never more workers than the size, and the workers still stand at 0, ..., n - 1.
    pub submit-Submitted : Submitted c p task s n entry
    unfolding hand_to create select
    submit-Submitted = elim (Option-cases (worker_at H (workers_of p) (turn s p.last))) [
      | inl missing ↦
          let free : ltb (turn s p.last) n ≡ false =
            sym (f.filled.present (turn s p.last)) ∙ rw missing refl in
          let made = create H c wrapped (workers_of p) entry in
          let new : (turn s p.last == n) ≡ true = ground (arith, turn_bounds.1) in
          let t' = H.update (workers_of p) (index (turn s p.last)) c.object in
          record {
            pool = record made {
              last = turn s p.last + 1;
              calls = stack c.object task ∷ made.calls;
            };
            ran =
                submit-wrapped
                ∙ rw (missing, select)
                    (ap (λ (o : Option ℕ). spawn H c wrapped (workers_of p) task o) named
                      ∙ spawn_made);
            in_range = turn_bounds.0;
            selected =
                find-update H (workers_of p) (index (turn s p.last)) (index (turn s p.last))
                  c.object
                ∙ rw (same_key_refl (index (turn s p.last)), missing) refl;
            called = rw missing refl;
            next_turn = refl;
            kept = λ i v e.
                find-update H (workers_of p) (index (turn s p.last)) (index i) c.object
                ∙ rw (other i v missing e) e;
            filled = record {
              size = f.size;
              room = rw new (ground (arith, turn_bounds.0));
              filled =
                  update-IsContiguous n (turn s p.last) c.object (workers_of p) f.filled
                    turn_bounds.1 (omega (arith, f.room, bound));
              next_index = rw new (inl (ground arith));
            };
          }
      | inr (w, there) ↦
          let taken : ltb (turn s p.last) n ≡ true =
            sym (f.filled.present (turn s p.last)) ∙ rw there refl in
          let inside : (turn s p.last == n) ≡ false = ground arith in
          record {
            pool = record p {
              workers = some (workers_of p);
              last = turn s p.last + 1;
              calls = stack w task ∷ p.calls;
            };
            ran = submit-wrapped ∙ rw (there, select, hand_to) refl;
            in_range = turn_bounds.0;
            selected = rw there refl;
            called = rw there refl;
            next_turn = refl;
            kept = λ i v e. e;
            filled = rw inside (record {
              size = f.size;
              room = f.room;
              filled = f.filled;
              next_index = inl (ground arith);
            });
          }
    ]

  absent : (n i : ℕ) (t : H.Table) → IsContiguous H n t → n ≤ i → worker_at H t i ≡ none
  absent n i t f h = none_of (worker_at H t i) (f.present i ∙ ground arith)
    where
      none_of : (o : Option ℕ) → is_some o ≡ false → o ≡ none
      none_of none e = refl
      none_of (some w) e = cc

  chosen_new :
      (c : Creation) (q : Pool H) (task class entry : ℕ)
      → worker_at H (workers_of q) q.last ≡ none
      → q.class ≡ some class
      → c.lookup_class class ≡ some entry
      → (chosen c task q).0.workers ≡ some (H.update (workers_of q) (index q.last) c.object)
  unfolding select
  chosen_new c q task class entry missing named found =
      rw (missing, select)
        (ap (λ (o : Option ℕ). (spawn H c q (workers_of q) task o).0.workers) named ∙ spawned)
    where
      spawned :
          (spawn H c q (workers_of q) task (some class)).0.workers
          ≡ some (H.update (workers_of q) (index q.last) c.object)
      spawned = rw (found, spawn, hand_to, create) refl

  -- A pool that has lost its last workers, so that the next index lies behind the first free one,
  -- and has room again: the worker that `submit` makes leaves a gap, after which every `resize` to
  -- fewer workers runs for ever.
  pub submit_then_resize_hangs :
      (c : Creation) (p : Pool H) (t : H.Table) (task n class entry fuel k : ℕ)
      → p.workers ≡ some t
      → IsContiguous H n t
      → n < p.last
      → ge p.last p.size ≡ false
      → p.class ≡ some class
      → c.lookup_class class ≡ some entry
      → k ≤ n
      → resize H fuel (submit H c p task).0 (pos k) ≡ none
  submit_then_resize_hangs c p t task n class entry fuel k e f h room named found le =
      let t' = H.update t (index p.last) c.object in
      let off : (p.last == n) ≡ false = ground arith in
      let missing = absent n p.last t f (omega arith) in
      let q = wrap_at p p.last (rw room refl) in
      let got : (submit H c p task).0.workers ≡ some t' =
        ap (λ (x : Pool H × Outcome ℕ). x.0.workers) (submit-wrap c p task ∙ ap (chosen c task) q)
        ∙ chosen_new c _ task class entry (rw e missing) named found
        ∙ (rw e refl) in
      let count : H.num_elements t' ≡ suc n =
        num_elements-update H t (index p.last) c.object ∙ rw (missing, f.count) refl in
      let gap : worker_at H t' (decr (H.num_elements t')) ≡ none =
        rw (count, decr-suc n f.small)
          (find-update H t (index p.last) (index n) c.object
            ∙ rw off (absent n n t f (omega arith))) in
      resize_gap_hangs H fuel k _ t' got gap (omega (arith, count))

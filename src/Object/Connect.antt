-- ===== src/Object/Connect.antt =====
-- The making and the connecting of objects in src/object.c keep the counts right.
use pthreads.Base.{
  ℕ, ◌+◌, ◌≡◌, ◌≢◌, refl, ap, sym, ◌∙◌, true, none, some, arith, ◌==◌, if◌then◌else◌, one_if,
  Bool-cases, inl, inr, ==_iff, ==_ne,
}
use pthreads.Zend.Key.{index, same_key_refl}
use pthreads.Zend.Hash.{HashApi, find-update}
use pthreads.Object.{
  ZendObject, World, Fresh, object_at, construct, base_ctor, ts_object_ctor, object_alloc,
  connect_nolock, zeroed,
}
use pthreads.Object.Counts.{refcount_at, refs_to, refs_to-update, refs_to-object}
use pthreads.Object.Release.{IsCountable, Released, release_lem, Attached, attach_lem, connected}

module _ (H : HashApi ZendObject) (R : HashApi ℕ) where
  -- The count of a thread-safe object is the number of registered objects that refer to it, and it
  -- is in memory as long as there is one.
  pub record IsCounted (w : World H R) : Type 0 where
    pub counted : (a : ℕ) → refcount_at H R w a ≡ refs_to H R w a
    pub countable : IsCountable w.ts_objects
    pub null_object : object_at H R w 0 ≡ none

  -- Addresses that the allocator may answer.
  pub record IsFresh (w : World H R) (f : Fresh) : Type 0 where
    pub object_ne : f.object ≢ 0
    pub ts_ne : f.ts ≢ 0
    pub new_object : object_at H R w f.object ≡ none
    pub new_ts : w.ts_objects f.ts ≡ none

  module _ (w : World H R) (f : Fresh) (thread : ℕ) (fresh : IsFresh w f) where
    abbrev allocated : World H R
    allocated = record w { objects = H.update w.objects (index f.object) zeroed }

    pub construct-object :
        (b : ℕ)
        → object_at H R (construct H R thread f w) b
          ≡ (if f.object == b then some (base_ctor thread f.kind f.ts) else object_at H R w b)
    unfolding construct object_alloc
    construct-object b =
        rw
          (
            find-update H allocated.objects (index f.object) (index b)
                (base_ctor thread f.kind f.ts),
            find-update H w.objects (index f.object) (index b) zeroed,
          )
          (ground arith)

    construct-refs :
        (a : ℕ) → refs_to H R (construct H R thread f w) a ≡ refs_to H R w a + one_if f.ts a
    unfolding construct object_alloc base_ctor
    construct-refs a =
        let first = refs_to-update H R w a f.object zeroed in
        let second = refs_to-update H R allocated a f.object (base_ctor thread f.kind f.ts) in
        let z : object_at H R allocated f.object ≡ some zeroed =
          find-update H w.objects (index f.object) (index f.object) zeroed
          ∙ rw (same_key_refl (index f.object)) refl in
        let one = (rw fresh.new_object at first) in
        let two = (rw z at second) in omega (arith, one, two)

    construct-IsCountable :
        IsCountable w.ts_objects → IsCountable (construct H R thread f w).ts_objects
    unfolding construct object_alloc ts_object_ctor
    construct-IsCountable c = record {
      alive = λ a e. ground (arith, c.alive a);
      null = rw (==_ne fresh.ts_ne) c.null;
    }

    construct-refcount :
        (a : ℕ) → refcount_at H R (construct H R thread f w) a ≡ refcount_at H R w a + one_if f.ts a
    unfolding construct object_alloc ts_object_ctor
    construct-refcount a = elim (Bool-cases (f.ts == a)) [
      | inr n ↦ rw n (omega arith)
      | inl e ↦
          let here : w.ts_objects a ≡ none =
            ap w.ts_objects (sym ((==_iff f.ts a).0 e)) ∙ fresh.new_ts in
          rw (e, here) refl
    ]

    pub construct-IsCounted : IsCounted w → IsCounted (construct H R thread f w)
    construct-IsCounted i = record {
      counted = λ a. omega (arith, construct-refs a, construct-refcount a, i.counted a);
      countable = construct-IsCountable i.countable;
      null_object = construct-object 0 ∙ rw (==_ne fresh.object_ne) i.null_object;
    }

  module _ (w : World H R) (source b : ℕ) (s d : ZendObject) where
    -- What a connection of the object at `b` to the one at `source` leaves.
    pub record Connected (w2 : World H R) : Type 0 where
      pub kept : IsCounted w2
      pub same_resolve : w2.resolve ≡ w.resolve
      pub objects_after :
          (j : ℕ)
          → object_at H R w2 j ≡ (if b == j then some (connected s source d) else object_at H R w j)

    connected-Connected :
        (w1 w2 : World H R)
        → IsCounted w
        → object_at H R w b ≡ some d
        → b ≢ 0
        → Released H R w d.ts_obj w1
        → Attached H R w1 s b (connected s source d) w2
        → Connected w2
    connected-Connected w1 w2 i at_d ne l m = record {
      kept = record {
        counted = λ a. omega (arith, made a, m.raised a, l.lowered a, i.counted a);
        countable = m.countable;
        null_object = after 0 ∙ rw (==_ne ne) i.null_object;
      };
      same_resolve = m.same_resolve ∙ l.same_resolve;
      objects_after = after;
    }
      where
        after :
            (j : ℕ)
            → object_at H R w2 j
              ≡ (if b == j then some (connected s source d) else object_at H R w j)
        after j =
            rw (m.new_objects, l.same_objects)
              (find-update H w.objects (index b) (index j) (connected s source d))

        made : (a : ℕ) → refs_to H R w2 a + one_if d.ts_obj a ≡ refs_to H R w a + one_if s.ts_obj a
        made a =
            rw (m.new_objects, l.same_objects)
              (rw at_d at (refs_to-update H R w a b (connected s source d)))

    still_held :
        (w1 : World H R)
        → IsCounted w
        → object_at H R w source ≡ some s
        → d.ts_obj ≢ s.ts_obj
        → Released H R w d.ts_obj w1
        → refcount_at H R w1 s.ts_obj ≢ 0
    still_held w1 i at_s ne l e =
        let p = (rw (==_ne ne) at (l.lowered s.ts_obj)) in
        refs_to-object H R w source s at_s (omega (arith, i.counted s.ts_obj, p, e))

    pub connect_lem :
        IsCounted w
        → object_at H R w source ≡ some s
        → object_at H R w b ≡ some d
        → d.ts_obj ≢ 0
        → d.ts_obj ≢ s.ts_obj
        → (w2 : World H R) × (connect_nolock H R source b w ≡ some (w2, true)) × Connected w2
    unfolding connect_nolock
    connect_lem i at_s at_d ne_null ne =
        let source_ne : source ≢ 0 = λ e. cc (i.null_object, ap (object_at H R w) e, at_s) in
        let b_ne : b ≢ 0 = λ e. cc (i.null_object, ap (object_at H R w) e, at_d) in
        let held : refcount_at H R w d.ts_obj ≢ 0 =
          λ e. refs_to-object H R w b d at_d (sym (i.counted d.ts_obj) ∙ e) in
        let (w1, ran, l) = release_lem H R w d.ts_obj i.countable held in
        let (w2, ran2, m) =
          attach_lem H R w1 s source b d l.countable (still_held w1 i at_s ne l) in
        (
          w2,
          rw (==_ne source_ne, ==_ne b_ne, at_s, at_d, ==_ne ne_null, ran, ran2) refl,
          connected-Connected w1 w2 i at_d b_ne l m,
        )

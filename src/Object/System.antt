-- ===== src/Object/System.antt =====
-- The objects of src/object.c as the threads of a process make, connect and free them. Connecting and
-- freeing hold the lock of the registry. Making an object does so only while it is registered, before
-- it is filled: the worlds here are those in which no object is being made.
use pthreads.Base.{
  ℕ, ◌≡◌, ◌≢◌, refl, ap, subst, sym, ==_ne, ==_refl, ◌∙◌, true, false, Option, none, some, ◌==◌,
  ◌↔◌, Option-cases, inl, inr, some_injective,
}
use pthreads.Zend.Key.{index, same_key_refl}
use pthreads.Zend.Hash.{HashApi, find-empty, find-update}
use pthreads.Object.{
  ZendObject, World, Fresh, object_at, construct, object_connect, connect_nolock, base_free,
  object_alloc, object_valid, zeroed, new_connection, base_ctor, ts_object_ctor, release, attach,
}
use pthreads.Object.Counts.{refcount_of, refs_to, refs_to-object}
use pthreads.Object.Connect.{IsFresh, construct-object}
use pthreads.Object.Resolve.{IsSound, construct-IsSound, join_lem}
use pthreads.Object.Answer.{connect-answers, valid-none}
use pthreads.Object.Free.{Freed, free_lem}

module _ (H : HashApi ZendObject) (R : HashApi ℕ) where
  -- `creates` registers and fills an object. `attaches` is the start of a thread or of a worker's task, for which the thread makes an object of
  -- its own and connects it to that of the creator.
  pub data Step (w w2 : World H R) : Type 0 where
    creates : (thread : ℕ) (f : Fresh) → IsFresh H R w f → w2 ≡ construct H R thread f w → Step w w2
    receives :
        (thread address : ℕ) (f : Fresh) (r : Option ℕ)
        → IsFresh H R w f
        → object_connect H R thread address f w ≡ some (w2, r)
        → Step w w2
    attaches :
        (thread source : ℕ) (f : Fresh) (s : ZendObject)
        → IsFresh H R w f
        → object_at H R w source ≡ some s
        → connect_nolock H R source f.object (construct H R thread f w) ≡ some (w2, true)
        → Step w w2
    frees :
        (b : ℕ) (o : ZendObject)
        → object_at H R w b ≡ some o
        → base_free H R o.owner b w ≡ some w2
        → Step w w2

  abbrev pub start : World H R
  start = record { ts_objects = λ a. none; objects = H.empty; resolve = λ thread. R.empty }

  pub data Reach : World H R → Type 0 where
    here : Reach start
    next : {w w2 : World H R} → Reach w → Step w w2 → Reach w2

  start-IsSound : IsSound H R start
  start-IsSound = record {
    counts = record {
      counted = λ a. rw H.entries_empty refl;
      countable = record { alive = λ a e. refl; null = refl };
      null_object = find-empty H (index 0);
    };
    resolved = λ thread a c h. absurd (let n = find-empty R (index a) in cc (n, h));
  }

  connect-none :
      (w : World H R) (thread address : ℕ) (f : Fresh)
      → object_at H R w address ≡ none
      → object_connect H R thread address f w ≡ some (w, none)
  unfolding object_connect
  connect-none w thread address f h = rw (valid-none H R w address h) refl

  pair-first :
      {A : Type 0} {p q : World H R × A} → some p ≡ some q → IsSound H R p.0 → IsSound H R q.0
  pair-first e i = subst (IsSound H R) (ap (λ r. r.0) (some_injective e)) i

  Step-IsSound : (w w2 : World H R) → IsSound H R w → Step w w2 → IsSound H R w2
  Step-IsSound w w2 i (creates thread f fresh e) = rw e (construct-IsSound H R w f thread fresh i)
  Step-IsSound w w2 i (receives thread address f r fresh e) =
      elim (Option-cases (object_at H R w address)) [
        | inl gone ↦ pair-first (sym (connect-none w thread address f gone) ∙ e) i
        | inr (p, at_p) ↦
            let (w3, c, ran, sound, answer, again) =
              connect-answers H R w thread address p f i at_p fresh in
            pair-first (sym ran ∙ e) sound
      ]
  Step-IsSound w w2 i (attaches thread source f s fresh at_s e) =
      let (w3, j) = join_lem H R w f thread fresh source s i at_s in
      pair-first (sym j.ran ∙ e) j.sound
  Step-IsSound w w2 i (frees b o at_b e) =
      let (w3, ran, freed) = free_lem H R w b o at_b i in
      subst (IsSound H R) (some_injective (sym ran ∙ e)) freed.sound

  -- In every world that the threads reach by making, connecting and freeing objects, each
  -- thread-safe object's count is the number of registered objects that refer to it, none is in
  -- memory with the count 0, and what a thread's table `resolve` names under a thread-safe object is
  -- a registered object of the thread that refers to it.
  pub Reach-IsSound : (w : World H R) → Reach w → IsSound H R w
  Reach-IsSound w here = start-IsSound
  Reach-IsSound w (next {w = v} r s) = Step-IsSound v w (Reach-IsSound v r) s

  -- In every such world, a registered object is freed without a fault: it is registered no more, all
  -- others are as they were, the counts and tables stay right, and its thread-safe object is gone
  -- from memory exactly when no registered object refers to it.
  pub Reach-free :
      (w : World H R) (b : ℕ) (o : ZendObject)
      → Reach w
      → (at_b : object_at H R w b ≡ some o)
      → (w2 : World H R) × (base_free H R o.owner b w ≡ some w2)
        × Freed H R w b o at_b w2
        × ((w2.ts_objects o.ts_obj ≡ none) ↔ (refs_to H R w2 o.ts_obj ≡ 0))
  Reach-free w b o r at_b =
      let (w2, ran, freed) = free_lem H R w b o at_b (Reach-IsSound w r) in
      let c = freed.sound.counts in
      (
        w2,
        ran,
        freed,
        (
          λ e. sym (c.counted o.ts_obj) ∙ ap refcount_of e,
          λ e. c.countable.alive o.ts_obj (c.counted o.ts_obj ∙ e),
        ),
      )

  -- No thread's table names anything under NULL.
  unresolved :
      (w : World H R) (thread : ℕ) → IsSound H R w → R.find (w.resolve thread) (index 0) ≡ none
  unresolved w thread i = elim (Option-cases (R.find (w.resolve thread) (index 0))) [
    | inl nothing ↦ nothing
    | inr (c, known) ↦
        let at_c = i.resolved thread 0 c known in
        absurd (
          refs_to-object H R w c at_c.object at_c.found (
            ap (refs_to H R w) at_c.same_ts
            ∙ sym (i.counts.counted 0)
            ∙ ap refcount_of i.counts.countable.null))
  ]

  made_ts :
      (w : World H R) (thread : ℕ) (g : Fresh)
      → w.ts_objects 0 ≡ none
      → IsFresh H R w g
      → ((construct H R thread g w).ts_objects g.ts ≡ some (ts_object_ctor thread g.kind))
        × ((construct H R thread g w).ts_objects 0 ≡ none)
  unfolding construct object_alloc
  made_ts w thread g null fresh = (rw (==_refl g.ts) refl, rw (==_ne fresh.ts_ne) null)

  -- A connection to an object that refers to nothing.
  early_connection :
      (w : World H R) (thread a : ℕ) (g : Fresh)
      → w.ts_objects 0 ≡ none
      → a ≢ 0
      → object_at H R w a ≡ some zeroed
      → IsFresh H R w g
      → new_connection H R thread a zeroed g w ≡ none
  unfolding new_connection connect_nolock release attach base_ctor ts_object_ctor
  early_connection w thread a g null ne at_a fresh =
      let made = construct H R thread g w in
      let apart : g.object ≢ a = λ e. cc (fresh.new_object, ap (object_at H R w) e, at_a) in
      let source : object_at H R made a ≡ some zeroed =
        construct-object H R w g thread fresh a ∙ rw (==_ne apart) at_a in
      let own : object_at H R made g.object ≡ some (base_ctor thread g.kind g.ts) =
        construct-object H R w g thread fresh g.object ∙ rw (==_refl g.object) refl in
      let (at_ts, still_null) = made_ts w thread g null fresh in
      rw (==_ne ne, ==_ne fresh.object_ne, source, own, ==_ne fresh.ts_ne, at_ts, still_null)
        (let ts_apart : (g.ts == 0) ≡ false = ==_ne fresh.ts_ne in rw ts_apart refl)

  -- While an object is made: it is registered, and the lock given back, before it is filled. In every such
  -- world, a thread that is given the address of an object that was just registered and connects to it
  -- reads through the NULL of its thread-safe object, which is a fault. The addresses that the allocator
  -- answers are fresh.
  pub registered_early_faults :
      (w : World H R) (thread : ℕ) (f g : Fresh)
      → Reach w
      → thread ≢ 0
      → IsFresh H R w f
      → IsFresh H R (object_alloc H R f.object w) g
      → object_connect H R thread f.object g (object_alloc H R f.object w) ≡ none
  unfolding object_connect object_alloc object_valid
  registered_early_faults w thread f g r running fresh fresh2 =
      let i = Reach-IsSound w r in
      let at_f = find-update H w.objects (index f.object) (index f.object) zeroed in
      rw
        (
          ==_ne fresh.object_ne,
          at_f,
          same_key_refl (index f.object),
          ==_ne (λ e. running (sym e)),
          unresolved w thread i,
        )
        (early_connection (object_alloc H R f.object w) thread f.object g i.counts.countable.null
          fresh.object_ne (at_f ∙ rw (same_key_refl (index f.object)) refl) fresh2)

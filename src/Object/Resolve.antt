-- ===== src/Object/Resolve.antt =====
-- The tables `resolve` of src/object.c: each names the connections of its thread, by the thread-safe
-- objects that they refer to.
use pthreads.Base.{ℕ, ◌≡◌, ◌≢◌, refl, ap, sym, ◌∙◌, true, some, ==_ne, ==_refl}
use pthreads.Zend.Key.{index}
use pthreads.Zend.Hash.{HashApi}
use pthreads.Object.{
  ZendObject, World, Fresh, object_at, construct, base_ctor, object_alloc, connect_nolock,
}
use pthreads.Object.Counts.{refcount_of, refs_to-object}
use pthreads.Object.Release.{connected}
use pthreads.Object.Connect.{IsCounted, IsFresh, construct-object, construct-IsCounted, connect_lem}

module _ (H : HashApi ZendObject) (R : HashApi ℕ) where
  -- What a thread's table names is an object of the thread, under the thread-safe object to which it
  -- refers.
  pub record IsConnection (w : World H R) (thread a c : ℕ) : Type 0 where
    pub object : ZendObject
    pub found : object_at H R w c ≡ some object
    pub owned : object.owner ≡ thread
    pub same_ts : object.ts_obj ≡ a

  abbrev pub IsResolved : World H R → Type 0
  IsResolved w =
      (thread a c : ℕ) → R.find (w.resolve thread) (index a) ≡ some c → IsConnection w thread a c

  pub record IsSound (w : World H R) : Type 0 where
    pub counts : IsCounted H R w
    pub resolved : IsResolved w

  abbrev pub IsKept : World H R → World H R → Type 0
  IsKept w w2 = (j : ℕ) (o : ZendObject) → object_at H R w j ≡ some o → object_at H R w2 j ≡ some o

  kept-IsResolved :
      (w w2 : World H R) → IsResolved w → w2.resolve ≡ w.resolve → IsKept w w2 → IsResolved w2
  kept-IsResolved w w2 r same kept thread a c h =
      let old = r thread a c (ap (λ t. R.find (t thread) (index a)) (sym same) ∙ h) in
      record {
        object = old.object;
        found = kept c old.object old.found;
        owned = old.owned;
        same_ts = old.same_ts;
      }

  module _ (w : World H R) (f : Fresh) (thread : ℕ) (fresh : IsFresh H R w f) where
    fresh-IsKept :
        (w2 : World H R)
        → ((j : ℕ) → f.object ≢ j → object_at H R w2 j ≡ object_at H R w j)
        → IsKept w w2
    fresh-IsKept w2 same j o h = same j (λ e. cc (fresh.new_object, ap (object_at H R w) e, h)) ∙ h

    construct-others :
        (j : ℕ) → f.object ≢ j → object_at H R (construct H R thread f w) j ≡ object_at H R w j
    construct-others j ne = construct-object H R w f thread fresh j ∙ rw (==_ne ne) refl

    pub construct-IsSound : IsSound w → IsSound (construct H R thread f w)
    unfolding construct object_alloc
    construct-IsSound i = record {
      counts = construct-IsCounted H R w f thread fresh i.counts;
      resolved =
          kept-IsResolved w (construct H R thread f w) i.resolved refl
            (fresh-IsKept (construct H R thread f w) construct-others);
    }

    abbrev pub new_object : ZendObject
    new_object = base_ctor thread f.kind f.ts

    -- The world after the new object is connected to the one at `source`.
    pub record Joined (source : ℕ) (s : ZendObject) (w2 : World H R) : Type 0 where
      pub ran : connect_nolock H R source f.object (construct H R thread f w) ≡ some (w2, true)
      pub sound : IsSound w2
      pub joined : object_at H R w2 f.object ≡ some (connected s source new_object)
      pub others : (j : ℕ) → f.object ≢ j → object_at H R w2 j ≡ object_at H R w j
      pub same_resolve : w2.resolve ≡ w.resolve

    pub join_lem :
        (source : ℕ) (s : ZendObject)
        → IsSound w
        → object_at H R w source ≡ some s
        → (w2 : World H R) × Joined source s w2
    unfolding construct object_alloc base_ctor
    join_lem source s i at_s =
        let made = construct H R thread f w in
        let ts_ne : f.ts ≢ s.ts_obj = λ e. refs_to-object H R w source s at_s (
          sym (i.counts.counted s.ts_obj)
          ∙ ap refcount_of (ap w.ts_objects (sym e) ∙ fresh.new_ts)) in
        let at_made : object_at H R made f.object ≡ some new_object =
          construct-object H R w f thread fresh f.object ∙ rw (==_refl f.object) refl in
        let s_made : object_at H R made source ≡ some s =
          fresh-IsKept made construct-others source s at_s in
        let (w2, ran, c) =
          connect_lem H R made source f.object s new_object
            (construct-IsCounted H R w f thread fresh i.counts) s_made at_made fresh.ts_ne ts_ne in
        let others : (j : ℕ) → f.object ≢ j → object_at H R w2 j ≡ object_at H R w j =
          λ j ne. c.objects_after j ∙ rw (==_ne ne) (construct-others j ne) in
        (
          w2,
          record {
            ran = ran;
            sound = record {
              counts = c.kept;
              resolved = kept-IsResolved w w2 i.resolved c.same_resolve (fresh-IsKept w2 others);
            };
            joined = c.objects_after f.object ∙ rw (==_refl f.object) refl;
            others = others;
            same_resolve = c.same_resolve;
          },
        )

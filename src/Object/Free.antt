-- ===== src/Object/Free.antt =====
-- `pthreads_base_free` in src/object.c, in a world whose counts are right.
use pthreads.Base.{
  ℕ, ◌+◌, ◌≡◌, ◌≢◌, refl, ap, sym, ◌∙◌, Bool, true, false, Option, none, some, arith, ◌==◌,
  if◌then◌else◌, one_if, Bool-cases, inl, inr, ==_iff, ==_ne, ==_refl, some_injective,
}
use pthreads.Zend.Key.{index}
use pthreads.Zend.Hash.{HashApi, find-del}
use pthreads.Object.{ZendObject, World, object_at, set_resolve, names, base_free, object_delete}
use pthreads.Object.Counts.{refs_to-object, refs_to-del, refs_to, refcount_at}
use pthreads.Object.Release.{IsCountable, Released, release_lem}
use pthreads.Object.Resolve.{IsConnection, IsResolved, IsSound}

if_none {ℓ} : {A : Type ℓ} (t : Bool) (m : Option A) → m ≡ none → (if t then none else m) ≡ none
if_none true m h = refl
if_none false m h = h

module _ (H : HashApi ZendObject) (R : HashApi ℕ) (w : World H R) (b : ℕ) (o : ZendObject) where
  -- The world once the thread's table does not name the object.
  abbrev forgotten : World H R
  forgotten =
      let known = w.resolve o.owner in
      if names (R.find known (index o.ts_obj)) b
      then set_resolve H R w o.owner (R.del known (index o.ts_obj))
      else w

  -- Only the entry of its own thread under its own thread-safe object names the object.
  module _ (at_b : object_at H R w b ≡ some o) where
    named : (x a c : ℕ) (k : IsConnection H R w x a c) → c ≡ b → (o.owner ≡ x) × (o.ts_obj ≡ a)
    named x a c k e =
        let same : k.object ≡ o = some_injective (sym k.found ∙ ap (object_at H R w) e ∙ at_b) in
        (ap ZendObject.owner (sym same) ∙ k.owned, ap ZendObject.ts_obj (sym same) ∙ k.same_ts)

    found_there :
        (x a c : ℕ) (k : IsConnection H R w x a c)
        → R.find (w.resolve x) (index a) ≡ some c
        → names (R.find (w.resolve o.owner) (index o.ts_obj)) b ≡ false
        → c ≢ b
    found_there x a c k h n e =
        let (p, q) = named x a c k e in
        let m : R.find (w.resolve o.owner) (index o.ts_obj) ≡ some b = rw (p, q) (h ∙ ap some e) in
        let gone : (b == b) ≡ false = (rw m at n) in cc (gone, ==_refl b)

    forgotten_lem :
        (x a c : ℕ)
        → IsResolved H R w
        → R.find (forgotten.resolve x) (index a) ≡ some c
        → IsConnection H R w x a c × (c ≢ b)
    forgotten_lem x a c r h =
        elim (Bool-cases (names (R.find (w.resolve o.owner) (index o.ts_obj)) b)) [
          | inr n ↦ let k = r x a c (rw n at h) in (k, found_there x a c k (rw n at h) n)
          | inl y ↦
              let g = (rw y at h) in
              elim (Bool-cases (o.owner == x)) [
                | inr other ↦
                    let k = r x a c (rw other at g) in
                    (k, λ e. cc (other, (==_iff o.owner x).1 (named x a c k e).0))
                | inl own ↦
                    let d =
                      (rw (own, find-del R (w.resolve o.owner) (index o.ts_obj) (index a)) at g) in
                    elim (Bool-cases (o.ts_obj == a)) [
                      | inl same ↦ absurd (let z = (rw same at d) in cc z)
                      | inr differs ↦
                          let found =
                            ap (λ y. R.find (w.resolve y) (index a))
                              (sym ((==_iff o.owner x).0 own))
                            ∙ (rw differs at d) in
                          let k : IsConnection H R w x a c = r x a c found in
                          (k, λ e. cc (differs, (==_iff o.ts_obj a).1 (named x a c k e).1))
                    ]
              ]
        ]

    forgotten-objects : forgotten.objects ≡ w.objects
    forgotten-objects = elim (Bool-cases (names (R.find (w.resolve o.owner) (index o.ts_obj)) b)) [
      | inl e ↦ rw e refl
      | inr n ↦ rw n refl
    ]

    forgotten-ts_objects : forgotten.ts_objects ≡ w.ts_objects
    forgotten-ts_objects =
        elim (Bool-cases (names (R.find (w.resolve o.owner) (index o.ts_obj)) b)) [
          | inl e ↦ rw e refl
          | inr n ↦ rw n refl
        ]

    -- What is left when the object is freed.
    pub record Freed (w2 : World H R) : Type 0 where
      pub sound : IsSound H R w2
      pub gone : object_at H R w2 b ≡ none
      pub others : (j : ℕ) → b ≢ j → object_at H R w2 j ≡ object_at H R w j

    del-Freed :
        (w2 : World H R)
        → IsSound H R w
        → Released H R forgotten o.ts_obj w2
        → Freed (record w2 { objects = H.del w2.objects (index b) })
    del-Freed w2 i l = record {
      sound = record {
        counts = record {
          counted = λ a. omega (arith, removed a, fewer a, i.counts.counted a);
          countable = l.countable;
          null_object = after 0 ∙ if_none (b == 0) (object_at H R w 0) i.counts.null_object;
        };
        resolved = λ x a c h. kept x a c h;
      };
      gone = after b ∙ rw (==_refl b) refl;
      others = λ j ne. after j ∙ rw (==_ne ne) refl;
    }
      where
        after :
            (j : ℕ)
            → H.find (H.del w2.objects (index b)) (index j)
              ≡ (if b == j then none else object_at H R w j)
        after j = rw (l.same_objects, forgotten-objects) (find-del H w.objects (index b) (index j))

        removed :
            (a : ℕ)
            → refs_to H R (record w2 { objects = H.del w2.objects (index b) }) a + one_if o.ts_obj a
              ≡ refs_to H R w a
        removed a = rw (l.same_objects, forgotten-objects) (rw at_b at (refs_to-del H R w a b))

        fewer : (a : ℕ) → refcount_at H R w2 a + one_if o.ts_obj a ≡ refcount_at H R w a
        fewer a = l.lowered a ∙ rw forgotten-ts_objects refl

        kept :
            (x a c : ℕ)
            → R.find (w2.resolve x) (index a) ≡ some c
            → IsConnection H R (record w2 { objects = H.del w2.objects (index b) }) x a c
        kept x a c h =
            let (k, ne) =
              forgotten_lem x a c i.resolved
                (ap (λ t. R.find (t x) (index a)) (sym l.same_resolve) ∙ h) in
            record {
              object = k.object;
              found = after c ∙ rw (==_ne (λ (e : b ≡ c). ne (sym e))) k.found;
              owned = k.owned;
              same_ts = k.same_ts;
            }

    pub free_lem :
        IsSound H R w → (w2 : World H R) × (base_free H R o.owner b w ≡ some w2) × Freed w2
    unfolding base_free object_delete
    free_lem i =
        let held : refcount_at H R forgotten o.ts_obj ≢ 0 = λ e.
          refs_to-object H R w b o at_b
            (sym (i.counts.counted o.ts_obj) ∙ (rw forgotten-ts_objects at e)) in
        let countable : IsCountable forgotten.ts_objects =
          rw forgotten-ts_objects i.counts.countable in
        let (w2, ran, l) = release_lem H R forgotten o.ts_obj countable held in
        let ne : b ≢ 0 = λ e. cc (i.counts.null_object, ap (object_at H R w) e, at_b) in
        (
          record w2 { objects = H.del w2.objects (index b) },
          rw (at_b, ran, ==_ne ne) refl,
          del-Freed w2 i l,
        )

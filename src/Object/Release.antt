-- ===== src/Object/Release.antt =====
-- What taking and giving up a reference in src/object.c do to the thread-safe objects in memory.
use pthreads.Base.{
  ℕ, zero, suc, ◌+◌, ◌≡◌, ◌≢◌, refl, ap, sym, ◌∙◌, true, false, Option, none, some, [], arith, ◌==◌,
  if◌then◌else◌, is_some, one_if, Bool-cases, Option-cases, inl, inr, ==_iff, ==_ne,
}
use pthreads.Zend.Key.{index}
use pthreads.Zend.Hash.{HashApi}
use pthreads.Object.{TsObject, ZendObject, World, set_at, one_less, release, attach}
use pthreads.Object.Counts.{refcount_of, refcount_at}

-- No thread-safe object is in memory with the count 0, and none is at NULL.
pub record IsCountable (m : ℕ → Option TsObject) : Type 0 where
  pub alive : (a : ℕ) → refcount_of (m a) ≡ 0 → m a ≡ none
  pub null : m 0 ≡ none

abbrev lowered : (ℕ → Option TsObject) → ℕ → TsObject → ℕ → Option TsObject
lowered m a t =
    let n = one_less t.refcount in
    set_at m a (if n == 0 then none else some (record t { refcount = n }))

abbrev raised : (ℕ → Option TsObject) → ℕ → TsObject → ℕ → Option TsObject
raised m a t = set_at m a (some (record t { refcount = suc t.refcount }))

refcount-kept :
    (t : TsObject) (n : ℕ)
    → refcount_of (if n == 0 then none else some (record t { refcount = n })) ≡ n
refcount-kept t zero = refl
refcount-kept t (suc n) = ground arith

suc-one_less : (n : ℕ) → n ≢ 0 → suc (one_less n) ≡ n
suc-one_less zero ne = absurd (ne refl)
suc-one_less (suc n) ne = refl

kept-none :
    (t : TsObject) (n : ℕ)
    → n ≡ 0
    → (if n == 0 then none else some (record t { refcount = n })) ≡ none
kept-none t n e = rw e refl

at-same : (a x : ℕ) → (a == x) ≡ true → a ≡ x
at-same a x e = (==_iff a x).0 e

module _ (m : ℕ → Option TsObject) (a : ℕ) (t : TsObject) (at_a : m a ≡ some t) where
  lowered-refcount :
      (x : ℕ) → t.refcount ≢ 0 → refcount_of (lowered m a t x) + one_if a x ≡ refcount_of (m x)
  lowered-refcount x ne = elim (Bool-cases (a == x)) [
    | inr n ↦ rw n (omega arith)
    | inl e ↦
        let here : m x ≡ some t = ap m (sym (at-same a x e)) ∙ at_a in
        rw (e, here, refcount-kept t (one_less t.refcount))
          (omega (arith, suc-one_less t.refcount ne))
  ]

  lowered-IsCountable : IsCountable m → IsCountable (lowered m a t)
  lowered-IsCountable c = record { alive = alive; null = rw (==_ne ne_null) c.null }
    where
      ne_null : a ≢ 0
      ne_null e = cc (c.null, ap m e, at_a)

      alive : (x : ℕ) → refcount_of (lowered m a t x) ≡ 0 → lowered m a t x ≡ none
      alive x h = elim (Bool-cases (a == x)) [
        | inr n ↦ rw n (c.alive x (rw n at h))
        | inl e ↦ rw e (
            kept-none t (one_less t.refcount)
              (sym (refcount-kept t (one_less t.refcount)) ∙ (rw e at h)))
      ]

  raised-refcount : (x : ℕ) → refcount_of (raised m a t x) ≡ refcount_of (m x) + one_if a x
  raised-refcount x = elim (Bool-cases (a == x)) [
    | inr n ↦ rw n (omega arith)
    | inl e ↦
        let here : m x ≡ some t = ap m (sym (at-same a x e)) ∙ at_a in rw (e, here) (omega arith)
  ]

  raised-IsCountable : IsCountable m → IsCountable (raised m a t)
  raised-IsCountable c = record { alive = alive; null = rw (==_ne ne_null) c.null }
    where
      ne_null : a ≢ 0
      ne_null e = cc (c.null, ap m e, at_a)

      alive : (x : ℕ) → refcount_of (raised m a t x) ≡ 0 → raised m a t x ≡ none
      alive x h = elim (Bool-cases (a == x)) [
        | inr n ↦ rw n (c.alive x (rw n at h))
        | inl e ↦ absurd (let p = (rw e at h) in omega (arith, p))
      ]

module _ (H : HashApi ZendObject) (R : HashApi ℕ) (w : World H R) (a : ℕ) where
  -- What giving up a reference to a thread-safe object leaves.
  pub record Released (w2 : World H R) : Type 0 where
    pub same_objects : w2.objects ≡ w.objects
    pub same_resolve : w2.resolve ≡ w.resolve
    pub lowered : (x : ℕ) → refcount_at H R w2 x + one_if a x ≡ refcount_at H R w x
    pub countable : IsCountable w2.ts_objects

  pub release_lem :
      IsCountable w.ts_objects
      → refcount_at H R w a ≢ 0
      → (w2 : World H R) × (release H R a w ≡ some w2) × Released w2
  unfolding release
  release_lem c ne = elim (Option-cases (w.ts_objects a)) [
    | inl e ↦ absurd (ne (ap refcount_of e))
    | inr (t, e) ↦
        let counted : t.refcount ≢ 0 = λ z. ne (ap refcount_of e ∙ z) in
        (
          record w { ts_objects = lowered w.ts_objects a t },
          rw e refl,
          record {
            same_objects = refl;
            same_resolve = refl;
            lowered = λ x. lowered-refcount w.ts_objects a t e x counted;
            countable = lowered-IsCountable w.ts_objects a t e c;
          },
        )
  ]

-- The object `d` as a connection of the object `s` at `source`.
abbrev pub connected : ZendObject → ℕ → ZendObject → ZendObject
connected s source d = record d {
  ts_obj = s.ts_obj;
  original_zobj = if s.original_zobj == 0 then source else s.original_zobj;
  worker_data = false;
  properties = if is_some d.properties then some [] else none;
}

module _ (H : HashApi ZendObject) (R : HashApi ℕ) (w : World H R) (s : ZendObject) where
  -- What one more reference to a thread-safe object leaves, where `o` is the object that now has it.
  pub record Attached (b : ℕ) (o : ZendObject) (w2 : World H R) : Type 0 where
    pub new_objects : w2.objects ≡ H.update w.objects (index b) o
    pub same_resolve : w2.resolve ≡ w.resolve
    pub raised : (x : ℕ) → refcount_at H R w2 x ≡ refcount_at H R w x + one_if s.ts_obj x
    pub countable : IsCountable w2.ts_objects

  pub attach_lem :
      (source b : ℕ) (d : ZendObject)
      → IsCountable w.ts_objects
      → refcount_at H R w s.ts_obj ≢ 0
      → (w2 : World H R) × (attach H R s source d b w ≡ some w2)
        × Attached b (connected s source d) w2
  unfolding attach
  attach_lem source b d c ne = elim (Option-cases (w.ts_objects s.ts_obj)) [
    | inl e ↦ absurd (ne (ap refcount_of e))
    | inr (t, e) ↦ (
      record w {
        ts_objects = raised w.ts_objects s.ts_obj t;
        objects = H.update w.objects (index b) (connected s source d);
      },
      rw e refl,
      record {
        new_objects = refl;
        same_resolve = refl;
        raised = raised-refcount w.ts_objects s.ts_obj t e;
        countable = raised-IsCountable w.ts_objects s.ts_obj t e c;
      },
    )
  ]

-- ===== src/Object/Answer.antt =====
-- `pthreads_globals_object_connect` and `pthreads_base_free` in src/object.c, in a world whose counts
-- are right.
use pthreads.Base.{
  ℕ, ◌≡◌, ◌≢◌, refl, ap, sym, ◌∙◌, true, false, none, some, arith, ◌==◌, Bool-cases, Option-cases,
  inl, inr, ==_iff, ==_ne, ==_refl, some_injective,
}
use pthreads.Zend.Key.{index, same_key_refl}
use pthreads.Zend.Hash.{HashApi, find-update}
use pthreads.Object.{
  ZendObject, World, Fresh, object_at, set_resolve, base_ctor, object_valid, object_connect,
  new_connection,
}
use pthreads.Object.Release.{connected}
use pthreads.Object.Connect.{IsCounted, IsFresh}
use pthreads.Object.Resolve.{IsConnection, IsSound, join_lem}

module _ (H : HashApi ZendObject) (R : HashApi ℕ) where
  -- The answer is an object of the thread that refers to the same thread-safe object as `p`.
  pub record IsAnswer (thread : ℕ) (p : ZendObject) (w2 : World H R) (c : ℕ) : Type 0 where
    pub object : ZendObject
    pub found : object_at H R w2 c ≡ some object
    pub owned : object.owner ≡ thread
    pub same_ts : object.ts_obj ≡ p.ts_obj

  known-IsSound :
      (w : World H R) (thread c : ℕ) (o : ZendObject)
      → IsSound H R w
      → object_at H R w c ≡ some o
      → o.owner ≡ thread
      → IsSound H R (set_resolve H R w thread (R.update (w.resolve thread) (index o.ts_obj) c))
  known-IsSound w thread c o i at_c own = record {
    counts = record {
      counted = i.counts.counted;
      countable = i.counts.countable;
      null_object = i.counts.null_object;
    };
    resolved = λ x a j h. elim (Bool-cases (thread == x)) [
      | inr n ↦ again (i.resolved x a j (rw n at h))
      | inl e ↦
          let g = (rw (e, find-update R (w.resolve thread) (index o.ts_obj) (index a) c) at h) in
          elim (Bool-cases (o.ts_obj == a)) [
            | inl same ↦
                let p = some_injective (rw same at g) in
                record {
                  object = o;
                  found = ap (object_at H R w) (sym p) ∙ at_c;
                  owned = own ∙ (==_iff thread x).0 e;
                  same_ts = (==_iff o.ts_obj a).0 same;
                }
            | inr n ↦
                let k = (rw n at g) in
                let old = i.resolved thread a j k in
                record {
                  object = old.object;
                  found = old.found;
                  owned = old.owned ∙ (==_iff thread x).0 e;
                  same_ts = old.same_ts;
                }
          ]
    ];
  }
    where
      again :
          {x a j : ℕ}
          → IsConnection H R w x a j
          → IsConnection H R
              (set_resolve H R w thread (R.update (w.resolve thread) (index o.ts_obj) c))
              x
              a
              j
      again k = record { object = k.object; found = k.found; owned = k.owned; same_ts = k.same_ts }

  valid-some :
      (w : World H R) (b : ℕ) (o : ZendObject)
      → IsCounted H R w
      → object_at H R w b ≡ some o
      → object_valid H R w b ≡ true
  unfolding object_valid
  valid-some w b o i h =
      rw (==_ne (λ (e : b ≡ 0). cc (i.null_object, ap (object_at H R w) e, h)), h) refl

  pub valid-none : (w : World H R) (b : ℕ) → object_at H R w b ≡ none → object_valid H R w b ≡ false
  unfolding object_valid
  valid-none w b h = rw h (ground arith)

  -- What the thread gets for the registered object `p` at `address`.
  abbrev pub Answered : ℕ → ℕ → ZendObject → Fresh → World H R → Type 0
  Answered thread address p f w =
      (w2 : World H R) × (c : ℕ) × (object_connect H R thread address f w ≡ some (w2, some c))
      × IsSound H R w2
      × IsAnswer thread p w2 c
      × ((g : Fresh) → object_connect H R thread address g w2 ≡ some (w2, some c))

  module _ (w : World H R) (thread address : ℕ) (p : ZendObject) (f : Fresh) (i : IsSound H R w)
      (at_p : object_at H R w address ≡ some p) where
    owner-connects : p.owner ≡ thread → Answered thread address p f w
    unfolding object_connect
    owner-connects own =
        let run : (g : Fresh) → object_connect H R thread address g w ≡ some (w, some address) =
          λ g. rw (valid-some w address p i.counts at_p, at_p, own, ==_refl thread) refl in
        (
          w,
          address,
          run f,
          i,
          record { object = p; found = at_p; owned = own; same_ts = refl },
          run,
        )

    known-connects :
        (c : ℕ)
        → p.owner ≢ thread
        → R.find (w.resolve thread) (index p.ts_obj) ≡ some c
        → Answered thread address p f w
    unfolding object_connect
    known-connects c ne known =
        let old = i.resolved thread p.ts_obj c known in
        let run : (g : Fresh) → object_connect H R thread address g w ≡ some (w, some c) =
          λ g. rw (valid-some w address p i.counts at_p, at_p, ==_ne ne, known) refl in
        (
          w,
          c,
          run f,
          i,
          record {
            object = old.object;
            found = old.found;
            owned = old.owned;
            same_ts = old.same_ts;
          },
          run,
        )

    new-connects :
        IsFresh H R w f
        → p.owner ≢ thread
        → R.find (w.resolve thread) (index p.ts_obj) ≡ none
        → Answered thread address p f w
    unfolding object_connect new_connection base_ctor
    new-connects fresh ne known =
        let (w2, j) = join_lem H R w f thread fresh address p i at_p in
        let o = connected p address (base_ctor thread f.kind f.ts) in
        let w3 =
          set_resolve H R w2 thread (R.update (w2.resolve thread) (index o.ts_obj) f.object) in
        let there : object_at H R w3 address ≡ some p =
          j.others address (λ e. cc (fresh.new_object, ap (object_at H R w) e, at_p)) ∙ at_p in
        let sound = known-IsSound w2 thread f.object o j.sound j.joined refl in
        let again : R.find (w3.resolve thread) (index p.ts_obj) ≡ some f.object =
          rw
            (
              ==_refl thread,
              find-update R (w2.resolve thread) (index p.ts_obj) (index p.ts_obj) f.object,
              same_key_refl (index p.ts_obj),
            )
            refl in
        (
          w3,
          f.object,
          rw (valid-some w address p i.counts at_p, at_p, ==_ne ne, known, j.ran, j.joined) refl,
          sound,
          record { object = o; found = j.joined; owned = refl; same_ts = refl },
          λ g. rw (valid-some w3 address p sound.counts there, there, ==_ne ne, again) refl,
        )

    pub connect-answers : IsFresh H R w f → Answered thread address p f w
    connect-answers fresh = elim (Bool-cases (p.owner == thread)) [
      | inl e ↦ owner-connects ((==_iff p.owner thread).0 e)
      | inr n ↦
          let ne : p.owner ≢ thread = λ e. cc (n, (==_iff p.owner thread).1 e) in
          elim (Option-cases (R.find (w.resolve thread) (index p.ts_obj))) [
            | inl none_known ↦ new-connects fresh ne none_known
            | inr (c, known) ↦ known-connects c ne known
          ]
    ]

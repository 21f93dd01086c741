-- ===== src/Prepare/Entries.antt =====
-- src/prepare.c: a whole new class entry, its closures, the classes of its methods and what an immutable
-- one depends on, where each call for another class answers.
use pthreads.Base.{
  ℕ, suc, ◌≡◌, ◌≢◌, ◌≤◌, ◌<◌, inl, inr, refl, sym, ap, ◌∙◌, Bool, true, ◌||◌, not, Option, none,
  some, List, [], ◌∷◌, ◌==◌, is_some, arith, Bool-cases, Option-cases, some_injective, subst,
  ==_refl, ==_ne,
}
use pthreads.Zend.Key.{Key, name}
use pthreads.Copy.{Engine, ZString, copy_string}
use pthreads.Copy.Function.Whole.{Function, Functions}
use pthreads.Prepare.Classes.{Outcome, each, PropertyInfo, Class, modify}
use pthreads.Prepare.Entry.{copy_entry, fresh_entry, copied_filename}
use pthreads.Prepare.Create.{
  type_names, lower_key, prepare_closure, prepare_closures, scope_for, prepare_scope,
  depend_on_found, depend_on_name, depend_on_property, depend_on, immutable_dependencies,
}
use pthreads.Prepare.Traits.{Traits, prepare_class_traits}
use pthreads.Prepare.Stock.{IsResolved, Stocked}
use pthreads.Prepare.Frame.{
  Runs, ends, Runs->>=, Runs-or_dangling, Origin, Ours, key_of, IsPlaced, Present, AllPresent,
  AllPresent-Stocked, IsSound, Grows, Grows-refl, Grows-trans, IsPlaced-Grows, IsPlaced-same, Keeps,
  Keeps-after, Keeps->>=, All, All-map, each-Keeps, copy_into-Runs, scope-Keeps, functions-Keeps,
  if-Keeps, IsFit, room, placed_below,
}
use pthreads.Prepare.Calls.{Answers, Callable, Callable-Grows, complete_entry-Keeps}

pub copy_string-bytes : (e : Engine) (s : ZString) → (copy_string e s).bytes ≡ s.bytes
unfolding copy_string
copy_string-bytes e s =
    ground (arith, e.intern_bytes s.bytes s.persistent, e.dup_bytes s.bytes s.persistent)

module _ (o : Origin) where
  open o use {F, R, P, K, source, entries, base}

  prepare_closure-Keeps :
      (k : Key) (f : ℕ) (s : Ours o)
      → Present o s f
      → IsSound o s
      → Keeps o s (prepare_closure F R P K source (k, f) s)
  unfolding prepare_closure
  prepare_closure-Keeps k f s there sound = elim (Option-cases (s.functions.functions f)) [
    | inl nothing ↦ absurd (cc (rw nothing at there))
    | inr (g, at_f) ↦ Runs->>= (Runs-or_dangling (λ _. Unit {0}) _ g at_f tt) (λ (g' : Function) _.
        if-Keeps o (not g'.closure || is_some (R.find s.function_table k))
          (λ skip. ends (sound, Grows-refl o s))
          (λ new.
            Runs->>= (copy_into-Runs o f s sound there)
              (λ (r : Ours o × ℕ) (q : IsSound o (r.0) × Grows o s (r.0)).
                let t : Ours o = record r.0 {
                  function_table = R.update (r.0).function_table k (r.1);
                } in
                let (q', g') =
                  functions-Keeps o (r.0) t (q.0) refl refl (omega arith) (λ h e. e, (q.0).resolved)
                    (λ h a e.
                      IsPlaced-same o (r.0) t a refl refl (omega arith) ((q.0).placed h a e)) in
                ends (q', Grows-trans o (q.1) g'))))
  ]

  pub closures-Keeps : (s : Ours o) → IsSound o s → Keeps o s (prepare_closures F R P K source s)
  unfolding prepare_closures
  closures-Keeps s sound =
      each-Keeps o (prepare_closure F R P K source) s (R.entries source.source_functions)
        (All-map o (λ (e : Key × ℕ). Present o s (e.1))
          (λ (e : Key × ℕ).
            (t : Ours o)
            → IsSound o t
            → Grows o s t
            → Keeps o t (prepare_closure F R P K source e t))
          (λ (k, f) h t q g. prepare_closure-Keeps k f t (g.present f h) q)
          (R.entries source.source_functions) sound.closures)
        s sound (Grows-refl o s)

  -- The name of the file is copied, and the functions are left alone.
  copied_filename-Stocked :
      (fs : Functions F R) (n : Option ZString)
      → IsResolved F R fs
      → Stocked F R fs (copied_filename F R P K source fs n).0
  copied_filename-Stocked fs none h = (λ g e. e, h)
  copied_filename-Stocked fs (some n) h = (λ g e. e, h)

  module _ (recur : Option ℕ → Bool → Ours o → Outcome (Ours o × Option ℕ)) where
    -- From a state on, `recur` answers for every class that is in its place.
    abbrev pub CallsPlaced : Ours o → Type 0
    CallsPlaced s =
        (t : Ours o) (late : Bool) (a : ℕ)
        → IsSound o t
        → Grows o s t
        → IsPlaced o t a
        → Answers o t (some a) (recur (some a) late t)

    scope_for-Keeps :
        (x p f : ℕ) (r : Option ℕ) (s t : Ours o)
        → CallsPlaced s
        → IsPlaced o t p
        → t.scope f ≡ r
        → IsSound o t
        → Grows o s t
        → Keeps o t (scope_for F R P K recur x p f r t)
    unfolding scope_for
    scope_for-Keeps x p f none s t calls at_p e sound g = ends (sound, Grows-refl o t)
    scope_for-Keeps x p f (some a) s t calls at_p e sound g =
        if-Keeps o (a == x)
          (λ self.
            scope-Keeps o f (some p) t sound (λ b h. subst (IsPlaced o t) (some_injective h) at_p))
          (λ other.
            if-Keeps o (t.classes a).builtin (λ internal. ends (sound, Grows-refl o t))
              (λ user.
                Runs->>= (calls t true a sound g (sound.placed f a e)) (λ (r : Ours o × Option ℕ) q.
                  Keeps-after o (q.1) (scope-Keeps o f (r.1) (r.0) (q.0) (λ b h. (q.2 b h).0)))))

    pub scopes-Keeps :
        (x p : ℕ) (fs : List (Key × ℕ)) (s : Ours o)
        → CallsPlaced s
        → IsPlaced o s p
        → IsSound o s
        → Keeps o s (each (prepare_scope F R P K recur x p) fs s)
    unfolding prepare_scope
    scopes-Keeps x p fs s calls at_p sound =
        each-Keeps o (prepare_scope F R P K recur x p) s fs (every fs) s sound (Grows-refl o s)
      where
        every :
            (fs : List (Key × ℕ))
            → All o
                (λ e.
                  (t : Ours o)
                  → IsSound o t
                  → Grows o s t
                  → Keeps o t (prepare_scope F R P K recur x p e t))
                fs
        every [] = tt
        every ((key, f) ∷ fs) = (
          λ t q g. scope_for-Keeps x p f (t.scope f) s t calls (IsPlaced-Grows o p g at_p) refl q g,
          every fs,
        )

    depend_on-Keeps :
        (late : Bool) (a : Option ℕ) (s : Ours o)
        → Callable o recur s a
        → IsSound o s
        → Keeps o s (depend_on F R P K recur late a s)
    unfolding depend_on
    depend_on-Keeps late a s call sound =
        Runs->>= (call s late sound (Grows-refl o s)) (λ (r : Ours o × Option ℕ) q. ends (q.0, q.1))

    module _ (tables : (k : Key) (a : ℕ) → R.find source.source_classes k ≡ some a → a < base) where
      depend_on_name-Keeps :
          (late : Bool) (n : ZString) (s t : Ours o)
          → CallsPlaced s
          → IsSound o t
          → Grows o s t
          → Keeps o t (depend_on_name F R P K recur source late n t)
      unfolding depend_on_name depend_on_found
      depend_on_name-Keeps late n s t calls sound g =
          found_case (R.find source.source_classes (lower_key F R P K source n)) refl
        where
          found_case :
              (a : Option ℕ)
              → R.find source.source_classes (lower_key F R P K source n) ≡ a
              → Keeps o t (depend_on_found F R P K recur late a t)
          found_case none e = ends (sound, Grows-refl o t)
          found_case (some a) e =
              depend_on-Keeps late (some a) t
                (λ u late' q g'. calls u late' a q (Grows-trans o g g') (inl (tables _ a e))) sound

      names-Keeps :
          (late : Bool) (ns : List ZString) (s t : Ours o)
          → CallsPlaced s
          → IsSound o t
          → Grows o s t
          → Keeps o t (each (depend_on_name F R P K recur source late) ns t)
      unfolding each
      names-Keeps late [] s t calls sound g = ends (sound, Grows-refl o t)
      names-Keeps late (n ∷ ns) s t calls sound g =
          Keeps->>= o (depend_on_name-Keeps late n s t calls sound g)
            (λ u q g'. names-Keeps late ns s u calls q (Grows-trans o g g'))

      properties-depend :
          (late : Bool) (es : List (Key × PropertyInfo)) (s t : Ours o)
          → CallsPlaced s
          → IsSound o t
          → Grows o s t
          → Keeps o t (each (depend_on_property F R P K recur source late) es t)
      unfolding each depend_on_property
      properties-depend late [] s t calls sound g = ends (sound, Grows-refl o t)
      properties-depend late ((k, i) ∷ es) s t calls sound g =
          Keeps->>= o (names-Keeps late (type_names i.property_type) s t calls sound g)
            (λ u q g'. properties-depend late es s u calls q (Grows-trans o g g'))

      pub dependencies-Keeps :
          (c : Class F R P K) (late : Bool) (s : Ours o)
          → CallsPlaced s
          → Callable o recur s c.parent
          → All o (Callable o recur s) c.interfaces
          → IsSound o s
          → Keeps o s (immutable_dependencies F R P K recur source c late s)
      unfolding immutable_dependencies
      dependencies-Keeps c late s calls parent interfaces sound =
          Keeps->>= o
            (if-Keeps o c.linked
              (λ linked.
                Keeps->>= o
                  (if-Keeps o (is_some c.parent)
                    (λ child. depend_on-Keeps late c.parent s parent sound)
                    (λ top. ends (sound, Grows-refl o s)))
                  (λ t q g.
                    each-Keeps o (depend_on F R P K recur late) s c.interfaces
                      (All-map o _ _
                        (λ i call u q' g'.
                          depend_on-Keeps late i u (Callable-Grows o recur i g' call) q')
                        c.interfaces interfaces)
                      t q g))
              (λ loose. ends (sound, Grows-refl o s)))
            (λ t q g. properties-depend late (P.entries c.properties_info) s t calls q g)

  -- A new entry: its name is that of the candidate, its address was not in use.
  module _ (recur : Option ℕ → Bool → Ours o → Outcome (Ours o × Option ℕ)) where
    fresh_entry-IsFit :
        (x : ℕ) (n : Option ZString) (s : Ours o)
        → IsSound o s
        → IsFit o (fresh_entry F R P K source n (s.classes x))
    fresh_entry-IsFit x n s sound = record {
      linked = (sound.fit x).linked;
      fits = rw P.entries_empty tt;
      counted = omega arith;
      covered = omega arith;
    }

    pub copy_entry-Runs :
        (x : ℕ) (s : Ours o)
        → x < base
        → IsSound o s
        → Callable o recur s (s.classes x).parent
        → All o (Callable o recur s) (s.classes x).interfaces
        → (tr : Traits) → prepare_class_traits source.engine none none (entries x).traits ≡ some tr
        → Runs
            (λ r.
              IsSound o (r.0)
              × Grows o s (r.0)
              × (base ≤ r.1)
              × (r.1 < (r.0).next)
              × (key_of o ((r.0).classes (r.1)) ≡ key_of o (s.classes x)))
            (copy_entry F R P K recur source x s)
    unfolding copy_entry
    copy_entry-Runs x s low sound parent interfaces tr copied =
        let p = s.next in
        let named = copied_filename F R P K source s.functions (s.classes x).filename in
        let fresh = fresh_entry F R P K source (named.1) (s.classes x) in
        let s1 : Ours o =
          modify F R P K p (λ q. fresh) (record s { functions = named.0; next = suc s.next }) in
        let stock = copied_filename-Stocked s.functions (s.classes x).filename sound.resolved in
        let same : (a : ℕ) → a < s.next → s1.classes a ≡ s.classes a =
          λ a l. rw (==_ne (apart a l)) refl in
        let g : Grows o s s1 = record {
          stays = λ k a h. h;
          names = λ a l. ap (λ (q : Class F R P K). q.class_name) (same a l);
          more = omega arith;
          present = stock.0;
        } in
        let free : (b : ℕ) → b < s.next → room o (s1.classes b) ≡ room o (s.classes b) =
          λ b l. ap (λ (q : Class F R P K). room o q) (same b l) in
        let copied_room : room o fresh ≡ room o (s.classes x) =
          ap (λ (b : List ℕ). o.slots_of (name (source.lower b)))
            (copy_string-bytes source.engine (s.classes x).class_name) in
        let q1 : IsSound o s1 = record {
          fit = λ a. elim (Bool-cases (p == a)) [
            | inl e ↦ rw e (fresh_entry-IsFit x (named.1) s sound)
            | inr e ↦ rw e (sound.fit a)
          ];
          heirs = λ a b h. elim (Bool-cases (p == a)) [
            | inl e ↦ absurd (cc (rw e at h))
            | inr e ↦
                let (l, least) = sound.heirs a b (rw e at h) in
                (omega (arith, l), rw (e, free b l) least)
          ];
          named = λ k a h.
              rw (free a (placed_below o s a sound (sound.tabled k a h))) (sound.named k a h);
          unchanged = λ a l. same a (omega (arith, sound.above)) ∙ sound.unchanged a l;
          known = λ a. elim (Bool-cases (p == a)) [
            | inl e ↦ rw e (sound.known x)
            | inr e ↦ rw e (sound.known a)
          ];
          placed = λ f a h. IsPlaced-Grows o a g (sound.placed f a h);
          tabled = λ k a h. IsPlaced-Grows o a g (sound.tabled k a h);
          above = omega (arith, sound.above);
          resolved = stock.1;
          methods = λ a l.
              AllPresent-Stocked o s s1 (R.entries (entries a).function_table) stock
                (sound.methods a l);
          closures =
              AllPresent-Stocked o s s1 (R.entries source.source_functions) stock sound.closures;
        } in
        let at_x : s1.classes x ≡ s.classes x = same x (omega (arith, sound.above)) in
        let entry : s1.classes x ≡ entries x = at_x ∙ sound.unchanged x low in
        let at_p : s1.classes p ≡ fresh = rw (==_refl p) refl in
        Runs->>=
          (complete_entry-Keeps o recur x p s1 sound.above (omega arith)
            (omega (arith, sound.above))
            (free x (omega (arith, sound.above))
              ∙ sym copied_room
              ∙ sym (ap (λ (q : Class F R P K). room o q) at_p))
            (ap (λ (q : Class F R P K). q.anonymous) at_x ∙ sound.known x)
            (subst (λ (q : Class F R P K). Callable o recur s1 q.parent) (sym at_x)
              (Callable-Grows o recur (s.classes x).parent g parent))
            (subst (λ (q : Class F R P K). All o (Callable o recur s1) q.interfaces) (sym at_x)
              (All-map o _ _ (λ i. Callable-Grows o recur i g) (s.classes x).interfaces interfaces))
            (subst (λ (q : Class F R P K). AllPresent o s1 (R.entries q.function_table)) (sym entry)
              (q1.methods x low))
            tr
            (subst
              (λ (q : Class F R P K).
                prepare_class_traits source.engine none none q.traits ≡ some tr)
              (sym entry) copied)
            q1)
          (λ t q. ends (
            q.0,
            Grows-trans o g (q.1),
            sound.above,
            omega (arith, (q.1).more),
            ap (λ (n : ZString). name (source.lower n.bytes))
                  ((q.1).names p (omega arith) ∙ ap (λ (c : Class F R P K). c.class_name) at_p)
                ∙ ap (λ (b : List ℕ). name (source.lower b))
                    (copy_string-bytes source.engine (s.classes x).class_name),
          ))
      where
        apart : (a : ℕ) → a < s.next → s.next ≢ a
        apart a l e = omega (arith, e)

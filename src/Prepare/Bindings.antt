-- ===== src/Prepare/Bindings.antt =====
-- src/prepare.c: the late bindings of a class keep what `Frame` says, where each call for another class
-- does.
use pthreads.Base.{
  ◌<◌, sym, ◌∙◌, subst, ◌∷◌, ℕ, ◌≡◌, ◌≤◌, inl, inr, refl, Bool, true, false, ◌&&◌, not, Option,
  none, some, List, [], ◌∷◌, ◌==◌, is_some, arith, Bool-cases, map, length,
}
use pthreads.Zend.Key.{Key}
use pthreads.Prepare.Classes.{
  each, done, Outcome, PropertyInfo, ClassConstant, ConstantValue, plain, enum_case, StaticSlot,
  Class,
}
use pthreads.Prepare.Properties.{
  is_at, owner_copy, prepare_property, add_property, set_properties, drop_defaults,
  prepare_class_property_table, default_count, copy_default,
}
use pthreads.Prepare.Statics.{
  prepare_class_statics, set_default_statics, init_class_statics, take_statics, ready_statics,
  set_statics,
}
use pthreads.Prepare.Late.{
  copy_constant_value, constant_class, prepare_constant, add_constant, prepare_class_constants,
  late_bindings,
}
use pthreads.Prepare.Frame.{
  Runs, ends, Runs->>=, Origin, Ours, IsSound, Grows, Grows-refl, Grows-trans, Keeps, Keeps-after,
  Keeps->>=, All, All-map, each-Keeps, change-Keeps, change_at-Keeps, IsFit, HasSlot, room,
  room-name, functions-Keeps, IsPlaced-same, if-Keeps,
}
use pthreads.Prepare.Slots.{property_slots-Runs, add_property-IsFit}
use pthreads.Prepare.Calls.{Answers, Callable, Callable-Grows}

module _ (o : Origin) where
  open o use {F, R, P, K, source}

  -- What a constant is copied to.
  abbrev pub CopiedTo : ConstantValue → Type 0
  CopiedTo v = (v' : ConstantValue) × (copy_constant_value F R P K source v ≡ done v')

module _ (o : Origin) (recur : Option ℕ → Bool → Ours o → Outcome (Ours o × Option ℕ)) where
  open o use {F, R, P, K, source, entries, base}

  -- What a run says of its state only.
  abbrev pub KeepsState : {A : Type 0} → Ours o → Outcome (Ours o × A) → Type 0
  KeepsState s = Runs (λ r. IsSound o (r.0) × Grows o s (r.0))

  answered :
      (s : Ours o) (a : Option ℕ) (m : Outcome (Ours o × Option ℕ))
      → Answers o s a m
      → KeepsState s m
  answered s a _ (ends q) = ends (q.0, q.1)

  -- The class at `p` stands for one with as many properties.
  pub record IsCopy (p : ℕ) (c : Class F R P K) (s : Ours o) : Type 0 where
    pub made : p < s.next
    pub same_room : room o (s.classes p) ≡ room o c

  pub IsCopy-Grows :
      {s t : Ours o} (p : ℕ) (c : Class F R P K) → Grows o s t → IsCopy p c s → IsCopy p c t
  IsCopy-Grows {s} {t} p c g h = record {
    made = omega (arith, h.made, g.more);
    same_room = room-name o (t.classes p) (s.classes p) (g.names p h.made) ∙ h.same_room;
  }

  prepare_property-Keeps :
      (x p : ℕ) (c : Class F R P K) (k : Key) (i : PropertyInfo) (s : Ours o)
      → base ≤ p
      → IsCopy p c s
      → HasSlot o (room o c) i
      → Callable o recur s i.owner
      → IsSound o s
      → Keeps o s (prepare_property F R P K recur source x p (k, i) s)
  unfolding prepare_property owner_copy
  prepare_property-Keeps x p c k i s high copy slot call sound =
      Runs->>=
        (elim (Bool-cases (is_at i.owner x)) [
          | inl self ↦ rw self (ends (sound, Grows-refl o s))
          | inr other ↦ rw other (answered s _ _ (call s true sound (Grows-refl o s)))
        ])
        (λ (r : Ours o × Option ℕ) (q : IsSound o (r.0) × Grows o s (r.0)).
          let t = r.0 in
          let in_t = IsCopy-Grows p c (q.1) copy in
          Keeps-after o (q.1) (
            change_at-Keeps o p (add_property F R P K source k (r.1) i) t high (λ x. refl)
              (λ x e. e)
              (add_property-IsFit o k (r.1) i (t.classes p)
                (subst (λ (n : ℕ). HasSlot o n i) (sym in_t.same_room) slot) ((q.0).fit p))
              (λ b h. (q.0).heirs p b h) (q.0)))

  infos-Keeps :
      (x p : ℕ) (c : Class F R P K) (es : List (Key × PropertyInfo)) (s t : Ours o)
      → base ≤ p
      → All o (λ e. HasSlot o (room o c) (e.1)) es
      → All o (λ e. Callable o recur s (e.1).owner) es
      → IsCopy p c s
      → IsSound o t
      → Grows o s t
      → Keeps o t (each (prepare_property F R P K recur source x p) es t)
  unfolding each
  infos-Keeps x p c [] s t high slots calls copy sound g = ends (sound, Grows-refl o t)
  infos-Keeps x p c ((k, i) ∷ es) s t high slots calls copy sound g =
      Keeps->>= o
        (prepare_property-Keeps x p c k i t high (IsCopy-Grows p c g copy) (slots.0)
          (Callable-Grows o recur i.owner g (calls.0)) sound)
        (λ u q g'. infos-Keeps x p c es s u high (slots.1) (calls.1) copy q (Grows-trans o g g'))

  length-map : {A B : Type 0} (f : A → B) (as' : List A) → length (map f as') ≡ length as'
  length-map f [] = refl
  length-map f (a ∷ as') = omega (arith, length-map f as')

  properties-Keeps :
      (x p : ℕ) (s : Ours o)
      → base ≤ p
      → IsCopy p (s.classes x) s
      → room o (s.classes x) ≤ length (s.classes x).default_properties
      → All o (λ e. Callable o recur s (e.1).owner) (P.entries (s.classes x).properties_info)
      → IsSound o s
      → Keeps o s (prepare_class_property_table F R P K recur source x p s)
  unfolding prepare_class_property_table
  properties-Keeps x p s high copy enough calls sound =
      let c = s.classes x in
      let vs = map (copy_default F R P K source) c.default_properties in
      Keeps->>= o
        (infos-Keeps x p c (P.entries c.properties_info) s s high (sound.fit x).fits calls copy
          sound (Grows-refl o s))
        (λ s1 q1 g1.
          let in_s1 = IsCopy-Grows p c g1 copy in
          elim (Bool-cases (default_count F R P K c == 0)) [
            | inl bare ↦ rw bare (
                change_at-Keeps o p (drop_defaults F R P K) s1 high (λ x. refl) (λ x e. e)
                  (drop_defaults-IsFit (s1.classes p) (q1.fit p)) (λ b h. q1.heirs p b h) q1)
            | inr some_left ↦
                rw (some_left, (q1.fit p).linked)
                  (Runs->>=
                    (property_slots-Runs o c p s1 (omega (arith, in_s1.same_room, enough)) q1)
                    (λ slots e.
                      change_at-Keeps o p (set_properties F R P K vs slots) s1 high (λ x. refl)
                        (λ x e. e)
                        (record {
                          linked = (q1.fit p).linked;
                          fits = (q1.fit p).fits;
                          counted = omega (
                            arith,
                            length-map (copy_default F R P K source) c.default_properties,
                            (sound.fit x).counted,
                            in_s1.same_room,
                          );
                          covered = omega (
                            arith,
                            length-map (copy_default F R P K source) c.default_properties,
                            e,
                          );
                        })
                        (λ b h. q1.heirs p b h) q1))
          ])
    where
      drop_defaults-IsFit : (q : Class F R P K) → IsFit o q → IsFit o (drop_defaults F R P K q)
      drop_defaults-IsFit q h = record {
        linked = h.linked;
        fits = h.fits;
        counted = omega arith;
        covered = omega arith;
      }

  statics-Keeps :
      (c : Class F R P K) (p : ℕ) (s : Ours o)
      → base ≤ p
      → IsSound o s
      → Keeps o s (prepare_class_statics F R P K source c p s)
  unfolding prepare_class_statics
  statics-Keeps c p s high sound =
      change-Keeps o p (set_default_statics F R P K _) s high (λ x. refl) sound

  constant_value-Runs :
      (v : ConstantValue)
      → CopiedTo o v
      → Runs (λ _. Unit {0}) (copy_constant_value F R P K source v)
  constant_value-Runs v (v', e) = rw e (ends tt)

  constant_class-Keeps :
      (v : ConstantValue) (p : ℕ) (zc : ClassConstant) (s : Ours o)
      → zc.constant_value ≡ v
      → Callable o recur s zc.constant_owner
      → IsSound o s
      → KeepsState s (constant_class F R P K recur p zc s)
  unfolding constant_class
  constant_class-Keeps (plain v) p zc s e call sound =
      rw e (answered s _ _ (call s true sound (Grows-refl o s)))
  constant_class-Keeps (enum_case b) p zc s e call sound = rw e (ends (sound, Grows-refl o s))

  prepare_constant-Keeps :
      (p : ℕ) (k : Key) (zc : ClassConstant) (s : Ours o)
      → base ≤ p
      → Callable o recur s zc.constant_owner
      → CopiedTo o zc.constant_value
      → IsSound o s
      → Keeps o s (prepare_constant F R P K recur source p (k, zc) s)
  unfolding prepare_constant
  prepare_constant-Keeps p k zc s high call copied sound =
      elim (Bool-cases (is_some (K.find (s.classes p).constants_table k))) [
        | inl there ↦ rw there (ends (sound, Grows-refl o s))
        | inr new ↦ rw new (
            Runs->>= (constant_value-Runs zc.constant_value copied) (λ v _.
              Runs->>= (constant_class-Keeps zc.constant_value p zc s refl call sound)
                (λ (r : Ours o × Option ℕ) (q : IsSound o (r.0) × Grows o s (r.0)).
                  Keeps-after o (q.1)
                    (change-Keeps o p (add_constant F R P K k _) (r.0) high (λ x. refl) (q.0)))))
      ]

  -- What a constant needs: the class that it belongs to can be called for, and its value copied.
  abbrev pub ConstantReady : Ours o → Key × ClassConstant → Type 0
  ConstantReady s e = Callable o recur s (e.1).constant_owner × CopiedTo o (e.1).constant_value

  constants-Keeps :
      (c : Class F R P K) (p : ℕ) (s : Ours o)
      → base ≤ p
      → All o (ConstantReady s) (K.entries c.constants_table)
      → IsSound o s
      → Keeps o s (prepare_class_constants F R P K recur source c p s)
  unfolding prepare_class_constants
  constants-Keeps c p s high calls sound =
      each-Keeps o (prepare_constant F R P K recur source p) s (K.entries c.constants_table)
        (All-map o (ConstantReady s)
          (λ (e : Key × ClassConstant).
            (t : Ours o)
            → IsSound o t
            → Grows o s t
            → Keeps o t (prepare_constant F R P K recur source p e t))
          (λ (k, zc) ready t q g.
            prepare_constant-Keeps p k zc t high
              (Callable-Grows o recur zc.constant_owner g (ready.0)) (ready.1) q)
          (K.entries c.constants_table) calls)
        s sound (Grows-refl o s)

  same_places :
      (s t : Ours o)
      → IsSound o s
      → t.classes ≡ s.classes
      → t.class_table ≡ s.class_table
      → t.scope ≡ s.scope
      → t.next ≡ s.next
      → t.functions ≡ s.functions
      → IsSound o t × Grows o s t
  same_places s t sound classes table scope next functions =
      functions-Keeps o s t sound classes table (omega (arith, next))
        (rw functions (λ g h. h, sound.resolved))
        (λ g a h.
          IsPlaced-same o s t a classes table (omega (arith, next))
            (sound.placed g a (rw scope at h)))

  ready_statics-kept :
      (p : ℕ) (s : Ours o)
      → IsSound o s
      → IsSound o (ready_statics F R P K source p s) × Grows o s (ready_statics F R P K source p s)
  ready_statics-kept p s sound =
      elim (Bool-cases ((s.classes p).linked && is_some (s.classes p).parent)) [
        | inl child ↦ simp child (same_places s _ sound refl refl refl refl refl)
        | inr top ↦ simp top (sound, Grows-refl o s)
      ]

  take_statics-kept :
      (c : Class F R P K) (p : ℕ) (now : Option (List StaticSlot)) (s : Ours o)
      → IsSound o s
      → IsSound o (take_statics F R P K source c p now s)
        × Grows o s (take_statics F R P K source c p now s)
  unfolding take_statics
  take_statics-kept c p none s sound = (sound, Grows-refl o s)
  take_statics-kept c p (some now) s sound =
      elim (Bool-cases
        (not (length c.default_statics == 0) && c.linked && not (is_some (s.static_members p)))) [
          | inr no_need ↦ rw no_need (sound, Grows-refl o s)
          | inl need ↦ rw need (
              let t : Ours o = ready_statics F R P K source p s in
              let (q, g) = ready_statics-kept p s sound in
              let (q', g') = same_places t (set_statics F R P K p _ t) q refl refl refl refl refl in
              (q', Grows-trans o g g'))
        ]

  init_statics-Keeps :
      (x p : ℕ) (s : Ours o) → IsSound o s → Keeps o s (init_class_statics F R P K source x p s)
  unfolding init_class_statics
  init_statics-Keeps x p s sound =
      ends (take_statics-kept (s.classes x) p (source.source_statics x) s sound)

  -- The classes that the late bindings of a class call for.
  pub record CallsLate (s : Ours o) (c : Class F R P K) : Type 0 where
    pub properties : All o (λ e. Callable o recur s (e.1).owner) (P.entries c.properties_info)
    pub constants : All o (ConstantReady s) (K.entries c.constants_table)

  -- Where the class is immutable its entry is not touched.
  pub late_bindings-Keeps :
      (x p : ℕ) (s : Ours o)
      → ((s.classes x).immutable ≡ false → (base ≤ p) × IsCopy p (s.classes x) s)
      → room o (s.classes x) ≤ length (s.classes x).default_properties
      → CallsLate s (s.classes x)
      → IsSound o s
      → Keeps o s (late_bindings F R P K recur source x p s)
  unfolding late_bindings
  late_bindings-Keeps x p s high enough calls sound =
      let c = s.classes x in
      Keeps->>= o
        (if-Keeps o c.immutable (λ fixed. ends (sound, Grows-refl o s))
          (λ own_copy.
            Keeps->>= o
              (properties-Keeps x p s (high own_copy).0 (high own_copy).1 enough calls.properties
                sound)
              (λ s1 q1 g1. Keeps->>= o (statics-Keeps c p s1 (high own_copy).0 q1) (λ s2 q2 g2.
                constants-Keeps c p s2 (high own_copy).0
                  (All-map o (ConstantReady s) (ConstantReady s2)
                    (λ e ready. (
                      Callable-Grows o recur (e.1).constant_owner (Grows-trans o g1 g2) (ready.0),
                      ready.1,
                    ))
                    (K.entries c.constants_table) calls.constants)
                  q2))))
        (λ t q g.
          if-Keeps o source.engine.before_81 (λ old. ends (q, Grows-refl o t))
            (λ new. init_statics-Keeps x p t q))

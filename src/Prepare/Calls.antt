-- ===== src/Prepare/Calls.antt =====
-- src/prepare.c: the steps of copying a class keep what `Frame` says, where each call for another class
-- does.
use pthreads.Base.{
  arith, ◌<◌, Option-cases, none, ℕ, ◌≡◌, ◌≤◌, inl, inr, refl, Bool, true, false, Option, some,
  is_some, Bool-cases,
}
use pthreads.Zend.Key.{Key}
use pthreads.Prepare.Classes.{Outcome, Class}
use pthreads.Prepare.Traits.{Traits, prepare_class_traits}
use pthreads.Prepare.Methods.{
  prepare_class_interceptors, prepare_class_handlers, prepare_class_function_table, prepare_method,
  add_method,
}
use pthreads.Prepare.Entry.{
  change, take_flags, set_parent, drop_parent_name, set_parent_name, drop_interfaces, add_interface,
  set_interface_names, set_traits, link_parent, link_interface, link_interfaces, link_traits,
  complete_entry,
}
use pthreads.Prepare.Frame.{
  Runs, ends, Runs->>=, Runs-or_dangling, Origin, Ours, IsPlaced, Present, AllPresent, IsSound,
  Grows, Grows-refl, Grows-trans, Keeps, Keeps-after, Keeps->>=, All, All-map, each-Keeps,
  change-Keeps, copy_into-Runs, change_at-Keeps, IsFit, room, room-name, placed_below,
}

module _ (o : Origin) where
  open o use {F, R, P, K, source, entries, base}

  -- What comes back for a class has its place, and no more properties than that class.
  abbrev pub StandsFor : Ours o → Option ℕ → Ours o × Option ℕ → Type 0
  StandsFor s a r =
      (b : ℕ)
      → r.1 ≡ some b
      → IsPlaced o (r.0) b
        × ((x : ℕ) → a ≡ some x → room o ((r.0).classes b) ≤ room o (s.classes x))

  -- A call for a class comes back.
  abbrev pub Answers : Ours o → Option ℕ → Outcome (Ours o × Option ℕ) → Type 0
  Answers s a = Runs (λ r. IsSound o (r.0) × Grows o s (r.0) × StandsFor s a r)

  prepare_method-Keeps :
      (p : ℕ) (m : Key × ℕ) (s : Ours o)
      → base ≤ p
      → Present o s (m.1)
      → IsSound o s
      → Keeps o s (prepare_method F R P K source p m s)
  unfolding prepare_method change
  prepare_method-Keeps p (k, f) s high there sound =
      elim (Bool-cases (is_some (R.find (s.classes p).function_table k))) [
        | inl known ↦ rw known (ends (sound, Grows-refl o s))
        | inr new ↦ rw new (
            Runs->>= (copy_into-Runs o f s sound there) (λ r q.
              Keeps-after o (q.1)
                (change-Keeps o p (add_method F R P K k (r.1)) (r.0) high (λ x. refl) (q.0))))
      ]

  pub function_table-Keeps :
      (c : Class F R P K) (p : ℕ) (s : Ours o)
      → base ≤ p
      → AllPresent o s (R.entries c.function_table)
      → IsSound o s
      → Keeps o s (prepare_class_function_table F R P K source c p s)
  unfolding prepare_class_function_table
  function_table-Keeps c p s high there sound =
      each-Keeps o (prepare_method F R P K source p) s (R.entries c.function_table)
        (All-map o (λ (m : Key × ℕ). Present o s (m.1))
          (λ (m : Key × ℕ).
            (t : Ours o)
            → IsSound o t
            → Grows o s t
            → Keeps o t (prepare_method F R P K source p m t))
          (λ m h t q g. prepare_method-Keeps p m t high (g.present (m.1) h) q)
          (R.entries c.function_table) there)
        s sound (Grows-refl o s)

  module _ (recur : Option ℕ → Bool → Ours o → Outcome (Ours o × Option ℕ)) where
    -- Calls of `recur` for this class answer in every state that comes after this one.
    abbrev pub Callable : Ours o → Option ℕ → Type 0
    Callable s a =
        (t : Ours o) (late : Bool) → IsSound o t → Grows o s t → Answers t a (recur a late t)

    pub Callable-Grows : {s t : Ours o} (a : Option ℕ) → Grows o s t → Callable s a → Callable t a
    Callable-Grows a g h u late sound g' = h u late sound (Grows-trans o g g')

    set_parent-IsFit :
        (q : Class F R P K) (r : Option ℕ) → IsFit o q → IsFit o (set_parent F R P K r q)
    set_parent-IsFit q r h = record {
      linked = h.linked;
      fits = h.fits;
      counted = h.counted;
      covered = h.covered;
    }

    -- The copy of the parent has no more properties than the copy of the child.
    parent_lem :
        (c : Class F R P K) (p : ℕ) (s : Ours o)
        → p < s.next
        → ((b : ℕ)
            → c.parent ≡ some b
            → (b < s.next) × (room o (s.classes b) ≤ room o (s.classes p)))
        → (r : Ours o × Option ℕ) → IsSound o (r.0)
        → Grows o s (r.0)
        → StandsFor s c.parent r
        → is_some c.parent ≡ true
        → (b : ℕ) → r.1 ≡ some b
        → (b < (r.0).next) × (room o ((r.0).classes b) ≤ room o ((r.0).classes p))
    parent_lem c p s made heir r sound g stands child b h =
        let (at_b, least) = stands b h in
        (
          placed_below o (r.0) b sound at_b,
          elim (Option-cases c.parent) [
            | inl alone ↦ absurd (cc (rw alone at child))
            | inr (y, e) ↦ omega (
              arith,
              least y e,
              (heir y e).1,
              room-name o ((r.0).classes p) (s.classes p) (g.names p made),
            )
          ],
        )

    link_parent-Keeps :
        (c : Class F R P K) (p : ℕ) (s : Ours o)
        → base ≤ p
        → p < s.next
        → ((b : ℕ)
            → c.parent ≡ some b
            → (b < s.next) × (room o (s.classes b) ≤ room o (s.classes p)))
        → Callable s c.parent
        → IsSound o s
        → Keeps o s (link_parent F R P K recur source c p s)
    unfolding link_parent
    link_parent-Keeps c p s high made heir call sound = elim (Bool-cases c.linked) [
      | inr loose ↦
          rw loose (change-Keeps o p (set_parent_name F R P K source c) s high (λ x. refl) sound)
      | inl linked ↦ rw linked (elim (Bool-cases (is_some c.parent)) [
        | inr alone ↦
            rw alone (change-Keeps o p (drop_parent_name F R P K) s high (λ x. refl) sound)
        | inl child ↦ rw child (
            Runs->>= (call s true sound (Grows-refl o s)) (λ (r : Ours o × Option ℕ) q.
              Keeps-after o (q.1) (
                change_at-Keeps o p (set_parent F R P K (r.1)) (r.0) high (λ x. refl) (λ x e. e)
                  (set_parent-IsFit ((r.0).classes p) (r.1) ((q.0).fit p))
                  (λ b h. parent_lem c p s made heir r (q.0) (q.1) (q.2) child b h) (q.0))))
      ])
    ]

    link_interfaces-Keeps :
        (c : Class F R P K) (p : ℕ) (s : Ours o)
        → base ≤ p
        → All o (Callable s) c.interfaces
        → IsSound o s
        → Keeps o s (link_interfaces F R P K recur source c p s)
    unfolding link_interfaces link_interface
    link_interfaces-Keeps c p s high calls sound = elim (Bool-cases c.linked) [
      | inr loose ↦
          rw loose
            (change-Keeps o p (set_interface_names F R P K source c) s high (λ x. refl) sound)
      | inl linked ↦ rw linked (
          Keeps->>= o (change-Keeps o p (drop_interfaces F R P K) s high (λ x. refl) sound)
            (λ t q g.
              each-Keeps o (link_interface F R P K recur p) s c.interfaces
                (All-map o _ _
                  (λ i call u q' g'. Runs->>= (call u true q' g') (λ r q''. Keeps-after o (q''.1) (
                    change-Keeps o p (add_interface F R P K (r.1)) (r.0) high (λ x. refl) (q''.0))))
                  c.interfaces calls)
                t q g))
    ]

    link_traits-Keeps :
        (c : Class F R P K) (p : ℕ) (s : Ours o)
        → base ≤ p
        → (r : Traits) → prepare_class_traits source.engine none none c.traits ≡ some r
        → IsSound o s
        → Keeps o s (link_traits F R P K source c p s)
    unfolding link_traits
    link_traits-Keeps c p s high r copied sound =
        Runs->>= (Runs-or_dangling (λ _. Unit {0}) _ r copied tt)
          (λ r' _. change-Keeps o p (set_traits F R P K r') s high (λ x. refl) sound)

    take_flags-IsFit :
        (c q : Class F R P K) → IsFit o c → IsFit o q → IsFit o (take_flags F R P K c q)
    take_flags-IsFit c q h h' = record {
      linked = h.linked;
      fits = h'.fits;
      counted = h'.counted;
      covered = h'.covered;
    }

    heir_lem :
        (x p b : ℕ) (s t : Ours o)
        → p < s.next
        → room o (s.classes x) ≡ room o (s.classes p)
        → IsSound o s
        → Grows o s t
        → (s.classes x).parent ≡ some b
        → (b < t.next) × (room o (t.classes b) ≤ room o (t.classes p))
    heir_lem x p b s t made same sound g h =
        let (l, least) = sound.heirs x b h in
        (
          omega (arith, g.more),
          omega (
            arith,
            same,
            room-name o (t.classes b) (s.classes b) (g.names b l),
            room-name o (t.classes p) (s.classes p) (g.names p made),
          ),
        )

    pub complete_entry-Keeps :
        (x p : ℕ) (s : Ours o)
        → base ≤ p
        → p < s.next
        → x < s.next
        → room o (s.classes x) ≡ room o (s.classes p)
        → (s.classes x).anonymous ≡ false
        → Callable s (s.classes x).parent
        → All o (Callable s) (s.classes x).interfaces
        → AllPresent o s (R.entries (s.classes x).function_table)
        → (r : Traits) → prepare_class_traits source.engine none none (s.classes x).traits ≡ some r
        → IsSound o s
        → Keeps o s (complete_entry F R P K recur source x p s)
    unfolding complete_entry prepare_class_handlers prepare_class_interceptors
    complete_entry-Keeps x p s high made low same named parent interfaces there r copied sound =
        let c = s.classes x in
        Keeps->>= o
          (change_at-Keeps o p (take_flags F R P K c) s high (λ q. refl) (λ q e. named)
            (take_flags-IsFit c (s.classes p) (sound.fit x) (sound.fit p))
            (λ b h. sound.heirs p b h) sound)
          (λ t1 q1 g1.
            Keeps->>= o
              (link_parent-Keeps c p t1 high (omega (arith, g1.more))
                (λ b h. heir_lem x p b s t1 made same sound g1 h)
                (Callable-Grows c.parent g1 parent) q1)
              (λ t2 q2 g2.
                Keeps->>= o
                  (link_interfaces-Keeps c p t2 high
                    (All-map o _ _ (λ i. Callable-Grows i (Grows-trans o g1 g2)) c.interfaces
                      interfaces)
                    q2)
                  (λ t3 q3 g3. Keeps->>= o (link_traits-Keeps c p t3 high r copied q3) (λ t4 q4 g4.
                    Keeps->>= o
                      (change-Keeps o p (prepare_class_handlers F R P K c) t4 high (λ x. refl) q4)
                      (λ t5 q5 g5.
                        Keeps->>= o
                          (function_table-Keeps c p t5 high
                            (All-map o (λ (m : Key × ℕ). Present o s (m.1))
                              (λ (m : Key × ℕ). Present o t5 (m.1))
                              (λ m h. g5.present (m.1) (
                                g4.present (m.1)
                                  (g3.present (m.1) (g2.present (m.1) (g1.present (m.1) h)))))
                              (R.entries c.function_table) there)
                            q5)
                          (λ t6 q6 g6.
                            change-Keeps o p (prepare_class_interceptors F R P K source.before_82 c)
                              t6 high (λ x. refl) q6))))))

-- ===== src/Prepare/Ends.antt =====
-- src/prepare.c: `pthreads_create_entry` ends, and what it leaves in the thread's table of classes.
use pthreads.Base.{
  some_injective, length, ℕ, zero, suc, ◌+◌, ◌*◌, ◌≡◌, ◌≤◌, ◌<◌, ◌⊎◌, inl, inr, refl, sym, ap, ◌∙◌,
  Bool, true, false, ◌||◌, not, List, [], ◌∷◌, Option, none, some, is_some, arith, Bool-cases,
  subst,
}
use pthreads.Zend.Key.{Key}
use pthreads.Prepare.Classes.{Outcome, done, PropertyInfo, ClassConstant, Class, register}
use pthreads.Prepare.Create.{bind_if, new_entry, known_entry, entry_for, create, create_entry}
use pthreads.Prepare.Frame.{
  Runs, ends, Runs->>=, Origin, Ours, room, IsPlaced, key_of, found, IsSound, Grows, Grows-refl,
  Grows-trans, IsPlaced-Grows, Keeps, All, All-map, register-Keeps, if-Keeps,
}
use pthreads.Prepare.Calls.{Answers, Callable, Callable-Grows}
use pthreads.Prepare.Bindings.{ConstantReady, CopiedTo, CallsLate, IsCopy, late_bindings-Keeps}
use pthreads.Prepare.Entries.{
  CallsPlaced, closures-Keeps, scopes-Keeps, dependencies-Keeps, copy_entry-Runs,
}
use pthreads.Prepare.Missing.{
  count_below-lt, mul_mono, Owned, IsOrdered, missing, missing-Grows, missing-lt,
}

module _ (o : Origin) where
  open o use {F, R, P, K, source, entries, base}

  module _ (rank : ℕ → ℕ) (depth : ℕ) (ordered : IsOrdered o rank depth) where
    -- The fuel that is enough for a call.
    abbrev pub Enough : ℕ → Ours o → Option ℕ → Type 0
    Enough n s none = 0 < n
    Enough n s (some a) =
        ((a < base) × (missing o s * depth + rank a < n))
        ⊎ (0 < n) × (a < s.next) × (found o s (key_of o (s.classes a)) ≡ true)

    -- The thread has what comes back under the name of the candidate.
    abbrev pub Entered : ℕ → Ours o → Outcome (Ours o × Option ℕ) → Type 0
    Entered x s = Runs (λ r.
        IsSound o (r.0)
        × Grows o s (r.0)
        × (R.find (r.0).class_table (key_of o (s.classes x)) ≡ r.1)
        × (is_some (r.1) ≡ true))

    -- What the thread has under the name of a class.
    found_lem :
        (x b : ℕ) (s t : Ours o)
        → IsSound o t
        → R.find t.class_table (key_of o (s.classes x)) ≡ some b
        → IsPlaced o t b × ((y : ℕ) → some x ≡ some y → room o (t.classes b) ≤ room o (s.classes y))
    found_lem x b s t sound h = (
      sound.tabled _ b h,
      λ y e.
          subst (λ (j : ℕ). room o (t.classes b) ≤ room o (s.classes j)) (some_injective e)
            (sound.named _ b h),
    )

    Entered-Answers :
        (x : ℕ) (s : Ours o) (m : Outcome (Ours o × Option ℕ))
        → Entered x s m
        → Answers o s (some x) m
    Entered-Answers x s _ (ends q) = ends (q.0, q.1, λ b h. found_lem x b s _ (q.0) (q.2 ∙ h))

    module _ (n : ℕ) (recur : Option ℕ → Bool → Ours o → Outcome (Ours o × Option ℕ))
        (good : (t : Ours o) (late : Bool) (a : Option ℕ)
          → IsSound o t
          → Enough n t a
          → Answers o t a (recur a late t)) where
      call_none : (s : Ours o) → 0 < n → Callable o recur s none
      call_none s pos t late q g = good t late none q pos

      call_option :
          (s : Ours o) (a : Option ℕ)
          → 0 < n
          → ((b : ℕ) → a ≡ some b → Callable o recur s (some b))
          → Callable o recur s a
      call_option s none pos h = call_none s pos
      call_option s (some b) pos h = h b refl

      -- Before the candidate at `x` is registered, what ranks below it can be called for.
      call_below :
          (x b : ℕ) (s : Ours o)
          → missing o s * depth + rank x < suc n
          → (b < base) × (rank b < rank x)
          → Callable o recur s (some b)
      call_below x b s fuel (low, less) t late q g =
          good t late (some b) q (
            inl
              (low, omega (arith, mul_mono (missing o t) (missing o s) depth (missing-Grows o g))))

      -- Afterwards, all that is in its place can be.
      call_placed :
          (x : ℕ) (s u : Ours o)
          → 0 < n
          → missing o s * depth + rank x < suc n
          → missing o u < missing o s
          → CallsPlaced o recur u
      call_placed x s u pos fuel less t late a q g (inl low) = good t late (some a) q (
          inl (
            low,
            omega (
              arith,
              ordered.bounded a low,
              missing-Grows o g,
              mul_mono (suc (missing o t)) (missing o s) depth (omega (arith, missing-Grows o g)),
            ),
          ))
      call_placed x s u pos fuel less t late a q g (inr h) =
          good t late (some a) q (inr (pos, h.0, h.1))

      -- The calls of the late bindings of the class at `x`.
      calls_late :
          (x : ℕ) (s : Ours o)
          → 0 < n
          → x < base
          → CallsPlaced o recur s
          → CallsLate o recur s (entries x)
      calls_late x s pos low calls = record {
        properties =
            All-map o (λ (e : Key × PropertyInfo). Owned o (e.1).owner)
              (λ (e : Key × PropertyInfo). Callable o recur s (e.1).owner)
              (λ e owned. call_option s (e.1).owner pos (λ b h. owned_call b (owned b h)))
              (P.entries (entries x).properties_info) (ordered.properties x low);
        constants =
            ready (K.entries (entries x).constants_table) (ordered.constants x low)
              (ordered.values x low);
      }
        where
          owned_call : (b : ℕ) → b < base → Callable o recur s (some b)
          owned_call b l t late q g = calls t late b q g (inl l)

          ready :
              (cs : List (Key × ClassConstant))
              → All o (λ e. Owned o (e.1).constant_owner) cs
              → All o (λ e. CopiedTo o (e.1).constant_value) cs
              → All o (ConstantReady o recur s) cs
          ready [] owned copied = tt
          ready (e ∷ cs) owned copied = (
            (
              call_option s (e.1).constant_owner pos (λ b h. owned_call b ((owned.0) b h)),
              copied.0,
            ),
            ready cs (owned.1) (copied.1),
          )

      bind_if-Keeps :
          (late : Bool) (x p : ℕ) (s : Ours o)
          → 0 < n
          → x < base
          → ((entries x).immutable ≡ false → (base ≤ p) × IsCopy o recur p (entries x) s)
          → CallsPlaced o recur s
          → IsSound o s
          → Keeps o s (bind_if F R P K late recur source x p s)
      unfolding bind_if
      bind_if-Keeps late x p s pos low high calls sound =
          if-Keeps o late
            (λ yes_late.
              late_bindings-Keeps o recur x p s
                (subst
                  (λ (c : Class F R P K). c.immutable ≡ false → (base ≤ p) × IsCopy o recur p c s)
                  (sym (sound.unchanged x low)) high)
                (subst (λ (c : Class F R P K). room o c ≤ length c.default_properties)
                  (sym (sound.unchanged x low)) (ordered.slots x low))
                (subst (CallsLate o recur s) (sym (sound.unchanged x low))
                  (calls_late x s pos low calls))
                sound)
            (λ not_late. ends (sound, Grows-refl o s))

      CallsPlaced-Grows :
          {s t : Ours o} → Grows o s t → CallsPlaced o recur s → CallsPlaced o recur t
      CallsPlaced-Grows g calls u late a q g' = calls u late a q (Grows-trans o g g')

      module _ (x : ℕ) (s : Ours o) (low : x < base) (sound : IsSound o s) (pos : 0 < n)
          (fuel : missing o s * depth + rank x < suc n)
          (unknown : R.find s.class_table (key_of o (entries x)) ≡ none) where
        call_parent : Callable o recur s (entries x).parent
        call_parent =
            call_option s (entries x).parent pos
              (λ b h. call_below x b s fuel (ordered.parents x b low h))

        call_interfaces : All o (Callable o recur s) (entries x).interfaces
        call_interfaces =
            All-map o (λ (i : Option ℕ). (b : ℕ) → i ≡ some b → (b < base) × (rank b < rank x))
              (Callable o recur s)
              (λ i h. call_option s i pos (λ b e. call_below x b s fuel (h b e)))
              (entries x).interfaces (ordered.interfaces x low)

        -- Once a class stands under the name, all in place can be called for.
        registered_calls :
            (u : Ours o) (a : ℕ)
            → Grows o s u
            → R.find u.class_table (key_of o (entries x)) ≡ some a
            → CallsPlaced o recur u
        registered_calls u a g there =
            call_placed x s u pos fuel (missing-lt o x g low (rw unknown refl) (rw there refl))

        immutable_entry :
            (late : Bool)
            → (entries x).immutable ≡ true
            → Entered x s (new_entry F R P K recur source x late s)
        unfolding new_entry
        immutable_entry late fixed =
            let e : s.classes x ≡ entries x = sound.unchanged x low in
            let k = key_of o (entries x) in
            let u : Ours o = register F R P K k x s in
            let (q, g, there) =
              register-Keeps o k x s s sound (Grows-refl o s) unknown (inl low) (ap (key_of o) e) in
            let calls = registered_calls u x g there in
            simp (e, fixed)
              (Runs->>=
                (dependencies-Keeps o recur ordered.tables (entries x) late u calls
                  (Callable-Grows o recur (entries x).parent g call_parent)
                  (All-map o _ _ (λ i. Callable-Grows o recur i g) (entries x).interfaces
                    call_interfaces)
                  q)
                (λ t q1.
                  Runs->>=
                    (bind_if-Keeps late x x t pos low (λ h. absurd (cc (h, fixed)))
                      (CallsPlaced-Grows (q1.1) calls) (q1.0))
                    (λ v q2. ends (
                      q2.0,
                      Grows-trans o g (Grows-trans o (q1.1) (q2.1)),
                      (q2.1).stays k x ((q1.1).stays k x there),
                      refl,
                    ))))

        copied_entry :
            (late : Bool)
            → (entries x).immutable ≡ false
            → Entered x s (new_entry F R P K recur source x late s)
        unfolding new_entry
        copied_entry late own_copy =
            let e : s.classes x ≡ entries x = sound.unchanged x low in
            let k = key_of o (entries x) in
            simp (e, own_copy)
              (Runs->>=
                (copy_entry-Runs o recur x s low sound
                  (subst (λ (c : Class F R P K). Callable o recur s c.parent) (sym e) call_parent)
                  (subst (λ (c : Class F R P K). All o (Callable o recur s) c.interfaces) (sym e)
                    call_interfaces)
                  (ordered.traits x low).0 (ordered.traits x low).1)
                (λ (r : Ours o × ℕ) made.
                  let p = r.1 in
                  let u : Ours o = register F R P K k p (r.0) in
                  let at_p : key_of o ((r.0).classes p) ≡ k = made.4 ∙ ap (key_of o) e in
                  let (q, g, there) =
                    register-Keeps o k p s (r.0) (made.0) (made.1) unknown (inr (made.3, at_p))
                      at_p in
                  let calls = registered_calls u p g there in
                  Runs->>=
                    (bind_if-Keeps late x p u pos low
                      (λ h. (made.2, record { made = made.3; same_room = ap o.slots_of at_p }))
                      calls q)
                    (λ v q1.
                      let placed_v = IsPlaced-Grows o p (q1.1) (q.tabled k p there) in
                      Runs->>= (closures-Keeps o v (q1.0)) (λ w q2.
                        let g2 = Grows-trans o (q1.1) (q2.1) in
                        Runs->>=
                          (scopes-Keeps o recur x p (R.entries (w.classes p).function_table) w
                            (CallsPlaced-Grows g2 calls) (IsPlaced-Grows o p (q2.1) placed_v)
                            (q2.0))
                          (λ t q3. ends (
                            q3.0,
                            Grows-trans o g (Grows-trans o g2 (q3.1)),
                            (q3.1).stays k p (g2.stays k p there),
                            refl,
                          ))))))

      entry_for-Runs :
          (x : ℕ) (late : Bool) (p : Option ℕ) (s : Ours o)
          → x < base
          → IsSound o s
          → missing o s * depth + rank x < suc n
          → R.find s.class_table (key_of o (s.classes x)) ≡ p
          → Entered x s (entry_for F R P K recur source x late p s)
      unfolding entry_for known_entry
      entry_for-Runs x late (some p) s low sound fuel there =
          simp (sound.known p) (ends (sound, Grows-refl o s, there, refl))
      entry_for-Runs x late none s low sound fuel unknown =
          let e : s.classes x ≡ entries x = sound.unchanged x low in
          let none_there = rw e at unknown in
          let pos : 0 < n = some_fuel x s low fuel none_there in
          elim (Bool-cases (entries x).immutable) [
            | inl fixed ↦ immutable_entry x s low sound pos fuel none_there late fixed
            | inr own_copy ↦ copied_entry x s low sound pos fuel none_there late own_copy
          ]
        where
          some_fuel :
              (x : ℕ) (s : Ours o)
              → x < base
              → missing o s * depth + rank x < suc n
              → R.find s.class_table (key_of o (entries x)) ≡ none
              → 0 < n
          some_fuel x s low fuel unknown = omega (
            arith,
            ordered.bounded x low,
            mul_mono 1 (missing o s) depth (
                omega (
                  arith,
                  count_below-lt (λ a. not (found o s (key_of o (entries a)))) (λ a. false) base x
                      (λ a l h. absurd (cc h)) low (rw unknown refl) refl,
                )),
          )

      create-Entered :
          (x : ℕ) (late : Bool) (s : Ours o)
          → x < base
          → IsSound o s
          → (entries x).builtin ≡ false
          → (entries x).preloaded ≡ false
          → missing o s * depth + rank x < suc n
          → Entered x s (create F R P K recur source (some x) late s)
      unfolding create
      create-Entered x late s low sound user loaded fuel =
          let e : s.classes x ≡ entries x = sound.unchanged x low in
          simp
            (
              ap (λ (c : Class F R P K). c.builtin) e ∙ user,
              ap (λ (c : Class F R P K). c.preloaded) e ∙ loaded,
            )
            (entry_for-Runs x late (R.find s.class_table (key_of o (s.classes x))) s low sound fuel
              refl)

      known-Answers :
          (x : ℕ) (late : Bool) (p : Option ℕ) (s : Ours o)
          → IsSound o s
          → R.find s.class_table (key_of o (s.classes x)) ≡ p
          → is_some p ≡ true
          → Answers o s (some x) (entry_for F R P K recur source x late p s)
      unfolding entry_for known_entry
      known-Answers x late none s sound e known = absurd (cc known)
      known-Answers x late (some p) s sound e known =
          simp (sound.known p)
            (ends (sound, Grows-refl o s, λ b h. found_lem x b s s sound (e ∙ h)))

      builtin_lem :
          (x b : ℕ) (s : Ours o)
          → IsSound o s
          → source.lookup_class (s.classes x).class_name.bytes ≡ some b
          → IsPlaced o s b
            × ((y : ℕ) → some x ≡ some y → room o (s.classes b) ≤ room o (s.classes y))
      builtin_lem x b s sound h =
          let (low, least) = ordered.builtins _ b h in
          (
            inl low,
            λ y e.
                subst (λ (j : ℕ). room o (s.classes b) ≤ room o (s.classes j)) (some_injective e)
                  (subst (λ (c : Class F R P K). room o c ≤ room o (s.classes x))
                    (sym (sound.unchanged b low)) least),
          )

      create-Answers :
          (a : Option ℕ) (late : Bool) (s : Ours o)
          → IsSound o s
          → Enough (suc n) s a
          → Answers o s a (create F R P K recur source a late s)
      unfolding create
      create-Answers none late s sound fuel = ends (sound, Grows-refl o s, λ a h. absurd (cc h))
      create-Answers (some x) late s sound fuel =
          elim (Bool-cases ((s.classes x).builtin || (s.classes x).preloaded)) [
            | inl internal ↦
                rw internal (ends (sound, Grows-refl o s, λ b h. builtin_lem x b s sound h))
            | inr user ↦ rw user (elim fuel [
              | inl (low, enough) ↦ Entered-Answers x s _ (
                  entry_for-Runs x late (R.find s.class_table (key_of o (s.classes x))) s low sound
                    enough refl)
              | inr (pos, l, known) ↦
                  known-Answers x late (R.find s.class_table (key_of o (s.classes x))) s sound refl
                    known
            ])
          ]

    pub create_entry-Answers :
        (n : ℕ) (s : Ours o) (late : Bool) (a : Option ℕ)
        → IsSound o s
        → Enough n s a
        → Answers o s a (create_entry F R P K n source a late s)
    unfolding create_entry
    create_entry-Answers zero s late none sound fuel = absurd (omega arith)
    create_entry-Answers zero s late (some x) sound (inl h) = absurd (omega arith)
    create_entry-Answers zero s late (some x) sound (inr h) = absurd (omega arith)
    create_entry-Answers (suc n) s late a sound fuel =
        create-Answers n (create_entry F R P K n source)
          (λ t late' a' q enough. create_entry-Answers n t late' a' q enough) a late s sound fuel

    -- A later call for a class that the thread has.
    create_entry-known :
        (m x p : ℕ) (late : Bool) (t : Ours o)
        → IsSound o t
        → (t.classes x).builtin ≡ false
        → (t.classes x).preloaded ≡ false
        → R.find t.class_table (key_of o (t.classes x)) ≡ some p
        → create_entry F R P K (suc m) source (some x) late t ≡ done (t, some p)
    unfolding create_entry create entry_for known_entry
    create_entry-known m x p late t sound user loaded there =
        simp (user, loaded, there, sound.known p)

    -- Whatever classes call for each other once they are registered: if parents and interfaces rank below
    -- what has them, all classes are linked and none is anonymous, the functions that classes and tables
    -- name are in memory, the arrays of traits end, constants have values that can be copied, and the
    -- slots of properties are those that a class has by its name, and the parent no more than the child,
    -- then, with fuel for a chain of ranks for each class that the thread lacks, copying a class of a
    -- program to a thread comes back without a fault, its tables of properties included; the thread has
    -- the result under the name of the class, has all classes that it had, and asking for the class again
    -- gives the same and changes nothing.
    pub create_entry-Registered :
        (fuel x : ℕ) (late : Bool) (s : Ours o)
        → IsSound o s
        → x < base
        → (entries x).builtin ≡ false
        → (entries x).preloaded ≡ false
        → missing o s * depth + rank x < fuel
        → Runs
            (λ r.
              Grows o s (r.0)
              × (R.find (r.0).class_table (key_of o (entries x)) ≡ r.1)
              × (is_some (r.1) ≡ true)
              × ((m : ℕ) (late' : Bool)
                  → create_entry F R P K (suc m) source (some x) late' (r.0) ≡ done r))
            (create_entry F R P K fuel source (some x) late s)
    unfolding create_entry
    create_entry-Registered zero x late s sound low user loaded enough = absurd (omega arith)
    create_entry-Registered (suc n) x late s sound low user loaded enough = registered _ (
        create-Entered n (create_entry F R P K n source)
          (λ t late' a' q fuel. create_entry-Answers n t late' a' q fuel) x late s low sound user
          loaded enough)
      where
        again :
            (t : Ours o) (r : Option ℕ)
            → IsSound o t
            → R.find t.class_table (key_of o (entries x)) ≡ r
            → is_some r ≡ true
            → (m : ℕ) (late' : Bool)
            → create_entry F R P K (suc m) source (some x) late' t ≡ done (t, r)
        again t none q there some_r m late' = absurd (cc some_r)
        again t (some p) q there some_r m late' =
            let e = q.unchanged x low in
            create_entry-known m x p late' t q (ap (λ (c : Class F R P K). c.builtin) e ∙ user)
              (ap (λ (c : Class F R P K). c.preloaded) e ∙ loaded)
              (ap (λ (c : Class F R P K). R.find t.class_table (key_of o c)) e ∙ there)

        registered :
            (m : Outcome (Ours o × Option ℕ))
            → Entered x s m
            → Runs
                (λ r.
                  Grows o s (r.0)
                  × (R.find (r.0).class_table (key_of o (entries x)) ≡ r.1)
                  × (is_some (r.1) ≡ true)
                  × ((m : ℕ) (late' : Bool)
                      → create_entry F R P K (suc m) source (some x) late' (r.0) ≡ done r))
                m
        registered _ (ends {a = r} q) =
            let there : R.find (r.0).class_table (key_of o (entries x)) ≡ r.1 =
              ap (λ (c : Class F R P K). R.find (r.0).class_table (key_of o c))
                (sym (sound.unchanged x low))
              ∙ q.2 in
            ends (q.1, there, q.3, again (r.0) (r.1) (q.0) there (q.3))

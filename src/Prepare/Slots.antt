-- ===== src/Prepare/Slots.antt =====
-- src/prepare.c: the slots of a class's properties have room for all that is written there.
use pthreads.Base.{
  ℕ, zero, suc, ◌+◌, ◌≡◌, ◌≤◌, ◌<◌, inl, inr, refl, ◌∙◌, true, ◌&&◌, not, Option, none, some, List,
  [], ◌∷◌, ◌++◌, arith, Bool-cases, leb, length, length-drop, take, drop, is_some,
}
use pthreads.Zend.Key.{Key, same_key}
use pthreads.Zend.Hash.{put}
use pthreads.Prepare.Classes.{each, or_dangling, PropertyInfo, Class}
use pthreads.Prepare.Traits.{write_pointer, allocate}
use pthreads.Prepare.Properties.{
  is_at, set_property_slot, copy_parent_slots, parent_slots, prepare_property_slots, add_property,
  copied_info,
}
use pthreads.Prepare.Frame.{Runs, ends, Runs->>=, Origin, Ours, room, HasSlot, IsFit, IsSound, All}

module _ {A : Type 0} where
  length-allocate : (junk : Option A) (n : ℕ) → length (allocate junk n) ≡ n
  unfolding allocate
  length-allocate junk zero = refl
  length-allocate junk (suc n) = omega (arith, length-allocate junk n)

  length-take-append :
      (n : ℕ) (xs ys : List A) → n ≤ length xs → length (take n xs ++ ys) ≡ n + length ys
  length-take-append zero xs ys h = omega arith
  length-take-append (suc n) [] ys h = absurd (omega arith)
  length-take-append (suc n) (x ∷ xs) ys h = omega (arith, length-take-append n xs ys (omega arith))

  write_pointer-some :
      (xs : List (Option A)) (i : ℕ) (v : Option A)
      → i < length xs
      → (ys : List (Option A)) × (write_pointer xs i v ≡ some ys) × (length ys ≡ length xs)
  unfolding write_pointer
  write_pointer-some [] i v h = absurd (omega arith)
  write_pointer-some (x ∷ xs) zero v h = (v ∷ xs, refl, refl)
  write_pointer-some (x ∷ xs) (suc i) v h =
      let (ys, e, l) = write_pointer-some xs i v (omega arith) in
      (x ∷ ys, rw e refl, omega (arith, l))

module _ (o : Origin) where
  open o use {F, R, P, K, source, base}

  set_slots-Runs :
      (p n : ℕ) (es : List (Key × PropertyInfo)) (slots : List (Option PropertyInfo))
      → All o (λ e. HasSlot o n (e.1)) es
      → length slots ≡ n
      → Runs (λ r. length r ≡ n) (each (set_property_slot F R P K p) es slots)
  unfolding each set_property_slot or_dangling
  set_slots-Runs p n [] slots have e = ends e
  set_slots-Runs p n ((k, i) ∷ es) slots have e =
      Runs->>= {Q = λ r. length r ≡ n}
        (elim (Bool-cases (is_at i.owner p && not i.is_static)) [
          | inl own ↦
              let (full, at_slot, l) =
                write_pointer-some slots i.slot (some i) (rw e (have.0 (ground arith))) in
              rw (own, at_slot) (ends (l ∙ e))
          | inr other ↦ rw other (ends e)
        ])
        (λ slots' e'. set_slots-Runs p n es slots' (have.1) e')

  copy_parent_slots-Runs :
      (n : ℕ) (from slots : List (Option PropertyInfo))
      → n ≤ length from
      → n ≤ length slots
      → Runs (λ r. length r ≡ length slots) (copy_parent_slots F R P K n from slots)
  unfolding copy_parent_slots
  copy_parent_slots-Runs n from slots h h' =
      let readable : leb n (length from) ≡ true = ground arith in
      let writable : leb n (length slots) ≡ true = ground arith in
      rw (readable, writable)
        (ends (omega (arith, length-take-append n from (drop n slots) h, length-drop n slots)))

  parent_slots-Runs :
      (s : Ours o) (a : Option ℕ) (slots : List (Option PropertyInfo))
      → IsSound o s
      → ((b : ℕ) → a ≡ some b → room o (s.classes b) ≤ length slots)
      → Runs (λ r. length r ≡ length slots) (parent_slots F R P K s a slots)
  unfolding parent_slots
  parent_slots-Runs s none slots sound h = ends refl
  parent_slots-Runs s (some b) slots sound h =
      copy_parent_slots-Runs (length (s.classes b).default_properties)
        (s.classes b).properties_table slots (sound.fit b).covered
        (omega (arith, (sound.fit b).counted, h b refl))

  -- Where the name of a class gives it no more properties than the candidate has, its slots are made.
  pub property_slots-Runs :
      (c : Class F R P K) (p : ℕ) (s : Ours o)
      → room o (s.classes p) ≤ length c.default_properties
      → IsSound o s
      → Runs (λ r. length r ≡ length c.default_properties) (prepare_property_slots F R P K c p s)
  unfolding prepare_property_slots
  property_slots-Runs c p s enough sound =
      let n = length c.default_properties in
      let blank : List (Option PropertyInfo) = allocate none n in
      let size : length blank ≡ n = length-allocate none n in
      Runs->>=
        (parent_slots-Runs s (s.classes p).parent blank sound
          (λ b h. omega (arith, (sound.heirs p b h).1, size, enough)))
        (λ slots e.
          set_slots-Runs p n (P.entries (s.classes p).properties_info) slots
            (wider (room o (s.classes p)) n (P.entries (s.classes p).properties_info) enough
              (sound.fit p).fits)
            (e ∙ size))
    where
      wider :
          (m n : ℕ) (es : List (Key × PropertyInfo))
          → m ≤ n
          → All o (λ e. HasSlot o m (e.1)) es
          → All o (λ e. HasSlot o n (e.1)) es
      wider m n [] h have = tt
      wider m n (e ∷ es) h have = (λ d. omega (arith, have.0 d), wider m n es h (have.1))

  put-HasSlot :
      (n : ℕ) (k : Key) (i : PropertyInfo) (es : List (Key × PropertyInfo))
      → HasSlot o n i
      → All o (λ e. HasSlot o n (e.1)) es
      → All o (λ e. HasSlot o n (e.1)) (put k i es)
  put-HasSlot n k i [] h have = (h, tt)
  put-HasSlot n k i ((j, i') ∷ es) h have = elim (Bool-cases (same_key j k)) [
    | inl e ↦ rw e (h, have.1)
    | inr e ↦ rw e (have.0, put-HasSlot n k i es h (have.1))
  ]

  pub add_property-IsFit :
      (k : Key) (r : Option ℕ) (i : PropertyInfo) (q : Class F R P K)
      → HasSlot o (room o q) i
      → IsFit o q
      → IsFit o (add_property F R P K source k r i q)
  add_property-IsFit k r i q slot h = record {
    linked = h.linked;
    fits = elim (Bool-cases (is_some (P.find q.properties_info k))) [
      | inl there ↦ rw there h.fits
      | inr new ↦
          rw (new, P.entries_update q.properties_info k (copied_info F R P K source r i))
            (put-HasSlot (room o q) k (copied_info F R P K source r i) (P.entries q.properties_info)
              slot h.fits)
    ];
    counted = h.counted;
    covered = h.covered;
  }

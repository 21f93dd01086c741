-- ===== src/Prepare/Frame.antt =====
-- src/prepare.c: what every step of copying a class leaves as it is, and how it comes back.
use pthreads.Base.{
  length, sym, ==_iff, ℕ, suc, ◌≡◌, ◌≢◌, ◌≤◌, ◌<◌, ◌⊎◌, inl, inr, refl, ap, ◌∙◌, Bool, true, false,
  ◌&&◌, Option, none, some, List, [], ◌∷◌, ◌==◌, if◌then◌else◌, is_some, arith, Option-cases,
  Bool-cases, some_injective, subst, ==_ne,
}
use pthreads.Zend.Key.{Key, name, same_key, same_key_refl, same_key-eq}
use pthreads.Zend.Hash.{HashApi, find-update}
use pthreads.Copy.{Value, ZString}
use pthreads.Copy.Function.Whole.{Functions}
use pthreads.Prepare.Classes.{
  Outcome, done, ◌>>=◌, each, or_dangling, PropertyInfo, ClassConstant, Class, Thread, Source,
  modify, register, copy_into,
}
use pthreads.Prepare.Entry.{change}
use pthreads.Prepare.Stock.{IsThere, IsResolved, Stocked, copy_function-Stocked}

-- A run comes back, with what is said of its result.
pub data Runs {A : Type 0} (Q : A → Type 0) : Outcome A → Type 0 where
  ends : {a : A} → Q a → Runs Q (done a)

pub Runs->>= :
    {A B : Type 0} {Q : A → Type 0} {Q' : B → Type 0} {m : Outcome A} {f : A → Outcome B}
    → Runs Q m
    → ((a : A) → Q a → Runs Q' (f a))
    → Runs Q' (m >>= f)
unfolding ◌>>=◌
Runs->>= (ends q) k = k _ q

pub Runs-map :
    {A : Type 0} {Q Q' : A → Type 0} {m : Outcome A} → Runs Q m → ((a : A) → Q a → Q' a) → Runs Q' m
Runs-map (ends q) k = ends (k _ q)

pub Runs-or_dangling :
    {A : Type 0} (Q : A → Type 0) (o : Option A) (a : A) → o ≡ some a → Q a → Runs Q (or_dangling o)
unfolding or_dangling
Runs-or_dangling Q o a there q = rw there (ends q)

-- The classes of the thread that is copied from, at the addresses below `base`, and how many properties
-- that are not static a class of a name has.
pub record Origin : Type 1 where
  pub F : HashApi ZString
  pub R : HashApi ℕ
  pub P : HashApi PropertyInfo
  pub K : HashApi ClassConstant
  pub source : Source F R P K
  pub entries : ℕ → Class F R P K
  pub base : ℕ
  pub slots_of : Key → ℕ

module _ (o : Origin) where
  open o use {F, R, P, K, source, entries, base, slots_of}

  abbrev pub Ours : Type 0
  Ours = Thread F R P K

  abbrev pub key_of : Class F R P K → Key
  key_of c = name (source.lower c.class_name.bytes)

  -- The properties that a class has by its name.
  abbrev pub room : Class F R P K → ℕ
  room c = slots_of (key_of c)

  pub room-name : (c d : Class F R P K) → c.class_name ≡ d.class_name → room c ≡ room d
  room-name c d = ap (λ (n : ZString). slots_of (name (source.lower n.bytes)))

  abbrev pub found : Ours → Key → Bool
  found s k = is_some (R.find s.class_table k)

  -- The class at an address is one of the other thread's, or one whose name the thread knows.
  abbrev pub IsPlaced : Ours → ℕ → Type 0
  IsPlaced s a = (a < base) ⊎ ((a < s.next) × (found s (key_of (s.classes a)) ≡ true))

  abbrev pub All : {A : Type 0} → (A → Type 0) → List A → Type 0
  All Q [] = Unit {0}
  All Q (a ∷ as') = Q a × All Q as'

  -- A function is in memory.
  abbrev pub Present : Ours → ℕ → Type 0
  Present s = IsThere F R s.functions

  abbrev pub AllPresent : Ours → List (Key × ℕ) → Type 0
  AllPresent s = All (λ e. Present s (e.1))

  -- The slot of a property that is not static is one of `n`.
  abbrev pub HasSlot : ℕ → PropertyInfo → Type 0
  HasSlot n i = i.is_static ≡ false → i.slot < n

  -- A linked class whose properties have slots, and no fewer slots than default values.
  pub record IsFit (c : Class F R P K) : Type 0 where
    pub linked : c.linked ≡ true
    pub fits : All (λ e. HasSlot (room c) (e.1)) (P.entries c.properties_info)
    pub counted : length c.default_properties ≤ room c
    pub covered : length c.default_properties ≤ length c.properties_table

  pub record IsSound (s : Ours) : Type 0 where
    pub fit : (a : ℕ) → IsFit (s.classes a)
    pub heirs :
        (a b : ℕ)
        → (s.classes a).parent ≡ some b
        → (b < s.next) × (room (s.classes b) ≤ room (s.classes a))
    pub named :
        (k : Key) (a : ℕ) → R.find s.class_table k ≡ some a → room (s.classes a) ≤ slots_of k
    pub unchanged : (a : ℕ) → a < base → s.classes a ≡ entries a
    pub known : (a : ℕ) → (s.classes a).anonymous ≡ false
    pub placed : (f a : ℕ) → s.scope f ≡ some a → IsPlaced s a
    pub tabled : (k : Key) (a : ℕ) → R.find s.class_table k ≡ some a → IsPlaced s a
    pub above : base ≤ s.next
    pub resolved : IsResolved F R s.functions
    pub methods : (a : ℕ) → a < base → AllPresent s (R.entries (entries a).function_table)
    pub closures : AllPresent s (R.entries source.source_functions)

  pub record Grows (s t : Ours) : Type 0 where
    pub stays :
        (k : Key) (a : ℕ) → R.find s.class_table k ≡ some a → R.find t.class_table k ≡ some a
    pub names : (a : ℕ) → a < s.next → (t.classes a).class_name ≡ (s.classes a).class_name
    pub more : s.next ≤ t.next
    pub present : (f : ℕ) → Present s f → Present t f

  pub Grows-refl : (s : Ours) → Grows s s
  Grows-refl s = record {
    stays = λ k a h. h;
    names = λ a h. refl;
    more = omega arith;
    present = λ f h. h;
  }

  pub Grows-trans : {s t u : Ours} → Grows s t → Grows t u → Grows s u
  Grows-trans g h = record {
    stays = λ k a e. h.stays k a (g.stays k a e);
    names = λ a l. h.names a (omega (arith, g.more)) ∙ g.names a l;
    more = omega (arith, g.more, h.more);
    present = λ f e. h.present f (g.present f e);
  }

  abbrev pub Keeps : Ours → Outcome Ours → Type 0
  Keeps s = Runs (λ t. IsSound t × Grows s t)

  pub found-Grows : {s t : Ours} (k : Key) → Grows s t → found s k ≡ true → found t k ≡ true
  found-Grows {s} {t} k g h = elim (Option-cases (R.find s.class_table k)) [
    | inl none_there ↦ absurd (cc (rw none_there at h))
    | inr (a, there) ↦ rw (g.stays k a there) refl
  ]

  pub placed_below : (s : Ours) (a : ℕ) → IsSound s → IsPlaced s a → a < s.next
  placed_below s a sound (inl low) = omega (arith, sound.above)
  placed_below s a sound (inr (l, h)) = l

  -- A place is kept where names are, and what is found is found still.
  pub IsPlaced-kept :
      (s t : Ours) (a : ℕ)
      → (a < s.next → (t.classes a).class_name ≡ (s.classes a).class_name)
      → ((k : Key) → found s k ≡ true → found t k ≡ true)
      → s.next ≤ t.next
      → IsPlaced s a
      → IsPlaced t a
  IsPlaced-kept s t a names kept more (inl low) = inl low
  IsPlaced-kept s t a names kept more (inr (low, h)) = inr (
    omega arith,
    ap (λ (n : ZString). found t (name (source.lower n.bytes))) (names low) ∙ kept _ h,
  )

  pub IsPlaced-Grows : {s t : Ours} (a : ℕ) → Grows s t → IsPlaced s a → IsPlaced t a
  IsPlaced-Grows {s} {t} a g h = IsPlaced-kept s t a (g.names a) (λ k. found-Grows k g) g.more h

  -- A run that follows on another one.
  pub Keeps-after : {s t : Ours} {m : Outcome Ours} → Grows s t → Keeps t m → Keeps s m
  Keeps-after g (ends (sound, h)) = ends (sound, Grows-trans g h)

  pub Keeps->>= :
      {s : Ours} {m : Outcome Ours} {f : Ours → Outcome Ours}
      → Keeps s m
      → ((t : Ours) → IsSound t → Grows s t → Keeps t (f t))
      → Keeps s (m >>= f)
  Keeps->>= r k = Runs->>= r (λ t q. Keeps-after (q.1) (k t (q.0) (q.1)))

  -- Both branches of a test.
  pub if-Keeps :
      {s : Ours} {m m' : Outcome Ours} (b : Bool)
      → (b ≡ true → Keeps s m)
      → (b ≡ false → Keeps s m')
      → Keeps s (if b then m else m')
  if-Keeps true h h' = h refl
  if-Keeps false h h' = h' refl

  pub All-map :
      {A : Type 0} (Q Q' : A → Type 0)
      → ((a : A) → Q a → Q' a)
      → (as' : List A) → All Q as'
      → All Q' as'
  All-map Q Q' f [] h = tt
  All-map Q Q' f (a ∷ as') h = (f a (h.0), All-map Q Q' f as' (h.1))

  -- A loop keeps what each of its rounds keeps.
  pub each-Keeps :
      {A : Type 0} (body : A → Ours → Outcome Ours) (s : Ours) (as' : List A)
      → All (λ a. (t : Ours) → IsSound t → Grows s t → Keeps t (body a t)) as'
      → (t : Ours) → IsSound t
      → Grows s t
      → Keeps t (each body as' t)
  unfolding each
  each-Keeps body s [] h t sound g = ends (sound, Grows-refl t)
  each-Keeps body s (a ∷ as') h t sound g =
      Keeps->>= ((h.0) t sound g)
        (λ u sound' g'. each-Keeps body s as' (h.1) u sound' (Grows-trans g g'))

  pub change_at-Keeps :
      (p : ℕ) (f : Class F R P K → Class F R P K) (s : Ours)
      → base ≤ p
      → ((q : Class F R P K) → (f q).class_name ≡ q.class_name)
      → ((q : Class F R P K) → q.anonymous ≡ false → (f q).anonymous ≡ false)
      → IsFit (f (s.classes p))
      → ((b : ℕ)
          → (f (s.classes p)).parent ≡ some b
          → (b < s.next) × (room (s.classes b) ≤ room (s.classes p)))
      → IsSound s
      → Keeps s (change F R P K p f s)
  unfolding change
  change_at-Keeps p f s high name_kept known fit heir sound =
      let t = modify F R P K p f s in
      let names : (a : ℕ) → (t.classes a).class_name ≡ (s.classes a).class_name = λ a.
        elim (Bool-cases (p == a)) [ inl e ↦ rw e (name_kept (s.classes a)) | inr e ↦ rw e refl ] in
      let rooms : (a : ℕ) → room (t.classes a) ≡ room (s.classes a) =
        λ a. room-name (t.classes a) (s.classes a) (names a) in
      let grows : Grows s t = record {
        stays = λ k a h. h;
        names = λ a l. names a;
        more = omega arith;
        present = λ g h. h;
      } in
      ends (
        record {
          fit = λ a. elim (Bool-cases (p == a)) [
            | inl e ↦ rw e (subst (λ (b : ℕ). IsFit (f (s.classes b))) ((==_iff p a).0 e) fit)
            | inr e ↦ rw e (sound.fit a)
          ];
          heirs = λ a b h.
              rw (rooms a, rooms b)
                (elim (Bool-cases (p == a)) [
                  | inl e ↦
                      let same = (==_iff p a).0 e in
                      let own : (f (s.classes p)).parent ≡ some b =
                        ap (λ (j : ℕ). (f (s.classes j)).parent) same ∙ (rw e at h) in
                      subst (λ (j : ℕ). (b < s.next) × (room (s.classes b) ≤ room (s.classes j)))
                        same (heir b own)
                  | inr e ↦ sound.heirs a b (rw e at h)
                ]);
          named = λ k a h. rw (rooms a) (sound.named k a h);
          unchanged = λ a l.
              let ne : p ≢ a = λ e. absurd (omega (arith, e)) in
              rw (==_ne ne) (sound.unchanged a l);
          known = λ a. elim (Bool-cases (p == a)) [
            | inl e ↦ rw e (known (s.classes a) (sound.known a))
            | inr e ↦ rw e (sound.known a)
          ];
          placed = λ g a h. IsPlaced-Grows a grows (sound.placed g a h);
          tabled = λ k a h. IsPlaced-Grows a grows (sound.tabled k a h);
          above = sound.above;
          resolved = sound.resolved;
          methods = sound.methods;
          closures = sound.closures;
        },
        grows,
      )

  -- What the conditions above look at.
  abbrev pub Core : Type 0
  Core = ZString × Bool × Bool × Option ℕ × P.Table × List Value × List (Option PropertyInfo)

  abbrev pub core : Class F R P K → Core
  core q = (
    q.class_name, q.anonymous, q.linked, q.parent, q.properties_info, q.default_properties,
    q.properties_table,
  )

  IsFit-core : (c d : Class F R P K) → core d ≡ core c → IsFit c → IsFit d
  IsFit-core c d e h = record {
    linked = ap (λ (k : Core). k.2) e ∙ h.linked;
    fits =
        subst
          (λ (k : Core).
            All
              (λ (x : Key × PropertyInfo).
                HasSlot (slots_of (name (source.lower (k.0).bytes))) (x.1))
              (P.entries (k.4)))
          (sym e) h.fits;
    counted =
        subst (λ (k : Core). length (k.5) ≤ slots_of (name (source.lower (k.0).bytes))) (sym e)
          h.counted;
    covered = subst (λ (k : Core). length (k.5) ≤ length (k.6)) (sym e) h.covered;
  }

  -- A change that leaves all of that alone.
  pub change-Keeps :
      (p : ℕ) (f : Class F R P K → Class F R P K) (s : Ours)
      → base ≤ p
      → ((q : Class F R P K) → core (f q) ≡ core q)
      → IsSound s
      → Keeps s (change F R P K p f s)
  change-Keeps p f s high same sound =
      change_at-Keeps p f s high (λ q. ap (λ (k : Core). k.0) (same q))
        (λ q e. ap (λ (k : Core). k.1) (same q) ∙ e)
        (IsFit-core (s.classes p) (f (s.classes p)) (same (s.classes p)) (sound.fit p))
        (λ b h. sound.heirs p b (sym (ap (λ (k : Core). k.3) (same (s.classes p))) ∙ h)) sound

  pub IsPlaced-same :
      (s t : Ours) (a : ℕ)
      → t.classes ≡ s.classes
      → t.class_table ≡ s.class_table
      → s.next ≤ t.next
      → IsPlaced s a
      → IsPlaced t a
  IsPlaced-same s t a classes table more (inl low) = inl low
  IsPlaced-same s t a classes table more (inr (low, h)) = inr (omega arith, rw (classes, table) h)

  pub AllPresent-Stocked :
      (s t : Ours) (fs : List (Key × ℕ))
      → Stocked F R s.functions t.functions
      → AllPresent s fs
      → AllPresent t fs
  AllPresent-Stocked s t fs stock =
      All-map (λ (e : Key × ℕ). Present s (e.1)) (λ (e : Key × ℕ). Present t (e.1))
        (λ e. stock.0 (e.1)) fs

  -- A state with other functions and other static properties only.
  pub functions-Keeps :
      (s t : Ours)
      → IsSound s
      → t.classes ≡ s.classes
      → t.class_table ≡ s.class_table
      → s.next ≤ t.next
      → Stocked F R s.functions t.functions
      → ((g a : ℕ) → t.scope g ≡ some a → IsPlaced t a)
      → IsSound t × Grows s t
  functions-Keeps s t sound classes table more stock placed = (
    record {
      fit = λ a. rw classes (sound.fit a);
      heirs = λ a b h.
          let (l, least) = sound.heirs a b (rw classes at h) in (omega arith, rw classes least);
      named = λ k a h. rw classes (sound.named k a (rw table at h));
      unchanged = λ a l. rw classes (sound.unchanged a l);
      known = λ a. rw classes (sound.known a);
      placed = placed;
      tabled = λ k a h. IsPlaced-same s t a classes table more (sound.tabled k a (rw table at h));
      above = omega (arith, sound.above);
      resolved = stock.1;
      methods = λ a l.
          AllPresent-Stocked s t (R.entries (entries a).function_table) stock (sound.methods a l);
      closures = AllPresent-Stocked s t (R.entries source.source_functions) stock sound.closures;
    },
    record {
      stays = λ k a h. rw table h;
      names = λ a l. rw classes refl;
      more = more;
      present = stock.0;
    },
  )

  abbrev pub after_copy : ℕ → Ours → Functions F R × ℕ → Ours
  after_copy f s r = record s {
    functions = r.0;
    scope = λ (x : ℕ).
        if (r.1 == x) && ((source.places s.next).function_at == x) then s.scope f else s.scope x;
    next = suc s.next;
  }

  copied_into :
      (f : ℕ) (s : Ours)
      → IsSound s
      → (r : Functions F R × ℕ) → Stocked F R s.functions (r.0)
      → IsSound (after_copy f s r) × Grows s (after_copy f s r)
  copied_into f s sound r stock =
      let t : Ours = after_copy f s r in
      functions-Keeps s t sound refl refl (omega arith) stock (λ g a h.
        IsPlaced-same s t a refl refl (omega arith)
          (elim (Bool-cases ((r.1 == g) && ((source.places s.next).function_at == g))) [
            | inl e ↦ sound.placed f a (rw e at h)
            | inr e ↦ sound.placed g a (rw e at h)
          ]))

  pub copy_into-Runs :
      (f : ℕ) (s : Ours)
      → IsSound s
      → Present s f
      → Runs (λ r. IsSound (r.0) × Grows s (r.0)) (copy_into F R P K source f s)
  unfolding copy_into
  copy_into-Runs f s sound there = elim (Option-cases (s.functions.functions f)) [
    | inl nothing ↦ absurd (cc (rw nothing at there))
    | inr (g, at_f) ↦
        let (r, copied, stock) =
          copy_function-Stocked F R source.engine source.opcodes (source.places s.next) f g
            s.functions sound.resolved at_f in
        Runs->>= (Runs-or_dangling (λ r'. Stocked F R s.functions (r'.0)) _ r copied stock)
          (λ (r' : Functions F R × ℕ) stock'. ends (copied_into f s sound r' stock'))
  ]

  -- Registering a class under its name, which was unknown before.
  pub register-Keeps :
      (k : Key) (x : ℕ) (s t : Ours)
      → IsSound t
      → Grows s t
      → R.find s.class_table k ≡ none
      → (x < base) ⊎ ((x < t.next) × (key_of (t.classes x) ≡ k))
      → key_of (t.classes x) ≡ k
      → IsSound (register F R P K k x t)
        × Grows s (register F R P K k x t)
        × (R.find (register F R P K k x t).class_table k ≡ some x)
  register-Keeps k x s t sound g unknown at_x same =
      let u : Ours = register F R P K k x t in
      let there : R.find u.class_table k ≡ some x =
        rw (find-update R t.class_table k k x, same_key_refl k) refl in
      let kept : (j : Key) → found t j ≡ true → found u j ≡ true = λ j h.
        rw (find-update R t.class_table k j x)
          (elim (Bool-cases (same_key k j)) [ inl e ↦ rw e refl | inr e ↦ rw e h ]) in
      let moved : (a : ℕ) → IsPlaced t a → IsPlaced u a =
        λ a. IsPlaced-kept t u a (λ l. refl) kept (omega arith) in
      let placed_x : IsPlaced u x = elim at_x [
        | inl low ↦ inl low
        | inr (low, e) ↦ inr (low, ap (found u) e ∙ ap is_some there)
      ] in
      (
        record {
          fit = sound.fit;
          heirs = sound.heirs;
          named = λ j a h. elim (Bool-cases (same_key k j)) [
            | inl e ↦
                let at_a = some_injective (rw (find-update R t.class_table k j x, e) at h) in
                omega (
                  arith,
                  ap (λ (b : ℕ). room (t.classes b)) at_a,
                  ap slots_of same,
                  ap slots_of (same_key-eq k j e),
                )
            | inr e ↦ sound.named j a (rw (find-update R t.class_table k j x, e) at h)
          ];
          unchanged = sound.unchanged;
          known = sound.known;
          placed = λ f a h. moved a (sound.placed f a h);
          tabled = λ j a h. elim (Bool-cases (same_key k j)) [
            | inl e ↦
                subst (IsPlaced u) (some_injective (rw (find-update R t.class_table k j x, e) at h))
                  placed_x
            | inr e ↦ moved a (sound.tabled j a (rw (find-update R t.class_table k j x, e) at h))
          ];
          above = sound.above;
          resolved = sound.resolved;
          methods = sound.methods;
          closures = sound.closures;
        },
        record {
          stays = λ j a h.
              rw (find-update R t.class_table k j x) (elim (Bool-cases (same_key k j)) [
                | inl e ↦ absurd (cc (unknown, rw (← same_key-eq k j e) at h))
                | inr e ↦ rw e (g.stays j a h)
              ]);
          names = g.names;
          more = g.more;
          present = g.present;
        },
        there,
      )

  pub scope-Keeps :
      (f : ℕ) (r : Option ℕ) (s : Ours)
      → IsSound s
      → ((a : ℕ) → r ≡ some a → IsPlaced s a)
      → Keeps s (done (record s { scope = λ (a : ℕ). if f == a then r else s.scope a }))
  scope-Keeps f r s sound h =
      let t : Ours = record s { scope = λ (a : ℕ). if f == a then r else s.scope a } in
      ends (
        functions-Keeps s t sound refl refl (omega arith) (λ g h. h, sound.resolved)
          (λ g a e. IsPlaced-same s t a refl refl (omega arith) (elim (Bool-cases (f == g)) [
            | inl y ↦ h a (rw y at e)
            | inr y ↦ sound.placed g a (rw y at e)
          ])))

-- ===== src/Globals/Intern.antt =====
-- `pthreads_globals_add_interned_string` in src/globals.c: one string for all threads of the same bytes.
use pthreads.Base.{
  ℕ, ◌≡◌, inl, inr, refl, sym, ap, ◌∙◌, true, false, Option, none, some, List, [], if◌then◌else◌,
  Bool-cases, Option-cases, some_injective,
}
use pthreads.Base.Int.{ℤ}
use pthreads.Zend.Key.{Key, index, name, same_key, same_key-eq, same_key_refl}
use pthreads.Zend.Hash.{HashApi, find-update}
use pthreads.Globals.{
  SharedString, PermanentTable, Globals, find_interned_string, add_interned_string, new_interned,
}

abbrev key_bytes : Key → List ℕ
key_bytes (index i) = []
key_bytes (name b) = b

module _ (I : HashApi SharedString) (K : HashApi ℤ) (z : PermanentTable) where
  -- The table keeps permanent strings under their bytes.
  abbrev pub IsInterned : Globals I K → Type 0
  IsInterned g =
      (b : List ℕ) (s : SharedString)
      → I.find g.interned_strings (name b) ≡ some s
      → (s.bytes ≡ b) × (s.permanent ≡ true)

  -- What adding the string `s` answers and leaves.
  pub record Added (fresh : ℕ) (g : Globals I K) (s : SharedString) : Type 0 where
    pub same_bytes : (add_interned_string I K z fresh g s).1.bytes ≡ s.bytes
    pub permanent : (add_interned_string I K z fresh g s).1.permanent ≡ true
    pub kept : IsInterned (add_interned_string I K z fresh g s).0
    pub older :
        (t r : SharedString)
        → find_interned_string I K z g t ≡ some r
        → find_interned_string I K z (add_interned_string I K z fresh g s).0 t ≡ some r
    pub again :
        (t : SharedString) (other : ℕ)
        → s.permanent ≡ false
        → t.permanent ≡ false
        → t.bytes ≡ s.bytes
        → add_interned_string I K z other (add_interned_string I K z fresh g s).0 t
          ≡ add_interned_string I K z fresh g s

  found_string :
      (g : Globals I K) (s r : SharedString)
      → IsInterned g
      → s.permanent ≡ false
      → find_interned_string I K z g s ≡ some r
      → (r.bytes ≡ s.bytes) × (r.permanent ≡ true)
  unfolding find_interned_string
  found_string g s r i p e = elim (Option-cases (z.find_permanent s.bytes)) [
    | inr (q, h) ↦
        let same : q ≡ r = some_injective (rw (p, h) at e) in
        rw⁻¹ same (z.found_bytes s.bytes q h, z.found_permanent s.bytes q h)
    | inl h ↦ i s.bytes r (rw (p, h) at e)
  ]

  abbrev search : Globals I K → List ℕ → Option SharedString
  search g b = elim (z.find_permanent b) [
    | some r ↦ some r
    | none ↦ I.find g.interned_strings (name b)
  ]

  find-search :
      (g : Globals I K) (s : SharedString)
      → s.permanent ≡ false
      → find_interned_string I K z g s ≡ search g s.bytes
  unfolding find_interned_string
  find-search g s p = simp p

  find_permanent_string :
      (g : Globals I K) (s : SharedString)
      → s.permanent ≡ true
      → find_interned_string I K z g s ≡ some s
  unfolding find_interned_string
  find_permanent_string g s p = simp p

  -- Two strings that are not permanent and have the same bytes are found alike.
  found_alike :
      (g : Globals I K) (s t : SharedString)
      → s.permanent ≡ false
      → t.permanent ≡ false
      → t.bytes ≡ s.bytes
      → find_interned_string I K z g t ≡ find_interned_string I K z g s
  found_alike g s t p q e = find-search g t q ∙ ap (search g) e ∙ sym (find-search g s p)

  add_permanent :
      (fresh : ℕ) (g : Globals I K) (s : SharedString)
      → s.permanent ≡ true
      → add_interned_string I K z fresh g s ≡ (g, s)
  unfolding add_interned_string
  add_permanent fresh g s p = simp p

  add_found :
      (fresh : ℕ) (g : Globals I K) (s r : SharedString)
      → s.permanent ≡ false
      → find_interned_string I K z g s ≡ some r
      → add_interned_string I K z fresh g s ≡ (g, r)
  unfolding add_interned_string
  add_found fresh g s r p e = simp (p, e)

  abbrev with_string : Globals I K → ℕ → SharedString → Globals I K
  with_string g fresh s = record g {
    interned_strings = I.update g.interned_strings (name s.bytes) (new_interned I K z fresh s);
  }

  add_new :
      (fresh : ℕ) (g : Globals I K) (s : SharedString)
      → s.permanent ≡ false
      → find_interned_string I K z g s ≡ none
      → add_interned_string I K z fresh g s ≡ (with_string g fresh s, new_interned I K z fresh s)
  unfolding add_interned_string
  add_new fresh g s p e = simp (p, e)

  unchanged-Added :
      (fresh : ℕ) (g : Globals I K) (s r : SharedString)
      → IsInterned g
      → (r.bytes ≡ s.bytes) × (r.permanent ≡ true)
      → add_interned_string I K z fresh g s ≡ (g, r)
      → (s.permanent ≡ false → find_interned_string I K z g s ≡ some r)
      → Added fresh g s
  unchanged-Added fresh g s r i q e found = record {
    same_bytes = simp (e, q.0);
    permanent = simp (e, q.1);
    kept = rw e i;
    older = λ t r h. rw e h;
    again = λ t other n m b. rw e (add_found other g t r m (found_alike g s t n m b ∙ found n));
  }

  -- A string that is not found anywhere is not in the table either.
  absent :
      (g : Globals I K) (b : List ℕ)
      → search g b ≡ none
      → (z.find_permanent b ≡ none) × (I.find g.interned_strings (name b) ≡ none)
  absent g b e = elim (Option-cases (z.find_permanent b)) [
    | inl n ↦ (n, rw (n, search) at e)
    | inr (r, h) ↦ absurd (let c = (rw (h, search) at e) in cc c)
  ]

  module _ (fresh : ℕ) (g : Globals I K) (s : SharedString) where
    find-with_string :
        (b : List ℕ)
        → I.find (with_string g fresh s).interned_strings (name b) ≡ (
            if same_key (name s.bytes) (name b)
            then some (new_interned I K z fresh s)
            else I.find g.interned_strings (name b))
    find-with_string b =
        find-update I g.interned_strings (name s.bytes) (name b) (new_interned I K z fresh s)

    -- A lookup under the bytes of the new string, and under others.
    find-same :
        (b : List ℕ)
        → same_key (name s.bytes) (name b) ≡ true
        → I.find (with_string g fresh s).interned_strings (name b)
          ≡ some (new_interned I K z fresh s)
    find-same b y = find-with_string b ∙ rw y refl

    find-other :
        (b : List ℕ)
        → same_key (name s.bytes) (name b) ≡ false
        → I.find (with_string g fresh s).interned_strings (name b)
          ≡ I.find g.interned_strings (name b)
    find-other b n = find-with_string b ∙ rw n refl

    with_string-IsInterned : IsInterned g → IsInterned (with_string g fresh s)
    with_string-IsInterned i b r h = elim (Bool-cases (same_key (name s.bytes) (name b))) [
      | inl y ↦
          let p : new_interned I K z fresh s ≡ r = some_injective (sym (find-same b y) ∙ h) in
          (
            ap SharedString.bytes (sym p) ∙ ap key_bytes (same_key-eq (name s.bytes) (name b) y),
            ap SharedString.permanent (sym p),
          )
      | inr n ↦ i b r (sym (find-other b n) ∙ h)
    ]

    search-older :
        (b : List ℕ) (r : SharedString)
        → search g s.bytes ≡ none
        → search g b ≡ some r
        → search (with_string g fresh s) b ≡ some r
    search-older b r e h = elim (Option-cases (z.find_permanent b)) [
      | inr (q, there) ↦ rw (there, search) (rw (there, search) at h)
      | inl gone ↦ elim (Bool-cases (same_key (name s.bytes) (name b))) [
        | inl y ↦
            let p : s.bytes ≡ b = ap key_bytes (same_key-eq (name s.bytes) (name b) y) in
            absurd (cc (e, h, ap (search g) p))
        | inr n ↦ rw (gone, search) (find-other b n ∙ (rw (gone, search) at h))
      ]
    ]

    search-new :
        search g s.bytes ≡ none
        → search (with_string g fresh s) s.bytes ≡ some (new_interned I K z fresh s)
    search-new e =
        let gone = (absent g s.bytes e).0 in
        rw (gone, search) (find-same s.bytes (same_key_refl (name s.bytes)))

    new-Added :
        IsInterned g → s.permanent ≡ false → find_interned_string I K z g s ≡ none → Added fresh g s
    new-Added i n e =
        let gone : search g s.bytes ≡ none = sym (find-search g s n) ∙ e in
        let added = add_new fresh g s n e in
        record {
          same_bytes = simp added;
          permanent = simp added;
          kept = rw added (with_string-IsInterned i);
          older = λ t r h. rw added (older t r gone h);
          again = λ t other p m b. rw added (
              add_found other (with_string g fresh s) t (new_interned I K z fresh s) m (
                find-search (with_string g fresh s) t m
                ∙ ap (search (with_string g fresh s)) b
                ∙ search-new gone));
        }
      where
        older :
            (t r : SharedString)
            → search g s.bytes ≡ none
            → find_interned_string I K z g t ≡ some r
            → find_interned_string I K z (with_string g fresh s) t ≡ some r
        older t r gone h = elim (Bool-cases t.permanent) [
          | inl p ↦
              find_permanent_string (with_string g fresh s) t p
              ∙ sym (find_permanent_string g t p)
              ∙ h
          | inr m ↦
              find-search (with_string g fresh s) t m
              ∙ search-older t.bytes r gone (sym (find-search g t m) ∙ h)
        ]

  -- Where the table keeps permanent strings under their bytes, adding any string answers a permanent
  -- string of its bytes and keeps the table so; every string that was found before is found as
  -- before; and where neither is permanent, adding any string of the same bytes after it, from any
  -- thread, answers the same string and changes nothing.
  pub add_interned_string-Added :
      (fresh : ℕ) (g : Globals I K) (s : SharedString) → IsInterned g → Added fresh g s
  add_interned_string-Added fresh g s i = elim (Bool-cases s.permanent) [
    | inl p ↦
        unchanged-Added fresh g s s i (refl, p) (add_permanent fresh g s p)
          (λ n. absurd (cc (p, n)))
    | inr n ↦ elim (Option-cases (find_interned_string I K z g s)) [
      | inr (r, e) ↦
          unchanged-Added fresh g s r i (found_string g s r i n e) (add_found fresh g s r n e)
            (λ m. e)
      | inl e ↦ new-Added fresh g s i n e
    ]
  ]

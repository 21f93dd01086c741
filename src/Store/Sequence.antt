-- ===== src/Store/Sequence.antt =====
-- `shift` and `chunk` of src/store.c take the entries in the order of the table.
use pthreads.Base.{
  ℕ, zero, suc, ◌+◌, ◌<◌, ◌≡◌, refl, sym, ap, ◌∙◌, Bool, true, false, ◌||◌, some, List, [], ◌∷◌,
  ◌++◌, arith, ltb, length, length-append, take, drop, Bool-cases, inl, inr,
}
use mathlib.Core.List.{append-nil, append_assoc}
use pthreads.Base.Int.{pos}
use pthreads.Zend.Key.{Key, same_key, same_key_refl, same_key-sym}
use pthreads.Zend.Hash.{HashApi, IsKeyed, has_key, put}
use pthreads.Store.Values.{Zval, Zstorage, Env}
use pthreads.Store.Convert.{restore_zval_ex, restore_zval}
use pthreads.Store.{State, bump_if}
use pthreads.Store.Changes.{bumped-table}
use pthreads.Store.Ends.{take_out, Chunk, chunk_next, chunk_loop, chunk}

module _ {V : Type 0} where
  -- No key of the second list stands in the first.
  abbrev IsApart : {W : Type 0} → List (Key × V) → List (Key × W) → Type 0
  IsApart cs [] = Unit
  IsApart cs ((k, w) ∷ es) = (has_key k cs ≡ false) × IsApart cs es

  put-append :
      (k : Key) (v : V) (cs : List (Key × V))
      → has_key k cs ≡ false
      → put k v cs ≡ cs ++ (k, v) ∷ []
  put-append k v [] h = refl
  put-append k v ((i, w) ∷ cs) h = elim (Bool-cases (same_key i k)) [
    | inl e ↦ absurd (ground (arith, e, h))
    | inr n ↦
        rw n (ap (λ (r : List (Key × V)). (i, w) ∷ r) (put-append k v cs (ground (arith, n, h))))
  ]

  has_key-snoc :
      (j k : Key) (v : V) (cs : List (Key × V))
      → has_key j (cs ++ (k, v) ∷ []) ≡ (has_key j cs || same_key k j)
  has_key-snoc j k v [] = ground arith
  has_key-snoc j k v ((i, w) ∷ cs) = ground (arith, has_key-snoc j k v cs)

  IsApart-snoc :
      {W : Type 0} (k : Key) (v : V) (cs : List (Key × V)) (es : List (Key × W))
      → has_key k es ≡ false
      → IsApart cs es
      → IsApart (cs ++ (k, v) ∷ []) es
  IsApart-snoc k v cs [] h a = tt
  IsApart-snoc k v cs ((j, w) ∷ es) h a =
      ground (arith, IsApart-snoc k v cs es, has_key-snoc j k v cs, same_key-sym k j)

IsApart-nil : (V : Type 0) {W : Type 0} (es : List (Key × W)) → IsApart {V = V} [] es
IsApart-nil V [] = tt
IsApart-nil V ((k, w) ∷ es) = (refl, IsApart-nil V es)

drop-nil : {A : Type 0} (n : ℕ) → drop {A = A} n [] ≡ []
drop-nil zero = refl
drop-nil (suc n) = refl

take-nil : {A : Type 0} (n : ℕ) → take {A = A} n [] ≡ []
take-nil zero = refl
take-nil (suc n) = refl

-- The entries of a chunk, as the calling thread restores them.
abbrev pub restored : Env → List (Key × Zstorage) → List (Key × Zval)
restored e [] = []
restored e ((k, z) ∷ es) = (k, restore_zval e z) ∷ restored e es

module _ (S : HashApi Zstorage) (L : HashApi Zval) where
  -- What the rounds of `chunk` come to when `m` entries more fit and `es` are left.
  record Looped (fuel : ℕ) (e : Env) (n m : ℕ) (c : Chunk S L) (es : List (Key × Zstorage))
      : Type 0 where
    pub final : Chunk S L
    pub runs : chunk_loop S L fuel e (pos n) c ≡ some final
    pub left : S.entries final.state.shared.hash ≡ drop m es
    pub taken : L.entries final.chunk ≡ L.entries c.chunk ++ restored e (take m es)

  first-erase :
      (t : S.Table) (k : Key) (z : Zstorage) (es : List (Key × Zstorage))
      → S.entries t ≡ (k, z) ∷ es
      → S.entries (S.del t k) ≡ es
  first-erase t k z es q = rw (S.entries_del, q, same_key_refl k) refl

  loop-Looped :
      (fuel : ℕ) (e : Env) (n m : ℕ) (c : Chunk S L) (es : List (Key × Zstorage))
      → S.entries c.state.shared.hash ≡ es
      → IsKeyed es
      → IsApart (L.entries c.chunk) es
      → length (L.entries c.chunk) + m ≡ n
      → length es < fuel
      → Looped fuel e n m c es
  unfolding chunk_loop chunk_next take_out restore_zval
  loop-Looped zero e n m c es here keyed apart room enough = absurd (omega (arith, enough))
  loop-Looped (suc fuel) e n m c [] here keyed apart room enough = record {
    final = c;
    runs = rw here refl;
    left = here ∙ sym (drop-nil m);
    taken = rw (take-nil {A = Key × Zstorage} m, append-nil (L.entries c.chunk)) refl;
  }
  loop-Looped (suc fuel) e n zero c ((k, z) ∷ es) here keyed apart room enough =
      let full : ltb (L.num_elements c.chunk) n ≡ false =
        rw (L.num_entries c.chunk) (ground (arith, room)) in
      record {
        final = c;
        runs = rw (here, full) refl;
        left = here;
        taken = sym (append-nil (L.entries c.chunk));
      }
  loop-Looped (suc fuel) e n (suc m) c ((k, z) ∷ es) here keyed apart room enough =
      let v = restore_zval e z in
      let fits : ltb (L.num_elements c.chunk) n ≡ true =
        rw (L.num_entries c.chunk) (ground (arith, room)) in
      let next : Chunk S L = record {
        state = take_out S L c.state k;
        chunk = L.update c.chunk k v;
        removed_cacheable = c.removed_cacheable || (restore_zval_ex e z).1;
      } in
      let grown : L.entries next.chunk ≡ L.entries c.chunk ++ (k, v) ∷ [] =
        L.entries_update c.chunk k v ∙ put-append k v (L.entries c.chunk) apart.0 in
      let r =
        loop-Looped fuel e n m next es (first-erase c.state.shared.hash k z es here) keyed.1
          (rw grown (IsApart-snoc k v (L.entries c.chunk) es keyed.0 apart.1))
          (rw grown (omega (arith, room, length-append (L.entries c.chunk) ((k, v) ∷ []))))
          (omega (arith, enough)) in
      record {
        final = r.final;
        runs = rw (here, fits) (r.runs);
        left = r.left;
        taken =
            r.taken
            ∙ rw grown (append_assoc (L.entries c.chunk) ((k, v) ∷ []) (restored e (take m es)));
      }

  -- What `chunk` gives for a size of `n`.
  pub record Chunked (fuel : ℕ) (e : Env) (s : State S L) (n : ℕ) (preserve : Bool) : Type 0 where
    pub state : State S L
    pub table : L.Table
    pub runs : chunk S L fuel e true s (pos n) preserve ≡ some (some (state, table))
    pub left : S.entries state.shared.hash ≡ drop n (S.entries s.shared.hash)
    pub taken : L.entries table ≡ restored e (take n (S.entries s.shared.hash))

  -- With fuel for every entry `chunk` ends, takes the first entries up to the size out of the
  -- shared table, and gives them, restored, in their order; the others stay as they were. They stand
  -- under their keys whatever `preserve` says, although by its documentation keys are kept only where
  -- `preserve` is true, which is not the default.
  pub chunk-Chunked :
      (fuel : ℕ) (e : Env) (s : State S L) (n : ℕ) (preserve : Bool)
      → length (S.entries s.shared.hash) < fuel
      → Chunked fuel e s n preserve
  unfolding chunk
  chunk-Chunked fuel e s n preserve enough =
      let c : Chunk S L = record { state = s; chunk = L.empty; removed_cacheable = false } in
      let es = S.entries s.shared.hash in
      let r =
        loop-Looped fuel e n n c es refl (S.keyed s.shared.hash)
          (rw L.entries_empty (IsApart-nil Zval es)) (rw L.entries_empty (omega arith)) enough in
      record {
        state = bump_if S L r.final.removed_cacheable r.final.state;
        table = r.final.chunk;
        runs = rw (r.runs) refl;
        left = ap S.entries (bumped-table S L r.final.removed_cacheable r.final.state) ∙ r.left;
        taken = r.taken ∙ rw L.entries_empty refl;
      }

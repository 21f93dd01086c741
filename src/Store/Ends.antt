-- ===== src/Store/Ends.antt =====
-- `pthreads_store_shift`, `pthreads_store_pop` and `pthreads_store_chunk`.
use pthreads.Base.{
  ℕ, zero, suc, Bool, false, ◌||◌, Option, none, some, List, [], ◌∷◌, if◌then◌else◌, ltb,
}
use pthreads.Base.Int.{ℤ, pos, negsuc}
use pthreads.Zend.Key.{Key}
use pthreads.Zend.Hash.{HashApi}
use pthreads.Store.Values.{Zval, Zstorage, Env}
use pthreads.Store.Convert.{restore_zval_ex}
use pthreads.Store.{State, del_shared, del_prop, bump_if}

abbrev pub first? : {A : Type 0} → List A → Option A
first? [] = none
first? (a ∷ as') = some a

abbrev pub last? : {A : Type 0} → List A → Option A
last? [] = none
last? (a ∷ []) = some a
last? (a ∷ b ∷ as') = last? (b ∷ as')

-- `num_elements < size`, with a signed size
abbrev pub below : ℕ → ℤ → Bool
below n (pos k) = ltb n k
below n (negsuc k) = false

module _ (S : HashApi Zstorage) (L : HashApi Zval) where
  -- The entry leaves the shared table and the connection's cache.
  unfoldable pub take_out : State S L → Key → State S L
  take_out s k = del_prop S L (del_shared S L s k) k

  unfoldable pub take_entry : Env → State S L → Option (Key × Zstorage) → State S L × Zval
  unfolding take_out
  take_entry e s none = (s, Zval.null)
  take_entry e s (some (k, z)) =
      let (v, cacheable) = restore_zval_ex e z in (bump_if S L cacheable (take_out s k), v)

  -- The result `none` is a failure to lock.
  unfoldable pub shift : Env → (locks : Bool) → State S L → Option (State S L × Zval)
  unfolding take_entry
  shift e locks s = if locks then some (take_entry e s (first? (S.entries s.shared.hash))) else none

  unfoldable pub pop : Env → (locks : Bool) → State S L → Option (State S L × Zval)
  unfolding take_entry
  pop e locks s = if locks then some (take_entry e s (last? (S.entries s.shared.hash))) else none

  pub record Chunk : Type 0 where
    pub state : State S L
    pub chunk : L.Table
    pub removed_cacheable : Bool

  -- One round takes the entry that is then the first, if the chunk is still below the size.
  unfoldable pub chunk_next : Env → ℤ → Chunk → Option (Key × Zstorage) → Option Chunk
  unfolding take_out
  chunk_next e size c none = none
  chunk_next e size c (some (k, z)) =
      let (v, cacheable) = restore_zval_ex e z in
      if below (L.num_elements c.chunk) size
      then some (record {
        state = take_out c.state k;
        chunk = L.update c.chunk k v;
        removed_cacheable = c.removed_cacheable || cacheable;
      })
      else none

  abbrev pub or_stop : Chunk → (Chunk → Option Chunk) → Option Chunk → Option Chunk
  or_stop c again none = some c
  or_stop c again (some c') = again c'

  -- The rounds, with fuel.
  unfoldable pub chunk_loop : ℕ → Env → ℤ → Chunk → Option Chunk
  unfolding chunk_next
  chunk_loop zero e size c = none
  chunk_loop (suc fuel) e size c =
      or_stop c (chunk_loop fuel e size)
        (chunk_next e size c (first? (S.entries c.state.shared.hash)))

  -- As in the source, `preserve` is not looked at: the keys are always kept.
  unfoldable pub chunk :
      ℕ
      → Env
      → (locks : Bool) → State S L
      → ℤ
      → (preserve : Bool) → Option (Option (State S L × L.Table))
  unfolding chunk_loop
  chunk fuel e locks s size preserve =
      let run =
        chunk_loop fuel e size (record { state = s; chunk = L.empty; removed_cacheable = false }) in
      if locks
      then elim run [
        | none ↦ none
        | some c ↦ some (some (bump_if S L c.removed_cacheable c.state, c.chunk))
      ]
      else some none

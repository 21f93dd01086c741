-- ===== src/Pool/Resize.antt =====
-- When `Pool::resize` ends, and what it leaves.
use pthreads.Base.{
  ℕ, zero, suc, ◌+◌, ◌<◌, ◌≡◌, refl, ap, ◌∙◌, true, false, Option, none, some, List, arith, ◌==◌,
  ltb, if◌then◌else◌, is_some, decr, word, subst,
}
use pthreads.Base.Int.{ℤ, pos, negsuc}
use pthreads.Zend.Key.{index, same_key_refl}
use pthreads.Zend.Hash.{HashApi, find-del, num_elements-del}
use pthreads.Pool.{Pool, Call, lt, eq, resize_loop, resize, resize_table, shut_one}

-- The calls that shut down the workers at `k + m - 1`, ..., `k`, newest first.
unfoldable pub shut_down : (ℕ → Option ℕ) → ℕ → ℕ → List Call → List Call
shut_down f k zero calls = calls
shut_down f k (suc m) calls = shut_down f k m (shut_one (f (k + m)) calls)

shut_down-same :
    (f g : ℕ → Option ℕ) (k m : ℕ) (calls : List Call)
    → ((i : ℕ) → i < k + m → f i ≡ g i)
    → shut_down f k m calls ≡ shut_down g k m calls
unfolding shut_down
shut_down-same f g k zero calls same = refl
shut_down-same f g k (suc m) calls same =
    rw (same (k + m) (omega arith))
      (shut_down-same f g k m (shut_one (g (k + m)) calls) (λ i h. same i (omega arith)))

module _ (H : HashApi ℕ) where
  abbrev pub worker_at : H.Table → ℕ → Option ℕ
  worker_at t i = H.find t (index i)

  -- The workers stand at 0, ..., n - 1 and nowhere else.
  pub record IsContiguous (n : ℕ) (t : H.Table) : Type 0 where
    pub small : n < word
    pub count : H.num_elements t ≡ n
    pub present : (i : ℕ) → is_some (worker_at t i) ≡ ltb i n

  del-IsContiguous :
      (n : ℕ) (t : H.Table) → IsContiguous (suc n) t → IsContiguous n (H.del t (index n))
  del-IsContiguous n t c = record {
    small = omega (arith, c.small);
    count =
        let held : is_some (worker_at t n) ≡ true = c.present n ∙ ground arith in
        let e = num_elements-del H t (index n) in
        let f : H.num_elements (H.del t (index n)) + 1 ≡ H.num_elements t = rw held at e in
        omega (arith, f, c.count);
    present = λ i. rw (find-del H t (index n) (index i)) (after i (c.present i));
  }
    where
      after :
          (i : ℕ)
          → is_some (worker_at t i) ≡ ltb i (suc n)
          → is_some (if n == i then none else worker_at t i) ≡ ltb i n
      after i e = ground arith

  IsContiguous-at : {m n : ℕ} {t : H.Table} → m ≡ n → IsContiguous m t → IsContiguous n t
  IsContiguous-at {t} e c = subst (λ (k : ℕ). IsContiguous k t) e c

  del-same : (n i : ℕ) (t : H.Table) → i < n → worker_at (H.del t (index n)) i ≡ worker_at t i
  del-same n i t h =
      let other : (n == i) ≡ false = ground arith in rw (find-del H t (index n) (index i), other)

  round :
      (fuel : ℕ) (wish : ℤ) (n : ℕ) (t : H.Table) (calls : List Call)
      → IsContiguous (suc n) t
      → let t1 = H.del t (index n) in
        let told = shut_one (worker_at t n) calls in
        resize_loop H (suc fuel) wish t calls
        ≡ (if eq n wish then some (t1, told) else resize_loop H fuel wish t1 told)
  unfolding resize_loop
  round fuel wish n t calls c =
      let top : decr (H.num_elements t) ≡ n = omega (arith, c.count, c.small) in
      rw (top, (del-IsContiguous n t c).count) refl

  resize_loop-shut_down :
      (m fuel k : ℕ) (t : H.Table) (calls : List Call)
      → IsContiguous (k + suc m) t
      → m < fuel
      → (t' : H.Table) × (resize_loop H fuel (pos k) t calls
          ≡ some (t', shut_down (worker_at t) k (suc m) calls))
        × IsContiguous k t'
        × ((i : ℕ) → i < k → worker_at t' i ≡ worker_at t i)
  unfolding shut_down
  resize_loop-shut_down m zero k t calls c h = absurd (omega arith)
  resize_loop-shut_down zero (suc fuel) k t calls c h =
      let c' : IsContiguous (suc k) t = IsContiguous-at (omega arith) c in
      let done : eq k (pos k) ≡ true = ground arith in
      (
        H.del t (index k),
        round fuel (pos k) k t calls c' ∙ rw done (ap (λ (i : ℕ). shut k i) (omega arith)),
        del-IsContiguous k t c',
        λ i h'. del-same k i t h',
      )
    where
      shut : ℕ → ℕ → Option (H.Table × List Call)
      shut j i = some (H.del t (index j), shut_one (worker_at t i) calls)
  resize_loop-shut_down (suc m) (suc fuel) k t calls c h =
      let n = k + suc m in
      let c' : IsContiguous (suc n) t = IsContiguous-at (omega arith) c in
      let t1 = H.del t (index n) in
      let more : eq n (pos k) ≡ false = ground arith in
      let rest =
        resize_loop-shut_down m fuel k t1 (shut_one (worker_at t n) calls) (del-IsContiguous n t c')
          (omega arith) in
      (
        rest.0,
        round fuel (pos k) n t calls c'
            ∙ rw more rest.1
            ∙ ap (λ (l : List Call). some (rest.0, l))
                (shut_down-same (worker_at t1) (worker_at t) k (suc m) _
                  (λ i h'. del-same n i t h')),
        rest.2,
        λ i h'. rest.3 i h' ∙ del-same n i t (omega arith),
      )

  -- A loop whose last index is not present changes nothing, for ever.
  resize_loop-stuck :
      (fuel : ℕ) (wish : ℤ) (t : H.Table) (calls : List Call)
      → worker_at t (decr (H.num_elements t)) ≡ none
      → eq (H.num_elements t) wish ≡ false
      → resize_loop H fuel wish t calls ≡ none
  unfolding resize_loop
  resize_loop-stuck zero wish t calls gone off = refl
  resize_loop-stuck (suc fuel) wish t calls gone off =
      let top = index (decr (H.num_elements t)) in
      let same : H.num_elements (H.del t top) ≡ H.num_elements t =
        omega (arith, (rw gone at (num_elements-del H t top))) in
      let still : worker_at (H.del t top) (decr (H.num_elements (H.del t top))) ≡ none =
        rw same (find-del H t top top ∙ (rw (same_key_refl top) refl)) in
      let off' : eq (H.num_elements (H.del t top)) wish ≡ false = rw same off in
      rw (off', gone) (resize_loop-stuck fuel wish (H.del t top) calls still off')

  resize_loop-negative :
      (fuel n : ℕ) (t : H.Table) (calls : List Call) → resize_loop H fuel (negsuc n) t calls ≡ none
  unfolding resize_loop
  resize_loop-negative zero n t calls = refl
  resize_loop-negative (suc fuel) n t calls = resize_loop-negative fuel n _ _

  -- A pool whose workers stand at 0, ..., n - 1 is shrunk to any smaller size: with fuel for a
  -- round per worker the loop ends, it shuts down the workers from the last one down, each once,
  -- and keeps the others where they are.
  pub resize_shrinks :
      (fuel k m : ℕ) (p : Pool H) (t : H.Table)
      → p.workers ≡ some t
      → IsContiguous (k + suc m) t
      → m < fuel
      → (t' : H.Table) × (resize H fuel p (pos k)
          ≡ some (record p {
            size = pos k;
            workers = some t';
            calls = shut_down (worker_at t) k (suc m) p.calls;
          }))
        × IsContiguous k t'
        × ((i : ℕ) → i < k → worker_at t' i ≡ worker_at t i)
  unfolding resize
  resize_shrinks fuel k m p t e c h =
      let r = resize_loop-shut_down m fuel k t p.calls c h in
      let smaller : lt (pos k) (H.num_elements t) ≡ true = rw c.count (ground arith) in
      (r.0, rw (e, resize_table, smaller, r.1) refl, r.2, r.3)

  -- A negative size makes the loop run for ever, whatever workers the pool has.
  pub resize_negative_hangs :
      (fuel n : ℕ) (p : Pool H) (t : H.Table)
      → p.workers ≡ some t
      → resize H fuel p (negsuc n) ≡ none
  unfolding resize
  resize_negative_hangs fuel n p t e =
      rw (e, resize_table, resize_loop-negative fuel n t p.calls) refl

  -- So does a size below the number of workers if no worker stands at that number less one.
  pub resize_gap_hangs :
      (fuel k : ℕ) (p : Pool H) (t : H.Table)
      → p.workers ≡ some t
      → worker_at t (decr (H.num_elements t)) ≡ none
      → k < H.num_elements t
      → resize H fuel p (pos k) ≡ none
  unfolding resize
  resize_gap_hangs fuel k p t e gone h =
      let smaller : lt (pos k) (H.num_elements t) ≡ true = ground arith in
      let off : eq (H.num_elements t) (pos k) ≡ false = ground arith in
      rw (e, resize_table, smaller, resize_loop-stuck fuel (pos k) t p.calls gone off) refl

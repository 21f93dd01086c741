-- ===== src/Monitor/Flags.antt =====
-- The flags of a monitor's state are independent of one another.
use Prim.Native.Nat.{bit_and, bit_or}
use pthreads.Base.{
  ℕ, zero, suc, ◌<◌, ◌≡◌, refl, Bool, true, ◌&&◌, ◌∷◌, arith, ◌==◌, if◌then◌else◌, ltb,
}
use pthreads.Monitor.{
  Flag, mask, started, running, joined, error, ready, collect_garbage, exit, await_join, Monitor,
  mutex_lock, mutex_unlock, cond_broadcast, check, add, remove, complement,
}

abbrev pub same_flag : Flag → Flag → Bool
same_flag f g = mask f == mask g

-- No bits but those of the eight flags.
abbrev pub limit : ℕ
limit = 256

-- Every state below the limit is tried.
all_states : ℕ → (ℕ → Bool) → Bool
all_states zero p = true
all_states (suc n) p = p n && all_states n p

all_states_sound : (n : ℕ) (p : ℕ → Bool) (s : ℕ) → all_states n p ≡ true → s < n → p s ≡ true
unfolding all_states
all_states_sound zero p s h lt = absurd (omega arith)
all_states_sound (suc n) p s h lt = ground (arith, all_states_sound n p s)

over_flags : (Flag → Bool) → Bool
over_flags p =
    p started
    && p running
    && p joined
    && p error
    && p ready
    && p collect_garbage
    && p exit
    && p await_join

over_flags_sound : (p : Flag → Bool) (f : Flag) → over_flags p ≡ true → p f ≡ true
unfolding over_flags
over_flags_sound p started h = ground arith
over_flags_sound p _ h = ground arith

-- What `add` and `remove` do to one flag, and that they leave no other bit set.
add_law : Flag → Flag → ℕ → Bool
add_law f g s =
    (bit_and (bit_or s (mask f)) (mask g) == (if same_flag f g then mask g else bit_and s (mask g)))
    && ltb (bit_or s (mask f)) limit

remove_law : Flag → Flag → ℕ → Bool
remove_law f g s =
    (bit_and (bit_and s (complement (mask f))) (mask g)
      == (if same_flag f g then 0 else bit_and s (mask g)))
    && ltb (bit_and s (complement (mask f))) limit

add_table : over_flags (λ f. over_flags (λ g. all_states limit (add_law f g))) ≡ true
unfolding over_flags all_states add_law
add_table = refl

remove_table : over_flags (λ f. over_flags (λ g. all_states limit (remove_law f g))) ≡ true
unfolding over_flags all_states remove_law
remove_table = refl

add_at : (f g : Flag) (s : ℕ) → s < limit → add_law f g s ≡ true
add_at f g s h =
    all_states_sound limit (add_law f g) s
      (over_flags_sound (λ g'. all_states limit (add_law f g')) g
        (over_flags_sound (λ f'. over_flags (λ g'. all_states limit (add_law f' g'))) f add_table))
      h

remove_at : (f g : Flag) (s : ℕ) → s < limit → remove_law f g s ≡ true
remove_at f g s h =
    all_states_sound limit (remove_law f g) s
      (over_flags_sound (λ g'. all_states limit (remove_law f g')) g
        (over_flags_sound (λ f'. over_flags (λ g'. all_states limit (remove_law f' g'))) f
          remove_table))
      h

law_parts : (a b c d : ℕ) → ((a == b) && ltb c d) ≡ true → (a ≡ b) × (c < d)
law_parts a b c d h = ground arith

-- With a state within the eight flags, setting a flag under the lock sets that flag and no other,
-- keeps the state within the eight flags, and wakes the waiters before the lock is given back.
pub check-add :
    (m : Monitor) (f g : Flag)
    → m.state < limit
    → (check (add 0 m (mask f)) (mask g) ≡ (if same_flag f g then mask g else check m (mask g)))
      × ((add 0 m (mask f)).state < limit)
      × ((add 0 m (mask f)).calls ≡ mutex_unlock ∷ cond_broadcast ∷ mutex_lock ∷ m.calls)
unfolding add check add_law
check-add m f g h = let r = law_parts _ _ _ _ (add_at f g m.state h) in (r.0, r.1, refl)

-- With a state within the eight flags, clearing a flag under the lock clears that flag and no
-- other, and does the rest as setting one does.
pub check-remove :
    (m : Monitor) (f g : Flag)
    → m.state < limit
    → (check (remove 0 m (mask f)) (mask g) ≡ (if same_flag f g then 0 else check m (mask g)))
      × ((remove 0 m (mask f)).state < limit)
      × ((remove 0 m (mask f)).calls ≡ mutex_unlock ∷ cond_broadcast ∷ mutex_lock ∷ m.calls)
unfolding remove check remove_law
check-remove m f g h = let r = law_parts _ _ _ _ (remove_at f g m.state h) in (r.0, r.1, refl)

-- ===== src/Thread/Destroy.antt =====
-- src/object.c: `pthreads_base_dtor`, which joins a thread that nobody has joined before its object goes.
use pthreads.Base.{
  ◌≡◌, ◌≢◌, ◌⊎◌, inl, inr, refl, Bool, true, false, not, ◌&&◌, none, List, [], ◌∷◌, ◌==◌,
  if◌then◌else◌, Bool-cases, ==_iff, ==_ne,
}
use pthreads.Monitor.{Monitor, mask, started, joined, check}
use pthreads.Thread.{join_refusal}

-- The method `join` of the class, `pthreads_join`, and `zend_objects_destroy_object` of the engine.
pub data DtorCall : Type 0 where
  user_join own_join destroy_object : DtorCall

-- `runs` says that the object is a thread or a worker, `after` what the class's method `join` leaves
-- of the monitor.
unfoldable pub base_dtor :
    (owns connected runs : Bool) → (after : Monitor → Monitor) → Monitor → List DtorCall
base_dtor owns connected runs after m =
    if not connected
      && owns
      && runs
      && not (check m (mask started) == 0)
      && (check m (mask joined) == 0)
    then user_join
      ∷ (if check (after m) (mask joined) == 0
          then own_join ∷ destroy_object ∷ []
          else destroy_object ∷ [])
    else destroy_object ∷ []

-- When its creator destroys a thread that was started and not joined, the class's `join` is called, and
-- then the thread is marked as joined, or, where that method leaves the mark of the start alone, it is
-- joined by `pthreads_join`, which does not refuse.
pub base_dtor-joined :
    (after : Monitor → Monitor) (m : Monitor)
    → check m (mask started) ≢ 0
    → check m (mask joined) ≡ 0
    → check (after m) (mask started) ≢ 0
    → ((base_dtor true false true after m ≡ user_join ∷ destroy_object ∷ [])
        × (check (after m) (mask joined) ≢ 0))
      ⊎ ((base_dtor true false true after m ≡ user_join ∷ own_join ∷ destroy_object ∷ [])
          × (join_refusal true false (after m) ≡ none))
unfolding base_dtor join_refusal
base_dtor-joined after m on unjoined still =
    elim (Bool-cases (check (after m) (mask joined) == 0)) [
      | inl y ↦ inr (rw (==_ne on, unjoined, y) refl, rw (y, ==_ne still) refl)
      | inr n ↦ inl (
        rw (==_ne on, unjoined, n) refl,
        λ e. cc (n, (==_iff (check (after m) (mask joined)) 0).1 e),
      )
    ]

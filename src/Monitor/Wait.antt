-- ===== src/Monitor/Wait.antt =====
-- Waiting for a flag, and waiting with a timeout.
use Prim.Native.Nat.{bit_and}
use pthreads.Base.{
  leb, ◌/◌, ◌-◌, ◌^◌, ℕ, suc, ◌+◌, ◌*◌, ◌%◌, ◌<◌, ◌≡◌, ◌≢◌, refl, Bool, true, false, not, ◌||◌,
  none, some, List, [], ◌∷◌, arith, ◌==◌, inl, inr, Bool-cases, if◌then◌else◌,
}
use pthreads.Base.Int.{pos, negsuc, IsNegative, to_long}
use pthreads.Monitor.{
  wait, cond_timedwait, Monitor, Call, mutex_lock, mutex_unlock, cond_wait, check, TimeVal,
  wait_deadline, million, Wakeup, wait_loop, wait_until,
}

-- Some wakeup of the list finds a bit of `s` set, or comes from a wait that failed.
abbrev pub served : ℕ → List Wakeup → Bool
served s [] = false
served s (w ∷ ws) = not (bit_and w.state s == 0) || (not (w.result == 0) || served s ws)

abbrev pub failed : List Wakeup → Bool
failed [] = false
failed (w ∷ ws) = not (w.result == 0) || failed ws

-- The calls of a wait: one `pthread_cond_wait` for each wakeup that was needed.
abbrev pub waits : ℕ → List Wakeup → ℕ → List Call → List Call
waits s [] state calls = calls
waits s (w ∷ ws) state calls =
    if bit_and state s == 0
    then (if w.result == 0 then waits s ws w.state (cond_wait ∷ calls) else cond_wait ∷ calls)
    else calls

wait_loop-served :
    (s : ℕ) (ws : List Wakeup) (m : Monitor)
    → (not (bit_and m.state s == 0) || served s ws) ≡ true
    → (m' : Monitor) × (wait_loop s ws m ≡ some m')
      × (failed ws ≡ false → check m' s ≢ 0)
      × (m'.calls ≡ waits s ws m.state m.calls)
unfolding wait_loop
wait_loop-served s [] m h = (m, ground arith, ground arith, refl)
wait_loop-served s (w ∷ ws) m h = elim (Bool-cases (bit_and m.state s == 0)) [
  | inl unset ↦ elim (Bool-cases (w.result == 0)) [
    | inl good ↦
        let rest =
          wait_loop-served s ws (record { state = w.state; calls = cond_wait ∷ m.calls })
            (ground arith) in
        (rest.0, rw (unset, good, rest.1), (λ f. rest.2 (ground arith)), rw (unset, good, rest.3))
    | inr bad ↦ (
      record { state = w.state; calls = cond_wait ∷ m.calls },
      rw (unset, bad),
      (λ f. absurd (ground arith)),
      rw (unset, bad),
    )
  ]
  | inr set ↦ (m, rw set, ground arith, rw set)
]

wait_loop-blocked :
    (s : ℕ) (ws : List Wakeup) (m : Monitor)
    → (not (bit_and m.state s == 0) || served s ws) ≡ false
    → wait_loop s ws m ≡ none
unfolding wait_loop
wait_loop-blocked s [] m h = ground arith
wait_loop-blocked s (w ∷ ws) m h =
    ground (arith, wait_loop-blocked s ws (record { state = w.state; calls = cond_wait ∷ m.calls }))

-- A wait for a flag comes back exactly if the flag is set at the start or at a wakeup, or a wait
-- fails. If no wait fails the flag is set when it comes back, however often the thread was woken
-- for nothing. The lock is taken once and given back once, around the waits.
pub wait_until_returns :
    (s : ℕ) (ws : List Wakeup) (m : Monitor)
    → ((not (bit_and m.state s == 0) || served s ws) ≡ true
        → (m' : Monitor) × (wait_until 0 s ws m ≡ some m')
          × (failed ws ≡ false → check m' s ≢ 0)
          × (m'.calls ≡ mutex_unlock ∷ waits s ws m.state (mutex_lock ∷ m.calls)))
      × ((not (bit_and m.state s == 0) || served s ws) ≡ false → wait_until 0 s ws m ≡ none)
unfolding wait_until check
wait_until_returns s ws m = (returns, λ h. rw (wait_loop-blocked s ws held h))
  where
    held : Monitor
    held = record m { calls = mutex_lock ∷ m.calls }

    returns :
        (not (bit_and m.state s == 0) || served s ws) ≡ true
        → (m' : Monitor) × (wait_until 0 s ws m ≡ some m')
          × (failed ws ≡ false → check m' s ≢ 0)
          × (m'.calls ≡ mutex_unlock ∷ waits s ws m.state (mutex_lock ∷ m.calls))
    returns h =
        let (m', e, set, calls) = wait_loop-served s ws held h in
        (record m' { calls = mutex_unlock ∷ m'.calls }, rw e, set, rw calls)

to_long_small : (n : ℕ) → n < 2 ^ 63 → to_long (pos n) ≡ pos n
to_long_small n h =
    let small : n % 2 ^ 64 ≡ n = omega arith in
    let fits : leb n (2 ^ 63 - 1) ≡ true = ground arith in rw (small, fits) refl

-- A wait of `t` microseconds from a valid time of day, which is not 0 and for which the seconds fit in
-- 63 bits: it is one `pthread_cond_timedwait`, which gives up exactly `t` microseconds later, at a time
-- whose nanoseconds are in range, and whose result is passed on; and where the time of day cannot be
-- asked it is no wait at all, and fails.
pub wait_gives_up :
    (now : TimeVal) (t result : ℕ) (m : Monitor)
    → 0 < t
    → now.usec < million
    → now.sec + t / million + 1 < 2 ^ 63
    → ((sec : ℕ) × (nsec : ℕ) × (wait (some now) result m (pos t)
          ≡ (record m { calls = cond_timedwait (pos sec) (pos nsec) ∷ m.calls }, some result))
        × (nsec < 1000 * million)
        × (sec * (1000 * million) + nsec ≡ (now.sec * million + now.usec + t) * 1000))
      × (wait none result m (pos t) ≡ (m, none))
unfolding wait wait_deadline
wait_gives_up now t result m some_time valid fits =
    let set : (t == 0) ≡ false = ground arith in
    let end = now.sec + t / million + (now.usec + t % million) / million in
    let whole : end < 2 ^ 63 = omega arith in
    let first = to_long_small (now.sec + t / million) (omega arith) in
    (
      (
        end,
        (now.usec + t % million) % million * 1000,
        rw (set, first, to_long_small end whole) refl,
        omega arith,
        omega arith,
      ),
      rw set refl,
    )

-- With a negative timeout whose part below a second exceeds the microseconds of the clock, the
-- nanoseconds that are passed to `pthread_cond_timedwait` are negative.
pub wait_deadline-IsNegative :
    (now : TimeVal) (n : ℕ)
    → now.usec < suc n % million
    → IsNegative (wait_deadline now (negsuc n)).nsec
unfolding wait_deadline
wait_deadline-IsNegative now n h = ground arith

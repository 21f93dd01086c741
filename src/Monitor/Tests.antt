-- ===== src/Monitor/Tests.antt =====
-- A monitor at work: its flags, a wait that is woken twice, and deadlines.
use Prim.Native.Nat.{bit_and}
use pthreads.Base.{
  if◌then◌else◌, ℕ, ◌+◌, ◌*◌, ◌<◌, ◌≡◌, ◌≢◌, true, false, not, ◌||◌, none, some, List, [], ◌∷◌,
  arith, ◌==◌,
}
use pthreads.Base.Int.{pos}
use pthreads.Monitor.{
  wait, cond_timedwait, Monitor, mutex_lock, mutex_unlock, mask, started, running, check, add,
  cond_broadcast, TimeVal, million, Wakeup, wait_until,
}
use pthreads.Monitor.Flags.{limit, same_flag, check-add}
use pthreads.Monitor.Wait.{served, failed, waits, wait_until_returns, wait_gives_up}

abbrev began : Monitor
began = record { state = mask started; calls = [] }

-- The first wakeup is for nothing, the second finds the flag.
abbrev woken : List Wakeup
woken =
    record { result = 0; state = mask started } ∷ record { result = 0; state = mask running } ∷ []

wait_until_returns_example :
    ((not (bit_and began.state (mask running) == 0) || served (mask running) woken) ≡ true
      → (m' : Monitor) × (wait_until 0 (mask running) woken began ≡ some m')
        × (failed woken ≡ false → check m' (mask running) ≢ 0)
        × (m'.calls
            ≡ mutex_unlock ∷ waits (mask running) woken began.state (mutex_lock ∷ began.calls)))
    × ((not (bit_and began.state (mask running) == 0) || served (mask running) woken) ≡ false
        → wait_until 0 (mask running) woken began ≡ none)
wait_until_returns_example = wait_until_returns (mask running) woken began

abbrev noon : TimeVal
noon = record { sec = 43200; usec = 999999 }

wait_gives_up_example :
    ((sec : ℕ) × (nsec : ℕ) × (wait (some noon) 0 began (pos 1500001)
        ≡ (record began { calls = cond_timedwait (pos sec) (pos nsec) ∷ began.calls }, some 0))
      × (nsec < 1000 * million)
      × (sec * (1000 * million) + nsec ≡ (noon.sec * million + noon.usec + 1500001) * 1000))
    × (wait none 0 began (pos 1500001) ≡ (began, none))
wait_gives_up_example = wait_gives_up noon 1500001 0 began (omega arith) (omega arith) (omega arith)

check-add_example :
    (check (add 0 began (mask running)) (mask started)
      ≡ (if same_flag running started then mask started else check began (mask started)))
    × ((add 0 began (mask running)).state < limit)
    × ((add 0 began (mask running)).calls
        ≡ mutex_unlock ∷ cond_broadcast ∷ mutex_lock ∷ began.calls)
check-add_example = check-add began running started (omega arith)

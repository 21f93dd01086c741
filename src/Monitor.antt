-- ===== src/Monitor.antt =====
-- src/monitor.c and src/monitor.h: a state word of flags under a recursive mutex and a condition.
-- The calls of the pthread library are recorded, and their results are arguments.
use Prim.Native.Nat.{bit_and, bit_or}
use pthreads.Base.{
  ℕ, ◌+◌, ◌-◌, ◌*◌, ◌/◌, ◌%◌, ◌^◌, Bool, true, false, Option, none, some, List, [], ◌∷◌, ◌==◌,
  if◌then◌else◌, word,
}
use pthreads.Base.Int.{to_long, ℤ, pos, negsuc, ◌+ℤ◌, ◌*ℕ◌, ◌/ℕ◌, ◌%ℕ◌}
pub mod Flags
pub mod Wait
pub mod Tests

pub data Flag : Type 0 where
  started running joined error ready collect_garbage exit await_join : Flag

-- `PTHREADS_MONITOR_STARTED` and so on.
abbrev pub mask : Flag → ℕ
mask started = 0x01
mask running = 0x02
mask joined = 0x04
mask error = 0x08
mask ready = 0x10
mask collect_garbage = 0x20
mask exit = 0x40
mask await_join = 0x80

pub data Call : Type 0 where
  mutex_lock mutex_unlock cond_broadcast cond_signal cond_wait : Call
  cond_timedwait : (sec nsec : ℤ) → Call
  mutex_init mutex_destroy cond_init cond_destroy free_monitor : Call

-- `calls` holds the newest call first.
pub record Monitor : Type 0 where
  pub state : ℕ
  pub calls : List Call

abbrev pub call : Call → Monitor → Monitor
call c m = record m { calls = c ∷ m.calls }

-- `pthread_mutex_init` and `pthread_cond_init` return zero if they succeed.
unfoldable pub init : (mutex_result cond_result : ℕ) → Monitor → Monitor × Bool
init mutex_result cond_result m =
    let cleared = call mutex_init (record m { state = 0 }) in
    if mutex_result == 0
    then (let made = call cond_init cleared in
        if cond_result == 0
        then (made, true)
        else (call free_monitor (call mutex_destroy made), false))
    else (call free_monitor cleared, false)

unfoldable pub destroy : Monitor → Monitor
destroy m = call cond_destroy (call mutex_destroy m)

-- `result` is what the pthread function returns.
unfoldable pub lock : (result : ℕ) → Monitor → Monitor × Bool
lock result m = (call mutex_lock m, result == 0)

unfoldable pub unlock : (result : ℕ) → Monitor → Monitor × Bool
unlock result m = (call mutex_unlock m, result == 0)

unfoldable pub check : Monitor → ℕ → ℕ
check m s = bit_and m.state s

unfoldable pub notify : Monitor → Monitor
notify m = call cond_broadcast m

unfoldable pub notify_one : Monitor → Monitor
notify_one m = call cond_signal m

-- `~s` on an unsigned long
abbrev pub complement : ℕ → ℕ
complement s = word - 1 - s

unfoldable pub add : (result : ℕ) → Monitor → ℕ → Monitor
unfolding lock unlock notify
add result m s =
    let (held, locked) = lock result m in
    if locked then (unlock 0 (notify (record held { state = bit_or held.state s }))).0 else held

unfoldable pub remove : (result : ℕ) → Monitor → ℕ → Monitor
unfolding lock unlock notify
remove result m s =
    let (held, locked) = lock result m in
    if locked
    then (unlock 0 (notify (record held { state = bit_and held.state (complement s) }))).0
    else held

-- What `gettimeofday` stores.
pub record TimeVal : Type 0 where
  pub sec : ℕ
  pub usec : ℕ

pub record TimeSpec : Type 0 where
  pub sec : ℤ
  pub nsec : ℤ

abbrev pub million : ℕ
million = 1000000

-- The point in time at which a wait that starts at `now` gives up. The sums of seconds wrap around.
unfoldable pub wait_deadline : TimeVal → ℤ → TimeSpec
wait_deadline now timeout =
    let micros = pos now.usec +ℤ timeout %ℕ million in
    record {
      sec = to_long (to_long (pos now.sec +ℤ timeout /ℕ million) +ℤ micros /ℕ million);
      nsec = (micros %ℕ million) *ℕ 1000;
    }

abbrev is_zero : ℤ → Bool
is_zero (pos n) = n == 0
is_zero (negsuc n) = false

-- `clock` is what `gettimeofday` gives, `none` if it fails; the result `none` is -1.
unfoldable pub wait : (clock : Option TimeVal) → (result : ℕ) → Monitor → ℤ → Monitor × Option ℕ
wait clock result m timeout =
    if is_zero timeout then (call cond_wait m, some result) else elim clock [
      | none ↦ (m, none)
      | some now ↦
          let t = wait_deadline now timeout in (call (cond_timedwait t.sec t.nsec) m, some result)
    ]

-- One return from `pthread_cond_wait`: its result, and the state that other threads have left.
pub record Wakeup : Type 0 where
  pub result : ℕ
  pub state : ℕ

-- `none`: the wakeups that are given have run out, and the thread still waits.
unfoldable pub wait_loop : ℕ → List Wakeup → Monitor → Option Monitor
unfolding check wait
wait_loop s [] m = if check m s == 0 then none else some m
wait_loop s (w ∷ ws) m =
    let waited = record (wait none w.result m (pos 0)).0 { state = w.state } in
    let again = wait_loop s ws waited in
    if check m s == 0 then (if w.result == 0 then again else some waited) else some m

unfoldable pub wait_until : (result : ℕ) → ℕ → List Wakeup → Monitor → Option Monitor
unfolding lock unlock wait_loop
wait_until result s ws m =
    let (held, locked) = lock result m in
    let after = wait_loop s ws held in
    if locked then elim after [ none ↦ none | some woken ↦ some (unlock 0 woken).0 ] else some held

-- ===== src/Thread.antt =====
-- src/object.c: `pthreads_start`, `pthreads_join` and `pthreads_routine`. The creator and the thread
-- meet through the flags of the thread's monitor and of the monitor `ready` of the start. Each step is
-- one change under a monitor's lock, or the end of a wait.
use pthreads.Base.{
  ℕ, List, [], ◌≡◌, ◌≢◌, Bool, true, false, not, ◌||◌, Option, none, some, ◌==◌, if◌then◌else◌,
}
use pthreads.Monitor.{
  Monitor, mask, started, running, joined, error, ready, exit, await_join, check,
}
use pthreads.Monitor
pub mod Fits
pub mod Handshake
pub mod Destroy
pub mod Tests

pub data Refusal : Type 0 where
  not_creator already_started already_joined not_started : Refusal

-- `owns` is `PTHREADS_IN_CREATOR`, `connected` that the object is a connection to another.
unfoldable pub start_refusal : (owns connected : Bool) → Monitor → Option Refusal
start_refusal owns connected m =
    if not owns || connected
    then some not_creator
    else if check m (mask started) == 0
    then none
    else some already_started

unfoldable pub join_refusal : (owns connected : Bool) → Monitor → Option Refusal
join_refusal owns connected m =
    if not owns || connected
    then some not_creator
    else if check m (mask joined) == 0
    then (if check m (mask started) == 0 then some not_started else none)
    else some already_joined

-- Where the creator is: in none of the two functions, in `pthreads_routine_wait`, in
-- `pthreads_monitor_wait_until` of a join, before it sets the flag to exit, and in `pthread_join`.
pub data Creator : Type 0 where
  outside starting waiting syncing exiting : Creator

-- Where the thread is: not there, in `pthreads_prepared_startup`, in PHP code, waiting to exit,
-- releasing its objects, and gone.
pub data Phase : Type 0 where
  absent startup working held cleaning gone : Phase

pub record State : Type 0 where
  pub monitor : Monitor
  pub ready_monitor : Monitor
  pub creator : Creator
  pub thread : Phase

abbrev pub initial : Monitor → State
initial m = record { monitor = m; ready_monitor = m; creator = outside; thread = absent }

-- A monitor as `pthreads_monitor_init` leaves it.
abbrev pub fresh : Monitor
fresh = record { state = 0; calls = [] }

abbrev pub raised : State → Monitor.Flag → Monitor
raised s f = Monitor.add 0 s.monitor (mask f)

pub data Step (s : State) (t : State) : Type 0 where
  starts :
      s.creator ≡ outside
      → start_refusal true false s.monitor ≡ none
      → t ≡ record {
        monitor = raised s started;
        ready_monitor = fresh;
        creator = starting;
        thread = startup;
      }
      → Step s t
  -- `pthread_create` fails, and `pthreads_routine_free` takes the flag back.
  fails :
      s.creator ≡ outside
      → start_refusal true false s.monitor ≡ none
      → t ≡ record s { monitor = Monitor.remove 0 (raised s started) (mask started) }
      → Step s t
  prepares :
      s.thread ≡ startup
      → t
        ≡ record s { ready_monitor = Monitor.add 0 s.ready_monitor (mask ready); thread = working }
      → Step s t
  returns :
      s.creator ≡ starting
      → check s.ready_monitor (mask ready) ≢ 0
      → t ≡ record s { creator = outside }
      → Step s t
  runs : s.thread ≡ working → t ≡ record s { monitor = raised s running } → Step s t
  errs : s.thread ≡ working → t ≡ record s { monitor = raised s error } → Step s t
  rests :
      s.thread ≡ working
      → t ≡ record s { monitor = Monitor.remove 0 s.monitor (mask running) }
      → Step s t
  finishes :
      s.thread ≡ working → t ≡ record s { monitor = raised s await_join; thread = held } → Step s t
  joins :
      s.creator ≡ outside
      → join_refusal true false s.monitor ≡ none
      → t ≡ record s { monitor = raised s joined; creator = waiting }
      → Step s t
  wakes :
      s.creator ≡ waiting
      → check s.monitor (mask await_join) ≢ 0
      → t ≡ record s { creator = syncing }
      → Step s t
  lets_go :
      s.creator ≡ syncing → t ≡ record s { monitor = raised s exit; creator = exiting } → Step s t
  cleans :
      s.thread ≡ held
      → check s.monitor (mask exit) ≢ 0
      → t ≡ record s { thread = cleaning }
      → Step s t
  ends : s.thread ≡ cleaning → t ≡ record s { thread = gone } → Step s t
  ends_join : s.creator ≡ exiting → s.thread ≡ gone → t ≡ record s { creator = outside } → Step s t

pub data Reach (s : State) : State → Type 0 where
  here : Reach s s
  next : {t u : State} → Reach s t → Step t u → Reach s u

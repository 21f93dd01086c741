-- ===== src/Thread/Handshake.antt =====
-- The order in which a thread and the creator that joins it pass each other.
use pthreads.Base.{◌<◌, ◌≡◌, ◌≢◌, refl, ◌∙◌, Bool, true, false, none, arith}
use pthreads.Monitor.{
  Monitor, Flag, mask, started, running, joined, error, ready, exit, await_join, check,
}
use pthreads.Monitor
use pthreads.Monitor.Flags.{limit, same_flag, check-add, check-remove}
use pthreads.Thread.{
  Creator, outside, starting, waiting, syncing, exiting, Phase, absent, startup, working, held,
  cleaning, gone, State, initial, fresh, raised, Step, Reach, start_refusal, here, next,
}
use pthreads.Thread.Fits.{
  absent_of, fits-cleans, fits-ends, fits-ends_join, fits-finishes, fits-joins, fits-lets_go,
  fits-prepares, fits-returns, fits-starts, fits-wakes, fits_at, fits_at-add, gone_of, held_of,
  is_late, is_set, late_of, not_started, set-add, set-remove, to_join, was_set,
}

record IsFitting (s : State) : Type 0 where
  bounded : s.monitor.state < limit
  fitting : fits_at s.creator s.thread s.monitor ≡ true

module _ (s : State) (i : IsFitting s) where
  at_phase : (c : Creator) (p : Phase) → s.creator ≡ c → s.thread ≡ p → fits_at c p s.monitor ≡ true
  at_phase c p e f = rw (← e, ← f) (i.fitting)

  raised-limit : (f : Flag) → (raised s f).state < limit
  raised-limit f = (check-add s.monitor f f (i.bounded)).1

  starts-IsFitting :
      s.creator ≡ outside
      → start_refusal true false s.monitor ≡ none
      → IsFitting (record {
        monitor = raised s started;
        ready_monitor = fresh;
        creator = starting;
        thread = startup;
      })
  unfolding fits_at
  starts-IsFitting out free = record {
    bounded = raised-limit started;
    fitting =
        fits_at-add starting startup s.monitor started (i.bounded)
        ∙ fits-starts s.thread _ _ _ _ (not_started s.monitor free)
            (at_phase outside s.thread out refl);
  }

  -- A flag that is none of the four.
  aside-IsFitting :
      (f : Flag)
      → same_flag f started ≡ false
      → same_flag f joined ≡ false
      → same_flag f await_join ≡ false
      → same_flag f exit ≡ false
      → IsFitting (record s { monitor = raised s f })
  unfolding fits_at
  aside-IsFitting f a b c d = record {
    bounded = raised-limit f;
    fitting = fits_at-add s.creator s.thread s.monitor f (i.bounded) ∙ rw (a, b, c, d) (i.fitting);
  }

  rests-IsFitting : IsFitting (record s { monitor = Monitor.remove 0 s.monitor (mask running) })
  unfolding fits_at
  rests-IsFitting =
      let m = s.monitor in
      record {
        bounded = (check-remove m running running (i.bounded)).1;
        fitting =
            rw
              (
                set-remove m running started (i.bounded),
                set-remove m running joined (i.bounded),
                set-remove m running await_join (i.bounded),
                set-remove m running exit (i.bounded),
              )
              (i.fitting);
      }

  fails-IsFitting :
      start_refusal true false s.monitor ≡ none
      → IsFitting (record s { monitor = Monitor.remove 0 (raised s started) (mask started) })
  unfolding fits_at
  fails-IsFitting free =
      let m = raised s started in
      let h = raised-limit started in
      record {
        bounded = (check-remove m started started h).1;
        fitting =
            rw
              (
                set-remove m started started h,
                set-remove m started joined h,
                set-remove m started await_join h,
                set-remove m started exit h,
                set-add s.monitor started joined (i.bounded),
                set-add s.monitor started await_join (i.bounded),
                set-add s.monitor started exit (i.bounded),
              )
              (rw (not_started s.monitor free) at (i.fitting));
      }

Step-IsFitting : (s t : State) → Step s t → IsFitting s → IsFitting t
unfolding fits_at
Step-IsFitting s t (Step.starts out free e) i = rw e (starts-IsFitting s i out free)
Step-IsFitting s t (Step.fails out free e) i = rw e (fails-IsFitting s i free)
Step-IsFitting s t (Step.prepares at e) i = rw e (record {
  bounded = i.bounded;
  fitting = fits-prepares s.creator _ _ _ _ (at_phase s i s.creator startup refl at);
})
Step-IsFitting s t (Step.returns at set e) i = rw e (record {
  bounded = i.bounded;
  fitting = fits-returns s.thread _ _ _ _ (at_phase s i starting s.thread at refl);
})
Step-IsFitting s t (Step.runs at e) i = rw e (aside-IsFitting s i running refl refl refl refl)
Step-IsFitting s t (Step.errs at e) i = rw e (aside-IsFitting s i error refl refl refl refl)
Step-IsFitting s t (Step.rests at e) i = rw e (rests-IsFitting s i)
Step-IsFitting s t (Step.finishes at e) i = rw e (record {
  bounded = raised-limit s i await_join;
  fitting =
      fits_at-add s.creator held s.monitor await_join (i.bounded)
      ∙ fits-finishes s.creator _ _ _ _ (at_phase s i s.creator working refl at);
})
Step-IsFitting s t (Step.joins out free e) i =
    let r = to_join s.monitor free in
    rw e (record {
      bounded = raised-limit s i joined;
      fitting =
          fits_at-add waiting s.thread s.monitor joined (i.bounded)
          ∙ fits-joins s.thread _ _ _ _ r.0 r.1 (at_phase s i outside s.thread out refl);
    })
Step-IsFitting s t (Step.wakes at set e) i = rw e (record {
  bounded = i.bounded;
  fitting =
      fits-wakes s.thread (is_set s.monitor started) (is_set s.monitor joined)
        (is_set s.monitor await_join) (is_set s.monitor exit) (was_set s.monitor await_join set)
        (at_phase s i waiting s.thread at refl);
})
Step-IsFitting s t (Step.lets_go at e) i = rw e (record {
  bounded = raised-limit s i exit;
  fitting =
      fits_at-add exiting s.thread s.monitor exit (i.bounded)
      ∙ fits-lets_go s.thread _ _ _ _ (at_phase s i syncing s.thread at refl);
})
Step-IsFitting s t (Step.cleans at set e) i = rw e (record {
  bounded = i.bounded;
  fitting =
      fits-cleans s.creator _ _ _ _ (was_set s.monitor exit set)
        (at_phase s i s.creator held refl at);
})
Step-IsFitting s t (Step.ends at e) i = rw e (record {
  bounded = i.bounded;
  fitting = fits-ends s.creator _ _ _ _ (at_phase s i s.creator cleaning refl at);
})
Step-IsFitting s t (Step.ends_join at over e) i = rw e (record {
  bounded = i.bounded;
  fitting = rw over (
      fits-ends_join (is_set s.monitor started) (is_set s.monitor joined)
        (is_set s.monitor await_join) (is_set s.monitor exit) (at_phase s i exiting gone at over));
})

Reach-IsFitting : (s t : State) → Reach s t → IsFitting s → IsFitting t
Reach-IsFitting s _ here i = i
Reach-IsFitting s _ (next {t} {u} r st) i = Step-IsFitting t u st (Reach-IsFitting s t r i)

-- What the handshake is for.
pub record IsSafe (s : State) : Type 0 where
  -- The creator takes the properties over only while the thread waits to be told to exit.
  pub syncs : s.creator ≡ syncing → s.thread ≡ held
  -- The thread releases its objects only when the creator has let it go.
  pub releases : is_late s.thread ≡ true → is_set s.monitor exit ≡ true
  -- A thread is started only where there is none, and so only once.
  pub once : s.creator ≡ outside → start_refusal true false s.monitor ≡ none → s.thread ≡ absent
  -- A finished join leaves no thread.
  pub joined_gone : s.creator ≡ outside → is_set s.monitor joined ≡ true → s.thread ≡ gone

IsFitting-IsSafe : (s : State) → IsFitting s → IsSafe s
unfolding fits_at
IsFitting-IsSafe s i =
    let st = is_set s.monitor started in
    let jo = is_set s.monitor joined in
    let aw = is_set s.monitor await_join in
    let ex = is_set s.monitor exit in
    record {
      syncs = λ at. held_of s.thread st jo aw ex (at_phase s i syncing s.thread at refl);
      releases = λ late. late_of s.creator s.thread st jo aw ex (i.fitting) late;
      once = λ out free.
          absent_of s.thread st jo aw ex (at_phase s i outside s.thread out refl)
            (not_started s.monitor free);
      joined_gone =
          λ out set. gone_of s.thread st jo aw ex (at_phase s i outside s.thread out refl) set;
    }

-- In every state that a creator and its thread reach from a monitor with no flag set: the creator
-- takes the thread's properties over only while the thread waits to be told to exit, the thread
-- releases its objects only when it was told to, it is started only where there is none, and after
-- a join that ended it is gone.
pub Reach-IsSafe : (s : State) → Reach (initial fresh) s → IsSafe s
unfolding fits_at check
Reach-IsSafe s r =
    IsFitting-IsSafe s
      (Reach-IsFitting (initial fresh) s r (record { bounded = ground arith; fitting = refl }))

set_ne : (m : Monitor) (f : Flag) → is_set m f ≡ true → check m (mask f) ≢ 0
set_ne m f h = ground (arith, h)

abbrev pub is_joining : Creator → Bool
is_joining waiting = true
is_joining syncing = true
is_joining exiting = true
is_joining _ = false

moves_at :
    (s : State) (c : Creator) (p : Phase)
    → s.creator ≡ c
    → s.thread ≡ p
    → is_joining c ≡ true
    → fits_at c p s.monitor ≡ true
    → (t : State) × Step s t
unfolding fits_at
moves_at s waiting absent at there j h = absurd (ground (arith, h))
moves_at s waiting startup at there j h = (_, Step.prepares there refl)
moves_at s waiting working at there j h = (_, Step.finishes there refl)
moves_at s waiting held at there j h =
    (_, Step.wakes at (set_ne s.monitor await_join (ground (arith, h))) refl)
moves_at s waiting cleaning at there j h = absurd (ground (arith, h))
moves_at s waiting gone at there j h = absurd (ground (arith, h))
moves_at s syncing p at there j h = (_, Step.lets_go at refl)
moves_at s exiting absent at there j h = absurd (ground (arith, h))
moves_at s exiting startup at there j h = absurd (ground (arith, h))
moves_at s exiting working at there j h = absurd (ground (arith, h))
moves_at s exiting held at there j h =
    (_, Step.cleans there (set_ne s.monitor exit (ground (arith, h))) refl)
moves_at s exiting cleaning at there j h = (_, Step.ends there refl)
moves_at s exiting gone at there j h = (_, Step.ends_join at there refl)
moves_at s outside p at there j h = cc
moves_at s starting p at there j h = cc

-- A join does not deadlock: in every state that is reached from a monitor with no flag set, while
-- the creator is in the join, it or the thread can take a step.
pub Reach-moves :
    (s : State) → Reach (initial fresh) s → is_joining s.creator ≡ true → (t : State) × Step s t
unfolding fits_at check
Reach-moves s r j =
    let start : IsFitting (initial fresh) = record { bounded = ground arith; fitting = refl } in
    let i = Reach-IsFitting (initial fresh) s r start in
    moves_at s s.creator s.thread refl refl j (i.fitting)

-- ===== src/Thread/Tests.antt =====
-- A thread that is started, works, and is joined.
use pthreads.Base.{refl, arith}
use pthreads.Monitor.{Monitor, mask, started, joined, ready, await_join, check}
use pthreads.Monitor
use pthreads.Thread.{
  State, outside, starting, waiting, startup, working, initial, fresh, raised, Step, Reach, here,
  next, start_refusal, join_refusal,
}
use pthreads.Thread.Handshake.{IsSafe, Reach-IsSafe, Reach-moves}

abbrev launched : State
launched = record {
  monitor = raised (initial fresh) started;
  ready_monitor = fresh;
  creator = starting;
  thread = startup;
}

abbrev prepared : State
prepared = record launched { ready_monitor = Monitor.add 0 fresh (mask ready); thread = working }

abbrev returned : State
returned = record prepared { creator = outside }

abbrev asked : State
asked = record returned { monitor = raised returned joined; creator = waiting }

asked-Reach : Reach (initial fresh) asked
unfolding start_refusal join_refusal check Monitor.add Monitor.lock Monitor.unlock Monitor.notify
asked-Reach =
    next
      (next (next (next here (Step.starts refl refl refl)) (Step.prepares refl refl))
        (Step.returns refl (ground arith) refl))
      (Step.joins refl refl refl)

Reach-IsSafe_example : IsSafe asked
Reach-IsSafe_example = Reach-IsSafe asked asked-Reach

Reach-moves_example : (t : State) × Step asked t
Reach-moves_example = Reach-moves asked asked-Reach refl

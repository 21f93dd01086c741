-- ===== src/Globals/Tests.antt =====
-- Runs of the model of src/globals.c: a string that two threads add, and sockets that two threads share.
use pthreads.Base.{refl, false, none, List, [], ◌∷◌}
use pthreads.Base.Int.{ℤ, pos, negsuc}
use pthreads.Zend.Hash.{HashApi}
use pthreads.Zend.Table.{list_table}
use pthreads.Globals.{SharedString, PermanentTable, Globals}
use pthreads.Globals.Intern.{Added, add_interned_string-Added}
use pthreads.Globals.Sockets.{ClosedOnce, track_all, started, socket_track-ClosedOnce}

abbrev strings : HashApi SharedString
strings = list_table SharedString

abbrev sockets : HashApi ℤ
sockets = list_table ℤ

abbrev no_permanent : PermanentTable
no_permanent = record {
  find_permanent = λ b. none;
  found_bytes = λ b s e. absurd (cc e);
  found_permanent = λ b s e. absurd (cc e);
}

abbrev off : Globals strings sockets
off = record {
  is_init = false;
  failed = false;
  interned_strings = strings.empty;
  shared_sockets = sockets.empty;
}

abbrev hello : SharedString
hello = record { address = 5; bytes = 104 ∷ 105 ∷ []; permanent = false }

add_interned_string-Added_example : Added strings sockets no_permanent 9 off hello
add_interned_string-Added_example =
    add_interned_string-Added strings sockets no_permanent 9 off hello (λ b s e. absurd (cc e))

abbrev three_sockets : List ℤ
three_sockets = pos 7 ∷ negsuc 0 ∷ pos 7 ∷ []

socket_track-ClosedOnce_example :
    ClosedOnce strings sockets 7 three_sockets
      (track_all strings sockets three_sockets (started strings sockets off))
socket_track-ClosedOnce_example =
    socket_track-ClosedOnce strings sockets off three_sockets 7 refl refl

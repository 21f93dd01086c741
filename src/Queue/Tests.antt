-- ===== src/Queue/Tests.antt =====
-- A queue of two items, and what src/queue.c does to it.
use pthreads.Base.{
  ℕ, ◌≡◌, refl, true, Option, none, some, [], ◌∷◌, ◌++◌, arith, ◌==◌, if◌then◌else◌,
}
use pthreads.Queue.{
  Ptr, null, Item, item, Memory, Queue, free_item, copied, push_new, clean, shift, Removed, empty,
  then_run, remove, item_new, push, set_prev_and_next, set_prev, load, write, set_next, efree,
}
use pthreads.Queue.Links.{Cells, Represents, SameOutside}
use pthreads.Queue.Sequence.{push_new-append, Taken, remove-Taken}
use pthreads.Queue.Clean.{clean-Without, Without, release_all}

abbrev two_cells : Cells
two_cells = (8, 7) ∷ (16, 9) ∷ []

abbrev two_items : Memory
two_items = record {
  cell =
      λ a. if a == 8 then some (item 16 null 7) else if a == 16 then some (item null 8 9) else none;
  trace = [];
}

abbrev two_queue : Queue
two_queue = record { size = 2; head = 8; tail = 16 }

two_Represents : Represents two_items.cell two_queue two_cells
two_Represents = record {
  head = refl;
  tail = refl;
  linked = (refl, (ground arith), (refl, (ground arith), tt));
  distinct = (refl, (refl, tt));
  size = refl;
}

push_new-append_example :
    (q' : Queue) × (g : Ptr → Option Item) × (push_new 24 two_queue 5 two_items
      ≡ some (q', record { cell = g; trace = copied 5 ∷ [] }))
    × Represents g q' (two_cells ++ (24, 5) ∷ [])
    × SameOutside (two_cells ++ (24, 5) ∷ []) two_items.cell g
push_new-append_example =
    push_new-append two_items two_queue 24 5 two_cells (ground arith) two_Represents refl

-- The last item is taken out, and its value handed to the caller.
remove-Taken_example : Taken two_items two_queue ((8, 7) ∷ []) [] 16 9 true free_item
remove-Taken_example =
    remove-Taken two_items two_queue ((8, 7) ∷ []) [] 16 9 true free_item two_Represents
      (ground arith)

clean-Without_example :
    (g : Ptr → Option Item) × (clean 3 two_queue two_items
      ≡ some (tt, record { cell = g; trace = release_all two_cells two_items.trace }))
    × Without two_cells two_items.cell g
clean-Without_example = clean-Without 3 two_items two_queue two_cells two_Represents (omega arith)

-- What two pushes and two shifts give, in the order of the pushes.
abbrev value_of : Option (Removed × Memory) → Option ℕ
value_of none = none
value_of (some (r, m)) = r.value

abbrev blank : Memory
blank = record { cell = λ _. none; trace = [] }

abbrev pushed_twice : Option (Queue × Memory)
pushed_twice = then_run (push_new 8 empty 7 blank) (λ q. push_new 16 q 9)

first_in_first_out :
    (value_of (then_run pushed_twice (λ q. shift q true free_item)) ≡ some 7)
    × (value_of (
          then_run
            (then_run pushed_twice (λ q. shift q true free_item))
            (λ r. shift r.queue true free_item))
        ≡ some 9)
unfolding push_new shift item_new push set_prev_and_next set_prev load write set_next remove efree
first_in_first_out = (refl, refl)

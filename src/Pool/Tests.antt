-- ===== src/Pool/Tests.antt =====
-- A pool of two workers, over a table of entries in a list.
use pthreads.Base.{ℕ, ◌<◌, ◌≡◌, refl, true, none, some, [], ◌∷◌, arith, inl}
use pthreads.Base.Int.{pos}
use pthreads.Zend.Key.{index}
use pthreads.Zend.Hash.{HashApi}
use pthreads.Zend.Table.{list_table}
use pthreads.Pool.{Pool, Creation, submit, resize}
use pthreads.Pool.Resize.{IsContiguous, worker_at, shut_down, resize_shrinks}
use pthreads.Pool.Submit.{IsFilled, Submitted, submit-Submitted, submit_then_resize_hangs}

abbrev hash : HashApi ℕ
hash = list_table ℕ

abbrev pair : hash.Table
pair = ((index 0, 40) ∷ (index 1, 41) ∷ [], (refl, (refl, tt)))

abbrev two_workers : Pool hash
two_workers = record { size = pos 2; class = some 5; workers = some pair; last = 2; calls = [] }

pair-IsContiguous : IsContiguous hash 2 pair
pair-IsContiguous = record { small = omega arith; count = refl; present = λ i. ground arith }

resize_shrinks_example :
    (t' : hash.Table) × (resize hash 2 two_workers (pos 1)
      ≡ some (record two_workers {
        size = pos 1;
        workers = some t';
        calls = shut_down (worker_at hash pair) 1 1 two_workers.calls;
      }))
    × IsContiguous hash 1 t'
    × ((i : ℕ) → i < 1 → worker_at hash t' i ≡ worker_at hash pair i)
resize_shrinks_example =
    resize_shrinks hash 2 1 0 two_workers pair refl pair-IsContiguous (omega arith)

-- Class 5 stands for the entry 6, and the next worker is 42.
abbrev makes : Creation
makes = record { lookup_class = λ c. some 6; object = 42; has_constructor = true }

-- One of two workers is there, and it is the turn of the other.
abbrev one_worker : hash.Table
one_worker = ((index 0, 40) ∷ [], (refl, tt))

abbrev half_full : Pool hash
half_full = record { size = pos 2; class = some 5; workers = some one_worker; last = 1; calls = [] }

half_full-IsFilled : IsFilled hash 2 1 half_full
half_full-IsFilled = record {
  size = refl;
  room = omega arith;
  filled = record { small = omega arith; count = refl; present = λ i. ground arith };
  next_index = inl (omega arith);
}

submit-Submitted_example : Submitted hash makes half_full 9 2 1 6
submit-Submitted_example =
    submit-Submitted hash makes half_full 9 2 1 5 6 half_full-IsFilled (omega arith) (omega arith)
      refl refl

-- The pool was shrunk to one worker, and grown again, while the next index stayed.
abbrev single : hash.Table
single = ((index 0, 40) ∷ [], (refl, tt))

abbrev regrown : Pool hash
regrown = record { size = pos 3; class = some 5; workers = some single; last = 2; calls = [] }

single-IsContiguous : IsContiguous hash 1 single
single-IsContiguous = record { small = omega arith; count = refl; present = λ i. ground arith }

submit_then_resize_hangs_example : resize hash 50 (submit hash makes regrown 9).0 (pos 1) ≡ none
submit_then_resize_hangs_example =
    submit_then_resize_hangs hash makes regrown single 9 1 5 6 50 1 refl single-IsContiguous
      (omega arith) refl refl refl (omega arith)

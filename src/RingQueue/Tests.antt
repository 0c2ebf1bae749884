-- ===== src/RingQueue/Tests.antt =====
-- Concrete runs of the queues of utils/ring_queue.hpp.
use my_async.InfinityQueue.{pushing, popping, pushed}
use my_async.Prelude.{ℕ, ◌≡◌, refl, true, false, none, some, [], ◌∷◌, arith}
use my_async.RingQueue.{RingQueue, set_max_size, size, run}
use my_async.RingQueue.Fifo.{IsValid}
use my_async.RingQueue.Bounded.{RunsAlike, run-RunsAlike}

abbrev three : RingQueue ℕ
three = record { cells = 5 ∷ 6 ∷ 0 ∷ []; read = 1; write = 2 }

abbrev three-IsValid : IsValid three
three-IsValid = record { ordered = omega arith; in_range = omega arith }

run-RunsAlike_example : RunsAlike (popping ∷ pushing 7 ∷ popping ∷ popping ∷ []) three
run-RunsAlike_example =
    run-RunsAlike (popping ∷ pushing 7 ∷ popping ∷ popping ∷ []) three three-IsValid (omega arith)

-- Two entries in two cells: the third is refused until one is popped, and is then undefined.
refused_run :
    run {A = ℕ} (pushing 1 ∷ pushing 2 ∷ pushing 3 ∷ []) (set_max_size 0 2)
    ≡ some (
      pushed true ∷ pushed true ∷ pushed false ∷ [],
      record { cells = 1 ∷ 2 ∷ []; read = 0; write = 2 },
    )
unfolding run set_max_size my_async.RingQueue.push my_async.RingQueue.full
    my_async.RingQueue.push_unchecked
refused_run = refl

undefined_run :
    run {A = ℕ} (pushing 1 ∷ pushing 2 ∷ popping ∷ pushing 3 ∷ []) (set_max_size 0 2) ≡ none
unfolding run set_max_size my_async.RingQueue.push my_async.RingQueue.full
    my_async.RingQueue.push_unchecked my_async.RingQueue.pop
undefined_run = refl

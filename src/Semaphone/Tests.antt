-- ===== src/Semaphone/Tests.antt =====
-- generic/semaphone.hpp: a semaphore with one resource of two.
use my_async.Prelude.{◌≤◌, refl, [], ◌∷◌, arith}
use my_async.Semaphone.{Semaphone, acquire, idle, succeeded, Reachable}
use my_async.Semaphone.Counter.{counter_bounds, acquire-both}

abbrev one_of_two : Semaphone
one_of_two = record { counter = 1; max_count = 2; tasks = idle ∷ (idle ∷ []) }

abbrev taken_twice : Semaphone
taken_twice = record {
  counter = 0;
  max_count = 2;
  tasks = succeeded acquire ∷ (succeeded acquire ∷ []);
}

acquire-both_example : Reachable one_of_two taken_twice
acquire-both_example = acquire-both 2

counter_bounds_example : taken_twice.counter ≤ 2
counter_bounds_example =
    counter_bounds one_of_two taken_twice (omega arith) (omega arith) (refl, (refl, tt))
      (acquire-both 2)

-- ===== src/WhenAll/Tests.antt =====
-- awaiter/when_all.hpp: two children that finish in the reverse order.
use my_async.Prelude.{ℕ, refl, some, none, [], ◌∷◌, arith}
use my_async.WhenAll.{
  WhenAll, await_suspend, when_all_helper, Step, starts, finishes, Reachable, initial, next,
}
use my_async.WhenAll.Once.{no_deadlock}

abbrev started_one : WhenAll ℕ
started_one = record { count = 2; results = none ∷ (none ∷ []); started = 1; resumed = 0 }

abbrev started_both : WhenAll ℕ
started_both = record { count = 2; results = none ∷ (none ∷ []); started = 2; resumed = 0 }

abbrev second_done : WhenAll ℕ
second_done = record { count = 1; results = none ∷ (some 7 ∷ []); started = 2; resumed = 0 }

abbrev both_done : WhenAll ℕ
both_done = record { count = 0; results = some 5 ∷ (some 7 ∷ []); started = 2; resumed = 1 }

second_done-Reachable : Reachable 2 second_done
unfolding await_suspend when_all_helper
second_done-Reachable =
    next started_both second_done
      (next started_one started_both
        (next (await_suspend 2) started_one initial (starts (λ e. omega arith)))
        (starts (λ e. omega arith)))
      (finishes 1 7 (omega arith) refl)

no_deadlock_example : (s : WhenAll ℕ) × Step second_done s
no_deadlock_example = no_deadlock 2 5 second_done second_done-Reachable refl

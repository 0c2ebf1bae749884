-- ===== src/WhenAny.antt =====
-- generic/when_any.hpp: the race of several tasks, and a task with a timeout. The children run under one
-- CancelSource of their own, which is not cancelled when it is made; what is seen of them is the order in
-- which they come to their end, each with its position and its result, and the cancellation of the
-- caller, which reaches the source. A child that is cancelled comes to its end too.
-- The version over a vector is left out: it awaits as many null tasks as it has children.
pub mod First
mod Tests
use my_async.Prelude.{
  ℕ, ◌-◌, ◌^◌, Bool, true, false, Option, none, some, List, [], ◌∷◌, if◌then◌else◌,
}
use my_async.Expected.{Expected, value, of_errc, stream_timeout}

-- The locals of the coroutine that its children share: whether the source is cancelled, and what has
-- been stored.
pub record WhenAny (A : Type 0) : Type 0 where
  pub canceled : Bool
  pub result : Option A
  pub index : ℕ

pub data Event (A : Type 0) : Type 0 where
  ends : ℕ → A → Event A
  caller_canceled : Event A

module _ {A : Type 0} where
  abbrev pub when_any_start : WhenAny A
  when_any_start = record { canceled = false; result = none; index = 2 ^ 64 - 1 }

  -- The end of child `i` in `when_any_common`.
  abbrev pub common_child : ℕ → A → WhenAny A → WhenAny A
  common_child i a s =
      if s.canceled then s else record { canceled = true; result = some a; index = i }

  abbrev pub happens : (ℕ → A → WhenAny A → WhenAny A) → Event A → WhenAny A → WhenAny A
  happens child (ends i a) s = child i a s
  happens child caller_canceled s = record { canceled = true; result = s.result; index = s.index }

  -- The first event of the list comes first.
  abbrev pub race : (ℕ → A → WhenAny A → WhenAny A) → List (Event A) → WhenAny A → WhenAny A
  race child [] s = s
  race child (x ∷ xs) s = race child xs (happens child x s)

  -- `result.value()` throws if nothing has been stored, which is `none`.
  abbrev pub when_any_result : WhenAny A → Option (A × ℕ)
  when_any_result s = elim s.result [ none ↦ none | some a ↦ some (a, s.index) ]

  unfoldable pub when_any_common : List (Event A) → Option (A × ℕ)
  when_any_common xs = when_any_result (race common_child xs when_any_start)

-- The version for a parameter pack has one alternative for each task, here the two of `co_timeout`: the
-- task at 0 and the sleep at 1. Its children store as those of `when_any_common` do.
pub data Alternative (A : Type 0) : Type 0 where
  finished : A → Alternative A
  slept : Alternative A

module _ {A : Type 0} where
  abbrev pub timeout_result : Alternative A → Expected A
  timeout_result (finished a) = value a
  timeout_result slept = of_errc stream_timeout

  unfoldable pub co_timeout : List (Event (Alternative A)) → Option (Expected A)
  unfolding when_any_common
  co_timeout xs = elim (when_any_common xs) [ none ↦ none | some r ↦ some (timeout_result r.0) ]

-- ===== src/WhenAny/First.antt =====
-- generic/when_any.hpp: which result of the race is returned.
use mathlib.Core.Option
use my_async.Prelude.{ℕ, Option, none, some, List, [], ◌∷◌}
use my_async.WhenAny.{Event, ends, caller_canceled}

module _ {A : Type 0} where
  -- The result and the position of the child that ends first, if the caller has not been cancelled
  -- before.
  abbrev pub first_end : List (Event A) → Option (A × ℕ)
  first_end [] = none
  first_end (ends i a ∷ xs) = some (a, i)
  first_end (caller_canceled ∷ xs) = none

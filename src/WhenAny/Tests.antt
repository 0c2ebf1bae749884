-- ===== src/WhenAny/Tests.antt =====
-- generic/when_any.hpp: a race of two children, of which the second ends first, and a task that ends
-- after its sleep.
use my_async.Prelude.{ℕ, List, [], ◌∷◌}
use my_async.WhenAny.{Event, ends, Alternative, finished, slept}

abbrev second_first : List (Event ℕ)
second_first = ends 1 5 ∷ (ends 0 7 ∷ [])

abbrev late : List (Event (Alternative ℕ))
late = ends 1 slept ∷ (ends 0 (finished 7) ∷ [])

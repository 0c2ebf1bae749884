-- ===== src/Strings/Tests.antt =====
-- Concrete strings for utils/string_utils.hpp: 32 is the space, 44 the comma.
use my_async.Prelude.{◌≡◌, refl, some, List, ℕ, [], ◌∷◌, arith}
use my_async.Strings.{lower_string, upper_string, trim_string, collect}
use my_async.Strings.Trim.{Trimmed, trim_string-Trimmed}
use my_async.Strings.Split.{Collected, collect-Collected}

abbrev text : List ℕ
text = 32 ∷ 72 ∷ 105 ∷ 44 ∷ 32 ∷ 44 ∷ 33 ∷ 32 ∷ 32 ∷ []

trim_string-Trimmed_example : Trimmed (32 ∷ []) text (trim_string (32 ∷ []) text)
trim_string-Trimmed_example = trim_string-Trimmed (32 ∷ []) text

collect-Collected_example : Collected 44 text (collect 11 44 text)
collect-Collected_example = collect-Collected 11 44 text (omega arith)

collect_run : collect 5 44 (1 ∷ 44 ∷ 44 ∷ 2 ∷ 3 ∷ []) ≡ some ((1 ∷ []) ∷ [] ∷ (2 ∷ 3 ∷ []) ∷ [])
unfolding collect my_async.Strings.find_next my_async.Strings.find
collect_run = refl

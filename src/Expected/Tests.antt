-- ===== src/Expected/Tests.antt =====
-- The results of utils/expected.hpp on concrete values.
use my_async.Prelude.{ℕ, ◌≡◌, refl, true, ◌↔◌, List, [], ◌∷◌, ◌++◌, map, ◌⊎◌}
use my_async.Expected.{
  ErrorCode, operation_canceled, broken_pipe, Expected, value, error, same_code, await_vector,
  make_error_code,
}
use my_async.Expected.Laws.{same_code_iff, await_vector_lem}

abbrev canceled : ErrorCode
canceled = make_error_code operation_canceled

abbrev broken : ErrorCode
broken = make_error_code broken_pipe

abbrev failed : Expected ℕ
failed = error canceled

abbrev results : List (Expected ℕ)
results = value 1 ∷ error canceled ∷ value 3 ∷ error broken ∷ []

same_code_iff_example : (same_code canceled broken ≡ true) ↔ (canceled ≡ broken)
same_code_iff_example = same_code_iff canceled broken

await_vector_lem_example :
    ((xs : List ℕ) × (results ≡ map value xs) × (await_vector results ≡ value xs))
    ⊎ ((xs : List ℕ) × (c : ErrorCode) × (rest : List (Expected ℕ)) × (results
          ≡ map value xs ++ (error c ∷ rest))
        × (await_vector results ≡ error c))
await_vector_lem_example = await_vector_lem results

await_vector_run : await_vector results ≡ error canceled
unfolding await_vector
await_vector_run = refl

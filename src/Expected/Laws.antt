-- ===== src/Expected/Laws.antt =====
-- How the combinators of utils/expected.hpp treat errors, and the vector overload of
-- `await_transform` in awaiter/task.hpp.
use my_async.Prelude.{
  ◌≡◌, ◌≢◌, refl, ap, true, ◌↔◌, List, [], ◌∷◌, ◌++◌, map, ◌⊎◌, inl, inr, arith, Bool-cases, none,
  some,
}
use my_async.Expected.{
  Category, generic, eof, getaddrinfo, other, ErrorCode, Expected, value, error, same_category,
  same_code, ignore_error, await_vector, await_outcome, first_error, move_values,
}

same_category_iff : (a b : Category) → (same_category a b ≡ true) ↔ (a ≡ b)
same_category_iff generic b = ground arith
same_category_iff eof b = ground arith
same_category_iff getaddrinfo b = ground arith
same_category_iff (other i) b = ground arith

-- Two error codes are equal for `==` exactly when category and number are the same.
pub same_code_iff : (a b : ErrorCode) → (same_code a b ≡ true) ↔ (a ≡ b)
same_code_iff a b = ground (arith, same_category_iff a.category b.category)

-- The code of a failed result.
code_of {ℓ} : {A : Type ℓ} → ErrorCode → Expected A → ErrorCode
code_of d (value a) = d
code_of d (error e) = e

module _ {ℓ} {A : Type ℓ} where
  error_injective : (b c : ErrorCode) → ◌≡◌ {A = Expected A} (error b) (error c) → b ≡ c
  unfolding code_of
  error_injective b c h = ap (code_of b) h

  -- `ignore_error` replaces exactly the error with the code it is given, by the default value; a
  -- value and any other error stay.
  pub ignore_error_lem :
      (e : Expected A) (c : ErrorCode) (d : A)
      → ((e ≡ error c) × (ignore_error e c d ≡ value d))
        ⊎ ((e ≢ error c) × (ignore_error e c d ≡ e))
  unfolding ignore_error
  ignore_error_lem (value a) c d = inr (λ h. cc, refl)
  ignore_error_lem (error b) c d = elim (Bool-cases (same_code b c)) [
    | inl hit ↦ inl (ap error ((same_code_iff b c).0 hit), rw hit)
    | inr miss ↦ inr (λ h. cc (miss, (same_code_iff b c).1 (error_injective b c h)), rw miss)
  ]

  -- The shape of a vector of results: all are values, or there is a first error.
  data Shape (es : List (Expected A)) : Type ℓ where
    all_values : (xs : List A) → es ≡ map value xs → Shape es
    first_fails :
        (xs : List A) (c : ErrorCode) (rest : List (Expected A))
        → es ≡ map value xs ++ (error c ∷ rest)
        → Shape es

  shape : (es : List (Expected A)) → Shape es
  shape [] = all_values [] refl
  shape (error c ∷ es) = first_fails [] c es refl
  shape (value a ∷ es) = elim (shape es) [
    | all_values xs h ↦ all_values (a ∷ xs) (ap (◌∷◌ (value a)) h)
    | first_fails xs c rest h ↦ first_fails (a ∷ xs) c rest (ap (◌∷◌ (value a)) h)
  ]

  first_error-values : (xs : List A) → first_error (map value xs) ≡ none
  unfolding first_error
  first_error-values [] = refl
  first_error-values (a ∷ xs) = first_error-values xs

  move_values-values : (xs : List A) → move_values (map value xs) ≡ xs
  unfolding move_values
  move_values-values [] = refl
  move_values-values (a ∷ xs) = ap (◌∷◌ a) (move_values-values xs)

  first_error-append :
      (xs : List A) (c : ErrorCode) (rest : List (Expected A))
      → first_error (map value xs ++ (error c ∷ rest)) ≡ some c
  unfolding first_error
  first_error-append [] c rest = refl
  first_error-append (a ∷ xs) c rest = first_error-append xs c rest

  await_vector-values : (xs : List A) → await_vector (map value xs) ≡ value xs
  unfolding await_vector
  await_vector-values xs =
      rw (first_error-values xs, await_outcome) (ap value (move_values-values xs))

  await_vector-append :
      (xs : List A) (c : ErrorCode) (rest : List (Expected A))
      → await_vector (map value xs ++ (error c ∷ rest)) ≡ error c
  unfolding await_vector
  await_vector-append xs c rest = rw (first_error-append xs c rest, await_outcome)

  -- Awaiting a vector of results has two outcomes: if each result is a value, it gives all of the
  -- values, in order; otherwise it gives the code of the first result that is an error.
  pub await_vector_lem :
      (es : List (Expected A))
      → ((xs : List A) × (es ≡ map value xs) × (await_vector es ≡ value xs))
        ⊎ ((xs : List A) × (c : ErrorCode) × (rest : List (Expected A)) × (es
              ≡ map value xs ++ (error c ∷ rest))
            × (await_vector es ≡ error c))
  await_vector_lem es = elim (shape es) [
    | all_values xs h ↦ inl (xs, h, rw h (await_vector-values xs))
    | first_fails xs c rest h ↦ inr (xs, c, rest, h, rw h (await_vector-append xs c rest))
  ]

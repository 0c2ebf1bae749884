-- ===== src/Expected.antt =====
-- utils/expected.hpp: a value or an error code, and the combinators on it.
pub mod Laws
mod Tests
use my_async.Prelude.{
  ℕ, Bool, true, false, not, ◌&&◌, Option, none, some, List, [], ◌∷◌, ◌==◌, if◌then◌else◌,
}

-- The category objects that the library compares by address; `other` stands for a user's.
pub data Category : Type 0 where
  generic eof getaddrinfo : Category
  other : ℕ → Category

-- std::error_code: the two members that `Expected` stores.
pub record ErrorCode : Type 0 where
  pub category : Category
  pub code : ℕ

-- The std::errc constants that the library returns.
pub data Errc : Type 0 where
  bad_file_descriptor resource_unavailable_try_again bad_address invalid_argument : Errc
  invalid_seek broken_pipe stream_timeout value_too_large not_supported : Errc
  connection_reset operation_canceled : Errc

-- `static_cast<int>(e)`: the errno numbers of Linux.
abbrev pub errno : Errc → ℕ
errno bad_file_descriptor = 9
errno resource_unavailable_try_again = 11
errno bad_address = 14
errno invalid_argument = 22
errno invalid_seek = 29
errno broken_pipe = 32
errno stream_timeout = 62
errno value_too_large = 75
errno not_supported = 95
errno connection_reset = 104
errno operation_canceled = 125

abbrev pub make_error_code : Errc → ErrorCode
make_error_code e = record { category = generic; code = errno e }

abbrev pub same_category : Category → Category → Bool
same_category generic generic = true
same_category eof eof = true
same_category getaddrinfo getaddrinfo = true
same_category (other i) (other j) = i == j
same_category _ _ = false

-- std::error_code's `==`.
abbrev pub same_code : ErrorCode → ErrorCode → Bool
same_code a b = same_category a.category b.category && (a.code == b.code)

-- A null `mErrorCatgory` is `value`, any other is `error`.
pub data Expected {ℓ} (A : Type ℓ) : Type ℓ where
  value : A → Expected A
  error : ErrorCode → Expected A

-- `expectError(res)`, where `negated` says that `res` is negative and `n` is its magnitude.
pub expect_error : Bool → ℕ → Expected ℕ
expect_error true n = error (record { category = generic; code = n })
expect_error false n = value n

-- What a call that may throw gives: `value()` throws std::system_error with the stored code.
pub data Outcome {ℓ} (A : Type ℓ) : Type ℓ where
  returned : A → Outcome A
  system_error : ErrorCode → Outcome A

module _ {ℓ} {A : Type ℓ} where
  unfoldable pub of_errc : Errc → Expected A
  of_errc e = error (make_error_code e)

  unfoldable pub has_error : Expected A → Bool
  has_error (value a) = false
  has_error (error c) = true

  pub has_value : Expected A → Bool
  unfolding has_error
  has_value e = not (has_error e)

  pub get_value : Expected A → Outcome A
  get_value (value a) = returned a
  get_value (error c) = system_error c

  pub value_or : Expected A → A → A
  value_or (value a) d = a
  value_or (error c) d = d

  pub opt_value : Expected A → Option A
  opt_value (value a) = some a
  opt_value (error c) = none

  pub opt_error : Expected A → Option ErrorCode
  opt_error (value a) = none
  opt_error (error c) = some c

  -- `e == code`, the comparison with an error code.
  pub is_error : Expected A → ErrorCode → Bool
  is_error (value a) c = false
  is_error (error d) c = same_code d c

  unfoldable pub ignore_error : Expected A → ErrorCode → A → Expected A
  ignore_error (value a) c d = value a
  ignore_error (error e) c d = if same_code e c then value d else error e

  pub or_else : Expected A → (Unit {0} → Expected A) → Expected A
  or_else (value a) f = value a
  or_else (error e) f = f tt

  -- The overload of `or_else` that recovers from one code only, here with a plain result.
  unfoldable pub or_else_on : Expected A → ErrorCode → (Unit {0} → A) → Expected A
  or_else_on (value a) c f = value a
  or_else_on (error e) c f = if same_code e c then value (f tt) else error e

  -- Copy and move assignment: the old value of the left side is destroyed whatever it was.
  pub assign : Expected A → Expected A → Expected A
  assign old (value a) = value a
  assign old (error e) = error e

module _ {ℓ κ} {A : Type ℓ} {B : Type κ} where
  unfoldable pub transform : Expected A → (A → B) → Expected B
  transform (value a) f = value (f a)
  transform (error e) f = error e

  unfoldable pub and_then : Expected A → (A → Expected B) → Expected B
  and_then (value a) f = f a
  and_then (error e) f = error e

  -- The converting constructor `Expected(Expected<U> that)`, with the conversion of the value.
  pub convert : (A → B) → Expected A → Expected B
  convert f (value a) = value (f a)
  convert f (error e) = error e

module _ {ℓ} {A : Type ℓ} where
  -- `await_transform` of a vector: the loop that looks for an error,
  unfoldable pub first_error : List (Expected A) → Option ErrorCode
  first_error [] = none
  first_error (value a ∷ es) = first_error es
  first_error (error c ∷ es) = some c

  -- the loop that moves the values out, run only when there is no error,
  unfoldable pub move_values : List (Expected A) → List A
  move_values [] = []
  move_values (value a ∷ es) = a ∷ move_values es
  move_values (error c ∷ es) = move_values es

  unfoldable pub await_outcome : Option ErrorCode → List A → Expected (List A)
  await_outcome none values = value values
  await_outcome (some c) values = error c

  -- and what the coroutine goes on with, or returns early with.
  unfoldable pub await_vector : List (Expected A) → Expected (List A)
  unfolding first_error move_values await_outcome
  await_vector es = await_outcome (first_error es) (move_values es)

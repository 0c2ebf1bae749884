-- ===== src/Task.antt =====
-- awaiter/task.hpp: a Task<Expected<T>> run to its end from a state, and what `co_await co_await`
-- does with its result.
use my_async.Expected.{Expected, value, error}

-- How a task ends: it returns a result and leaves a state, it does something that C++ leaves
-- undefined (a read or a write out of bounds, a missing co_return), or the fuel that the model
-- gives to its loops runs out.
pub data Run {ℓ κ} (S : Type ℓ) (A : Type κ) : Type (ℓ ⊔ κ) where
  done : Expected A → S → Run S A
  undefined : Run S A
  out_of_fuel : Run S A

abbrev pub Io {ℓ κ} : Type ℓ → Type κ → Type (ℓ ⊔ κ)
Io S A = S → Run S A

module _ {ℓ κ μ} {S : Type ℓ} {A : Type κ} {B : Type μ} where
  -- `TaskPromiseExpectedTransforms::await_transform(Expected<T2> &&)`: an error is returned to the
  -- caller at once, a value goes on.
  abbrev pub await_transform : Expected A → S → (A → Io S B) → Run S B
  await_transform (value a) s k = k a s
  await_transform (error e) s k = done (error e) s

  abbrev pub await : Run S A → (A → Io S B) → Run S B
  await (done e s) k = await_transform e s k
  await undefined k = undefined
  await out_of_fuel k = out_of_fuel

  -- A single `co_await`: the caller gets the result itself, an error included.
  abbrev pub await_result : Run S A → (Expected A → Io S B) → Run S B
  await_result (done e s) k = k e s
  await_result undefined k = undefined
  await_result out_of_fuel k = out_of_fuel

  infixl 5 ◌>>=◌
  abbrev pub ◌>>=◌ : Io S A → (A → Io S B) → Io S B
  m >>= k = λ s. await (m s) k

module _ {ℓ κ μ} {S : Type ℓ} {A : Type κ} {B : Type μ} where
  infixl 5 ◌>>◌
  abbrev pub ◌>>◌ : Io S A → Io S B → Io S B
  m >> n = m >>= λ _. n

-- `co_return a`.
abbrev pub co_return {ℓ κ} : {S : Type ℓ} {A : Type κ} → A → Io S A
co_return a s = done (value a) s

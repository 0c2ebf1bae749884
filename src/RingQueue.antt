-- ===== src/RingQueue.antt =====
-- utils/ring_queue.hpp: RingQueue.
-- The pointers are offsets from `mHead`; a null array has no cells. An access outside the array is
-- undefined and gives `none`. What a move leaves in a cell is not read again.
pub mod Fifo
pub mod Bounded
mod Tests
use mathlib.Core.Option
use my_async.Prelude.{
  ℕ, zero, suc, ◌+◌, ◌-◌, ◌%◌, Bool, true, false, Option, none, some, List, [], ◌∷◌, ◌++◌, length,
  get_elem?, set, replicate, add_size, sub_size, ltb, ◌==◌, if◌then◌else◌,
}
use my_async.InfinityQueue.{Op, pushing, popping, Reply, pushed, popped}

pub record RingQueue {ℓ} (A : Type ℓ) : Type ℓ where
  pub cells : List A
  pub read : ℕ
  pub write : ℕ

module _ {ℓ} {A : Type ℓ} where
  -- The constructor and `set_max_size`; `blank` is the value of a default-initialised cell.
  unfoldable pub set_max_size : A → ℕ → RingQueue A
  set_max_size blank n = record { cells = replicate n blank; read = 0; write = 0 }

  abbrev pub max_size : RingQueue A → ℕ
  max_size q = length q.cells

  -- The position after `i`: `mTail` itself is one of the positions.
  abbrev pub next : RingQueue A → ℕ → ℕ
  next q i = if i == max_size q then 0 else i + 1

  -- A remainder by 0 is undefined.
  unfoldable pub size : RingQueue A → Option ℕ
  size q =
      if max_size q == 0
      then none
      else some (add_size (sub_size q.write q.read) (max_size q) % max_size q)

  unfoldable pub empty : RingQueue A → Bool
  empty q = q.read == q.write

  unfoldable pub full : RingQueue A → Bool
  full q = next q q.write == q.read

  unfoldable pub pop_unchecked : RingQueue A → Option (A × RingQueue A)
  pop_unchecked q =
      Option.map (λ a. (a, record q { read = next q q.read })) (get_elem? q.cells q.read)

  unfoldable pub pop : RingQueue A → Option (Option A × RingQueue A)
  unfolding pop_unchecked empty
  pop q = if empty q then some (none, q) else Option.map (λ p. (some p.0, p.1)) (pop_unchecked q)

  unfoldable pub push_unchecked : A → RingQueue A → Option (RingQueue A)
  push_unchecked a q =
      if ltb q.write (max_size q)
      then some (record q { cells = set q.cells q.write a; write = next q q.write })
      else none

  unfoldable pub push : A → RingQueue A → Option (Bool × RingQueue A)
  unfolding push_unchecked full
  push a q = if full q then some (false, q) else Option.map (λ q'. (true, q')) (push_unchecked a q)

module _ {ℓ} {A : Type ℓ} where
  abbrev pub step : Op A → RingQueue A → Option (Reply A × RingQueue A)
  step (pushing a) q = Option.map (λ p. (pushed p.0, p.1)) (push a q)
  step popping q = Option.map (λ p. (popped p.0, p.1)) (pop q)

  -- A sequence of operations, up to an undefined one.
  unfoldable pub run : List (Op A) → RingQueue A → Option (List (Reply A) × RingQueue A)
  run [] q = some ([], q)
  run (op ∷ ops) q = elim (step op q) [
    | none ↦ none
    | some p ↦ Option.map (λ rest. (p.0 ∷ rest.0, rest.1)) (run ops p.1)
  ]

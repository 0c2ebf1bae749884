-- ===== src/InfinityQueue.antt =====
-- utils/ring_queue.hpp: InfinityQueue, and the operations that a caller of a queue makes.
use my_async.Prelude.{Bool, true, Option, none, some, List, [], ◌∷◌, ◌++◌}

-- The std::deque in it, front first.
abbrev pub InfinityQueue {ℓ} : Type ℓ → Type ℓ
InfinityQueue A = List A

module _ {ℓ} {A : Type ℓ} where
  unfoldable pub pop : InfinityQueue A → Option A × InfinityQueue A
  pop [] = (none, [])
  pop (a ∷ q) = (some a, q)

  -- `front` of an empty deque is undefined.
  pub pop_unchecked : InfinityQueue A → Option (A × InfinityQueue A)
  pop_unchecked [] = none
  pop_unchecked (a ∷ q) = some (a, q)

  unfoldable pub push : A → InfinityQueue A → InfinityQueue A
  push a q = q ++ (a ∷ [])

-- A caller's operations and what they answer.
pub data Op {ℓ} (A : Type ℓ) : Type ℓ where
  pushing : A → Op A
  popping : Op A

pub data Reply {ℓ} (A : Type ℓ) : Type ℓ where
  pushed : Bool → Reply A
  popped : Option A → Reply A

module _ {ℓ} {A : Type ℓ} where
  abbrev pub step : Op A → InfinityQueue A → Reply A × InfinityQueue A
  step (pushing a) q = (pushed true, push a q)
  step popping q = let p = pop q in (popped p.0, p.1)

  -- A sequence of operations.
  abbrev pub run : List (Op A) → InfinityQueue A → List (Reply A) × InfinityQueue A
  run [] q = ([], q)
  run (op ∷ ops) q = let p = step op q in let rest = run ops p.1 in (p.0 ∷ rest.0, rest.1)

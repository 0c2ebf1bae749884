-- ===== src/RingQueue/Fifo.antt =====
-- utils/ring_queue.hpp: what a RingQueue holds, and how its operations compare with those of the
-- queue without a bound.
use my_async.Prelude.{
  ℕ, zero, suc, ◌+◌, ◌-◌, ◌≤◌, ◌<◌, ◌≡◌, refl, ap, true, false, none, some, List, [], ◌∷◌, ◌++◌,
  length, get_elem?, set, take, slice, length-set, arith, Bool-cases, inl, inr, ◌==◌, ltb,
}
use my_async.RingQueue.{RingQueue, max_size, empty, full, pop, push, pop_unchecked, push_unchecked}

module _ {ℓ} {A : Type ℓ} where
  -- Until it has wrapped around, the read position follows the write position.
  pub record IsValid (q : RingQueue A) : Type 0 where
    pub ordered : q.read ≤ q.write
    pub in_range : q.write ≤ max_size q

  -- The entries between the positions.
  abbrev pub contents : RingQueue A → List A
  contents q = slice q.cells q.read (q.write - q.read)

  slice-cons :
      (xs : List A) (i k : ℕ)
      → i < length xs
      → (x : A) × (get_elem? xs i ≡ some x) × (slice xs i (suc k) ≡ x ∷ slice xs (suc i) k)
  unfolding slice
  slice-cons [] i k h = absurd (omega arith)
  slice-cons (x ∷ xs) zero k h = (x, refl, refl)
  slice-cons (x ∷ xs) (suc i) k h = slice-cons xs i k (omega arith)

  take-set :
      (xs : List A) (k : ℕ) (a : A)
      → k < length xs
      → take (suc k) (set xs k a) ≡ take k xs ++ (a ∷ [])
  take-set [] k a h = absurd (omega arith)
  take-set (x ∷ xs) zero a h = refl
  take-set (x ∷ xs) (suc k) a h = ap (◌∷◌ x) (take-set xs k a (omega arith))

  slice-set :
      (xs : List A) (i k : ℕ) (a : A)
      → i ≤ k
      → k < length xs
      → slice (set xs k a) i (suc k - i) ≡ slice xs i (k - i) ++ (a ∷ [])
  unfolding slice
  slice-set [] i k a h b = absurd (omega arith)
  slice-set (x ∷ xs) zero k a h b =
      let e₁ : suc k - 0 ≡ suc k = omega arith in
      let e₂ : k - 0 ≡ k = omega arith in rw (e₁, e₂) (take-set (x ∷ xs) k a b)
  slice-set (x ∷ xs) (suc i) zero a h b = absurd (omega arith)
  slice-set (x ∷ xs) (suc i) (suc k) a h b =
      let e₁ : suc (suc k) - suc i ≡ suc k - i = omega arith in
      let e₂ : suc k - suc i ≡ k - i = omega arith in
      rw (e₁, e₂) (slice-set xs i k a (omega arith) (omega arith))

  -- What `push` does to a queue that has not wrapped around.
  pub data Pushed (a : A) (q : RingQueue A) : Type ℓ where
    stored :
        (q' : RingQueue A)
        → IsValid q'
        → contents q' ≡ contents q ++ (a ∷ [])
        → push a q ≡ some (true, q')
        → q.write < max_size q
        → q'.write ≡ q.write + 1
        → max_size q' ≡ max_size q
        → Pushed a q
    refused : q.write ≡ max_size q → q.read ≡ 0 → push a q ≡ some (false, q) → Pushed a q
    past_end : q.write ≡ max_size q → 0 < q.read → push a q ≡ none → Pushed a q

  -- On a RingQueue that has not wrapped around, `push` in front of the end of the array stores
  -- the entry behind the others. With the write position at the end it refuses when nothing has
  -- been popped, and else writes past the array, which is undefined.
  pub push-Pushed : (a : A) (q : RingQueue A) → IsValid q → Pushed a q
  unfolding push full push_unchecked
  push-Pushed a q v = elim (Bool-cases (q.write == max_size q)) [
    | inl at_end ↦ elim (Bool-cases (0 == q.read)) [
      | inl fresh ↦ refused (ground arith) (ground arith) (rw at_end (rw fresh refl))
      | inr used ↦
          let beyond : ltb q.write (max_size q) ≡ false = ground arith in
          past_end (ground arith) (ground arith) (rw at_end (rw (used, beyond) refl))
    ]
    | inr before ↦
        let less : q.write < max_size q = ground (arith, v.in_range) in
        let room : ltb q.write (max_size q) ≡ true = ground arith in
        let apart : (q.write + 1 == q.read) ≡ false = ground (arith, v.ordered) in
        let len = length-set q.cells q.write a in
        let one : q.write + 1 ≡ suc q.write = omega arith in
        stored (record { cells = set q.cells q.write a; read = q.read; write = q.write + 1 })
          (record { ordered = omega (arith, v.ordered); in_range = omega (arith, len) })
          (rw one (slice-set q.cells q.read q.write a v.ordered less))
          (rw before (rw (apart, room) refl)) less refl len
  ]

  -- What `pop` does to a queue that has not wrapped around.
  pub data Popped (q : RingQueue A) : Type ℓ where
    nothing : contents q ≡ [] → pop q ≡ some (none, q) → Popped q
    first :
        (a : A) (q' : RingQueue A)
        → IsValid q'
        → contents q ≡ a ∷ contents q'
        → pop q ≡ some (some a, q')
        → q'.write ≡ q.write
        → max_size q' ≡ max_size q
        → Popped q

  -- On a RingQueue that has not wrapped around, `pop` takes the first entry, or answers that
  -- there is none and changes nothing.
  pub pop-Popped : (q : RingQueue A) → IsValid q → Popped q
  unfolding pop pop_unchecked empty slice
  pop-Popped q v = elim (Bool-cases (q.read == q.write)) [
    | inl same ↦
        let none_left : q.write - q.read ≡ 0 = ground arith in
        nothing (rw none_left refl) (rw same refl)
    | inr apart ↦
        let less : q.read < q.write = ground (arith, v.ordered) in
        let (a, found, split) =
          slice-cons q.cells q.read (q.write - suc q.read) (omega (arith, v.in_range)) in
        let before : (q.read == max_size q) ≡ false = ground (arith, v.in_range) in
        let one : q.read + 1 ≡ suc q.read = omega arith in
        let count : q.write - q.read ≡ suc (q.write - suc q.read) = omega arith in
        first a (record q { read = suc q.read })
          (record { ordered = omega arith; in_range = v.in_range }) (rw count split)
          (rw apart (rw found (rw before (rw one refl)))) refl refl
  ]

-- ===== src/ByteOrder/Mirror.antt =====
-- utils/byteorder.hpp: the loop of bruteForceByteSwap against the order of the bytes.
use my_async.Prelude.{
  ℕ, zero, suc, ◌+◌, ◌-◌, ◌/◌, ◌≤◌, ◌<◌, ◌≡◌, ◌≢◌, refl, ap, ap₂, sym, ◌∙◌, ◌⊎◌, inl, inr, List, [],
  ◌∷◌, length, length-set, get_or, set, ltb, arith, Bool-cases, ◌==◌,
}
use my_async.ByteOrder.{swap_bytes, swap_from, brute_force_byte_swap}

get_or-set_self : (xs : List ℕ) (i v : ℕ) → i < length xs → get_or (set xs i v) i 0 ≡ v
get_or-set_self [] i v h = absurd (omega arith)
get_or-set_self (x ∷ xs) zero v h = refl
get_or-set_self (x ∷ xs) (suc i) v h = get_or-set_self xs i v (omega arith)

get_or-set_ne : (xs : List ℕ) (i j v : ℕ) → i ≢ j → get_or (set xs i v) j 0 ≡ get_or xs j 0
get_or-set_ne [] i j v h = refl
get_or-set_ne (x ∷ xs) zero zero v h = absurd (h refl)
get_or-set_ne (x ∷ xs) zero (suc j) v h = refl
get_or-set_ne (x ∷ xs) (suc i) zero v h = refl
get_or-set_ne (x ∷ xs) (suc i) (suc j) v h = get_or-set_ne xs i j v (λ e. h (ap suc e))

-- Lists of one length that agree at each position are the same.
same_bytes :
    (xs ys : List ℕ)
    → length xs ≡ length ys
    → ((j : ℕ) → j < length xs → get_or xs j 0 ≡ get_or ys j 0)
    → xs ≡ ys
same_bytes [] [] l h = refl
same_bytes [] (y ∷ ys) l h = absurd (omega arith)
same_bytes (x ∷ xs) [] l h = absurd (omega arith)
same_bytes (x ∷ xs) (y ∷ ys) l h =
    ap₂ ◌∷◌ (h 0 (omega arith)) (same_bytes xs ys (omega arith) (λ j b. h (suc j) (omega arith)))

-- `ptr` is `value` with the first `i` bytes and the last `i` exchanged.
record Swapped (value : List ℕ) (i : ℕ) (ptr : List ℕ) : Type 0 where
  size : length ptr ≡ length value
  mirrored :
      (j : ℕ)
      → j < length value
      → (j < i) ⊎ (length value ≤ j + i)
      → get_or ptr j 0 ≡ get_or value (length value - 1 - j) 0
  kept : (j : ℕ) → i ≤ j → j + i < length value → get_or ptr j 0 ≡ get_or value j 0

swap_bytes-Swapped :
    (value : List ℕ) (i : ℕ) (ptr : List ℕ)
    → i + i + 1 < length value
    → Swapped value i ptr
    → Swapped value (i + 1) (swap_bytes i (length ptr - 1 - i) ptr)
unfolding swap_bytes
swap_bytes-Swapped value i ptr room s = record {
  size = length-set (set ptr i b) k a ∙ length-set ptr i b ∙ s.size;
  mirrored = λ j bound side. elim (Bool-cases (j == i)) [
    | inl front ↦
        let e : j ≡ i = ground arith in
        let far : k ≢ j = λ h. absurd (omega (arith, s.size)) in
        let near : k ≡ length value - 1 - j = omega (arith, s.size) in
        get_or-set_ne (set ptr i b) k j a far
        ∙ ap (λ p. get_or (set ptr p b) j 0) (sym e)
        ∙ get_or-set_self ptr j b (omega (arith, s.size))
        ∙ s.kept k (omega (arith, s.size)) (omega (arith, s.size))
        ∙ ap (λ p. get_or value p 0) near
    | inr not_front ↦ elim (Bool-cases (j == k)) [
      | inl back ↦
          let e : j ≡ k = ground arith in
          let near : i ≡ length value - 1 - j = omega (arith, s.size) in
          ap (λ p. get_or (set (set ptr i b) k a) p 0) e
          ∙ get_or-set_self (set ptr i b) k a (omega (arith, s.size, length-set ptr i b))
          ∙ s.kept i (omega arith) (omega arith)
          ∙ ap (λ p. get_or value p 0) near
      | inr not_back ↦
          let l : i ≢ j = ground arith in
          let r : k ≢ j = ground arith in
          get_or-set_ne (set ptr i b) k j a r
          ∙ get_or-set_ne ptr i j b l
          ∙ s.mirrored j bound (outer j bound l r side)
    ]
  ];
  kept = λ j low high.
      let l : i ≢ j = λ h. absurd (omega arith) in
      let r : k ≢ j = λ h. absurd (omega (arith, s.size)) in
      get_or-set_ne (set ptr i b) k j a r
      ∙ get_or-set_ne ptr i j b l
      ∙ s.kept j (omega arith) (omega arith);
}
  where
    k : ℕ
    k = length ptr - 1 - i

    a : ℕ
    a = get_or ptr i 0

    b : ℕ
    b = get_or ptr k 0

    outer :
        (j : ℕ)
        → j < length value
        → i ≢ j
        → k ≢ j
        → (j < i + 1) ⊎ (length value ≤ j + (i + 1))
        → (j < i) ⊎ (length value ≤ j + i)
    outer j bound l r (inl h) = inl (omega (arith, l))
    outer j bound l r (inr h) = inr (omega (arith, r, s.size))

swap_from-Swapped :
    (value : List ℕ) (rounds i : ℕ) (ptr : List ℕ)
    → i + rounds ≡ length value / 2
    → Swapped value i ptr
    → Swapped value (length value / 2) (swap_from rounds i ptr)
unfolding swap_from
swap_from-Swapped value zero i ptr h s = let e : i ≡ length value / 2 = omega arith in rw (← e) s
swap_from-Swapped value (suc rounds) i ptr h s =
    swap_from-Swapped value rounds (i + 1) (swap_bytes i (length ptr - 1 - i) ptr) (omega arith)
      (swap_bytes-Swapped value i ptr (omega arith) s)

-- The loop of swaps keeps the number of bytes and puts at each position the byte at the same
-- position from the end.
pub brute_force_byte_swap_lem :
    (value : List ℕ)
    → (length (brute_force_byte_swap value) ≡ length value)
      × ((j : ℕ)
          → j < length value
          → get_or (brute_force_byte_swap value) j 0 ≡ get_or value (length value - 1 - j) 0)
unfolding brute_force_byte_swap
brute_force_byte_swap_lem value = elim (Bool-cases (ltb 1 (length value))) [
  | inr short ↦ rw short (
    refl,
    λ j bound. let e : j ≡ length value - 1 - j = ground arith in ap (λ p. get_or value p 0) e,
  )
  | inl long ↦
      let s = swap_from-Swapped value (length value / 2) 0 value (omega arith) (record {
        size = refl;
        mirrored = λ j bound side. absurd (none j bound side);
        kept = λ j low high. refl;
      }) in
      rw long (
        s.size,
        λ j bound. elim (Bool-cases (ltb j (length value / 2))) [
          | inl front ↦ s.mirrored j bound (inl (ground arith))
          | inr not_front ↦ elim (Bool-cases (ltb (j + length value / 2) (length value))) [
            | inr back ↦ s.mirrored j bound (inr (ground arith))
            | inl middle ↦
                let e : j ≡ length value - 1 - j = ground arith in
                s.kept j (ground arith) (ground arith) ∙ ap (λ p. get_or value p 0) e
          ]
        ],
      )
]
  where
    none : (j : ℕ) → j < length value → (j < 0) ⊎ (length value ≤ j + 0) → ⊥
    none j bound (inl h) = omega arith
    none j bound (inr h) = omega arith

-- Swapping the bytes of a value twice gives the value back.
pub brute_force_byte_swap-brute_force_byte_swap :
    (value : List ℕ) → brute_force_byte_swap (brute_force_byte_swap value) ≡ value
brute_force_byte_swap-brute_force_byte_swap value =
    let (len, at_byte) = brute_force_byte_swap_lem value in
    let (len', at_byte') = brute_force_byte_swap_lem (brute_force_byte_swap value) in
    same_bytes (brute_force_byte_swap (brute_force_byte_swap value)) value (len' ∙ len) (λ j bound.
      let n : length (brute_force_byte_swap value) - 1 - j ≡ length value - 1 - j =
        omega (arith, len) in
      let e : length value - 1 - (length value - 1 - j) ≡ j = omega (arith, len, len') in
      at_byte' j (omega (arith, len'))
      ∙ ap (λ p. get_or (brute_force_byte_swap value) p 0) n
      ∙ at_byte (length value - 1 - j) (omega (arith, len, len'))
      ∙ ap (λ p. get_or value p 0) e)

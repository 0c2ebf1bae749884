-- ===== src/Prelude/Slices.antt =====
-- Parts of a list by position, as a buffer is read and written.
use Prim.Native.Nat.{ℕ, zero, suc, ◌+◌, ◌-◌, ◌≤◌, min}
use mathlib.Core.Path.{◌≡◌, refl, ap, sym, ◌∙◌}
use mathlib.Core.List.{List, [], ◌∷◌, ◌++◌, append_assoc}
use native.Mathlib.Decide.{dec_le}
use native.Mathlib.Omega.{arith}
use my_async.Prelude.Lists.{length, take, drop, length-take, length-drop, length-append}

module _ {ℓ} {A : Type ℓ} where
  -- The `n` entries from position `i` on.
  unfoldable pub slice : List A → ℕ → ℕ → List A
  slice xs i n = take n (drop i xs)

  -- `xs` with the entries from position `i` on overwritten by `ys`.
  unfoldable pub write_at : List A → ℕ → List A → List A
  write_at xs i ys = take i xs ++ (ys ++ drop (i + length ys) xs)

  pub take-append_le : (n : ℕ) (xs ys : List A) → n ≤ length xs → take n (xs ++ ys) ≡ take n xs
  take-append_le zero xs ys h = refl
  take-append_le (suc n) [] ys h = absurd (omega arith)
  take-append_le (suc n) (x ∷ xs) ys h = ap (◌∷◌ x) (take-append_le n xs ys (omega arith))

  pub take-append_ge :
      (n : ℕ) (xs ys : List A) → length xs ≤ n → take n (xs ++ ys) ≡ xs ++ take (n - length xs) ys
  take-append_ge n [] ys h = ap (λ k. take k ys) (omega arith)
  take-append_ge zero (x ∷ xs) ys h = absurd (omega arith)
  take-append_ge (suc n) (x ∷ xs) ys h =
      ap (◌∷◌ x) (take-append_ge n xs ys (omega arith) ∙ ap (λ k. xs ++ take k ys) (omega arith))

  pub drop-append_le :
      (n : ℕ) (xs ys : List A) → n ≤ length xs → drop n (xs ++ ys) ≡ drop n xs ++ ys
  drop-append_le zero xs ys h = refl
  drop-append_le (suc n) [] ys h = absurd (omega arith)
  drop-append_le (suc n) (x ∷ xs) ys h = drop-append_le n xs ys (omega arith)

  pub drop-append_ge :
      (n : ℕ) (xs ys : List A) → length xs ≤ n → drop n (xs ++ ys) ≡ drop (n - length xs) ys
  drop-append_ge n [] ys h = ap (λ k. drop k ys) (omega arith)
  drop-append_ge zero (x ∷ xs) ys h = absurd (omega arith)
  drop-append_ge (suc n) (x ∷ xs) ys h =
      drop-append_ge n xs ys (omega arith) ∙ ap (λ k. drop k ys) (omega arith)

  pub take_all : (n : ℕ) (xs : List A) → length xs ≤ n → take n xs ≡ xs
  take_all zero [] h = refl
  take_all zero (x ∷ xs) h = absurd (omega arith)
  take_all (suc n) [] h = refl
  take_all (suc n) (x ∷ xs) h = ap (◌∷◌ x) (take_all n xs (omega arith))

  pub drop_all : (n : ℕ) (xs : List A) → length xs ≤ n → drop n xs ≡ []
  drop_all zero [] h = refl
  drop_all zero (x ∷ xs) h = absurd (omega arith)
  drop_all (suc n) [] h = refl
  drop_all (suc n) (x ∷ xs) h = drop_all n xs (omega arith)

  pub take-take : (n m : ℕ) (xs : List A) → n ≤ m → take n (take m xs) ≡ take n xs
  take-take zero m xs h = refl
  take-take (suc n) zero xs h = absurd (omega arith)
  take-take (suc n) (suc m) [] h = refl
  take-take (suc n) (suc m) (x ∷ xs) h = ap (◌∷◌ x) (take-take n m xs (omega arith))

  drop-nil : (n : ℕ) → drop {A = A} n [] ≡ []
  drop-nil zero = refl
  drop-nil (suc n) = refl

  pub drop-drop : (n m : ℕ) (xs : List A) → drop n (drop m xs) ≡ drop (m + n) xs
  drop-drop n zero xs = let e : n ≡ zero + n = omega arith in ap (λ k. drop k xs) e
  drop-drop n (suc m) [] = drop-nil n ∙ sym (drop-nil (suc m + n))
  drop-drop n (suc m) (x ∷ xs) =
      let e : suc (m + n) ≡ suc m + n = omega arith in
      drop-drop n m xs ∙ ap (λ k. drop k (x ∷ xs)) e

  pub drop-take : (n m : ℕ) (xs : List A) → drop n (take m xs) ≡ take (m - n) (drop n xs)
  drop-take zero m xs = let e : m ≡ m - zero = omega arith in ap (λ k. take k xs) e
  drop-take (suc n) zero xs =
      let e : zero ≡ zero - suc n = omega arith in ap (λ k. take k (drop (suc n) xs)) e
  drop-take (suc n) (suc m) [] = sym (take-nil (suc m - suc n))
    where
      take-nil : (k : ℕ) → take {A = A} k [] ≡ []
      take-nil zero = refl
      take-nil (suc k) = refl
  drop-take (suc n) (suc m) (x ∷ xs) =
      let e : m - n ≡ suc m - suc n = omega arith in
      drop-take n m xs ∙ ap (λ k. take k (drop n xs)) e

  -- The first `n` entries of a slice, and what is left of it after them.
  pub take-slice : (n m i : ℕ) (xs : List A) → n ≤ m → take n (slice xs i m) ≡ slice xs i n
  unfolding slice
  take-slice n m i xs h = take-take n m (drop i xs) h

  pub drop-slice : (n m i : ℕ) (xs : List A) → drop n (slice xs i m) ≡ slice xs (i + n) (m - n)
  unfolding slice
  drop-slice n m i xs = drop-take n m (drop i xs) ∙ ap (take (m - n)) (drop-drop n i xs)

  pub length-slice : (xs : List A) (i n : ℕ) → i + n ≤ length xs → length (slice xs i n) ≡ n
  unfolding slice
  length-slice xs i n h = omega (arith, length-take n (drop i xs), length-drop i xs)

  pub length-write_at :
      (xs : List A) (i : ℕ) (ys : List A)
      → i + length ys ≤ length xs
      → length (write_at xs i ys) ≡ length xs
  unfolding write_at
  length-write_at xs i ys h = omega (
    arith,
    length-append (take i xs) (ys ++ drop (i + length ys) xs),
    length-append ys (drop (i + length ys) xs),
    length-take i xs,
    length-drop (i + length ys) xs,
  )

  -- What was written is read back from where it was written,
  pub slice-write_at_self :
      (xs : List A) (i : ℕ) (ys : List A)
      → i ≤ length xs
      → slice (write_at xs i ys) i (length ys) ≡ ys
  unfolding slice write_at
  slice-write_at_self xs i ys h =
      let front : length (take i xs) ≡ i = omega (arith, length-take i xs) in
      ap (take (length ys)) (drop-front front)
      ∙ take-append_le (length ys) ys (drop (i + length ys) xs) (omega arith)
      ∙ take_all (length ys) ys (omega arith)
    where
      drop-front :
          length (take i xs) ≡ i
          → drop i (take i xs ++ (ys ++ drop (i + length ys) xs)) ≡ ys ++ drop (i + length ys) xs
      drop-front e =
          drop-append_ge i (take i xs) (ys ++ drop (i + length ys) xs) (omega arith)
          ∙ ap (λ k. drop k (ys ++ drop (i + length ys) xs)) (zero_left e)
        where
          zero_left : length (take i xs) ≡ i → i - length (take i xs) ≡ zero
          zero_left e = omega arith

  -- and what stands before it is as it was.
  pub take-write_at :
      (xs : List A) (i : ℕ) (ys : List A) → i ≤ length xs → take i (write_at xs i ys) ≡ take i xs
  unfolding write_at
  take-write_at xs i ys h =
      take-append_le i (take i xs) _ (omega (arith, length-take i xs))
      ∙ take-take i i xs (omega arith)

  -- The entries up to the end of what was written.
  pub take-write_at_end :
      (xs : List A) (i : ℕ) (ys : List A)
      → i ≤ length xs
      → take (i + length ys) (write_at xs i ys) ≡ take i xs ++ ys
  unfolding write_at
  take-write_at_end xs i ys h =
      let whole : length (take i xs ++ ys) ≡ i + length ys =
        omega (arith, length-append (take i xs) ys, length-take i xs) in
      ap (take (i + length ys)) (sym (append_assoc (take i xs) ys (drop (i + length ys) xs)))
      ∙ take-append_le (i + length ys) (take i xs ++ ys) (drop (i + length ys) xs) (omega arith)
      ∙ take_all (i + length ys) (take i xs ++ ys) (omega arith)

  -- A count cut to the length of the list makes no difference.
  pub take-min : (m n : ℕ) (xs : List A) → n ≡ min m (length xs) → take n xs ≡ take m xs
  take-min m n xs h = elim (dec_le m (length xs)) [
    | yes le ↦ let same : n ≡ m = omega arith in rw same
    | no more ↦
        let same : n ≡ length xs = omega arith in
        take_all n xs (omega arith) ∙ sym (take_all m xs (omega arith))
  ]

  pub drop-min : (m n : ℕ) (xs : List A) → n ≡ min m (length xs) → drop n xs ≡ drop m xs
  drop-min m n xs h = elim (dec_le m (length xs)) [
    | yes le ↦ let same : n ≡ m = omega arith in rw same
    | no more ↦
        let same : n ≡ length xs = omega arith in
        drop_all n xs (omega arith) ∙ sym (drop_all m xs (omega arith))
  ]

  pub eq-nil_of_length : (xs : List A) → length xs ≤ 0 → xs ≡ []
  eq-nil_of_length [] h = refl
  eq-nil_of_length (x ∷ xs) h = absurd (omega arith)

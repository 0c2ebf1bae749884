-- ===== src/Prelude/Counts.antt =====
-- Sums over a list, and one of its entries changed.
use Prim.Native.Nat.{ℕ, zero, suc, ◌+◌, ◌*◌, ◌≤◌, ◌<◌}
use mathlib.Core.Path.{◌≡◌, refl}
use mathlib.Core.Logic.{inl, inr}
use mathlib.Core.List.{List, [], ◌∷◌, ◌++◌}
use mathlib.Core.Option.{none, some}
use native.Mathlib.Omega.{arith}
use my_async.Prelude.Lists.{length, get_elem?, set, replicate}
use my_async.Prelude.Tests.{◌==◌, Bool-cases}

-- 1 if the numbers are the same, and 0 otherwise.
abbrev pub same : ℕ → ℕ → ℕ
same zero zero = 1
same zero (suc j) = 0
same (suc i) zero = 0
same (suc i) (suc j) = same i j

pub same_self : (i : ℕ) → same i i ≡ 1
same_self zero = refl
same_self (suc i) = same_self i

module _ {ℓ} {A : Type ℓ} where
  abbrev pub total : (A → ℕ) → List A → ℕ
  total w [] = 0
  total w (x ∷ xs) = w x + total w xs

  -- The weight of the entry at a position, 0 if there is none.
  abbrev pub weight_at : (A → ℕ) → List A → ℕ → ℕ
  weight_at w [] j = 0
  weight_at w (x ∷ xs) zero = w x
  weight_at w (x ∷ xs) (suc j) = weight_at w xs j

  none_ne_some : {x : A} → none ≡ some x → ⊥
  none_ne_some e = cc

  some_injective : {x y : A} → some x ≡ some y → x ≡ y
  some_injective e = cc

  pub total-append : (w : A → ℕ) (xs ys : List A) → total w (xs ++ ys) ≡ total w xs + total w ys
  total-append w [] ys = omega arith
  total-append w (x ∷ xs) ys = omega (arith, total-append w xs ys)

  pub total-set :
      (w : A → ℕ) (xs : List A) (i : ℕ) (x y : A)
      → get_elem? xs i ≡ some x
      → total w (set xs i y) + w x ≡ total w xs + w y
  total-set w [] i x y h = absurd (none_ne_some h)
  total-set w (z ∷ xs) zero x y h = rw (some_injective h) (omega arith)
  total-set w (z ∷ xs) (suc i) x y h = omega (arith, total-set w xs i x y h)

  pub total-replicate : (w : A → ℕ) (n : ℕ) (x : A) → w x ≡ 0 → total w (replicate n x) ≡ 0
  total-replicate w zero x h = refl
  total-replicate w (suc n) x h = omega (arith, h, total-replicate w n x h)

  -- An entry is counted, and where something is counted there is such an entry.
  pub total-get :
      (w : A → ℕ) (xs : List A) (i : ℕ) (x : A) → get_elem? xs i ≡ some x → w x ≤ total w xs
  total-get w [] i x h = absurd (none_ne_some h)
  total-get w (z ∷ xs) zero x h = rw (some_injective h) (omega arith)
  total-get w (z ∷ xs) (suc i) x h = omega (arith, total-get w xs i x h)

  pub find :
      (w : A → ℕ) (xs : List A)
      → 0 < total w xs
      → (i : ℕ) × (x : A) × (get_elem? xs i ≡ some x) × (0 < w x)
  find w [] h = absurd (omega arith)
  find w (x ∷ xs) h = elim (Bool-cases (w x == 0)) [
    | inl z ↦
        let rest : 0 < total w xs = ground arith in
        let (i, y, e, pos) = find w xs rest in (suc i, y, e, pos)
    | inr nz ↦ (zero, x, refl, ground arith)
  ]

  pub weight_at-get :
      (w : A → ℕ) (xs : List A) (i : ℕ) (x : A) → get_elem? xs i ≡ some x → weight_at w xs i ≡ w x
  weight_at-get w [] i x h = absurd (none_ne_some h)
  weight_at-get w (z ∷ xs) zero x h = rw (some_injective h)
  weight_at-get w (z ∷ xs) (suc i) x h = weight_at-get w xs i x h

  pub weight_at-set :
      (w : A → ℕ) (xs : List A) (i : ℕ) (x y : A) (j : ℕ)
      → get_elem? xs i ≡ some x
      → weight_at w (set xs i y) j + w x * same i j ≡ weight_at w xs j + w y * same i j
  weight_at-set w [] i x y j h = absurd (none_ne_some h)
  weight_at-set w (z ∷ xs) zero x y zero h = rw (some_injective h) (omega arith)
  weight_at-set w (z ∷ xs) zero x y (suc j) h = omega arith
  weight_at-set w (z ∷ xs) (suc i) x y zero h = omega arith
  weight_at-set w (z ∷ xs) (suc i) x y (suc j) h = weight_at-set w xs i x y j h

  pub weight_at-append_one :
      (w : A → ℕ) (xs : List A) (y : A) (j : ℕ)
      → weight_at w (xs ++ (y ∷ [])) j ≡ weight_at w xs j + w y * same (length xs) j
  weight_at-append_one w [] y zero = omega arith
  weight_at-append_one w [] y (suc j) = omega arith
  weight_at-append_one w (x ∷ xs) y zero = omega arith
  weight_at-append_one w (x ∷ xs) y (suc j) = weight_at-append_one w xs y j

  pub weight_at-pos :
      (w : A → ℕ) (xs : List A) (j : ℕ) → 0 < weight_at w xs j → (x : A) × (get_elem? xs j ≡ some x)
  weight_at-pos w [] j h = absurd (omega arith)
  weight_at-pos w (x ∷ xs) zero h = (x, refl)
  weight_at-pos w (x ∷ xs) (suc j) h = weight_at-pos w xs j h

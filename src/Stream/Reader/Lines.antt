-- ===== src/Stream/Reader/Lines.antt =====
-- The first line of a list of bytes, and the scan of `getline` over a buffer.
use my_async.Prelude.{
  ℕ, zero, suc, ◌+◌, ◌-◌, ◌≤◌, ◌<◌, ◌≡◌, refl, ap, ◌∙◌, Option, none, some, List, [], ◌∷◌, ◌++◌,
  length, get_or, slice, arith, ◌==◌, if◌then◌else◌, Bool-cases, inl, inr,
}
use my_async.Stream.Reader.{find_eol}

-- A line without its end mark, and what follows the mark; `none` where there is no mark.
abbrev pub cons_line : ℕ → Option (List ℕ × List ℕ) → Option (List ℕ × List ℕ)
cons_line x none = none
cons_line x (some (line, rest)) = some (x ∷ line, rest)

pub split_line : ℕ → List ℕ → Option (List ℕ × List ℕ)
split_line eol [] = none
split_line eol (x ∷ xs) = if x == eol then some ([], xs) else cons_line x (split_line eol xs)

abbrev pub append_line : List ℕ → Option (List ℕ × List ℕ) → Option (List ℕ × List ℕ)
append_line xs none = none
append_line xs (some (line, rest)) = some (xs ++ line, rest)

-- The first line of `xs ++ ys`, from that of `xs` and that of `ys`.
abbrev join_lines :
    List ℕ → Option (List ℕ × List ℕ) → List ℕ → Option (List ℕ × List ℕ) → Option (List ℕ × List ℕ)
join_lines xs none ys later = append_line xs later
join_lines xs (some (line, rest)) ys later = some (line, rest ++ ys)

cons_line-join_lines :
    (x : ℕ) (xs ys : List ℕ) (o later : Option (List ℕ × List ℕ))
    → cons_line x (join_lines xs o ys later) ≡ join_lines (x ∷ xs) (cons_line x o) ys later
cons_line-join_lines x xs ys none none = refl
cons_line-join_lines x xs ys none (some (line, rest)) = refl
cons_line-join_lines x xs ys (some (line, rest)) later = refl

append_line-nil : (o : Option (List ℕ × List ℕ)) → o ≡ append_line [] o
append_line-nil none = refl
append_line-nil (some (line, rest)) = refl

split_line-append :
    (eol : ℕ) (xs ys : List ℕ)
    → split_line eol (xs ++ ys) ≡ join_lines xs (split_line eol xs) ys (split_line eol ys)
unfolding split_line
split_line-append eol [] ys = append_line-nil (split_line eol ys)
split_line-append eol (x ∷ xs) ys = elim (Bool-cases (x == eol)) [
  | inl hit ↦ rw hit refl
  | inr miss ↦
      rw (miss, split_line-append eol xs ys)
        (cons_line-join_lines x xs ys (split_line eol xs) (split_line eol ys))
]

-- A mark in the first part ends the line there,
pub split_line-append_some :
    (eol : ℕ) (xs ys line rest : List ℕ)
    → split_line eol xs ≡ some (line, rest)
    → split_line eol (xs ++ ys) ≡ some (line, rest ++ ys)
split_line-append_some eol xs ys line rest h =
    split_line-append eol xs ys ∙ ap (λ o. join_lines xs o ys (split_line eol ys)) h

-- and without one there the line goes on in the second.
pub split_line-append_none :
    (eol : ℕ) (xs ys : List ℕ)
    → split_line eol xs ≡ none
    → split_line eol (xs ++ ys) ≡ append_line xs (split_line eol ys)
split_line-append_none eol xs ys h =
    split_line-append eol xs ys ∙ ap (λ o. join_lines xs o ys (split_line eol ys)) h

slice-zero : (buf : List ℕ) (i : ℕ) → slice buf i 0 ≡ []
unfolding slice
slice-zero buf i = refl

slice-suc :
    (buf : List ℕ) (i k : ℕ)
    → i < length buf
    → slice buf i (suc k) ≡ get_or buf i 0 ∷ slice buf (i + 1) k
unfolding slice
slice-suc [] i k h = absurd (omega arith)
slice-suc (x ∷ xs) zero k h = refl
slice-suc (x ∷ xs) (suc i) k h =
    let e : suc i + 1 ≡ suc (i + 1) = omega arith in slice-suc xs i k (omega arith) ∙ rw e

-- The scan finds the end of the first line of the part of the buffer that it looks at.
pub find_eol-none :
    (buf : List ℕ) (eol i k : ℕ)
    → i + k ≤ length buf
    → find_eol buf eol i k ≡ none
    → split_line eol (slice buf i k) ≡ none
unfolding find_eol split_line
find_eol-none buf eol i zero h e = rw slice-zero
find_eol-none buf eol i (suc k) h e =
    rw (slice-suc buf i k (omega arith))
      (ground (arith, find_eol-none buf eol (i + 1) k (omega arith)))

pub find_eol-some :
    (buf : List ℕ) (eol i k j : ℕ)
    → i + k ≤ length buf
    → find_eol buf eol i k ≡ some j
    → (i ≤ j)
      × (j < i + k)
      × (split_line eol (slice buf i k)
          ≡ some (slice buf i (j - i), slice buf (j + 1) (i + k - (j + 1))))
unfolding find_eol split_line
find_eol-some buf eol i zero j h e = cc
find_eol-some buf eol i (suc k) j h e =
    rw (slice-suc buf i k (omega arith)) (elim (Bool-cases (get_or buf i 0 == eol)) [
      | inl hit ↦
          let at : i ≡ j = ground arith in
          let none_before : j - i ≡ 0 = omega arith in
          let after : j + 1 ≡ i + 1 = omega arith in
          let left : i + suc k - (i + 1) ≡ k = omega arith in
          (omega arith, omega arith, rw (hit, none_before, slice-zero, after, left))
      | inr miss ↦
          let (low, high, split) = find_eol-some buf eol (i + 1) k j (omega arith) (ground arith) in
          let one : j - i ≡ suc (j - (i + 1)) = omega arith in
          let total : i + suc k - (j + 1) ≡ i + 1 + k - (j + 1) = omega arith in
          (
            omega arith,
            omega arith,
            rw (miss, split, one, total, slice-suc buf i (j - (i + 1)) (omega arith)),
          )
    ])

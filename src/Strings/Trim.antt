-- ===== src/Strings/Trim.antt =====
-- utils/string_utils.hpp: what trim_string takes away.
use my_async.Prelude.{
  ℕ, suc, ◌+◌, ◌-◌, ◌≡◌, refl, ap, sym, ◌∙◌, inl, inr, true, false, Option, none, some, List, [],
  ◌∷◌, ◌++◌, append_assoc, slice, length, get_or, arith, Bool-cases,
}
use my_async.Strings.{is_in, find_first_not_of, find_last_not_of, trim_string}

abbrev pub AllIn : List ℕ → List ℕ → Type 0
AllIn trims [] = Unit {0}
AllIn trims (x ∷ s) = (is_in trims x ≡ true) × AllIn trims s

-- The first byte that is not trimmed, for what `find_first_not_of` answers.
data First (trims s : List ℕ) (found : Option ℕ) : Type 0 where
  all_in : AllIn trims s → found ≡ none → First trims s found
  kept :
      (front : List ℕ) (x : ℕ) (back : List ℕ)
      → s ≡ front ++ (x ∷ back)
      → AllIn trims front
      → is_in trims x ≡ false
      → found ≡ some (length front)
      → First trims s found

find-First : (trims s : List ℕ) → First trims s (find_first_not_of trims s)
unfolding find_first_not_of
find-First trims [] = all_in tt refl
find-First trims (x ∷ s) = elim (Bool-cases (is_in trims x)) [
  | inr out ↦ kept [] x s refl tt out (rw out refl)
  | inl in_trims ↦ elim (find-First trims s) [
    | all_in all e ↦ all_in (in_trims, all) (rw in_trims (rw e refl))
    | kept front y back split all out e ↦
        let one : length front + 1 ≡ suc (length front) = omega arith in
        kept (x ∷ front) y back (ap (◌∷◌ x) split) (in_trims, all) out
          (rw in_trims (rw e (ap some one)))
  ]
]

-- And the last one.
data Last (trims s : List ℕ) (found : Option ℕ) : Type 0 where
  all_in : AllIn trims s → found ≡ none → Last trims s found
  kept :
      (front : List ℕ) (x : ℕ) (back : List ℕ)
      → s ≡ front ++ (x ∷ back)
      → AllIn trims back
      → is_in trims x ≡ false
      → found ≡ some (length front)
      → Last trims s found

find-Last : (trims s : List ℕ) → Last trims s (find_last_not_of trims s)
unfolding find_last_not_of
find-Last trims [] = all_in tt refl
find-Last trims (x ∷ s) = elim (find-Last trims s) [
  | kept front y back split all out e ↦
      let one : length front + 1 ≡ suc (length front) = omega arith in
      kept (x ∷ front) y back (ap (◌∷◌ x) split) all out (rw (e, find_last_not_of) (ap some one))
  | all_in all e ↦ elim (Bool-cases (is_in trims x)) [
    | inl in_trims ↦ all_in (in_trims, all) (rw (e, find_last_not_of) (rw in_trims refl))
    | inr out ↦ kept [] x s refl all out (rw (e, find_last_not_of) (rw out refl))
  ]
]

find_last-append :
    (trims front s : List ℕ) (i : ℕ)
    → find_last_not_of trims s ≡ some i
    → find_last_not_of trims (front ++ s) ≡ some (length front + i)
unfolding find_last_not_of
find_last-append trims [] s i h = let e : i ≡ 0 + i = omega arith in h ∙ ap some e
find_last-append trims (x ∷ front) s i h =
    let e : length front + i + 1 ≡ suc (length front) + i = omega arith in
    rw (find_last-append trims front s i h, find_last_not_of) (ap some e)

slice-middle :
    (front mid : List ℕ) (y : ℕ) (back : List ℕ)
    → slice (front ++ (mid ++ (y ∷ back))) (length front) (length mid + 1) ≡ mid ++ (y ∷ [])
unfolding slice
slice-middle [] [] y back = refl
slice-middle [] (x ∷ mid) y back =
    let e : suc (length mid) + 1 ≡ suc (length mid + 1) = omega arith in
    rw e (ap (◌∷◌ x) (slice-middle [] mid y back))
slice-middle (x ∷ front) mid y back = slice-middle front mid y back

-- What trimming `s` to `result` means: what is cut off on both sides is of the trimmed bytes only, and
-- the result is empty or both its ends are bytes to keep.
pub data Trimmed (trims s result : List ℕ) : Type 0 where
  nothing_left : AllIn trims s → result ≡ [] → Trimmed trims s result
  cut :
      (front back : List ℕ) (x : ℕ) (xs : List ℕ) (mid : List ℕ) (y : ℕ)
      → s ≡ front ++ (result ++ back)
      → AllIn trims front
      → AllIn trims back
      → result ≡ x ∷ xs
      → is_in trims x ≡ false
      → result ≡ mid ++ (y ∷ [])
      → is_in trims y ≡ false
      → Trimmed trims s result

-- The first byte of a list with a last byte to keep.
starts :
    (trims mid : List ℕ) (x y : ℕ) (back rest : List ℕ)
    → x ∷ rest ≡ mid ++ (y ∷ back)
    → (xs : List ℕ) × (mid ++ (y ∷ []) ≡ x ∷ xs)
starts trims [] x y back rest h = ([], ap (λ c. c ∷ []) (sym (ap (λ l. get_or l 0 0) h)))
starts trims (z ∷ mid) x y back rest h =
    (mid ++ (y ∷ []), ap (λ c. c ∷ (mid ++ (y ∷ []))) (sym (ap (λ l. get_or l 0 0) h)))

trim_eq :
    (trims s : List ℕ) (i j : ℕ)
    → find_first_not_of trims s ≡ some i
    → find_last_not_of trims s ≡ some (i + j)
    → trim_string trims s ≡ slice s i (j + 1)
unfolding trim_string
trim_eq trims s i j h k =
    let e : i + j - i + 1 ≡ j + 1 = omega arith in
    rw (h, trim_string) (rw (k, trim_string) (rw e refl))

trim_none : (trims s : List ℕ) → find_first_not_of trims s ≡ none → trim_string trims s ≡ []
unfolding trim_string
trim_none trims s h = rw (h, trim_string) refl

-- What `trim_string` cuts off at both ends are bytes to trim only, and what it leaves is empty,
-- when all bytes are to be trimmed, or begins and ends with bytes to keep.
pub trim_string-Trimmed : (trims s : List ℕ) → Trimmed trims s (trim_string trims s)
trim_string-Trimmed trims s = elim (find-First trims s) [
  | all_in all e ↦ nothing_left all (trim_none trims s e)
  | kept front x rest split before out e ↦ elim (find-Last trims (x ∷ rest)) [
    | all_in all e' ↦ absurd (true_ne (sym all.0 ∙ out))
    | kept mid y back split' after out' e' ↦
        let last_at : find_last_not_of trims s ≡ some (length front + length mid) =
          ap (find_last_not_of trims) split
          ∙ find_last-append trims front (x ∷ rest) (length mid) e' in
        let result : trim_string trims s ≡ mid ++ (y ∷ []) =
          trim_eq trims s (length front) (length mid) e last_at
          ∙ ap (λ l. slice l (length front) (length mid + 1)) (split ∙ ap (◌++◌ front) split')
          ∙ slice-middle front mid y back in
        let (xs, head) = starts trims mid x y back rest split' in
        cut front back x xs mid y
          (split
            ∙ ap (◌++◌ front)
                (split' ∙ sym (append_assoc mid (y ∷ []) back) ∙ ap (λ l. l ++ back) (sym result)))
          before after (result ∙ head) out result out'
  ]
]
  where
    true_ne : true ≡ false → ⊥
    true_ne h = cc

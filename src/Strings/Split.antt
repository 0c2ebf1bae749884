-- ===== src/Strings/Split.antt =====
-- utils/string_utils.hpp: the parts that SplitString gives, against their joining.
use my_async.Prelude.{
  ℕ, zero, suc, ◌+◌, ◌<◌, ◌≡◌, ◌≢◌, refl, ap, sym, ◌∙◌, true, false, Option, none, some, List, [],
  ◌∷◌, ◌++◌, take, drop, length, ◌==◌, arith, Bool-cases, inl, inr, length-append,
}
use my_async.Strings.{find, Iterator, find_next, begin, collect_from, collect}

-- No byte of the part is the delimiter.
abbrev pub Free : ℕ → List ℕ → Type 0
Free d [] = Unit {0}
Free d (x ∷ s) = (x ≢ d) × Free d s

abbrev pub AllFree : ℕ → List (List ℕ) → Type 0
AllFree d [] = Unit {0}
AllFree d (s ∷ parts) = Free d s × AllFree d parts

-- The parts with the delimiter between them.
abbrev pub join : ℕ → List (List ℕ) → List ℕ
join d [] = []
join d (s ∷ []) = s
join d (s ∷ t ∷ parts) = s ++ (d ∷ join d (t ∷ parts))

-- Where the first delimiter is, for what `find` answers.
data Located (d : ℕ) (s : List ℕ) (found : Option ℕ) : Type 0 where
  absent : Free d s → found ≡ none → Located d s found
  present :
      (front back : List ℕ)
      → s ≡ front ++ (d ∷ back)
      → Free d front
      → found ≡ some (length front)
      → Located d s found

find-Located : (d : ℕ) (s : List ℕ) → Located d s (find d s)
unfolding find
find-Located d [] = absent tt refl
find-Located d (x ∷ s) = elim (Bool-cases (x == d)) [
  | inl hit ↦
      let same : x ≡ d = ground arith in present [] s (ap (λ c. c ∷ s) same) tt (rw hit refl)
  | inr miss ↦
      let other : x ≢ d = ground arith in
      elim (find-Located d s) [
        | absent free e ↦ absent (other, free) (rw miss (rw e refl))
        | present front back split free e ↦
            let one : length front + 1 ≡ suc (length front) = omega arith in
            present (x ∷ front) back (ap (◌∷◌ x) split) (other, free) (rw miss (rw e (ap some one)))
      ]
]

pub take-front : (front back : List ℕ) → take (length front) (front ++ back) ≡ front
take-front [] back = refl
take-front (x ∷ front) back = ap (◌∷◌ x) (take-front front back)

pub drop-front :
    (front : List ℕ) (d : ℕ) (back : List ℕ) → drop (length front + 1) (front ++ (d ∷ back)) ≡ back
drop-front [] d back = refl
drop-front (x ∷ front) d back =
    let e : suc (length front) + 1 ≡ suc (length front + 1) = omega arith in
    rw e (drop-front front d back)

-- What `collect` gives for `s`.
pub record Collected (d : ℕ) (s : List ℕ) (parts : Option (List (List ℕ))) : Type 0 where
  pub first : List ℕ
  pub others : List (List ℕ)
  pub gives : parts ≡ some (first ∷ others)
  pub joins : join d (first ∷ others) ≡ s
  pub free : AllFree d (first ∷ others)

abbrev position : List ℕ → List ℕ → Iterator
position c s = record { rest = s; current = c; ended = false; to_be_ended = false }

find_next-absent :
    (d : ℕ) (s c : List ℕ)
    → find d s ≡ none
    → find_next d (position c s)
      ≡ record { rest = []; current = s; ended = false; to_be_ended = true }
unfolding find_next
find_next-absent d s c e = rw (e, find_next) refl

find_next-present :
    (d i : ℕ) (s c : List ℕ)
    → find d s ≡ some i
    → find_next d (position c s) ≡ position (take i s) (drop (i + 1) s)
unfolding find_next
find_next-present d i s c e = rw (e, find_next) refl

-- After the last part one more step ends the iteration.
find_next-ended :
    (d : ℕ) (s : List ℕ)
    → find_next d (record { rest = []; current = s; ended = false; to_be_ended = true })
      ≡ record { rest = []; current = []; ended = true; to_be_ended = true }
unfolding find_next find
find_next-ended d s = refl

collect_from-Collected :
    (f d : ℕ) (s c : List ℕ)
    → length s + 1 < f
    → Collected d s (collect_from f d (find_next d (position c s)))
unfolding collect_from
collect_from-Collected zero d s c fuel = absurd (omega arith)
collect_from-Collected (suc zero) d s c fuel = absurd (omega arith)
collect_from-Collected (suc (suc f)) d s c fuel = elim (find-Located d s) [
  | absent free e ↦ record {
    first = s;
    others = [];
    gives = rw (find_next-absent d s c e) (rw (find_next-ended d s) refl);
    joins = refl;
    free = (free, tt);
  }
  | present front back split free e ↦
      let shorter : length back + 1 < suc f =
        omega (arith, ap length split, length-append front (d ∷ back)) in
      let rest = collect_from-Collected (suc f) d back front shorter in
      let current : take (length front) s ≡ front = rw split (take-front front (d ∷ back)) in
      let left : drop (length front + 1) s ≡ back = rw split (drop-front front d back) in
      record {
        first = front;
        others = rest.first ∷ rest.others;
        gives =
            rw (find_next-present d (length front) s c e) (rw (current, left) (rw rest.gives refl));
        joins = ap (λ xs. front ++ (d ∷ xs)) rest.joins ∙ sym split;
        free = (free, rest.free);
      }
]

-- Splitting a string at a char ends with fuel for two rounds more than the string is long. There
-- is at least one part, no part holds the delimiter, and with the delimiter between them the
-- parts are the string again.
pub collect-Collected :
    (fuel d : ℕ) (s : List ℕ) → length s + 1 < fuel → Collected d s (collect fuel d s)
unfolding collect begin
collect-Collected fuel d s enough = collect_from-Collected fuel d s [] enough

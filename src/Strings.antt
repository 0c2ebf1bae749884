-- ===== src/Strings.antt =====
-- utils/string_utils.hpp: case conversion, trimming and splitting of strings of bytes. The members
-- of std::string_view that they use are here too; a position npos is `none`.
pub mod Case
pub mod Trim
pub mod Split
mod Tests
use mathlib.Core.Option
use my_async.Prelude.{
  ℕ, zero, suc, ◌+◌, ◌-◌, Bool, true, false, not, ◌&&◌, ◌||◌, Option, none, some, List, [], ◌∷◌,
  ◌++◌, map, take, drop, slice, leb, ◌==◌, if◌then◌else◌,
}

abbrev pub lower_char : ℕ → ℕ
lower_char c = if leb 65 c && leb c 90 then c + 32 else c

abbrev pub upper_char : ℕ → ℕ
upper_char c = if leb 97 c && leb c 122 then c - 32 else c

unfoldable pub lower_string : List ℕ → List ℕ
lower_string s = map lower_char s

unfoldable pub upper_string : List ℕ → List ℕ
upper_string s = map upper_char s

-- `find(c)`.
unfoldable pub find : ℕ → List ℕ → Option ℕ
find c [] = none
find c (x ∷ s) = if x == c then some 0 else Option.map (λ i. i + 1) (find c s)

abbrev pub is_in : List ℕ → ℕ → Bool
is_in [] c = false
is_in (x ∷ xs) c = (x == c) || is_in xs c

-- `find_first_not_of(trims)`, `find_last_not_of(trims)`.
unfoldable pub find_first_not_of : List ℕ → List ℕ → Option ℕ
find_first_not_of trims [] = none
find_first_not_of trims (x ∷ s) =
    if is_in trims x then Option.map (λ i. i + 1) (find_first_not_of trims s) else some 0

unfoldable pub find_last_not_of : List ℕ → List ℕ → Option ℕ
find_last_not_of trims [] = none
find_last_not_of trims (x ∷ s) = elim (find_last_not_of trims s) [
  | some i ↦ some (i + 1)
  | none ↦ if is_in trims x then none else some 0
]

-- With a first byte to keep there is a last one: `end` is never npos.
unfoldable pub trim_string : List ℕ → List ℕ → List ℕ
trim_string trims s = elim (find_first_not_of trims s) [
  | none ↦ []
  | some pos ↦ elim (find_last_not_of trims s) [
    | none ↦ drop pos s
    | some end ↦ slice s pos (end - pos + 1)
  ]
]

-- The iterator of SplitString, for a delimiter of one char.
pub record Iterator : Type 0 where
  pub rest : List ℕ
  pub current : List ℕ
  pub ended : Bool
  pub to_be_ended : Bool

unfoldable pub find_next : ℕ → Iterator → Iterator
find_next delimiter it = elim (find delimiter it.rest) [
  | none ↦ record { rest = []; current = it.rest; ended = it.to_be_ended; to_be_ended = true }
  | some pos ↦ record it { rest = drop (pos + 1) it.rest; current = take pos it.rest }
]

unfoldable pub begin : ℕ → List ℕ → Iterator
begin delimiter s =
    find_next delimiter (record { rest = s; current = []; ended = false; to_be_ended = false })

-- The loop of `collect`, on fuel: a round for each part.
unfoldable pub collect_from : ℕ → ℕ → Iterator → Option (List (List ℕ))
collect_from zero delimiter it = none
collect_from (suc f) delimiter it =
    let rest = collect_from f delimiter (find_next delimiter it) in
    if it.ended then some [] else Option.map (◌∷◌ it.current) rest

unfoldable pub collect : ℕ → ℕ → List ℕ → Option (List (List ℕ))
unfolding collect_from begin
collect fuel delimiter s = collect_from fuel delimiter (begin delimiter s)

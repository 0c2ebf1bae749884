-- ===== src/Strings/Case.antt =====
-- utils/string_utils.hpp: how the two case conversions compare.
use my_async.Prelude.{ℕ, ◌≡◌, refl, ap₂, List, [], ◌∷◌, arith}
use my_async.Strings.{lower_char, upper_char, lower_string, upper_string}

lower_char-upper_char : (c : ℕ) → lower_char (upper_char c) ≡ lower_char c
lower_char-upper_char c = ground arith

upper_char-lower_char : (c : ℕ) → upper_char (lower_char c) ≡ upper_char c
upper_char-lower_char c = ground arith

-- Upper case followed by lower case is the same as lower case at once, and lower case followed by
-- upper case the same as upper case.
pub lower_string-upper_string :
    (s : List ℕ)
    → (lower_string (upper_string s) ≡ lower_string s)
      × (upper_string (lower_string s) ≡ upper_string s)
unfolding lower_string upper_string
lower_string-upper_string [] = (refl, refl)
lower_string-upper_string (c ∷ s) = (
  ap₂ ◌∷◌ (lower_char-upper_char c) (lower_string-upper_string s).0,
  ap₂ ◌∷◌ (upper_char-lower_char c) (lower_string-upper_string s).1,
)

-- ===== src/ByteOrder/Tests.antt =====
-- Values of two and of five bytes for utils/byteorder.hpp.
use my_async.Prelude.{ℕ, ◌≡◌, refl, List, [], ◌∷◌}
use my_async.ByteOrder.{brute_force_byte_swap}

abbrev value : List ℕ
value = 1 ∷ 2 ∷ 3 ∷ 4 ∷ []

five_run : brute_force_byte_swap (1 ∷ 2 ∷ 3 ∷ 4 ∷ 5 ∷ []) ≡ 5 ∷ 4 ∷ 3 ∷ 2 ∷ 1 ∷ []
unfolding brute_force_byte_swap my_async.ByteOrder.swap_bytes
five_run = refl

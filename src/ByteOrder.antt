-- ===== src/ByteOrder.antt =====
-- utils/byteorder.hpp: the byte swap of a value, as the list of its bytes in memory.
pub mod Mirror
mod Tests
use my_async.Prelude.{
  ℕ, zero, suc, ◌+◌, ◌-◌, ◌/◌, Bool, true, false, List, length, get_or, set, ltb, if◌then◌else◌,
}

-- std::swap of two bytes.
unfoldable pub swap_bytes : ℕ → ℕ → List ℕ → List ℕ
swap_bytes i j ptr = set (set ptr i (get_or ptr j 0)) j (get_or ptr i 0)

-- `rounds` more rounds of the loop, from `i` on.
unfoldable pub swap_from : ℕ → ℕ → List ℕ → List ℕ
swap_from zero i ptr = ptr
swap_from (suc rounds) i ptr = swap_from rounds (i + 1) (swap_bytes i (length ptr - 1 - i) ptr)

unfoldable pub brute_force_byte_swap : List ℕ → List ℕ
unfolding swap_from
brute_force_byte_swap value =
    if ltb 1 (length value) then swap_from (length value / 2) 0 value else value

-- `byteswap_if_little`, where `byteswap` is one of the compiler's or the loop above.
unfoldable pub byteswap_if_little : Bool → List ℕ → List ℕ
unfolding brute_force_byte_swap
byteswap_if_little true value = brute_force_byte_swap value
byteswap_if_little false value = value

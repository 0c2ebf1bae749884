-- ===== src/SimpleMap/Tests.antt =====
-- A map of utils/simple_map.hpp with numbers for keys.
use my_async.Prelude.{ℕ, [], ◌∷◌, refl, arith, ltb}
use my_async.SimpleMap.{Order, SimpleMap}
use my_async.SimpleMap.Laws.{Sorted}

abbrev numbers : Order ℕ
numbers = record {
  less = ltb;
  irreflexive = λ a. ground arith;
  transitive = λ a b c h k. ground arith;
  total = λ a b h k. ground arith;
}

abbrev seven : ℕ
seven = 7

abbrev ages : SimpleMap ℕ ℕ
ages = (3, 30) ∷ (7, 70) ∷ []

abbrev ages-Sorted : Sorted numbers ages
ages-Sorted = ((refl, tt), (tt, tt))

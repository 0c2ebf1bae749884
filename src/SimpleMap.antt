-- ===== src/SimpleMap.antt =====
-- utils/simple_map.hpp: SimpleMap over a std::map, here its entries in the order of their keys. The
-- comparison of keys is the map's std::less, a parameter.
pub mod Laws
pub mod Erase
mod Tests
use mathlib.Core.Option
use my_async.Prelude.{
  ℕ, Bool, true, false, Option, none, some, List, [], ◌∷◌, length, if◌then◌else◌, ◌≡◌,
}

-- A strict order of keys that puts any two different keys in order.
pub record Order {ℓ} (K : Type ℓ) : Type ℓ where
  pub less : K → K → Bool
  pub irreflexive : (a : K) → less a a ≡ false
  pub transitive : (a b c : K) → less a b ≡ true → less b c ≡ true → less a c ≡ true
  pub total : (a b : K) → less a b ≡ false → less b a ≡ false → a ≡ b

abbrev pub SimpleMap {ℓ κ} : Type ℓ → Type κ → Type (ℓ ⊔ κ)
SimpleMap K V = List (K × V)

module _ {ℓ κ} {K : Type ℓ} {V : Type κ} (order : Order K) where
  -- `at`, with a null pointer for a missing key.
  unfoldable pub find : K → SimpleMap K V → Option V
  find k [] = none
  find k ((k', v) ∷ m) =
      let rest = find k m in
      if order.less k' k then rest else if order.less k k' then none else some v

  pub get {μ} : {W : Type μ} → K → (V → W) → SimpleMap K V → Option W
  unfolding find
  get k f m = Option.map f (find k m)

  pub contains : K → SimpleMap K V → Bool
  unfolding find
  contains k m = elim (find k m) [ none ↦ false | some _ ↦ true ]

  unfoldable pub insert_or_assign : K → V → SimpleMap K V → SimpleMap K V
  insert_or_assign k v [] = (k, v) ∷ []
  insert_or_assign k v ((k', v') ∷ m) =
      let rest = insert_or_assign k v m in
      if order.less k' k
      then (k', v') ∷ rest
      else if order.less k k'
      then (k, v) ∷ (k', v') ∷ m
      else (k', v) ∷ m

  -- `insert` and `emplace` leave the value of a key that is there already.
  unfoldable pub insert : K → V → SimpleMap K V → SimpleMap K V
  insert k v [] = (k, v) ∷ []
  insert k v ((k', v') ∷ m) =
      let rest = insert k v m in
      if order.less k' k
      then (k', v') ∷ rest
      else if order.less k k'
      then (k, v) ∷ (k', v') ∷ m
      else (k', v') ∷ m

  abbrev keep_in_front : K × V → Bool × SimpleMap K V → Bool × SimpleMap K V
  keep_in_front e (found, m) = (found, e ∷ m)

  unfoldable pub erase : K → SimpleMap K V → Bool × SimpleMap K V
  erase k [] = (false, [])
  erase k ((k', v') ∷ m) =
      let rest = erase k m in
      if order.less k' k
      then keep_in_front (k', v') rest
      else if order.less k k'
      then (false, (k', v') ∷ m)
      else (true, m)

module _ {ℓ κ} {K : Type ℓ} {V : Type κ} where
  pub empty : SimpleMap K V → Bool
  empty [] = true
  empty (e ∷ m) = false

  pub size : SimpleMap K V → ℕ
  size m = length m

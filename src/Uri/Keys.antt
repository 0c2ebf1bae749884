-- ===== src/Uri/Keys.antt =====
-- net/uri.hpp: the parameters of a URI are a SimpleMap from strings, in the order of std::less.
use my_async.Prelude.{
  ℕ, Bool, true, false, List, [], ◌∷◌, ltb, ◌==◌, if◌then◌else◌, ◌≡◌, refl, ap₂, arith,
}
use my_async.SimpleMap.{Order}

-- The lexicographic comparison of strings.
unfoldable pub less : List ℕ → List ℕ → Bool
less [] [] = false
less [] (y ∷ t) = true
less (x ∷ s) [] = false
less (x ∷ s) (y ∷ t) = if x == y then less s t else ltb x y

pub less_irreflexive : (s : List ℕ) → less s s ≡ false
unfolding less
less_irreflexive [] = refl
less_irreflexive (x ∷ s) = let e : (x == x) ≡ true = ground arith in rw e (less_irreflexive s)

pub less_transitive : (a b c : List ℕ) → less a b ≡ true → less b c ≡ true → less a c ≡ true
unfolding less
less_transitive [] [] c h k = k
less_transitive [] (y ∷ b) [] h k = k
less_transitive [] (y ∷ b) (z ∷ c) h k = refl
less_transitive (x ∷ a) [] c h k = absurd (cc h)
less_transitive (x ∷ a) (y ∷ b) [] h k = k
less_transitive (x ∷ a) (y ∷ b) (z ∷ c) h k = ground (arith, less_transitive a b c)

pub less_total : (a b : List ℕ) → less a b ≡ false → less b a ≡ false → a ≡ b
unfolding less
less_total [] [] h k = refl
less_total [] (y ∷ b) h k = absurd (cc h)
less_total (x ∷ a) [] h k = absurd (cc k)
less_total (x ∷ a) (y ∷ b) h k =
    let e : x ≡ y = ground arith in
    let there : (x == y) ≡ true = ground arith in
    let back : (y == x) ≡ true = ground arith in
    ap₂ ◌∷◌ e (less_total a b (rw there at h) (rw back at k))

abbrev pub strings : Order (List ℕ)
strings = record {
  less = less;
  irreflexive = less_irreflexive;
  transitive = less_transitive;
  total = less_total;
}

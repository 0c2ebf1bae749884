-- ===== src/RbTree/Tree.antt =====
-- utils/rbtree.hpp: the trees that the links of a RbTree stand for, and a place in such a tree.
use my_async.Prelude.{
  ℕ, ◌+◌, ◌<◌, ◌≡◌, refl, Option, none, some, List, [], ◌∷◌, ◌++◌, ◌==◌, if◌then◌else◌, arith,
  append-nil, append_assoc,
}
use my_async.RbTree.Heap.{Side, left, right, Color}

pub data Tree : Type 0 where
  leaf : Tree
  node : Color → Tree → ℕ → Tree → Tree

-- The node with one subtree on the given side and the other one opposite.
abbrev pub join : Side → Color → ℕ → Tree → Tree → Tree
join left c a near far = node c near a far
join right c a near far = node c far a near

-- The pointer to the root.
abbrev pub pointer : Tree → Option ℕ
pointer leaf = none
pointer (node c l a r) = some a

abbrev pub inorder : Tree → List ℕ
inorder leaf = []
inorder (node c l a r) = inorder l ++ (a ∷ inorder r)

abbrev pub one : ℕ → ℕ → ℕ
one i a = if i == a then 1 else 0

-- How often an address stands in a tree.
abbrev pub count : ℕ → Tree → ℕ
count i leaf = 0
count i (node c l a r) = count i l + one i a + count i r

-- The way from a subtree up to the root: the side on which it hangs below a node, the color and the
-- address of that node, the node's other subtree, and the way on from there.
pub data Route : Type 0 where
  top : Route
  below : Side → Color → ℕ → Tree → Route → Route

abbrev pub above : Route → Option ℕ
above top = none
above (below d c a s π) = some a

abbrev pub count_path : ℕ → Route → ℕ
count_path i top = 0
count_path i (below d c a s π) = one i a + count i s + count_path i π

-- The whole tree.
unfoldable pub plug : Tree → Route → Tree
plug t top = t
plug t (below d c a s π) = plug (join d c a t s) π

-- The values to the left of the place, and those to the right.
unfoldable pub before : Route → List ℕ
before top = []
before (below left c a s π) = before π
before (below right c a s π) = before π ++ (inorder s ++ (a ∷ []))

unfoldable pub after : Route → List ℕ
after top = []
after (below left c a s π) = a ∷ (inorder s ++ after π)
after (below right c a s π) = after π

pub inorder-plug : (t : Tree) (π : Route) → inorder (plug t π) ≡ before π ++ (inorder t ++ after π)
unfolding plug before after
inorder-plug t top = simp append-nil
inorder-plug t (below left c a s π) = simp (inorder-plug (node c t a s) π, append_assoc)
inorder-plug t (below right c a s π) = simp (inorder-plug (node c s a t) π, append_assoc)

pub count-join :
    (d : Side) (c : Color) (a i : ℕ) (s t : Tree)
    → count i (join d c a s t) ≡ count i s + one i a + count i t
count-join left c a i s t = refl
count-join right c a i s t = omega arith

pub count-plug : (i : ℕ) (t : Tree) (π : Route) → count i (plug t π) ≡ count i t + count_path i π
unfolding plug
count-plug i t top = omega arith
count-plug i t (below d c a s π) =
    omega (arith, count-plug i (join d c a t s) π, count-join d c a i t s)

pub pointer-join : (d : Side) (c : Color) (a : ℕ) (s t : Tree) → pointer (join d c a s t) ≡ some a
pointer-join left c a s t = refl
pointer-join right c a s t = refl

-- A pointer to the root, or to the node above, is that of a node there.
pub count-pointer : (t : Tree) (a : ℕ) → pointer t ≡ some a → 0 < count a t
count-pointer leaf a h = ground arith
count-pointer (node c l b r) a h = ground arith

pub count_path-above : (π : Route) (a : ℕ) → above π ≡ some a → 0 < count_path a π
count_path-above top a h = ground arith
count_path-above (below d c b s π) a h = ground arith

pub one_self : (i : ℕ) → one i i ≡ 1
one_self i = ground arith

pub one-eq : (i a : ℕ) → i ≡ a → one i a ≡ 1
one-eq i a e = ground arith

-- How often an address stands in a list, and so in the order of a tree.
abbrev pub occurrences : ℕ → List ℕ → ℕ
occurrences i [] = 0
occurrences i (a ∷ l) = one i a + occurrences i l

pub occurrences-append :
    (i : ℕ) (l l' : List ℕ) → occurrences i (l ++ l') ≡ occurrences i l + occurrences i l'
occurrences-append i [] l' = omega arith
occurrences-append i (a ∷ l) l' = omega (arith, occurrences-append i l l')

pub occurrences-inorder : (i : ℕ) (t : Tree) → occurrences i (inorder t) ≡ count i t
occurrences-inorder i leaf = refl
occurrences-inorder i (node c l a r) = omega (
  arith,
  occurrences-append i (inorder l) (a ∷ inorder r),
  occurrences-inorder i l,
  occurrences-inorder i r,
)

-- ===== src/RbTree.antt =====
-- utils/rbtree.hpp: RbTree, an intrusive red-black tree, on the links of its nodes.
-- A node is known by its address, and to follow a null pointer is undefined: the operation gives
-- `none`. The functions of the source come in mirrored pairs, so a side is a parameter here.
pub mod Heap
pub mod Tree
pub mod Links
mod Paint
mod Turns
mod Rotation
pub mod Steps
mod Violation
mod Rounds
mod Balance
mod Loop
pub mod Descent
pub mod Sorted
pub mod Insert
pub mod Reads
pub mod Erase
pub mod Owners
pub mod Placement
mod Tests
use my_async.Prelude.{
  ℕ, zero, suc, Bool, true, false, not, Option, none, some, List, [], ◌∷◌, ◌++◌, ◌==◌,
  if◌then◌else◌,
}
use my_async.RbTree.Heap.{
  Side, left, right, opposite, Color, red, black, is_red, Nodes, set_child, set_parent, set_color,
  set_owned, set_root, follow, points_to,
}

-- `if (child != nullptr) child->rbParent = node`.
abbrev pub adopt : Option ℕ → Option ℕ → Nodes → Nodes
adopt none p h = h
adopt (some child) p h = set_parent child p h

-- The link to `node` from its parent, or the root, set to `other`. The test is whether `node` is the
-- child of its parent on the given side.
unfoldable pub relink : Side → ℕ → Option ℕ → Nodes → Nodes
relink d node other h = elim (h.parent node) [
  | none ↦ set_root other h
  | some p ↦
      if points_to (h.child d p) node
      then set_child d p other h
      else set_child (opposite d) p other h
]

-- `rotateLeft` is the rotation to the left, `rotateRight` that to the right.
unfoldable pub rotate : Side → ℕ → Nodes → Option Nodes
unfolding relink
rotate d node h₀ = follow (h₀.child (opposite d) node) λ top.
    let h₁ = set_child (opposite d) node (h₀.child d top) h₀ in
    let h₂ = adopt (h₀.child d top) (some node) h₁ in
    let h₃ = set_parent top (h₂.parent node) h₂ in
    let h₄ = relink d node (some top) h₃ in
    some (set_parent node (some top) (set_child d top (some node) h₄))

abbrev pub rotate_left : ℕ → Nodes → Option Nodes
rotate_left = rotate left

abbrev pub rotate_right : ℕ → Nodes → Option Nodes
rotate_right = rotate right

-- `std::swap` of the colors of two nodes.
abbrev pub swap_colors : ℕ → ℕ → Nodes → Nodes
swap_colors a b h = set_color b (h.color a) (set_color a (h.color b) h)

-- The body of the loop of `fixViolation` below a grandparent: with a red uncle the colors change, and
-- the loop goes on from the grandparent;
unfoldable pub recolor : ℕ → ℕ → ℕ → Nodes → Nodes
recolor parent grand uncle h =
    set_color uncle black (set_color parent black (set_color grand red h))

-- otherwise the tree is turned at the grandparent, after a turn at the parent if the node is an inner
-- one,
unfoldable pub turn_outer : Side → ℕ → ℕ → Nodes → Option (ℕ × Nodes)
turn_outer d parent grand h =
    follow (rotate (opposite d) grand h) (λ h₁. some (parent, swap_colors parent grand h₁))

-- and the loop goes on from the parent.
unfoldable pub turn : Side → ℕ → ℕ → ℕ → Nodes → Option (ℕ × Nodes)
turn d node parent grand h =
    if points_to (h.child (opposite d) parent) node
    then follow (rotate d parent h)
        (λ h₁. follow (h₁.parent parent) (λ parent₁. turn_outer d parent₁ grand h₁))
    else turn_outer d parent grand h

-- With a grandparent: `d` is the side of the parent.
unfoldable pub fix_below : Side → ℕ → ℕ → ℕ → Nodes → Option (Option (ℕ × Nodes))
fix_below d node parent grand h =
    let turned : Option (Option (ℕ × Nodes)) =
      follow (turn d node parent grand h) (λ r. some (some r)) in
    elim (h.child (opposite d) grand) [
      | none ↦ turned
      | some uncle ↦
          if is_red (h.color uncle)
          then some (some (grand, recolor parent grand uncle h))
          else turned
    ]

-- One round of the loop: `some none` when its condition fails, or the node and the links for the next
-- round.
unfoldable pub fix_step : ℕ → Nodes → Option (Option (ℕ × Nodes))
fix_step node h =
    if points_to h.root node
    then some none
    else if not (is_red (h.color node))
    then some none
    else follow (h.parent node) λ parent.
      if not (is_red (h.color parent))
      then some none
      else follow (h.parent parent) λ grand.
        fix_below (if points_to (h.child left grand) parent then left else right) node parent grand
          h

abbrev pub go_on : (ℕ → Nodes → Option Nodes) → Nodes → Option (ℕ × Nodes) → Option Nodes
go_on rest h none = some h
go_on rest h (some (node, h')) = rest node h'

unfoldable pub fix_loop : ℕ → ℕ → Nodes → Option Nodes
fix_loop zero node h = none
fix_loop (suc fuel) node h = follow (fix_step node h) (go_on (fix_loop fuel) h)

unfoldable pub fix_violation : ℕ → ℕ → Nodes → Option Nodes
fix_violation fuel node h =
    follow (fix_loop fuel node h) λ h'. follow h'.root λ top. some (set_color top black h')

-- The members and parameters that the insertion starts with.
unfoldable pub prepare : ℕ → Nodes → Nodes
prepare node h =
    set_color node red
      (set_owned node true (set_child right node none (set_child left node none h)))

abbrev pub side_of : Bool → Side
side_of true = left
side_of false = right

-- `compare`, the order of the values at two nodes, is a parameter.
module _ (compare : ℕ → ℕ → Bool) where
  -- The loop of `doInsert`, which gives the parent of the new node.
  unfoldable pub descend : ℕ → ℕ → Option ℕ → Option ℕ → Nodes → Option (Option ℕ)
  descend zero node parent current h = none
  descend (suc fuel) node parent none h = some parent
  descend (suc fuel) node parent (some current) h =
      descend fuel node (some current) (h.child (side_of (compare node current)) current) h

  unfoldable pub attach : ℕ → Option ℕ → Nodes → Nodes
  attach node none h = set_root (some node) (set_parent node none h)
  attach node (some parent) h =
      set_child (side_of (compare node parent)) parent (some node) (set_parent node (some parent) h)

  unfoldable pub do_insert : ℕ → ℕ → Nodes → Option Nodes
  do_insert fuel node h =
      let h₁ = prepare node h in
      follow (descend fuel node none h₁.root h₁)
        λ parent. fix_violation fuel node (attach node parent h₁)

-- `getFront` goes down to the left, `getBack` to the right.
unfoldable pub outermost : Side → ℕ → ℕ → Nodes → Option ℕ
outermost d zero current h = none
outermost d (suc fuel) current h = elim (h.child d current) [
  | none ↦ some current
  | some next ↦ outermost d fuel next h
]

unfoldable pub get_front : ℕ → Nodes → Option ℕ
get_front fuel h = follow h.root λ top. outermost left fuel top h

unfoldable pub get_back : ℕ → Nodes → Option ℕ
get_back fuel h = follow h.root λ top. outermost right fuel top h

abbrev pub is_null : Option ℕ → Bool
is_null none = true
is_null (some node) = false

abbrev pub empty : Nodes → Bool
empty h = is_null h.root

-- The nodes in the order in which the visitor is called on them.
unfoldable pub traverse : ℕ → Option ℕ → Nodes → Option (List ℕ)
traverse fuel none h = some []
traverse zero (some node) h = none
traverse (suc fuel) (some node) h =
    follow (traverse fuel (h.child left node) h)
      λ xs. follow (traverse fuel (h.child right node) h) λ ys. some (xs ++ (node ∷ ys))

unfoldable pub traverse_inorder : ℕ → Nodes → Option (List ℕ)
traverse_inorder fuel h = traverse fuel h.root h

-- `doClear` takes the nodes out of the tree, and leaves their links as they are.
unfoldable pub disown : ℕ → Option ℕ → Nodes → Option Nodes
disown fuel none h = some h
disown zero (some node) h = none
disown (suc fuel) (some node) h =
    follow (disown fuel (h.child left node) h)
      λ h₁. let h₂ = set_owned node false h₁ in disown fuel (h₂.child right node) h₂

unfoldable pub clear : ℕ → Nodes → Option Nodes
clear fuel h = follow (disown fuel h.root h) λ h'. some (set_root none h')

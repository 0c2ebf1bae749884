-- ===== src/RbTree/Erase.antt =====
-- utils/rbtree.hpp: doErase, which takes a node out of the tree.
pub mod Unlink
pub mod Single
pub mod Faults
use my_async.Prelude.{
  ℕ, zero, suc, Bool, true, false, ◌&&◌, not, Option, none, some, ◌==◌, if◌then◌else◌,
}
use my_async.RbTree.{adopt, outermost, fix_violation}
use my_async.RbTree.Heap.{
  Side, left, right, opposite, Color, red, black, is_red, Nodes, set_child, set_parent, set_color,
  set_owned, set_root, follow, points_to,
}

abbrev pub is_some : Option ℕ → Bool
is_some none = false
is_some (some a) = true

-- `if (p == root) root = child; else if (p->rbParent->rbLeft == p) …`: the link to a node that may be the
-- root, set to `child`.
unfoldable pub replace_link : ℕ → Option ℕ → Nodes → Option Nodes
replace_link node child h =
    if points_to h.root node
    then some (set_root child h)
    else follow (h.parent node) λ parent.
      if points_to (h.child left parent) node
      then some (set_child left parent child h)
      else some (set_child right parent child h)

-- With two children: the least node of the right subtree comes to the place of `current`. The result
-- is that node with its color and its right child.
unfoldable pub take_successor : ℕ → ℕ → ℕ → ℕ → Nodes → Option (ℕ × Color × Option ℕ × Nodes)
take_successor fuel current lower higher h₀ = follow (outermost left fuel higher h₀) λ replace.
    follow
      (if points_to (h₀.parent replace) current
        then some (set_parent replace (some current) h₀)
        else follow (h₀.parent current) λ parent.
          let h₁ = set_child left parent (h₀.child right replace) h₀ in
          let h₂ = set_child right replace (h₁.child right current) h₁ in
          follow (h₂.child right current) λ higher₁. some (set_parent higher₁ (some replace) h₂))
      λ h₃. follow (replace_link current (some replace) h₃) λ h₄.
        let h₅ = set_child left replace (h₄.child left current) h₄ in
        follow (h₅.child left current) λ lower₁.
          let h₆ = set_parent lower₁ (some replace) h₅ in
          some (replace, h₆.color replace, h₆.child right replace, h₆)

-- The node with at most one child leaves the tree, and the loop of the insertion runs from its child, or
-- from its parent, if it was black.
unfoldable pub unlink : ℕ → ℕ → Color → Option ℕ → Nodes → Option Nodes
unlink fuel node color child h₀ =
    let h₁ = adopt child (h₀.parent node) h₀ in
    follow (replace_link node child h₁) λ h₂.
      if not (is_red color) && is_some h₂.root
      then follow (elim child [ none ↦ h₂.parent node | some c ↦ some c ])
          (λ start. fix_violation fuel start h₂)
      else some h₂

abbrev pub only_child : Option ℕ → Option ℕ → Option ℕ
only_child none r = r
only_child (some l) r = some l

abbrev erase_below : ℕ → ℕ → Option ℕ → Option ℕ → Nodes → Option Nodes
erase_below fuel current (some l) (some r) h =
    follow (take_successor fuel current l r h)
      λ (node, color, child, h'). unlink fuel node color child h'
erase_below fuel current none r h = unlink fuel current (h.color current) (only_child none r) h
erase_below fuel current (some l) none h = unlink fuel current (h.color current) (some l) h

unfoldable pub do_erase : ℕ → ℕ → Nodes → Option Nodes
do_erase fuel current h₀ =
    let h = set_owned current false h₀ in
    erase_below fuel current (h.child left current) (h.child right current) h

unfoldable pub erase_from_parent : ℕ → ℕ → Nodes → Option Nodes
erase_from_parent fuel node h =
    if h.owned node
    then follow (do_erase fuel node h) (λ h'. some (set_owned node false h'))
    else some h

-- ===== src/RbTree/Turns.antt =====
-- utils/rbtree.hpp: what rotateLeft and rotateRight do to the tree.
use my_async.Prelude.{ℕ, ◌≤◌, ◌<◌, ◌≡◌, ◌≢◌, refl, ap, ◌∙◌, sym, Option, none, some, arith}
use my_async.RbTree.{adopt}
use my_async.RbTree.Heap.{
  Side, left, right, opposite, Nodes, set_child, set_parent, update_self, update_other, child_self,
  child_other, child_opposite, child_opposite',
}
use my_async.RbTree.Tree.{Tree, leaf, node, pointer, count, Route, above, count_path}
use my_async.RbTree.Links.{Rep, Link, Around, Agree, Rep-Agree, Around-Agree}
use my_async.RbTree.Paint.{relinked, child-relinked, parent-relinked, color-relinked}

pub child-adopt : (o p : Option ℕ) (h : Nodes) → (adopt o p h).child ≡ h.child
child-adopt none p h = refl
child-adopt (some b) p h = refl

pub color-adopt : (o p : Option ℕ) (h : Nodes) → (adopt o p h).color ≡ h.color
color-adopt none p h = refl
color-adopt (some b) p h = refl

pub root-adopt : (o p : Option ℕ) (h : Nodes) → (adopt o p h).root ≡ h.root
root-adopt none p h = refl
root-adopt (some b) p h = refl

pub parent-adopt :
    (o p : Option ℕ) (h : Nodes) (i : ℕ) → o ≢ some i → (adopt o p h).parent i ≡ h.parent i
parent-adopt none p h i ne = refl
parent-adopt (some b) p h i ne = update_other h.parent b i p (λ e. ne (ap some (sym e)))

pub parent-adopt_self :
    (o p : Option ℕ) (h : Nodes) (b : ℕ) → o ≡ some b → (adopt o p h).parent b ≡ p
parent-adopt_self none p h b e = ground arith
parent-adopt_self (some a) p h b e = rw (← some_injective e) (update_self h.parent a p)
  where
    some_injective : some a ≡ some b → a ≡ b
    some_injective q = cc

-- A subtree that gets another parent.
pub Rep-adopt :
    (h h' : Nodes) (p p' : Option ℕ) (t : Tree)
    → ((i : ℕ) → 0 < count i t → pointer t ≢ some i → Agree h h' i)
    → h'.color ≡ h.color
    → ((i : ℕ) (e : Side) → 0 < count i t → h'.child e i ≡ h.child e i)
    → ((b : ℕ) → pointer t ≡ some b → h'.parent b ≡ p')
    → ((i : ℕ) → count i t ≤ 1)
    → Rep h p t
    → Rep h' p' t
Rep-adopt h h' p p' leaf e f g k z r = tt
Rep-adopt h h' p p' (node c l a r) e f g k z (r₀, r₁, r₂, r₃, r₄, r₅) =
    let ne : (i : ℕ) → i ≢ a → some a ≢ some i = λ i q w. q (some_injective i w) in
    (
      k a refl,
      ap (λ t. t a) f ∙ r₁,
      g a left (ground arith) ∙ r₂,
      g a right (ground arith) ∙ r₃,
      Rep-Agree h h' (some a) l (λ i m. e i (ground arith) (ne i (ground (arith, z i)))) r₄,
      Rep-Agree h h' (some a) r (λ i m. e i (ground arith) (ne i (ground (arith, z i)))) r₅,
    )
  where
    some_injective : (i : ℕ) → some a ≡ some i → i ≡ a
    some_injective i w = cc

-- The assignments of a rotation in three groups.
abbrev pub opened : Side → ℕ → ℕ → Option ℕ → Route → Nodes → Nodes
opened d x y o π h = set_parent y (above π) (adopt o (some x) (set_child (opposite d) x o h))

abbrev pub closed : Side → ℕ → ℕ → Nodes → Nodes
closed d x y h = set_parent x (some y) (set_child d y (some x) h)

unfoldable pub rotated : Side → ℕ → ℕ → Option ℕ → Route → Nodes → Nodes
rotated d x y o π h = closed d x y (relinked (some y) π (opened d x y o π h))

module _ (d : Side) (x y : ℕ) (o : Option ℕ) (π : Route) (h : Nodes) where
  child-opened : (e : Side) (i : ℕ) → i ≢ x → (opened d x y o π h).child e i ≡ h.child e i
  child-opened e i nx =
      ap (λ f. f e i) (child-adopt o (some x) (set_child (opposite d) x o h))
      ∙ child_other h.child (opposite d) e x i o nx

  pub parent-opened : (i : ℕ) → i ≢ y → o ≢ some i → (opened d x y o π h).parent i ≡ h.parent i
  parent-opened i ny no' =
      update_other (adopt o (some x) (set_child (opposite d) x o h)).parent y i (above π) ny
      ∙ parent-adopt o (some x) (set_child (opposite d) x o h) i no'

  pub opened-Around :
      ((i : ℕ) → 0 < count_path i π → (i ≢ x) × (i ≢ y) × (o ≢ some i))
      → Link h (some x) π
      → Around h π
      → Link (opened d x y o π h) (some x) π × Around (opened d x y o π h) π
  opened-Around ne k r =
      Around-Agree h (opened d x y o π h) (some x) π
        (λ i m.
          let (nx, ny, no') = ne i m in
          (
            parent-opened i ny no',
            ap (λ f. f i) (color-adopt o (some x) (set_child (opposite d) x o h)),
            child-opened left i nx,
            child-opened right i nx,
          ))
        (root-adopt o (some x) (set_child (opposite d) x o h)) k r

  pub child-rotated :
      (e : Side) (i : ℕ)
      → i ≢ x
      → i ≢ y
      → count_path i π ≡ 0
      → (rotated d x y o π h).child e i ≡ h.child e i
  unfolding rotated
  child-rotated e i nx ny z =
      child_other (relinked (some y) π (opened d x y o π h)).child d e y i (some x) ny
      ∙ child-relinked (some y) π (opened d x y o π h) e i z
      ∙ child-opened e i nx

  parent-rotated :
      (i : ℕ) → i ≢ x → i ≢ y → o ≢ some i → (rotated d x y o π h).parent i ≡ h.parent i
  unfolding rotated
  parent-rotated i nx ny no' =
      update_other (relinked (some y) π (opened d x y o π h)).parent x i (some y) nx
      ∙ ap (λ f. f i) (parent-relinked (some y) π (opened d x y o π h))
      ∙ parent-opened i ny no'

  pub color-rotated : (rotated d x y o π h).color ≡ h.color
  unfolding rotated
  color-rotated =
      color-relinked (some y) π (opened d x y o π h)
      ∙ color-adopt o (some x) (set_child (opposite d) x o h)

  pub Agree-rotated :
      (i : ℕ) → i ≢ x → i ≢ y → o ≢ some i → count_path i π ≡ 0 → Agree h (rotated d x y o π h) i
  Agree-rotated i nx ny no' z = (
    parent-rotated i nx ny no',
    ap (λ f. f i) color-rotated,
    child-rotated left i nx ny z,
    child-rotated right i nx ny z,
  )

  -- The parents of the three nodes that get another one.
  pub parent_low : (rotated d x y o π h).parent x ≡ some y
  unfolding rotated
  parent_low = update_self (relinked (some y) π (opened d x y o π h)).parent x (some y)

  pub parent_high : x ≢ y → (rotated d x y o π h).parent y ≡ above π
  unfolding rotated
  parent_high ne =
      update_other (relinked (some y) π (opened d x y o π h)).parent x y (some y) (λ e. ne (sym e))
      ∙ ap (λ f. f y) (parent-relinked (some y) π (opened d x y o π h))
      ∙ update_self (adopt o (some x) (set_child (opposite d) x o h)).parent y (above π)

  pub parent_middle : (b : ℕ) → o ≡ some b → b ≢ x → b ≢ y → (rotated d x y o π h).parent b ≡ some x
  unfolding rotated
  parent_middle b e nx ny =
      update_other (relinked (some y) π (opened d x y o π h)).parent x b (some y) nx
      ∙ ap (λ f. f b) (parent-relinked (some y) π (opened d x y o π h))
      ∙ update_other (adopt o (some x) (set_child (opposite d) x o h)).parent y b (above π) ny
      ∙ parent-adopt_self o (some x) (set_child (opposite d) x o h) b e

  -- The children of the two that turn.
  module _ (ne : x ≢ y) (zx : count_path x π ≡ 0) (zy : count_path y π ≡ 0) where
    pub child_low : (rotated d x y o π h).child d x ≡ h.child d x
    unfolding rotated
    child_low =
        child_other (relinked (some y) π (opened d x y o π h)).child d d y x (some x) ne
        ∙ child-relinked (some y) π (opened d x y o π h) d x zx
        ∙ ap (λ f. f d x) (child-adopt o (some x) (set_child (opposite d) x o h))
        ∙ child_opposite' h.child d x x o

    pub child_low_opposite : (rotated d x y o π h).child (opposite d) x ≡ o
    unfolding rotated
    child_low_opposite =
        child_other (relinked (some y) π (opened d x y o π h)).child d (opposite d) y x (some x) ne
        ∙ child-relinked (some y) π (opened d x y o π h) (opposite d) x zx
        ∙ ap (λ f. f (opposite d) x) (child-adopt o (some x) (set_child (opposite d) x o h))
        ∙ child_self h.child (opposite d) x o

    pub child_high : (rotated d x y o π h).child d y ≡ some x
    unfolding rotated
    child_high = child_self (relinked (some y) π (opened d x y o π h)).child d y (some x)

    pub child_high_opposite : (rotated d x y o π h).child (opposite d) y ≡ h.child (opposite d) y
    unfolding rotated
    child_high_opposite =
        child_opposite (relinked (some y) π (opened d x y o π h)).child d y y (some x)
        ∙ child-relinked (some y) π (opened d x y o π h) (opposite d) y zy
        ∙ child-opened (opposite d) y (λ e. ne (sym e))

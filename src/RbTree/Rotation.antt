-- ===== src/RbTree/Rotation.antt =====
-- utils/rbtree.hpp: rotateLeft and rotateRight turn the tree at a node with a child.
use my_async.Prelude.{ℕ, ◌+◌, ◌≤◌, ◌<◌, ◌≡◌, ◌≢◌, refl, ap, ◌∙◌, sym, Option, some, arith}
use my_async.RbTree.{adopt, relink, rotate}
use my_async.RbTree.Heap.{
  Side, left, right, opposite, update_other, child_other, Color, Nodes, set_child, follow,
}
use my_async.RbTree.Tree.{
  Tree, join, pointer, count, one, Route, above, count_path, count-join, pointer-join,
  count-pointer, one_self, one-eq,
}
use my_async.RbTree.Links.{
  Rep, Link, Around, At, Agree, Rep-Agree, Around-Agree, Rep-join, join-Rep,
}
use my_async.RbTree.Paint.{relinked, relink_lem, relinked-Around}
use my_async.RbTree.Turns

rotate_lem :
    (d : Side) (x y : ℕ) (o : Option ℕ) (π : Route) (h : Nodes)
    → h.child (opposite d) x ≡ some y
    → h.child d y ≡ o
    → (adopt o (some x) (set_child (opposite d) x o h)).parent x ≡ above π
    → relink d x (some y) (Turns.opened d x y o π h)
      ≡ relinked (some y) π (Turns.opened d x y o π h)
    → rotate d x h ≡ some (Turns.rotated d x y o π h)
unfolding rotate Turns.rotated
rotate_lem d x y o π h e₁ e₂ e₃ e₄ = rw (e₁, follow) (rw e₂ (rw e₃ (rw e₄)))

module _ (d : Side) (c : Color) (x : ℕ) (A : Tree) (c' : Color) (y : ℕ) (B C : Tree) (π : Route)
    (h : Nodes) (m : At h (join d c x A (join d c' y B C)) π) where
  -- The nodes involved are all different.
  counts : (i : ℕ) → count i A + one i x + count i B + one i y + count i C + count_path i π ≤ 1
  counts i =
      omega (arith, m.apart i, count-join d c x i A (join d c' y B C), count-join d c' y i B C)

  apart_low : x ≢ y
  apart_low e = omega (arith, counts x, one_self x, one-eq x y e)

  free : (i : ℕ) → 0 < count_path i π → (i ≢ x) × (i ≢ y) × (pointer B ≢ some i)
  free i p = (
    λ e. omega (arith, counts i, one-eq i x e),
    λ e. omega (arith, counts i, one-eq i y e),
    λ e. omega (arith, counts i, count-pointer B i e),
  )

  -- The links of the two, as they were.
  low :
      (h.parent x ≡ above π)
      × (h.color x ≡ c)
      × (h.child d x ≡ pointer A)
      × (h.child (opposite d) x ≡ some y)
      × Rep h (some x) A
      × Rep h (some x) (join d c' y B C)
  low =
      let (r₀, r₁, r₂, r₃, r₄, r₅) = Rep-join h (above π) d c x A (join d c' y B C) m.here in
      (r₀, r₁, r₂, r₃ ∙ pointer-join d c' y B C, r₄, r₅)

  high :
      (h.parent y ≡ some x)
      × (h.color y ≡ c')
      × (h.child d y ≡ pointer B)
      × (h.child (opposite d) y ≡ pointer C)
      × Rep h (some y) B
      × Rep h (some y) C
  high = Rep-join h (some x) d c' y B C low.5

  linked : Link h (some x) π
  linked = rw (← pointer-join d c x A (join d c' y B C)) m.link

  parent_kept :
      (adopt (pointer B) (some x) (set_child (opposite d) x (pointer B) h)).parent x ≡ above π
  parent_kept =
      Turns.parent-adopt (pointer B) (some x) (set_child (opposite d) x (pointer B) h) x
        (λ e. omega (arith, counts x, one_self x, count-pointer B x e))
      ∙ low.0

  Around-opened :
      Link (Turns.opened d x y (pointer B) π h) (some x) π
      × Around (Turns.opened d x y (pointer B) π h) π
  Around-opened = Turns.opened-Around d x y (pointer B) π h free linked m.around

  parent_opened : (Turns.opened d x y (pointer B) π h).parent x ≡ above π
  parent_opened =
      Turns.parent-opened d x y (pointer B) π h x apart_low
        (λ e. omega (arith, counts x, one_self x, count-pointer B x e))
      ∙ low.0

  pub rotate-eq : rotate d x h ≡ some (Turns.rotated d x y (pointer B) π h)
  rotate-eq = rotate_lem d x y (pointer B) π h low.3 high.2 parent_kept (
      relink_lem d x (some y) π (Turns.opened d x y (pointer B) π h) parent_opened Around-opened.0
        Around-opened.1 (omega (arith, counts x, one_self x)))

  agree :
      (i : ℕ)
      → count_path i π ≡ 0
      → i ≢ x
      → i ≢ y
      → pointer B ≢ some i
      → Agree h (Turns.rotated d x y (pointer B) π h) i
  agree i z nx ny nb = Turns.Agree-rotated d x y (pointer B) π h i nx ny nb z

  outer-Agree :
      (i : ℕ) → 0 < count i A + count i C → Agree h (Turns.rotated d x y (pointer B) π h) i
  outer-Agree i p =
      agree i (omega (arith, counts i)) (λ e. omega (arith, counts i, one-eq i x e))
        (λ e. omega (arith, counts i, one-eq i y e))
        (λ e. omega (arith, counts i, count-pointer B i e))

  middle-Rep : Rep (Turns.rotated d x y (pointer B) π h) (some x) B
  middle-Rep =
      Turns.Rep-adopt h (Turns.rotated d x y (pointer B) π h) (some y) (some x) B
        (λ i p nb.
          agree i (omega (arith, counts i)) (λ e. omega (arith, counts i, one-eq i x e))
            (λ e. omega (arith, counts i, one-eq i y e)) nb)
        (Turns.color-rotated d x y (pointer B) π h)
        (λ i e p.
          Turns.child-rotated d x y (pointer B) π h e i (λ q. omega (arith, counts i, one-eq i x q))
            (λ q. omega (arith, counts i, one-eq i y q)) (omega (arith, counts i)))
        (λ b e.
          Turns.parent_middle d x y (pointer B) π h b e
            (λ q. omega (arith, counts b, one-eq b x q, count-pointer B b e))
            (λ q. omega (arith, counts b, one-eq b y q, count-pointer B b e)))
        (λ i. omega (arith, counts i)) high.4

  Around-turned :
      Link (Turns.rotated d x y (pointer B) π h) (some y) π
      × Around (Turns.rotated d x y (pointer B) π h) π
  unfolding Turns.rotated
  Around-turned =
      let h₁ = Turns.opened d x y (pointer B) π h in
      let (k, r) =
        relinked-Around (some y) (some x) π h₁ Around-opened.0 Around-opened.1
          (λ i. omega (arith, counts i)) in
      Around-Agree (relinked (some y) π h₁) (Turns.closed d x y (relinked (some y) π h₁)) (some y) π
        (λ i p.
          let (nx, ny, nb) = free i p in
          (
            update_other (relinked (some y) π h₁).parent x i (some y) nx,
            refl,
            child_other (relinked (some y) π h₁).child d left y i (some x) ny,
            child_other (relinked (some y) π h₁).child d right y i (some x) ny,
          ))
        refl k r

  low-Rep : Rep (Turns.rotated d x y (pointer B) π h) (some y) (join d c x A B)
  low-Rep =
      let zx : count_path x π ≡ 0 = omega (arith, counts x, one_self x) in
      let zy : count_path y π ≡ 0 = omega (arith, counts y, one_self y) in
      join-Rep (Turns.rotated d x y (pointer B) π h) (some y) d c x A B
        (Turns.parent_low d x y (pointer B) π h)
        (ap (λ f. f x) (Turns.color-rotated d x y (pointer B) π h) ∙ low.1)
        (Turns.child_low d x y (pointer B) π h apart_low zx zy ∙ low.2)
        (Turns.child_low_opposite d x y (pointer B) π h apart_low zx zy)
        (Rep-Agree h (Turns.rotated d x y (pointer B) π h) (some x) A
          (λ i p. outer-Agree i (omega arith)) low.4)
        middle-Rep

  -- The child comes to the place of the node, and the node below it.
  pub rotate-At : At (Turns.rotated d x y (pointer B) π h) (join d c' y (join d c x A B) C) π
  rotate-At =
      let zx : count_path x π ≡ 0 = omega (arith, counts x, one_self x) in
      let zy : count_path y π ≡ 0 = omega (arith, counts y, one_self y) in
      record {
        here =
            join-Rep (Turns.rotated d x y (pointer B) π h) (above π) d c' y (join d c x A B) C
              (Turns.parent_high d x y (pointer B) π h apart_low)
              (ap (λ f. f y) (Turns.color-rotated d x y (pointer B) π h) ∙ high.1)
              (Turns.child_high d x y (pointer B) π h apart_low zx zy
                ∙ sym (pointer-join d c x A B))
              (Turns.child_high_opposite d x y (pointer B) π h apart_low zx zy ∙ high.3) low-Rep
              (Rep-Agree h (Turns.rotated d x y (pointer B) π h) (some y) C
                (λ i p. outer-Agree i (omega arith)) high.5);
        link = rw (pointer-join d c' y (join d c x A B) C) Around-turned.0;
        around = Around-turned.1;
        apart = λ i.
            omega (arith, counts i, count-join d c' y i (join d c x A B) C, count-join d c x i A B);
      }

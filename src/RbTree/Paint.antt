-- ===== src/RbTree/Paint.antt =====
-- utils/rbtree.hpp: what an assignment to a color, or to the link from above, does to the tree.
use my_async.Prelude.{
  ℕ, ◌≤◌, ◌≡◌, ◌≢◌, refl, ◌∙◌, true, false, Option, none, some, arith, if◌then◌else◌,
}
use my_async.RbTree.{relink}
use my_async.RbTree.Heap.{
  Side, left, right, opposite, Color, Nodes, set_color, set_child, set_root, points_to, update_self,
  update_other, child_self, child_other, child_opposite,
}
use my_async.RbTree.Tree.{Tree, leaf, node, pointer, count, Route, top, below, above, count_path}
use my_async.RbTree.Links.{Link, Around, At, Agree, Rep-Agree, Around-Agree}

-- A color changes at the root of the subtree.
pub At-paint :
    (h : Nodes) (c c' : Color) (l : Tree) (a : ℕ) (r : Tree) (π : Route)
    → At h (node c l a r) π
    → At (set_color a c' h) (node c' l a r) π
At-paint h c c' l a r π m =
    let (r₀, r₁, r₂, r₃, r₄, r₅) = m.here in
    let agree : (i : ℕ) → i ≢ a → Agree h (set_color a c' h) i =
      λ i ne. (refl, update_other h.color a i c' ne, refl, refl) in
    let (k, s) =
      Around-Agree h (set_color a c' h) (some a) π (λ i p. agree i (ground (arith, m.apart i))) refl
        m.link m.around in
    record {
      here = (
        r₀,
        update_self h.color a c',
        r₂,
        r₃,
        Rep-Agree h (set_color a c' h) (some a) l (λ i p. agree i (ground (arith, m.apart i))) r₄,
        Rep-Agree h (set_color a c' h) (some a) r (λ i p. agree i (ground (arith, m.apart i))) r₅,
      );
      link = k;
      around = s;
      apart = m.apart;
    }

-- The link from above, changed.
unfoldable pub relinked : Option ℕ → Route → Nodes → Nodes
relinked o top h = set_root o h
relinked o (below d c a s π) h = set_child d a o h

pub points_to-false : (s : Tree) (x : ℕ) → count x s ≡ 0 → points_to (pointer s) x ≡ false
points_to-false leaf x h = refl
points_to-false (node c l a r) x h = ground arith

pub points_to_self : (x : ℕ) → points_to (some x) x ≡ true
points_to_self x = ground arith

relink-top :
    (d : Side) (x : ℕ) (o : Option ℕ) (h : Nodes)
    → h.parent x ≡ none
    → relink d x o h ≡ set_root o h
unfolding relink
relink-top d x o h e = rw (e, relink)

relink-below :
    (d : Side) (x p : ℕ) (o : Option ℕ) (h : Nodes)
    → h.parent x ≡ some p
    → relink d x o h
      ≡ (if points_to (h.child d p) x then set_child d p o h else set_child (opposite d) p o h)
unfolding relink
relink-below d x p o h e = rw (e, relink)

-- The test of the source finds the side on which the node hangs.
relink_side :
    (d e : Side) (x a : ℕ) (s : Tree) (o : Option ℕ) (h : Nodes)
    → h.child e a ≡ some x
    → h.child (opposite e) a ≡ pointer s
    → count x s ≡ 0
    → (if points_to (h.child d a) x then set_child d a o h else set_child (opposite d) a o h)
      ≡ set_child e a o h
relink_side left left x a s o h k q z = rw (k, points_to_self x)
relink_side right right x a s o h k q z = rw (k, points_to_self x)
relink_side left right x a s o h k q z = rw (q, points_to-false s x z)
relink_side right left x a s o h k q z = rw (q, points_to-false s x z)

pub relink_lem :
    (d : Side) (x : ℕ) (o : Option ℕ) (π : Route) (h : Nodes)
    → h.parent x ≡ above π
    → Link h (some x) π
    → Around h π
    → count_path x π ≡ 0
    → relink d x o h ≡ relinked o π h
unfolding relinked
relink_lem d x o top h e k r z = relink-top d x o h e
relink_lem d x o (below e' c a s π) h e k (r₀, r₁, r₂, r₃, r₄, r₅) z =
    relink-below d x a o h e ∙ relink_side d e' x a s o h k r₂ (omega arith)

-- The nodes that are not above keep their children,
pub child-relinked :
    (o : Option ℕ) (π : Route) (h : Nodes) (e : Side) (i : ℕ)
    → count_path i π ≡ 0
    → (relinked o π h).child e i ≡ h.child e i
unfolding relinked
child-relinked o top h e i z = refl
child-relinked o (below d c a s π) h e i z = child_other h.child d e a i o (ground arith)

pub parent-relinked : (o : Option ℕ) (π : Route) (h : Nodes) → (relinked o π h).parent ≡ h.parent
unfolding relinked
parent-relinked o top h = refl
parent-relinked o (below d c a s π) h = refl

pub color-relinked : (o : Option ℕ) (π : Route) (h : Nodes) → (relinked o π h).color ≡ h.color
unfolding relinked
color-relinked o top h = refl
color-relinked o (below d c a s π) h = refl

-- and what is above stands with the new link.
pub relinked-Around :
    (o o' : Option ℕ) (π : Route) (h : Nodes)
    → Link h o' π
    → Around h π
    → ((i : ℕ) → count_path i π ≤ 1)
    → Link (relinked o π h) o π × Around (relinked o π h) π
unfolding relinked
relinked-Around o o' top h k r z = (refl, tt)
relinked-Around o o' (below d c a s π) h k (r₀, r₁, r₂, r₃, r₄, r₅) z =
    let agree : (i : ℕ) → i ≢ a → Agree h (set_child d a o h) i = λ i ne.
      (refl, refl, child_other h.child d left a i o ne, child_other h.child d right a i o ne) in
    let (k', r') =
      Around-Agree h (set_child d a o h) (some a) π (λ i p. agree i (ground (arith, z i))) refl r₄
        r₅ in
    (
      child_self h.child d a o,
      (
        r₀,
        r₁,
        child_opposite h.child d a a o ∙ r₂,
        Rep-Agree h (set_child d a o h) (some a) s (λ i p. agree i (ground (arith, z i))) r₃,
        k',
        r',
      ),
    )

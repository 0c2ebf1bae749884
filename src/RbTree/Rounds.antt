-- ===== src/RbTree/Rounds.antt =====
-- utils/rbtree.hpp: the loop of fixViolation on the links refines its description on trees.
use my_async.Prelude.{
  ℕ, ◌<◌, ◌≡◌, ◌≢◌, refl, Bool, true, false, Option, none, some, arith, ◌==◌, if◌then◌else◌,
}
use my_async.RbTree.{recolor, turn, fix_below, fix_step}
use my_async.RbTree.Heap.{
  Side, left, right, opposite, Color, red, black, Nodes, follow, points_to, is_red,
}
use my_async.RbTree.Tree.{
  Tree, leaf, node, join, pointer, pointer-join, count, Route, top, below, count_path, one_self,
  one-eq,
}
use my_async.RbTree.Links.{Around, At}
use my_async.RbTree.Paint.{points_to-false, points_to_self}
use my_async.RbTree.Steps.{step, Rooted}
use my_async.RbTree.Violation.{turn_lem, recolor-At}

-- The result of a round: the end, or the place for the next round with its links.
abbrev pub Follows : Option (Option (ℕ × Nodes)) → Option (Tree × Route) → Type 0
Follows o none = o ≡ some none
Follows o (some (t, π)) =
    (x : ℕ) × (h : Nodes) × (o ≡ some (some (x, h))) × (pointer t ≡ some x) × At h t π

-- The root is one of the nodes above a place below it.
pub root-above :
    (h : Nodes) (d : Side) (c : Color) (a : ℕ) (s : Tree) (π : Route)
    → Around h (below d c a s π)
    → (q : ℕ) × (h.root ≡ some q) × (0 < count_path q (below d c a s π))
root-above h d c a s top r = (a, r.4, omega (arith, one_self a))
root-above h d c a s (below d' c' a' s' π) r =
    let (q, e, p) = root-above h d' c' a' s' π r.5 in (q, e, omega arith)

pub not_root :
    (h : Nodes) (c : Color) (l : Tree) (x : ℕ) (r : Tree) (d : Side) (k : Color) (a : ℕ) (s : Tree)
    (π : Route)
    → At h (node c l x r) (below d k a s π)
    → points_to h.root x ≡ false
not_root h c l x r d k a s π m =
    let (q, e, p) = root-above h d k a s π m.around in
    rw e (differ (λ z. omega (arith, m.apart q, one-eq q x z)))
  where
    differ : {q : ℕ} → q ≢ x → (q == x) ≡ false
    differ ne = ground arith

module _ (x : ℕ) (h : Nodes) where
  at_root : h.root ≡ some x → fix_step x h ≡ some none
  unfolding fix_step
  at_root e = rw e (rw (points_to_self x))

  module _ (ne : points_to h.root x ≡ false) where
    at_black : h.color x ≡ black → fix_step x h ≡ some none
    unfolding fix_step
    at_black e = rw ne (rw e)

    module _ (p : ℕ) (e : h.color x ≡ red) (k : h.parent x ≡ some p) where
      below_black : h.color p ≡ black → fix_step x h ≡ some none
      unfolding fix_step
      below_black f = rw ne (rw e (rw (k, follow) (rw f)))

      below_red :
          (g : ℕ) (b : Bool)
          → h.color p ≡ red
          → h.parent p ≡ some g
          → points_to (h.child left g) p ≡ b
          → fix_step x h ≡ fix_below (if b then left else right) x p g h
      unfolding fix_step
      below_red g b f q z = rw ne (rw e (rw (k, follow) (rw f (rw (q, follow) (rw z)))))

module _ (d : Side) (x p g : ℕ) (h : Nodes) where
  turn_below :
      (u : Tree) (r : ℕ × Nodes)
      → h.child (opposite d) g ≡ pointer u
      → ((v : ℕ) → pointer u ≡ some v → is_red (h.color v) ≡ false)
      → turn d x p g h ≡ some r
      → fix_below d x p g h ≡ some (some r)
  unfolding fix_below
  turn_below leaf r e f k = rw (e, fix_below) (rw k)
  turn_below (node c ul v ur) r e f k = rw (e, fix_below) (rw (f v refl) (rw k))

  recolor_below :
      (v : ℕ)
      → h.child (opposite d) g ≡ some v
      → h.color v ≡ red
      → fix_below d x p g h ≡ some (some (g, recolor p g v h))
  unfolding fix_below
  recolor_below v e f = rw (e, fix_below) (rw f)

-- The test of the source finds the side of the parent.
side_found :
    (d : Side) (p g : ℕ) (u : Tree) (h : Nodes)
    → h.child d g ≡ some p
    → h.child (opposite d) g ≡ pointer u
    → count p u ≡ 0
    → (b : Bool) × (points_to (h.child left g) p ≡ b) × ((if b then left else right) ≡ d)
side_found left p g u h e k z = (true, rw e (points_to_self p), refl)
side_found right p g u h e k z = (false, rw k (points_to-false u p z), refl)

red_below :
    (d e : Side) (l : Tree) (x : ℕ) (r : Tree) (p : ℕ) (s : Tree) (c : Color) (g : ℕ) (u : Tree)
    (π : Route) (h : Nodes)
    → At h (node red l x r) (below e red p s (below d c g u π))
    → Follows (fix_below d x p g h) (step (node red l x r) (below e red p s (below d c g u π)))
unfolding step
red_below d e l x r p s c g leaf π h m =
    let (x', h', k, q, m') = turn_lem d e c l x r p s g leaf π h m in
    (x', h', turn_below d x p g h leaf (x', h') m.around.5.2 no_node k, q, m')
  where
    no_node : (v : ℕ) → none ≡ some v → is_red (h.color v) ≡ false
    no_node v e = cc
red_below d e l x r p s c g (node black ul v ur) π h m =
    let (x', h', k, q, m') = turn_lem d e c l x r p s g (node black ul v ur) π h m in
    (
      x',
      h',
      turn_below d x p g h (node black ul v ur) (x', h') m.around.5.2
          (λ w i. rw (← some_injective w i) (rw m.around.5.3.1)) k,
      q,
      m',
    )
  where
    some_injective : (w : ℕ) → some v ≡ some w → v ≡ w
    some_injective w e = cc
red_below d e l x r p s c g (node red ul v ur) π h m =
    let a = m.around.5 in
    (
      g,
      recolor p g v h,
      recolor_below d x p g h v a.2 a.3.1,
      pointer-join d red g (join e black p (node red l x r) s) (node black ul v ur),
      recolor-At d e c (node red l x r) p s g ul v ur π h m,
    )

-- At a place in a tree whose root is black, one round of the loop of `fixViolation` on the links
-- does exactly what the recoloring or the turn does to the tree: it ends the loop when that is
-- due, and otherwise leaves links that stand for the new tree, with the node at which the loop
-- goes on.
pub fix_step-step :
    (h : Nodes) (c : Color) (l : Tree) (x : ℕ) (r : Tree) (π : Route)
    → At h (node c l x r) π
    → Rooted π
    → Follows (fix_step x h) (step (node c l x r) π)
unfolding step
fix_step-step h red l x r top m w = at_root x h m.link
fix_step-step h black l x r top m w = at_root x h m.link
fix_step-step h black l x r (below e k p s π) m w =
    at_black x h (not_root h black l x r e k p s π m) m.here.1
fix_step-step h red l x r (below e black p s π) m w =
    below_black x h (not_root h red l x r e black p s π m) p m.here.1 m.here.0 m.around.1
fix_step-step h red l x r (below e red p s top) m w = absurd (red_ne_black w)
  where
    red_ne_black : red ≡ black → ⊥
    red_ne_black q = cc
fix_step-step h red l x r (below e red p s (below d c g u π)) m w =
    let (b, z, q) =
      side_found d p g u h m.around.4 m.around.5.2 (omega (arith, m.apart p, one_self p)) in
    rw
      (below_red x h (not_root h red l x r e red p s (below d c g u π) m) p m.here.1 m.here.0 g b
        m.around.1 m.around.0 z)
      (rw q (red_below d e l x r p s c g u π h m))

-- ===== src/RbTree/Violation.antt =====
-- utils/rbtree.hpp: a round of the loop of fixViolation does to the links what it does to the tree.
use my_async.Prelude.{ℕ, ◌≡◌, refl, ◌∙◌, Option, some, arith}
use my_async.RbTree.{rotate, swap_colors, recolor, turn_outer, turn}
use my_async.RbTree.Heap.{Side, left, right, opposite, Color, red, black, Nodes, set_color, follow}
use my_async.RbTree.Tree.{Tree, node, join, pointer, count, Route, below, above, one_self}
use my_async.RbTree.Links.{At, At-up, At-down, Rep-join}
use my_async.RbTree.Paint.{At-paint, points_to-false, points_to_self}
use my_async.RbTree.Steps.{rebuilt}
use my_async.RbTree.Rotation.{rotate-eq, rotate-At}
use my_async.RbTree.Turns

At-paint_join :
    (h : Nodes) (d : Side) (c c' : Color) (a : ℕ) (s t : Tree) (π : Route)
    → At h (join d c a s t) π
    → At (set_color a c' h) (join d c' a s t) π
At-paint_join h left c c' a s t π m = At-paint h c c' s a t π m
At-paint_join h right c c' a s t π m = At-paint h c c' t a s π m

-- The rotation at the grandparent, with the colors swapped.
turn_swap :
    (e : Side) (c : Color) (g : ℕ) (u : Tree) (p : ℕ) (s t : Tree) (π : Route) (h : Nodes)
    → At h (join e c g u (join e red p s t)) π
    → (h' : Nodes) × (follow {B = ℕ × Nodes} (rotate e g h) (λ h₁. some (p, swap_colors p g h₁))
        ≡ some (p, h'))
      × At h' (join e c p (join e red g u s) t) π
turn_swap e c g u p s t π h m =
    let h₁ = Turns.rotated e g p (pointer s) π h in
    let m₁ = rotate-At e c g u red p s t π h m in
    let outer = Rep-join h₁ (above π) e red p (join e c g u s) t m₁.here in
    let inner = Rep-join h₁ (some p) e c g u s outer.4 in
    let m₂ =
      At-down (set_color p c h₁) (join e c g u s) e c p t π
        (At-paint_join h₁ e red c p (join e c g u s) t π m₁) in
    let m₃ =
      At-up (set_color g red (set_color p c h₁)) (join e red g u s) e c p t π
        (At-paint_join (set_color p c h₁) e c red g u s (below e c p t π) m₂) in
    (
      set_color g red (set_color p c h₁),
      rw (rotate-eq e c g u red p s t π h m) (rw outer.1 (rw inner.1)),
      m₃,
    )

turn_outer-left :
    (c : Color) (g : ℕ) (u : Tree) (p : ℕ) (s t : Tree) (π : Route) (h : Nodes)
    → At h (node c (node red t p s) g u) π
    → (h' : Nodes) × (turn_outer left p g h ≡ some (p, h')) × At h' (node c t p (node red s g u)) π
unfolding turn_outer
turn_outer-left = turn_swap right

turn_outer-right :
    (c : Color) (g : ℕ) (u : Tree) (p : ℕ) (s t : Tree) (π : Route) (h : Nodes)
    → At h (node c u g (node red s p t)) π
    → (h' : Nodes) × (turn_outer right p g h ≡ some (p, h')) × At h' (node c (node red u g s) p t) π
unfolding turn_outer
turn_outer-right = turn_swap left

-- The new place after a turn, and the links there.
abbrev pub Turned : Option (ℕ × Nodes) → Tree → Route → Type 0
Turned o t π = (x : ℕ) × (h : Nodes) × (o ≡ some (x, h)) × (pointer t ≡ some x) × At h t π

to_outer :
    (d : Side) (x p g : ℕ) (s : Tree) (h : Nodes)
    → h.child (opposite d) p ≡ pointer s
    → count x s ≡ 0
    → turn d x p g h ≡ turn_outer d p g h
unfolding turn
to_outer d x p g s h e z = rw e (rw (points_to-false s x z))

to_inner :
    (d : Side) (x p g : ℕ) (h h₁ : Nodes)
    → h.child (opposite d) p ≡ some x
    → rotate d p h ≡ some h₁
    → h₁.parent p ≡ some x
    → turn d x p g h ≡ turn_outer d x g h₁
unfolding turn
to_inner d x p g h h₁ e f k = rw (e, points_to_self x) (rw (f, follow) (rw (k, follow)))

pub turn_lem :
    (d e : Side) (c : Color) (l : Tree) (x : ℕ) (r : Tree) (p : ℕ) (s : Tree) (g : ℕ) (u : Tree)
    (π : Route) (h : Nodes)
    → At h (node red l x r) (below e red p s (below d c g u π))
    → Turned (turn d x p g h) (rebuilt d e c l x r p s g u) π
turn_lem left left c l x r p s g u π h m =
    let t = node red l x r in
    let m₁ =
      At-up h (node red t p s) left c g u π (At-up h t left red p s (below left c g u π) m) in
    let (h', e, m') = turn_outer-left c g u p s t π h m₁ in
    (p, h', to_outer left x p g s h m.around.2 (omega (arith, m.apart x, one_self x)) ∙ e, refl, m')
turn_lem right right c l x r p s g u π h m =
    let t = node red l x r in
    let m₁ =
      At-up h (node red s p t) right c g u π (At-up h t right red p s (below right c g u π) m) in
    let (h', e, m') = turn_outer-right c g u p s t π h m₁ in
    (
      p,
      h',
      to_outer right x p g s h m.around.2 (omega (arith, m.apart x, one_self x)) ∙ e,
      refl,
      m',
    )
turn_lem left right c l x r p s g u π h m =
    let q = below left c g u π in
    let m₁ = At-up h (node red l x r) right red p s q m in
    let h₁ = Turns.rotated left p x (pointer l) q h in
    let m₂ = rotate-At left red p s red x l r q h m₁ in
    let m₃ = At-up h₁ (node red (node red s p l) x r) left c g u π m₂ in
    let (h', e, m') = turn_outer-left c g u x r (node red s p l) π h₁ m₃ in
    (
      x,
      h',
      to_inner left x p g h h₁ m.link (rotate-eq left red p s red x l r q h m₁) m₂.here.4.0 ∙ e,
      refl,
      m',
    )
turn_lem right left c l x r p s g u π h m =
    let q = below right c g u π in
    let m₁ = At-up h (node red l x r) left red p s q m in
    let h₁ = Turns.rotated right p x (pointer r) q h in
    let m₂ = rotate-At right red p s red x r l q h m₁ in
    let m₃ = At-up h₁ (node red l x (node red r p s)) right c g u π m₂ in
    let (h', e, m') = turn_outer-right c g u x l (node red r p s) π h₁ m₃ in
    (
      x,
      h',
      to_inner right x p g h h₁ m.link (rotate-eq right red p s red x r l q h m₁) m₂.here.5.0 ∙ e,
      refl,
      m',
    )

-- The subtrees below a node change places with the side.
other_side :
    (h : Nodes) (d : Side) (c : Color) (a : ℕ) (s t : Tree) (π : Route)
    → At h (join d c a s t) π
    → At h (join (opposite d) c a t s) π
other_side h left c a s t π m = m
other_side h right c a s t π m = m

other_side_back :
    (h : Nodes) (d : Side) (c : Color) (a : ℕ) (s t : Tree) (π : Route)
    → At h (join (opposite d) c a t s) π
    → At h (join d c a s t) π
other_side_back h left c a s t π m = m
other_side_back h right c a s t π m = m

-- With a red uncle three colors change.
pub recolor-At :
    (d e : Side) (c : Color) (t : Tree) (p : ℕ) (s : Tree) (g : ℕ) (ul : Tree) (v : ℕ) (ur : Tree)
    (π : Route) (h : Nodes)
    → At h t (below e red p s (below d c g (node red ul v ur) π))
    → At (recolor p g v h) (join d red g (join e black p t s) (node black ul v ur)) π
unfolding recolor
recolor-At d e c t p s g ul v ur π h m =
    let u = node red ul v ur in
    let P = join e black p t s in
    let h₁ = set_color g red h in
    let h₂ = set_color p black h₁ in
    let m₁ = At-up h (join e red p t s) d c g u π (At-up h t e red p s (below d c g u π) m) in
    let m₂ =
      At-down h₁ (join e red p t s) d red g u π
        (At-paint_join h d c red g (join e red p t s) u π m₁) in
    let m₃ = At-up h₂ P d red g u π (At-paint_join h₁ e red black p t s (below d red g u π) m₂) in
    let m₄ = At-down h₂ u (opposite d) red g P π (other_side h₂ d red g P u π m₃) in
    let m₅ = At-paint h₂ red black ul v ur (below (opposite d) red g P π) m₄ in
    other_side_back (set_color v black h₂) d red g P (node black ul v ur) π
      (At-up (set_color v black h₂) (node black ul v ur) (opposite d) red g P π m₅)
